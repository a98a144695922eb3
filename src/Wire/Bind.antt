-- ===== src/Wire/Bind.antt =====
-- Bind ('B') and Execute ('E') message bodies: `BuildBindBody`, `RewriteBindBodyName`,
-- `BindBodyStatementName` and `BuildExecuteBody` of pkg/pgfox/extended.go.
pub mod Decode
use pgfox.Prelude.{
  ℕ, zero, suc, ◌≡◌, ◌<◌, ◌^◌, refl, sym, Option, none, some, List, [], ◌∷◌, ◌++◌, arith, ap, ◌∙◌,
  take, drop, length, take-length-append, append_assoc, append-nil, Option-cases, ◌⊎◌, inl, inr,
  All,
}
use pgfox.Prelude.Bytes.{Bytes, NoNul}
use pgfox.Wire.CString.{find_nul, find_nul-append, drop-name, find_nul-Splits}
use pgfox.Wire.Ints.{
  append_int16, append_int32, put_uint32, read_uint32, read_uint16, read_uint32-put_uint32,
  read_uint16-append_int16,
}

-- The loops over the format codes and over the parameter values.
append_int16s : Bytes → List ℕ → Bytes
append_int16s buf [] = buf
append_int16s buf (fc ∷ fcs) = append_int16s (append_int16 buf fc) fcs

append_values : Bytes → List Bytes → Bytes
append_values buf [] = buf
append_values buf (v ∷ vs) = append_values (append_int32 buf (length v) ++ v) vs

unfoldable pub build_bind_body : Bytes → Bytes → List ℕ → List Bytes → List ℕ → Bytes
unfolding append_int16s append_values
build_bind_body portal stmt_name param_fmts param_vals result_fmts =
    let named = ((portal ++ 0 ∷ []) ++ stmt_name) ++ 0 ∷ [] in
    let with_fmts = append_int16s (append_int16 named (length param_fmts)) param_fmts in
    let with_vals = append_values (append_int16 with_fmts (length param_vals)) param_vals in
    append_int16s (append_int16 with_vals (length result_fmts)) result_fmts

-- The scan for the statement name, from `stmtStart` on.
stmt_name_of : Bytes → Bytes
stmt_name_of rest = elim (find_nul rest) [ none ↦ [] | some i ↦ take i rest ]

unfoldable pub bind_body_statement_name : Bytes → Bytes
unfolding stmt_name_of
bind_body_statement_name body = elim (find_nul body) [
  | none ↦ []
  | some portal_end ↦ stmt_name_of (drop (suc portal_end) body)
]

unfoldable pub rewrite_bind_body_name : Bytes → Bytes → Bytes
rewrite_bind_body_name body new_stmt_name = elim (find_nul body) [
  | none ↦ body
  | some portal_end ↦
      let stmt_start = suc portal_end in
      elim (find_nul (drop stmt_start body)) [
        | none ↦ body
        | some len ↦
            take stmt_start body ++ (new_stmt_name ++ 0 ∷ drop (suc len) (drop stmt_start body))
      ]
]

unfoldable pub build_execute_body : Bytes → ℕ → Bytes
build_execute_body portal max_rows = append_int32 (portal ++ 0 ∷ []) max_rows

stmt_name_of-append : (name rest : Bytes) → NoNul name → stmt_name_of (name ++ 0 ∷ rest) ≡ name
unfolding stmt_name_of
stmt_name_of-append name rest h =
    rw (find_nul-append name rest h, stmt_name_of) (take-length-append name (0 ∷ rest))

take-portal :
    (portal rest : Bytes) → take (suc (length portal)) (portal ++ 0 ∷ rest) ≡ portal ++ 0 ∷ []
take-portal [] rest = refl
take-portal (b ∷ bs) rest = ap (◌∷◌ b) (take-portal bs rest)

-- The two readers of a body that begins with two null-terminated strings.
pub bind_name-append :
    (portal name rest : Bytes)
    → NoNul portal
    → NoNul name
    → bind_body_statement_name (portal ++ 0 ∷ (name ++ 0 ∷ rest)) ≡ name
unfolding bind_body_statement_name
bind_name-append portal name rest hp hn =
    rw (find_nul-append portal _ hp, bind_body_statement_name)
      (ap stmt_name_of (drop-name portal _) ∙ stmt_name_of-append name rest hn)

pub bind_rewrite-append :
    (portal name rest new : Bytes)
    → NoNul portal
    → NoNul name
    → rewrite_bind_body_name (portal ++ 0 ∷ (name ++ 0 ∷ rest)) new
      ≡ portal ++ 0 ∷ (new ++ 0 ∷ rest)
unfolding rewrite_bind_body_name
bind_rewrite-append portal name rest new hp hn =
    rw (find_nul-append portal _ hp, rewrite_bind_body_name)
      (rw (drop-name portal (name ++ 0 ∷ rest)) (
        rw (find_nul-append name rest hn) (
          rw (take-portal portal _, drop-name portal _, drop-name name rest)
            (append_assoc portal (0 ∷ []) _))))

-- A body with a null-terminated portal and statement name is those two, and what follows.
pub record Named (body : Bytes) : Type 0 where
  pub portal : Bytes
  pub name : Bytes
  pub tail : Bytes
  pub portal_NoNul : NoNul portal
  pub name_NoNul : NoNul name
  pub spells : body ≡ portal ++ 0 ∷ (name ++ 0 ∷ tail)

Named-found :
    (body : Bytes) (i j : ℕ)
    → find_nul body ≡ some i
    → find_nul (drop (suc i) body) ≡ some j
    → Named body
Named-found body i j e f =
    let s = find_nul-Splits body i e in
    let u = find_nul-Splits (drop (suc i) body) j f in
    record {
      portal = take i body;
      name = take j (drop (suc i) body);
      tail = drop (suc j) (drop (suc i) body);
      portal_NoNul = s.name_NoNul;
      name_NoNul = u.name_NoNul;
      spells = s.joined ∙ ap (λ r. take i body ++ 0 ∷ r) u.joined;
    }

-- One of the two terminators is missing.
pub data IsMalformed (body : Bytes) : Type 0 where
  no_portal : find_nul body ≡ none → IsMalformed body
  no_name :
      (i : ℕ) → find_nul body ≡ some i → find_nul (drop (suc i) body) ≡ none → IsMalformed body

rewrite-IsMalformed : (body new : Bytes) → IsMalformed body → rewrite_bind_body_name body new ≡ body
unfolding rewrite_bind_body_name
rewrite-IsMalformed body new (no_portal e) = rw (e, rewrite_bind_body_name)
rewrite-IsMalformed body new (no_name i e f) = rw (e, rewrite_bind_body_name) (rw f)

Bind-cases : (body : Bytes) → IsMalformed body ⊎ Named body
Bind-cases body = elim (Option-cases (find_nul body)) [
  | inl e ↦ inl (no_portal e)
  | inr (i, e) ↦ elim (Option-cases (find_nul (drop (suc i) body))) [
    | inl f ↦ inl (no_name i e f)
    | inr (j, f) ↦ inr (Named-found body i j e f)
  ]
]

rewrite-Named :
    {body : Bytes} (b : Named body) (new : Bytes)
    → rewrite_bind_body_name body new ≡ b.portal ++ 0 ∷ (new ++ 0 ∷ b.tail)
rewrite-Named b new =
    ap (λ c. rewrite_bind_body_name c new) b.spells
    ∙ bind_rewrite-append b.portal b.name b.tail new b.portal_NoNul b.name_NoNul

-- Renaming the statement of a Bind body leaves a body that lacks a terminator unchanged. In any
-- other body it replaces exactly the statement name: portal and tail stay, byte for byte, the
-- reader sees the new name (if it holds no NUL), and a further renaming gives what it would give
-- on the original body.
pub rewrite_bind_body_name_lem :
    (body new : Bytes)
    → NoNul new
    → (IsMalformed body × (rewrite_bind_body_name body new ≡ body))
      ⊎ ((b : Named body) × (bind_body_statement_name body ≡ b.name)
          × (rewrite_bind_body_name body new ≡ b.portal ++ 0 ∷ (new ++ 0 ∷ b.tail))
          × (bind_body_statement_name (rewrite_bind_body_name body new) ≡ new)
          × ((other : Bytes)
              → rewrite_bind_body_name (rewrite_bind_body_name body new) other
                ≡ rewrite_bind_body_name body other))
rewrite_bind_body_name_lem body new h = elim (Bind-cases body) [
  | inl m ↦ inl (m, rewrite-IsMalformed body new m)
  | inr b ↦ inr (
    b,
    ap bind_body_statement_name b.spells
        ∙ bind_name-append b.portal b.name b.tail b.portal_NoNul b.name_NoNul,
    rewrite-Named b new,
    rw (rewrite-Named b new) (bind_name-append b.portal new b.tail b.portal_NoNul h),
    λ other. rw (rewrite-Named b new) (
        bind_rewrite-append b.portal new b.tail other b.portal_NoNul h
        ∙ sym (rewrite-Named b other)),
  )
]
