-- ===== src/Wire/Parse.antt =====
-- Parse ('P') message bodies: `BuildParseBody`, `RewriteParseBodyName`, `ParseBodyStatementName`
-- and `ParseBodyQuery` of pkg/pgfox/extended.go. A Go string is its bytes.
use pgfox.Prelude.{
  ℕ, suc, ◌≡◌, sym, none, some, List, [], ◌∷◌, ◌++◌, ap, ◌∙◌, take, drop, length,
  take-length-append, append_assoc, Option-cases, ◌⊎◌, inl, inr,
}
use pgfox.Prelude.Bytes.{Bytes, NoNul}
use pgfox.Wire.CString.{find_nul, find_nul-append, drop-name}
use pgfox.Wire.Ints.{append_int16, put_uint32}

-- The loop over `paramOIDs`.
put_oids : List ℕ → Bytes
put_oids [] = []
put_oids (oid ∷ oids) = put_uint32 oid ++ put_oids oids

unfoldable pub build_parse_body : Bytes → Bytes → List ℕ → Bytes
unfolding put_oids
build_parse_body stmt_name query param_oids =
    let name_bytes = stmt_name ++ 0 ∷ [] in
    let query_bytes = query ++ 0 ∷ [] in
    append_int16 (name_bytes ++ query_bytes) (length param_oids) ++ put_oids param_oids

unfoldable pub parse_body_statement_name : Bytes → Bytes
parse_body_statement_name body = elim (find_nul body) [ none ↦ [] | some i ↦ take i body ]

-- The next null-terminated string, or all of `rest`.
query_of : Bytes → Bytes
query_of rest = elim (find_nul rest) [ none ↦ rest | some i ↦ take i rest ]

unfoldable pub parse_body_query : Bytes → Bytes
unfolding query_of
parse_body_query body = elim (find_nul body) [
  | none ↦ []
  | some name_end ↦ query_of (drop (suc name_end) body)
]

unfoldable pub rewrite_parse_body_name : Bytes → Bytes → Bytes
rewrite_parse_body_name body new_name = elim (find_nul body) [
  | none ↦ body
  | some name_end ↦ new_name ++ 0 ∷ drop (suc name_end) body
]

-- What the readers see of a body that begins with a null-terminated name.
pub statement_name-append :
    (name rest : Bytes) → NoNul name → parse_body_statement_name (name ++ 0 ∷ rest) ≡ name
unfolding parse_body_statement_name
statement_name-append name rest h =
    rw (find_nul-append name rest h, parse_body_statement_name) (take-length-append name (0 ∷ rest))

query-append :
    (name rest : Bytes) → NoNul name → parse_body_query (name ++ 0 ∷ rest) ≡ query_of rest
unfolding parse_body_query
query-append name rest h =
    rw (find_nul-append name rest h, parse_body_query) (ap query_of (drop-name name rest))

query_of-append : (q rest : Bytes) → NoNul q → query_of (q ++ 0 ∷ rest) ≡ q
unfolding query_of
query_of-append q rest h = rw (find_nul-append q rest h, query_of) (take-length-append q (0 ∷ rest))

pub rewrite-append :
    (name rest new : Bytes)
    → NoNul name
    → rewrite_parse_body_name (name ++ 0 ∷ rest) new ≡ new ++ 0 ∷ rest
unfolding rewrite_parse_body_name
rewrite-append name rest new h =
    rw (find_nul-append name rest h, rewrite_parse_body_name)
      (ap (λ r. new ++ 0 ∷ r) (drop-name name rest))

build-eq :
    (name query : Bytes) (oids : List ℕ)
    → build_parse_body name query oids
      ≡ name ++ 0 ∷ (query ++ 0 ∷ (append_int16 [] (length oids) ++ put_oids oids))
unfolding build_parse_body append_int16
build-eq name query oids = simp append_assoc

-- Both readers recover the name and the query that `BuildParseBody` wrote, whenever neither holds
-- a NUL byte.
pub read-build_parse_body :
    (name query : Bytes) (oids : List ℕ)
    → NoNul name
    → NoNul query
    → (parse_body_statement_name (build_parse_body name query oids) ≡ name)
      × (parse_body_query (build_parse_body name query oids) ≡ query)
read-build_parse_body name query oids hn hq = (
  rw build-eq (statement_name-append name _ hn),
  rw build-eq (query-append name _ hn ∙ query_of-append query _ hq),
)

rewrite-nul_free :
    (body new : Bytes) → find_nul body ≡ none → rewrite_parse_body_name body new ≡ body
unfolding rewrite_parse_body_name
rewrite-nul_free body new e = rw (e, rewrite_parse_body_name)

module _ (body : Bytes) (i : ℕ) (found : find_nul body ≡ some i) where
  query-found : parse_body_query body ≡ query_of (drop (suc i) body)
  unfolding parse_body_query
  query-found = rw (found, parse_body_query)

  rewrite-found : (new : Bytes) → rewrite_parse_body_name body new ≡ new ++ 0 ∷ drop (suc i) body
  unfolding rewrite_parse_body_name
  rewrite-found new = rw (found, rewrite_parse_body_name)

-- Renaming a Parse body. A body with no NUL is passed through unchanged. In one that has a NUL, for a new name
-- without a NUL, the readers see the new name and the old query, and a further renaming gives what
-- it would give on the original body.
pub rewrite_parse_body_name_lem :
    (body new : Bytes)
    → NoNul new
    → ((find_nul body ≡ none) × (rewrite_parse_body_name body new ≡ body))
      ⊎ ((i : ℕ) × (find_nul body ≡ some i)
          × (parse_body_statement_name (rewrite_parse_body_name body new) ≡ new)
          × (parse_body_query (rewrite_parse_body_name body new) ≡ parse_body_query body)
          × ((other : Bytes)
              → rewrite_parse_body_name (rewrite_parse_body_name body new) other
                ≡ rewrite_parse_body_name body other))
rewrite_parse_body_name_lem body new h = elim (Option-cases (find_nul body)) [
  | inl e ↦ inl (e, rewrite-nul_free body new e)
  | inr (i, e) ↦ inr (
    i,
    e,
    rw (rewrite-found body i e new) (statement_name-append new _ h),
    rw (rewrite-found body i e new) (query-append new _ h ∙ sym (query-found body i e)),
    λ other.
        rw (rewrite-found body i e new)
          (rewrite-append new _ other h ∙ sym (rewrite-found body i e other)),
  )
]
