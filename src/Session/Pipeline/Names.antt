-- ===== src/Session/Pipeline/Names.antt =====
-- The names that the statements of a client get in a pipeline (the first phase of
-- `executeExtendedPipeline`, pkg/pgfox/query.go).
use pgfox.Prelude.{
  ℕ, suc, Bool, false, Option, some, List, [], ◌∷◌, ◌++◌, ◌≡◌, ◌≢◌, refl, ap, ◌∙◌, arith, map,
}
use pgfox.Prelude.Bytes.{Bytes, NoNul, equal, equal_refl}
use pgfox.Wire.Frame.{Message}
use pgfox.Wire.Parse.{parse_body_query, statement_name-append, rewrite-append}
use pgfox.Wire.Bind.{bind_name-append, bind_rewrite-append}
use pgfox.Session.Query.{Command, other_command, Parameterized, stmt_name}
use pgfox.Session.Statements.{lookup_internal_name, map_stmt_name}
use pgfox.Session.Pipeline.{
  Inspection, is_special, remap_parse, inspect_parse, inspect_bind, inspect_describe, inspect_close,
  inspect, inspect_all,
}

-- A Parse of the statement `name`.
abbrev pub parse_of : Bytes → Bytes → Message
parse_of name rest = record { msg_type = b'P'; body = name ++ 0 ∷ rest }

abbrev pub bind_of : Bytes → Bytes → Bytes → Message
bind_of portal name rest = record { msg_type = b'B'; body = portal ++ 0 ∷ (name ++ 0 ∷ rest) }

module _ (classify : Bytes → Command × Option Parameterized) (has_pool : Bool) where
  inspect-msg_type :
      (i : ℕ) (m : Message) (s : Inspection)
      → (inspect classify has_pool i m s).1.msg_type ≡ m.msg_type
  unfolding inspect inspect_parse inspect_bind inspect_describe inspect_close remap_parse
  inspect-msg_type i m s = ground arith

  -- The rewritten pipeline has the messages of the client's in number, in order and in type: the
  -- inspection changes bodies only.
  pub inspect_all-msg_types :
      (i : ℕ) (ms : List Message) (s : Inspection)
      → map (λ m. m.msg_type) (inspect_all classify has_pool i ms s).1 ≡ map (λ m. m.msg_type) ms
  unfolding inspect_all
  inspect_all-msg_types i [] s = refl
  inspect_all-msg_types i (m ∷ ms) s = λ k.
      inspect-msg_type i m s k
      ∷ inspect_all-msg_types (suc i) ms (inspect classify has_pool i m s).0 k

  lookup-map :
      (name hash : Bytes) (s : Inspection)
      → lookup_internal_name name (map_stmt_name name hash s.client).stmt_name_map ≡ some hash
  unfolding lookup_internal_name map_stmt_name
  lookup-map name hash s = ground (arith, equal_refl name)

  not-empty : (name : Bytes) → name ≢ [] → equal name [] ≡ false
  unfolding equal
  not-empty [] h = absurd (h refl)
  not-empty (b ∷ bs) h = refl

  inspect_parse-named :
      (i : ℕ) (name rest : Bytes) (p : Parameterized) (s : Inspection)
      → NoNul name
      → name ≢ []
      → classify (parse_body_query (name ++ 0 ∷ rest)) ≡ (other_command, some p)
      → let (s', m') = inspect classify has_pool i (parse_of name rest) s in
        (s'.client ≡ map_stmt_name name p.hash s.client)
        × (s'.remapped_parses ≡ (i, p.hash) ∷ s.remapped_parses)
        × (s'.bind_required_hashes ≡ s.bind_required_hashes)
        × (m'.body ≡ stmt_name p.hash ++ 0 ∷ rest)
  unfolding inspect inspect_parse remap_parse is_special
  inspect_parse-named i name rest p s h ne c =
      rw (c, statement_name-append name rest h)
        (rw (not-empty name ne) (refl, refl, refl, rewrite-append name rest (stmt_name p.hash) h))

  inspect_bind-mapped :
      (i : ℕ) (portal name rest hash : Bytes) (s : Inspection)
      → NoNul portal
      → NoNul name
      → name ≢ []
      → lookup_internal_name name s.client.stmt_name_map ≡ some hash
      → let (s', m') = inspect classify has_pool i (bind_of portal name rest) s in
        (m'.body ≡ portal ++ 0 ∷ (stmt_name hash ++ 0 ∷ rest))
        × (s'.bind_required_hashes ≡ hash ∷ s.bind_required_hashes)
        × (s'.remapped_parses ≡ s.remapped_parses)
  unfolding inspect inspect_bind
  inspect_bind-mapped i portal name rest hash s hp hn ne found =
      rw (bind_name-append portal name rest hp hn) (
        rw (not-empty name ne)
          (rw found (bind_rewrite-append portal name rest (stmt_name hash) hp hn, refl, refl)))

  -- A Parse of a named statement that the cache can serve, followed by a Bind of that name: after
  -- the first phase, which inspects and rewrites the messages, the bodies of both carry the one
  -- internal name of the query's hash in place of the client's, with the rest of each unchanged,
  -- and the hash is remembered both as parsed at its position and as needed by the Bind. The names
  -- hold no NUL and the statement's is not empty.
  pub inspect-parse_bind :
      (i : ℕ) (name query portal args : Bytes) (p : Parameterized) (s : Inspection)
      → NoNul name
      → name ≢ []
      → NoNul portal
      → classify (parse_body_query (name ++ 0 ∷ query)) ≡ (other_command, some p)
      → let (end, out) =
          inspect_all classify has_pool i (parse_of name query ∷ bind_of portal name args ∷ []) s in
        (map (λ m. m.body) out
          ≡ (stmt_name p.hash ++ 0 ∷ query) ∷ (portal ++ 0 ∷ (stmt_name p.hash ++ 0 ∷ args)) ∷ [])
        × (end.bind_required_hashes ≡ p.hash ∷ s.bind_required_hashes)
        × (end.remapped_parses ≡ (i, p.hash) ∷ s.remapped_parses)
  unfolding inspect_all
  inspect-parse_bind i name query portal args p s h ne hp c =
      let first = inspect_parse-named i name query p s h ne c in
      let s' = (inspect classify has_pool i (parse_of name query) s).0 in
      let known =
        ap (λ cl. lookup_internal_name name cl.stmt_name_map) first.0 ∙ lookup-map name p.hash s in
      let second = inspect_bind-mapped (suc i) portal name args p.hash s' hp h ne known in
      ((λ k. first.3 k ∷ second.0 k ∷ []), second.1 ∙ ap (◌∷◌ p.hash) first.2, second.2 ∙ first.1)
