-- ===== src/Session/Pipeline.antt =====
-- `executeExtendedPipeline` of pkg/pgfox/query.go: the inspection of a buffered pipeline and the
-- forwarding of what it was rewritten to. How the parser library classifies a query is an argument.
pub mod Names
pub mod Forwarding
pub mod Finish
use pgfox.Prelude.{
  ℕ, zero, suc, ◌+◌, ◌-◌, Bool, true, false, not, ◌&&◌, ◌||◌, Option, none, some, List, [], ◌∷◌,
  ◌++◌, if◌then◌else◌, ◌==◌, length,
}
use pgfox.Prelude.Bytes.{Bytes, equal}
use pgfox.Wire.Frame.{Message}
use pgfox.Wire.Parse.{parse_body_statement_name, parse_body_query, rewrite_parse_body_name}
use pgfox.Wire.Bind.{bind_body_statement_name, rewrite_bind_body_name}
use pgfox.Wire.Describe.{
  describe_body_target, close_body_target, rewrite_describe_body_name, rewrite_close_body_name,
}
use pgfox.Session.State.{ClientState, World, write_client, has_stmt}
use pgfox.Session.Statements.{
  CachedStmt, get_stmt, get_or_register, record_execution, lookup_internal_name, map_stmt_name,
  delete_name, unmap_stmt_name, add_named_statement, remove_named_statement,
}
use pgfox.Session.Query.{
  Command, other_command, listen_command, unlisten_command, notify_command, Parameterized,
  stmt_name,
}

-- The variables of the inspection.
pub record Inspection : Type 0 where
  pub client : ClientState
  pub cache : List CachedStmt
  pub requires_pin : Bool
  pub remapped_parses : List (ℕ × Bytes)
  pub bind_required_hashes : List Bytes
  pub special : Option (Command × Bytes)

-- A command other than `SimpleQueryOther`, unless it is a NOTIFY in a transaction.
unfoldable pub is_special : Command → Bool → Bool
is_special other_command in_transaction = false
is_special notify_command in_transaction = not in_transaction
is_special command in_transaction = true

abbrev pub renamed : Message → Bytes → Message
renamed m body = record m { body = body }

module _ (classify : Bytes → Command × Option Parameterized) (has_pool : Bool) where
  -- A named statement that the shared cache can manage.
  unfoldable pub remap_parse :
      ℕ → Message → Bytes → Bytes → Parameterized → Inspection → Inspection × Message
  remap_parse i m client_name query_sql p s =
      let (registered, is_new) =
        get_or_register p.hash p.canonical_sql query_sql (length p.values) s.cache in
      (
        record s {
          cache = if has_pool then record_execution p.hash registered else s.cache;
          client = map_stmt_name client_name p.hash s.client;
          remapped_parses = (i, p.hash) ∷ s.remapped_parses;
        },
        renamed m (rewrite_parse_body_name m.body (stmt_name p.hash)),
      )

  unfoldable pub inspect_parse : ℕ → Message → Inspection → Inspection × Message
  inspect_parse i m s =
      let client_name = parse_body_statement_name m.body in
      let query_sql = parse_body_query m.body in
      let (command, result) = classify query_sql in
      if is_special command s.client.in_transaction
      then (record s { special = some (command, query_sql) }, m)
      else if equal client_name []
      then (record s { requires_pin = true }, m)
      else (elim result [
        | some p ↦ remap_parse i m client_name query_sql p s
        | none ↦ (record s { requires_pin = true; client = add_named_statement s.client }, m)
      ])

  unfoldable pub inspect_bind : Message → Inspection → Inspection × Message
  inspect_bind m s =
      let name = bind_body_statement_name m.body in
      if equal name [] then (s, m) else (elim (lookup_internal_name name s.client.stmt_name_map) [
        | none ↦ (s, m)
        | some hash ↦ (
          record s { bind_required_hashes = hash ∷ s.bind_required_hashes },
          renamed m (rewrite_bind_body_name m.body (stmt_name hash)),
        )
      ])

  unfoldable pub inspect_describe : Message → Inspection → Inspection × Message
  inspect_describe m s =
      let (desc_type, name) = describe_body_target m.body in
      if desc_type == b'S' && not (equal name [])
      then (elim (lookup_internal_name name s.client.stmt_name_map) [
        | none ↦ (s, m)
        | some hash ↦ (s, renamed m (rewrite_describe_body_name m.body (stmt_name hash)))
      ])
      else (s, m)

  unfoldable pub inspect_close : Message → Inspection → Inspection × Message
  inspect_close m s =
      let (close_type, name) = close_body_target m.body in
      if close_type == b'S' && not (equal name [])
      then (elim (lookup_internal_name name s.client.stmt_name_map) [
        | some hash ↦ (
          record s { client = unmap_stmt_name name s.client },
          renamed m (rewrite_close_body_name m.body []),
        )
        | none ↦ (record s { client = remove_named_statement s.client }, m)
      ])
      else (s, m)

  -- The `switch m.msgType` of the first phase.
  unfoldable pub inspect : ℕ → Message → Inspection → Inspection × Message
  unfolding inspect_parse inspect_bind inspect_describe inspect_close
  inspect i m s =
      if m.msg_type == b'P'
      then inspect_parse i m s
      else if m.msg_type == b'B'
      then inspect_bind m s
      else if m.msg_type == b'D'
      then inspect_describe m s
      else if m.msg_type == b'C'
      then inspect_close m s
      else (s, m)

  -- The loop over the pipeline: what it learns, and the rewritten pipeline.
  unfoldable pub inspect_all : ℕ → List Message → Inspection → Inspection × List Message
  inspect_all i [] s = (s, [])
  inspect_all i (m ∷ ms) s =
      let (s', m') = inspect i m s in
      let (end, rest) = inspect_all (suc i) ms s' in (end, m' ∷ rest)

unfoldable pub lookup_remapped : ℕ → List (ℕ × Bytes) → Option Bytes
lookup_remapped i [] = none
lookup_remapped i ((j, hash) ∷ rest) = if j == i then some hash else lookup_remapped i rest

-- What phase 4 does with one message.
pub data Fate : Type 0 where
  skip : Fate
  send : Option Bytes → Fate

unfoldable pub fate : List (ℕ × Bytes) → List Bytes → ℕ → Message → Fate
fate remapped deployed i m =
    if m.msg_type == b'P'
    then (elim (lookup_remapped i remapped) [
      | none ↦ send none
      | some hash ↦ if has_stmt hash deployed then skip else send (some hash)
    ])
    else send none

-- Whether every write succeeded, the world, what was sent, and `sentParseHashes`.
pub record Progress : Type 0 where
  pub done : Bool
  pub world : World
  pub sent : List Message
  pub hashes : List Bytes

abbrev pub parse_complete : Message
parse_complete = record { msg_type = b'1'; body = [] }

-- `append(sentParseHashes, hash)`
abbrev pub with_hash : Option Bytes → List Bytes → List Bytes
with_hash none hashes = hashes
with_hash (some h) hashes = h ∷ hashes

-- Phase 4. `writable` is how many writes the backend takes; the client takes every message.
unfoldable pub forward_pipeline : List (ℕ × Bytes) → ℕ → ℕ → List Message → World → Progress
forward_pipeline remapped writable i [] w = record {
  done = true;
  world = w;
  sent = [];
  hashes = [];
}
forward_pipeline remapped writable i (m ∷ ms) w = elim (fate remapped w.conn.deployed_stmts i m) [
  | skip ↦ forward_pipeline remapped writable (suc i) ms (write_client parse_complete w)
  | send hash ↦ elim writable [
    | zero ↦ record { done = false; world = w; sent = []; hashes = with_hash hash [] }
    | suc left ↦
        let rest = forward_pipeline remapped left (suc i) ms w in
        record rest { sent = m ∷ rest.sent; hashes = with_hash hash rest.hashes }
  ]
]
