-- ===== src/Tests/Session.antt =====
-- A client's session on concrete messages.
use pgfox.Prelude.{
  ℕ, true, false, ◌||◌, Option, none, some, List, [], ◌∷◌, ◌++◌, if◌then◌else◌, ◌≡◌, refl, arith,
  inl, inr, map, take,
}
use pgfox.Prelude.Counting.{count}
use pgfox.Prelude.Bytes.{Bytes, codes}
use pgfox.Wire.Frame.{Message}
use pgfox.Listen.Registry.{Registry, Opening, acknowledged}
use pgfox.Listen.Client.{ListenClient}
use pgfox.Session.State.{ClientState, Connection, World, has_stmt}
use pgfox.Session.Reconcile.{reconcile_conn}
use pgfox.Session.Reconcile.Places.{InHand, Settled, places, stays_pinned, reconcile_conn-Settled}
use pgfox.Session.Responses.{
  Answer, status, waiting, forward_complete_backend_response, forward_prepared_response,
  forward_extended_response, drain_flush_response,
}
use pgfox.Session.Responses.Verbatim.{
  answer, delivered, forward_complete_backend_response-delivered,
}
use pgfox.Session.Responses.Prepared.{
  visible, has_parse_complete, forward_prepared_response-delivered,
}
use pgfox.Session.Responses.Extended.{
  parse_completes, has_end, forward_extended_response-delivered, drain_flush_response-waits,
}
use pgfox.Session.Query.{
  Command, other_command, Parameterized, no_error, execute_simple, execute_as_prepared, stmt_name,
}
use pgfox.Session.Query.Resources.{Disposed, execute_simple-Disposed}
use pgfox.Session.Query.Broken.{broken, execute_as_prepared-requeues_broken}
use pgfox.Session.Dispatch.{
  message, to_pipeline, arriving, handle_client_message, handle_client_message-arriving,
}
use pgfox.Session.Statements.{CachedStmt, new_stmt}
use pgfox.Session.Pipeline.{Inspection, inspect_all, forward_pipeline}
use pgfox.Session.Pipeline.Names.{parse_of, bind_of, inspect-parse_bind}
use pgfox.Session.Pipeline.Forwarding.{divide, forward_pipeline-divide}
use pgfox.Session.Pipeline.Finish.{finish_pipeline, finish_pipeline-shares_broken}

abbrev others : Registry → Registry
others r = r

abbrev opens : ℕ → Opening
opens n = acknowledged

abbrev registry : Registry
registry = record {
  listeners = [];
  next_id = 0;
  listen_open = 0;
  total_open = 2;
  max_connections = 5;
}

abbrev listener : ListenClient
listener = record {
  id = 5;
  database = codes "shop";
  listen_channels = [];
  is_listening = false;
  pending_listens = [];
  last_tx_status = b'I';
  last_command_tag = [];
}

abbrev free_client : ClientState
free_client = record {
  id = 5;
  backend = none;
  active_backend = none;
  in_transaction = false;
  named_stmts = 0;
  stmt_name_map = [];
  out = [];
}

abbrev connection : Connection
connection = record { id = 1; in_use = true; client = none; deployed_stmts = codes "aa" ∷ [] }

-- The client holds connection 1, which it borrowed, and connection 2 is idle.
abbrev free : World
free = record {
  listen = (registry, listener);
  client = free_client;
  conn = connection;
  queue = 2 ∷ [];
  queue_capacity = 5;
  close_ch = [];
  deploy_count = 0;
}

-- The client is pinned to connection 1 for a named statement.
abbrev pinned : World
pinned = record free {
  client = record free_client { backend = some 1; named_stmts = 1 };
  conn = record connection { client = some 5 };
}

free-InHand : InHand false free
unfolding count
free-InHand = record { not_queued = refl; not_closing = refl; pointer = inl refl }

pinned-InHand : InHand true pinned
unfolding count
pinned-InHand = record { not_queued = refl; not_closing = refl; pointer = inr (refl, refl, refl) }

reconcile_conn-Settled_example :
    Settled free (reconcile_conn others opens b'T' false free) (stays_pinned b'T' free)
reconcile_conn-Settled_example =
    reconcile_conn-Settled others opens false free free-InHand b'T' (inr (inl refl))

abbrev ready : Message
ready = record { msg_type = b'Z'; body = b'I' ∷ [] }

abbrev parsed : Message
parsed = record { msg_type = b'1'; body = [] }

abbrev row : Message
row = record { msg_type = b'D'; body = 0 ∷ 1 ∷ [] }

abbrev complete : Message
complete = record { msg_type = b'C'; body = codes "SELECT 1" ++ 0 ∷ [] }

forward_complete_backend_response-delivered_example :
    let (f, after) =
      forward_complete_backend_response
        (delivered (row ∷ complete ∷ []) (answer ready ∷ []))
        free in
    (f ≡ status b'I')
    × (after.client.out ≡ [] ++ (row ∷ complete ∷ ready ∷ []))
    × (after.listen.1.last_tx_status ≡ b'I')
    × (after.conn ≡ connection)
    × (after.client.active_backend ≡ none)
forward_complete_backend_response-delivered_example =
    forward_complete_backend_response-delivered (row ∷ complete ∷ []) ready b'I' [] free
      (ground arith) refl refl (ground arith)

forward_prepared_response-delivered_example :
    let (f, after) =
      forward_prepared_response
        (codes "bb")
        (delivered (parsed ∷ row ∷ complete ∷ []) (answer ready ∷ []))
        free in
    (f ≡ status b'I')
    × (after.client.out ≡ [] ++ (visible (parsed ∷ row ∷ complete ∷ []) ++ ready ∷ []))
    × (has_stmt (codes "bb") after.conn.deployed_stmts ≡ (
        has_parse_complete (parsed ∷ row ∷ complete ∷ [])
        || has_stmt (codes "bb") connection.deployed_stmts))
forward_prepared_response-delivered_example =
    forward_prepared_response-delivered (codes "bb") (parsed ∷ row ∷ complete ∷ []) ready b'I' []
      free (ground arith) refl refl (ground arith)

forward_extended_response-delivered_example :
    let (f, after) =
      forward_extended_response
        (codes "bb" ∷ [])
        (delivered (parsed ∷ row ∷ []) (answer ready ∷ []))
        free in
    (f ≡ status b'I')
    × (after.client.out ≡ [] ++ (parsed ∷ row ∷ ready ∷ []))
    × ((hash : Bytes)
        → has_stmt hash after.conn.deployed_stmts ≡ (
            has_stmt hash (take (parse_completes (parsed ∷ row ∷ [])) (codes "bb" ∷ []))
            || has_stmt hash connection.deployed_stmts))
forward_extended_response-delivered_example =
    forward_extended_response-delivered (codes "bb" ∷ []) (parsed ∷ row ∷ []) ready b'I' [] free
      (ground arith) refl refl (ground arith)

drain_flush_response-waits_example :
    (drain_flush_response (codes "bb" ∷ []) (delivered (parsed ∷ []) []) free).0
    ≡ (if has_end (parsed ∷ []) then status 0 else waiting)
drain_flush_response-waits_example = drain_flush_response-waits (codes "bb" ∷ []) (parsed ∷ []) free

abbrev answers : List Answer
answers = answer row ∷ broken ∷ []

execute_simple-Disposed_example :
    let s = execute_simple others opens (codes "SELECT 1") 1 true answers false free in
    Disposed free (s.result, s.world)
execute_simple-Disposed_example =
    execute_simple-Disposed others opens false free free-InHand (codes "SELECT 1") 1 true answers
      (ground arith)

abbrev parameterized : Parameterized
parameterized = record {
  hash = codes "aa";
  canonical_sql = codes "SELECT $1";
  values = codes "1" ∷ [];
}

execute_as_prepared-requeues_broken_example :
    let s =
      execute_as_prepared others opens parameterized 5 true
        (delivered (row ∷ []) (broken ∷ []))
        free in
    (s.result ≡ no_error) × (s.world.queue ≡ 2 ∷ 1 ∷ [])
execute_as_prepared-requeues_broken_example =
    execute_as_prepared-requeues_broken others opens parameterized 0 true (row ∷ []) [] free
      (ground arith) (ground arith)

abbrev classify : Bytes → Command × Option Parameterized
classify sql = (other_command, some parameterized)

abbrev inspection : Inspection
inspection = record {
  client = free_client;
  cache = [];
  requires_pin = false;
  remapped_parses = [];
  bind_required_hashes = [];
  special = none;
}

abbrev pipeline : List Message
pipeline =
    parse_of (codes "s1") (codes "SELECT 1" ++ 0 ∷ 0 ∷ 0 ∷ [])
    ∷ bind_of [] (codes "s1") (0 ∷ 0 ∷ 0 ∷ 0 ∷ 0 ∷ 0 ∷ [])
    ∷ []

inspect-parse_bind_example :
    let (end, out) = inspect_all classify true 0 pipeline inspection in
    (map (λ m. m.body) out
      ≡ (stmt_name (codes "aa") ++ 0 ∷ (codes "SELECT 1" ++ 0 ∷ 0 ∷ 0 ∷ []))
        ∷ (0 ∷ (stmt_name (codes "aa") ++ 0 ∷ 0 ∷ 0 ∷ 0 ∷ 0 ∷ 0 ∷ 0 ∷ []))
        ∷ [])
    × (end.bind_required_hashes ≡ codes "aa" ∷ [])
    × (end.remapped_parses ≡ (0, codes "aa") ∷ [])
inspect-parse_bind_example =
    inspect-parse_bind classify true 0 (codes "s1") (codes "SELECT 1" ++ 0 ∷ 0 ∷ 0 ∷ []) []
      (0 ∷ 0 ∷ 0 ∷ 0 ∷ 0 ∷ 0 ∷ []) parameterized inspection (ground arith) (ground arith) tt refl

abbrev remapped : List (ℕ × Bytes)
remapped = (0, codes "aa") ∷ []

forward_pipeline-divide_example :
    let p = forward_pipeline remapped 2 0 pipeline free in
    let d = divide remapped connection.deployed_stmts 0 pipeline in
    (p.done ≡ true)
    × (p.sent ≡ d.sent)
    × (p.hashes ≡ d.hashes)
    × (p.world.client.out ≡ [] ++ d.completes)
    × (p.world.conn ≡ connection)
forward_pipeline-divide_example = forward_pipeline-divide remapped 2 0 pipeline free (ground arith)

finish_pipeline-shares_broken_example :
    let (result, after) = finish_pipeline others opens b'S' [] (broken ∷ []) true pinned in
    (result ≡ no_error) × (places after ≡ 2) × (after.client.backend ≡ some 1)
finish_pipeline-shares_broken_example =
    finish_pipeline-shares_broken others opens [] [] true pinned pinned-InHand refl refl

abbrev cache : List CachedStmt
cache = new_stmt (codes "aa") (codes "SELECT $1") (codes "SELECT 1") 1 ∷ []

abbrev sync : Message
sync = record { msg_type = b'S'; body = [] }

handle_client_message-arriving_example :
    handle_client_message (arriving (parsed ∷ row ∷ []) (message sync ∷ message row ∷ []))
    ≡ (to_pipeline (parsed ∷ row ∷ sync ∷ []), message row ∷ [])
handle_client_message-arriving_example =
    handle_client_message-arriving parsed (row ∷ []) sync (message row ∷ []) (ground arith)
      (ground arith) refl
