-- ===== src/Session/Query.antt =====
-- A simple query: `executeQuery` and `executeAsPrepared` of pkg/pgfox/query.go from the choice of
-- the path on. The world is the one behind `borrowConn`, with the connection that it gave in hand,
-- or the pinned one. How many writes the backend still takes, whether the client takes an error
-- message, and what the backend answers are arguments. The registration in the statement cache,
-- before the connection is borrowed, is `get_or_register` of Session/Statements.
pub mod Resources
pub mod Broken
use pgfox.Prelude.{
  ℕ, zero, suc, Bool, true, false, not, ◌&&◌, Option, none, some, List, [], ◌∷◌, ◌++◌,
  if◌then◌else◌,
}
use pgfox.Prelude.Bytes.{Bytes, codes}
use pgfox.Wire.Frame.{Message}
use pgfox.Wire.Parse.{build_parse_body}
use pgfox.Wire.Bind.{build_bind_body, build_execute_body}
use pgfox.Wire.Describe.{build_describe_portal}
use pgfox.Listen.Registry.{Registry, Opening}
use pgfox.Session.State.{World, release, has_stmt, has_backend}
use pgfox.Session.Reconcile.{reconcile_conn}
use pgfox.Session.Responses.{
  Answer, Forwarded, status, failed, waiting, send_error, forward_complete_backend_response,
  forward_prepared_response,
}

-- `SimpleQueryCommand`
pub data Command : Type 0 where
  other_command : Command
  listen_command : Command
  unlisten_command : Command
  notify_command : Command

-- `ParameterizeResult`
pub record Parameterized : Type 0 where
  pub hash : Bytes
  pub canonical_sql : Bytes
  pub values : List Bytes

pub data Route : Type 0 where
  to_listen : Route
  to_unlisten : Route
  to_notify : Route
  to_prepared : Parameterized → Route
  to_simple : Bool → Route

-- The path without a special command; a pinned client keeps its connection.
unfoldable pub route_query : World → Option Parameterized → Route
route_query w result =
    if has_backend w
    then to_simple true
    else (elim result [ none ↦ to_simple false | some p ↦ to_prepared p ])

-- The path that `executeQuery` takes for the classification of its query.
unfoldable pub route : World → Command → Option Parameterized → Route
unfolding route_query
route w listen_command result = to_listen
route w unlisten_command result = to_unlisten
route w notify_command result =
    if not w.client.in_transaction then to_notify else route_query w result
route w other_command result = route_query w result

-- The handler returns nil or an error, or is waiting for the backend.
pub data Outcome : Type 0 where
  no_error : Outcome
  returned_error : Outcome
  still_waiting : Outcome

-- With what was sent to the backend.
pub record Served : Type 0 where
  pub result : Outcome
  pub world : World
  pub sent : List Message

-- The loop over writes: whether all succeed, and what was written.
unfoldable pub send_all : ℕ → List Message → Bool × List Message
send_all writable [] = (true, [])
send_all zero (m ∷ ms) = (false, [])
send_all (suc writable) (m ∷ ms) = let (done, sent) = send_all writable ms in (done, m ∷ sent)

-- `backend.Release(); return client.SendErrorResponse("ERROR", "08006", …)`
unfoldable pub connection_failure : Bool → World → Outcome × World
connection_failure delivered w = (
  if delivered then no_error else returned_error,
  send_error delivered (codes "08006") (codes "connection failure") (release w),
)

abbrev served : List Message → Outcome × World → Served
served sent (result, w) = record { result = result; world = w; sent = sent }

unfoldable pub query_message : Bytes → Message
query_message query = record { msg_type = b'Q'; body = query ++ 0 ∷ [] }

-- "pfx_" + hash
unfoldable pub stmt_name : Bytes → Bytes
stmt_name hash = codes "pfx_" ++ hash

-- The Parse is left out where the connection has the statement.
unfoldable pub prepared_messages : Parameterized → Bool → List Message
unfolding stmt_name
prepared_messages p deployed =
    let name = stmt_name p.hash in
    let rest : List Message =
      record { msg_type = b'B'; body = build_bind_body [] name [] p.values [] }
      ∷ record { msg_type = b'D'; body = build_describe_portal [] }
      ∷ record { msg_type = b'E'; body = build_execute_body [] 0 }
      ∷ record { msg_type = b'S'; body = [] }
      ∷ [] in
    if deployed
    then rest
    else record { msg_type = b'P'; body = build_parse_body name p.canonical_sql [] } ∷ rest

module _ (others : Registry → Registry) (opens : ℕ → Opening) where
  -- What follows the forwarding loop.
  unfoldable pub conclude : Bool → Forwarded × World → Outcome × World
  conclude pinned (failed, w) = (returned_error, release w)
  conclude pinned (status s, w) = (no_error, reconcile_conn others opens s pinned w)
  conclude pinned (waiting, w) = (still_waiting, w)

  unfoldable pub execute_simple : Bytes → ℕ → Bool → List Answer → Bool → World → Served
  execute_simple query writable delivered answers pinned w =
      let (done, sent) = send_all writable (query_message query ∷ []) in
      let got = conclude pinned (forward_complete_backend_response answers w) in
      if done then served sent got else served sent (connection_failure delivered w)

  unfoldable pub execute_as_prepared : Parameterized → ℕ → Bool → List Answer → World → Served
  execute_as_prepared p writable delivered answers w =
      let deployed = has_stmt p.hash w.conn.deployed_stmts in
      let (done, sent) = send_all writable (prepared_messages p deployed) in
      let got = conclude false (forward_prepared_response p.hash answers w) in
      if done then served sent got else served sent (connection_failure delivered w)
