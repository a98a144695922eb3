-- ===== src/Session/Responses.antt =====
-- The loops that forward a backend's response to the client: `forwardCompleteBackendResponse`,
-- `forwardPreparedResponse`, `forwardExtendedResponse` and `drainFlushResponse` of
-- pkg/pgfox/query.go. What the connection delivers is a list; a loop that reaches its end is
-- still waiting in `ReadMessage`.
pub mod Verbatim
pub mod Prepared
pub mod Extended
use pgfox.Prelude.{
  ℕ, suc, ◌+◌, Bool, true, false, not, ◌&&◌, ◌||◌, none, some, List, [], ◌∷◌, if◌then◌else◌, ◌==◌,
}
use pgfox.Prelude.Bytes.{Bytes, codes}
use pgfox.Wire.Frame.{Message}
use pgfox.Session.State.{
  World, write_client, error_message, has_stmt, mark_stmt, set_active_backend,
}

-- What `backend.ReadMessage` gives: a message, or an error. The two loops that ask whether the
-- error is a `*net.OpError` that timed out never find one, for `ReadMessage` makes an error of its
-- own of every failure: a read past its deadline is an error as any other.
pub data Received : Type 0 where
  message : Message → Received
  lost : Received

-- With whether the write to the client that follows succeeds.
pub record Answer : Type 0 where
  pub received : Received
  pub delivered : Bool

-- `(status, nil)`, `(0, err)`, or no return yet.
pub data Forwarded : Type 0 where
  status : ℕ → Forwarded
  failed : Forwarded
  waiting : Forwarded

-- The byte of a ReadyForQuery, 'I' for none.
unfoldable pub status_of : Bytes → ℕ
status_of [] = b'I'
status_of (b ∷ rest) = if b == 0 then b'I' else b

-- `SendErrorResponse`: whether the write succeeds, and what it changes.
unfoldable pub send_error : Bool → Bytes → Bytes → World → World
send_error delivered code text w =
    if delivered then write_client (error_message (codes "ERROR") code text) w else w

-- `return 0, client.SendErrorResponse(…)`: the error is that of the write.
unfoldable pub give_up : Bool → Bytes → Bytes → World → Forwarded × World
unfolding send_error
give_up delivered code text w =
    (if delivered then status 0 else failed, send_error delivered code text w)

-- The deferred `client.SetActiveBackend(nil)`.
unfoldable pub deactivate : Forwarded × World → Forwarded × World
deactivate (waiting, w) = (waiting, w)
deactivate (f, w) = (f, set_active_backend none w)

abbrev pub activate : World → World
activate w = set_active_backend (some w.conn.id) w

unfoldable pub complete_loop : List Answer → World → Forwarded × World
complete_loop [] w = (waiting, w)
complete_loop (a ∷ rest) w = elim a.received [
  | lost ↦ (failed, w)
  | message m ↦
      let next = complete_loop rest (write_client m w) in
      if not a.delivered
      then (failed, w)
      else if m.msg_type == b'Z'
      then (status (status_of m.body), write_client m w)
      else next
]

unfoldable pub forward_complete_backend_response : List Answer → World → Forwarded × World
unfolding deactivate complete_loop
forward_complete_backend_response answers w = deactivate (complete_loop answers (activate w))

-- ParseComplete: the statement is deployed, unless the connection knew it.
unfoldable pub note_deployed : Bytes → World → World
note_deployed hash w =
    if has_stmt hash w.conn.deployed_stmts
    then w
    else record (mark_stmt hash w) { deploy_count = w.deploy_count + 1 }

unfoldable pub prepared_loop : Bytes → List Answer → World → Forwarded × World
unfolding give_up note_deployed
prepared_loop hash [] w = (waiting, w)
prepared_loop hash (a ∷ rest) w = elim a.received [
  | lost ↦ give_up a.delivered (codes "08006") (codes "connection failure") w
  | message m ↦
      let deployed = prepared_loop hash rest (note_deployed hash w) in
      let swallowed = prepared_loop hash rest w in
      let forwarded = prepared_loop hash rest (write_client m w) in
      if m.msg_type == b'1'
      then deployed
      else if m.msg_type == b'2' || m.msg_type == b'n'
      then swallowed
      else if not a.delivered
      then (failed, w)
      else if m.msg_type == b'Z'
      then (status (status_of m.body), write_client m w)
      else forwarded
]

unfoldable pub forward_prepared_response : Bytes → List Answer → World → Forwarded × World
unfolding deactivate prepared_loop
forward_prepared_response hash answers w = deactivate (prepared_loop hash answers (activate w))

-- `sentParseHashes` from `parseIdx` on, and the statement of this ParseComplete marked.
unfoldable pub next_hashes : ℕ → List Bytes → List Bytes
next_hashes msg_type [] = []
next_hashes msg_type (h ∷ hs) = if msg_type == b'1' then hs else h ∷ hs

unfoldable pub mark_parsed : ℕ → List Bytes → World → World
mark_parsed msg_type [] w = w
mark_parsed msg_type (h ∷ hs) w = if msg_type == b'1' then mark_stmt h w else w

unfoldable pub extended_loop : List Bytes → List Answer → World → Forwarded × World
unfolding give_up next_hashes mark_parsed
extended_loop hashes [] w = (waiting, w)
extended_loop hashes (a ∷ rest) w = elim a.received [
  | lost ↦ give_up a.delivered (codes "08006") (codes "connection failure") w
  | message m ↦
      let marked = mark_parsed m.msg_type hashes w in
      let next = extended_loop (next_hashes m.msg_type hashes) rest (write_client m marked) in
      if not a.delivered
      then (failed, marked)
      else if m.msg_type == b'Z'
      then (status (status_of m.body), write_client m marked)
      else next
]

unfoldable pub forward_extended_response : List Bytes → List Answer → World → Forwarded × World
unfolding deactivate extended_loop
forward_extended_response hashes answers w = deactivate (extended_loop hashes answers (activate w))

-- `forwardUntilReady`
unfoldable pub forward_until_ready : List Answer → World → Forwarded × World
forward_until_ready answers w = forward_extended_response [] answers w

-- `msgType == 'T' || msgType == 'n' || msgType == 'E'`
abbrev pub ends_flush : ℕ → Bool
ends_flush t = t == b'T' || t == b'n' || t == b'E'

-- `status 0` stands for `nil` here.
unfoldable pub flush_loop : List Bytes → List Answer → World → Forwarded × World
unfolding give_up next_hashes mark_parsed
flush_loop hashes [] w = (waiting, w)
flush_loop hashes (a ∷ rest) w = elim a.received [
  | lost ↦ give_up a.delivered (codes "08006") (codes "connection failure") w
  | message m ↦
      let marked = mark_parsed m.msg_type hashes w in
      let next = flush_loop (next_hashes m.msg_type hashes) rest (write_client m marked) in
      if not a.delivered
      then (failed, marked)
      else if ends_flush m.msg_type
      then (status 0, write_client m marked)
      else next
]

unfoldable pub drain_flush_response : List Bytes → List Answer → World → Forwarded × World
unfolding deactivate flush_loop
drain_flush_response hashes answers w = deactivate (flush_loop hashes answers (activate w))
