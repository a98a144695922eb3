-- ===== src/Session/Query/Resources.antt =====
-- No path of a simple query loses its connection or leaves it in two places.
use pgfox.Prelude.{
  ℕ, zero, suc, Bool, true, false, not, Option, none, some, List, [], ◌∷◌, if◌then◌else◌, ◌==◌,
  Bool-cases, ◌≡◌, ◌⊎◌, inl, inr, refl, ◌∙◌, arith, All,
}
use pgfox.Prelude.Bytes.{Bytes, codes}
use pgfox.Wire.Frame.{Message}
use pgfox.Listen.Registry.{Registry, Opening}
use pgfox.Session.State.{World, write_client, set_active_backend, release}
use pgfox.Session.Reconcile.Places.{InHand, places, reconcile_conn-Settled, release-Settled}
use pgfox.Session.Responses.{
  Answer, Received, message, lost, Forwarded, status, failed, waiting, status_of, deactivate,
  activate, send_error, complete_loop, forward_complete_backend_response,
}
use pgfox.Session.Query.{
  Outcome, still_waiting, conclude, connection_failure, execute_simple, send_all,
}

-- The status byte of a ReadyForQuery is 'I', 'T' or 'E'; PostgreSQL sends no other.
abbrev pub Known : ℕ → Type 0
Known s = (s ≡ b'I') ⊎ ((s ≡ b'T') ⊎ (s ≡ b'E'))

abbrev pub ReadyKnown : Received → Type 0
ReadyKnown (message m) = m.msg_type ≡ b'Z' → Known (status_of m.body)
ReadyKnown r = Unit {0}

-- Forwarding leaves the connection where it is.
pub record Keeps (w w' : World) : Type 0 where
  pub conn_id : w'.conn.id ≡ w.conn.id
  pub conn_client : w'.conn.client ≡ w.conn.client
  pub queue : w'.queue ≡ w.queue
  pub close_ch : w'.close_ch ≡ w.close_ch
  pub client_id : w'.client.id ≡ w.client.id
  pub backend : w'.client.backend ≡ w.client.backend
  pub named : w'.client.named_stmts ≡ w.client.named_stmts

Keeps-refl : (w : World) → Keeps w w
Keeps-refl w = record {
  conn_id = refl;
  conn_client = refl;
  queue = refl;
  close_ch = refl;
  client_id = refl;
  backend = refl;
  named = refl;
}

Keeps-trans : (u v w : World) → Keeps u v → Keeps v w → Keeps u w
Keeps-trans u v w a b = record {
  conn_id = b.conn_id ∙ a.conn_id;
  conn_client = b.conn_client ∙ a.conn_client;
  queue = b.queue ∙ a.queue;
  close_ch = b.close_ch ∙ a.close_ch;
  client_id = b.client_id ∙ a.client_id;
  backend = b.backend ∙ a.backend;
  named = b.named ∙ a.named;
}

write_client-Keeps : (m : Message) (w : World) → Keeps w (write_client m w)
unfolding write_client
write_client-Keeps m w = record {
  conn_id = refl;
  conn_client = refl;
  queue = refl;
  close_ch = refl;
  client_id = refl;
  backend = refl;
  named = refl;
}

set_active-Keeps : (b : Option ℕ) (w : World) → Keeps w (set_active_backend b w)
unfolding set_active_backend
set_active-Keeps b w = record {
  conn_id = refl;
  conn_client = refl;
  queue = refl;
  close_ch = refl;
  client_id = refl;
  backend = refl;
  named = refl;
}

abbrev StatusKnown : Forwarded → Type 0
StatusKnown (status s) = Known s
StatusKnown f = Unit {0}

abbrev Forwards : World → Forwarded × World → Type 0
Forwards w (f, w') = Keeps w w' × StatusKnown f

deactivate-Forwards : (w : World) (r : Forwarded × World) → Forwards w r → Forwards w (deactivate r)
unfolding deactivate
deactivate-Forwards w (status s, w') h =
    (Keeps-trans w w' (set_active_backend none w') h.0 (set_active-Keeps none w'), h.1)
deactivate-Forwards w (failed, w') h =
    (Keeps-trans w w' (set_active_backend none w') h.0 (set_active-Keeps none w'), h.1)
deactivate-Forwards w (waiting, w') h = h

complete_message-Forwards :
    (m : Message) (delivered : Bool) (w : World) (next : Forwarded × World)
    → ReadyKnown (message m)
    → Forwards w next
    → Forwards w (
        if not delivered
        then (failed, w)
        else if m.msg_type == b'Z'
        then (status (status_of m.body), write_client m w)
        else next)
complete_message-Forwards m false w next h n = (Keeps-refl w, tt)
complete_message-Forwards m true w next h n = elim (Bool-cases (m.msg_type == b'Z')) [
  | inl e ↦ rw e (write_client-Keeps m w, h (ground arith))
  | inr e ↦ rw e n
]

complete_answer-Forwards :
    (r : Received) (d : Bool) (rest : List Answer) (w : World)
    → ReadyKnown r
    → ((v : World) → Forwards v (complete_loop rest v))
    → Forwards w (complete_loop (record { received = r; delivered = d } ∷ rest) w)
unfolding complete_loop
complete_answer-Forwards lost d rest w h later = (Keeps-refl w, tt)
complete_answer-Forwards (message m) d rest w h later =
    let next = later (write_client m w) in
    complete_message-Forwards m d w (complete_loop rest (write_client m w)) h
      (Keeps-trans w (write_client m w) _ (write_client-Keeps m w) next.0, next.1)

complete_loop-Forwards :
    (answers : List Answer)
    → All (λ a. ReadyKnown a.received) answers
    → (w : World) → Forwards w (complete_loop answers w)
unfolding complete_loop
complete_loop-Forwards [] h w = (Keeps-refl w, tt)
complete_loop-Forwards (a ∷ rest) h w =
    complete_answer-Forwards a.received a.delivered rest w h.0 (complete_loop-Forwards rest h.1)

InHand-Keeps : (pinned : Bool) (w w' : World) → Keeps w w' → InHand pinned w → InHand pinned w'
InHand-Keeps pinned w w' k h = record {
  not_queued = ground (arith, k, h.not_queued);
  not_closing = ground (arith, k, h.not_closing);
  pointer = ground (arith, k, h.pointer);
}

-- Where the connection is when the handler returns.
abbrev pub Disposed : World → Outcome × World → Type 0
Disposed w (still_waiting, w') = (w'.client.backend ≡ w.client.backend) × (w'.conn.id ≡ w.conn.id)
Disposed w (r, w') = (places w' ≡ 1) × (w'.conn.id ≡ w.conn.id)

module _ (others : Registry → Registry) (opens : ℕ → Opening) (pinned : Bool) (w : World)
    (h : InHand pinned w) where
  conclude-Disposed :
      (r : Forwarded × World) → Forwards w r → Disposed w (conclude others opens pinned r)
  unfolding conclude
  conclude-Disposed (status s, w') (k, known) =
      let settled =
        reconcile_conn-Settled others opens pinned w' (InHand-Keeps pinned w w' k h) s known in
      (settled.one_place, settled.same_conn ∙ k.conn_id)
  conclude-Disposed (failed, w') (k, known) =
      let settled = release-Settled others opens pinned w' (InHand-Keeps pinned w w' k h) in
      (settled.one_place, settled.same_conn ∙ k.conn_id)
  conclude-Disposed (waiting, w') (k, known) = (k.backend, k.conn_id)

  send_error-places :
      (d : Bool) (code text : Bytes) (u : World)
      → (places (send_error d code text u) ≡ places u)
        × ((send_error d code text u).conn.id ≡ u.conn.id)
  unfolding send_error write_client places
  send_error-places d code text u = (ground arith, ground arith)

  connection_failure-Disposed : (d : Bool) → Disposed w (connection_failure d w)
  unfolding connection_failure
  connection_failure-Disposed true =
      let settled = release-Settled others opens pinned w h in
      let same = send_error-places true (codes "08006") (codes "connection failure") (release w) in
      (same.0 ∙ settled.one_place, same.1 ∙ settled.same_conn)
  connection_failure-Disposed false =
      let settled = release-Settled others opens pinned w h in
      let same = send_error-places false (codes "08006") (codes "connection failure") (release w) in
      (same.0 ∙ settled.one_place, same.1 ∙ settled.same_conn)

  -- A query of the simple protocol, pinned or not, on every path: the write to the backend fails,
  -- reading from the backend fails in the middle of the response, the client goes away, or the
  -- response is complete. When the handler returns, the connection is in exactly one place: with
  -- the client, in the queue or on its way to be closed. While it waits for the backend, the
  -- client's pointer is as it was. The connection is assumed to be in hand before (with nobody
  -- else, and pinned as it is said to be), and the backend to send a ReadyForQuery with one of the
  -- three statuses of the protocol only.
  pub execute_simple-Disposed :
      (query : Bytes) (writable : ℕ) (delivered : Bool) (answers : List Answer)
      → All (λ a. ReadyKnown a.received) answers
      → let s = execute_simple others opens query writable delivered answers pinned w in
        Disposed w (s.result, s.world)
  unfolding execute_simple send_all forward_complete_backend_response
  execute_simple-Disposed query zero delivered answers known = connection_failure-Disposed delivered
  execute_simple-Disposed query (suc writable) delivered answers known =
      conclude-Disposed (deactivate (complete_loop answers (activate w))) (
        deactivate-Forwards w (complete_loop answers (activate w)) (
          let run = complete_loop-Forwards answers known (activate w) in
          (Keeps-trans w (activate w) _ (set_active-Keeps (some w.conn.id) w) run.0, run.1)))
