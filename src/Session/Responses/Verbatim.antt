-- ===== src/Session/Responses/Verbatim.antt =====
-- What the client receives of a response to a simple query, and what the session remembers of it.
use pgfox.Prelude.{
  ℕ, true, none, List, [], ◌∷◌, ◌++◌, ◌≡◌, ◌≢◌, refl, sym, ap, ◌∙◌, arith, All, append_assoc,
  append-nil,
}
use pgfox.Wire.Frame.{Message}
use pgfox.Session.State.{World, write_client, mirror, set_active_backend}
use pgfox.Session.Responses.{
  Answer, message, status, status_of, deactivate, activate, complete_loop,
  forward_complete_backend_response,
}

abbrev pub answer : Message → Answer
answer m = record { received = message m; delivered = true }

-- Messages that arrive and are written to the client, in front of what arrives later.
pub delivered : List Message → List Answer → List Answer
delivered [] rest = rest
delivered (m ∷ ms) rest = answer m ∷ delivered ms rest

pub delivered-message :
    (m : Message) (ms : List Message) (rest : List Answer)
    → delivered (m ∷ ms) rest ≡ answer m ∷ delivered ms rest
unfolding delivered
delivered-message m ms rest = refl

pub delivered-nil : (rest : List Answer) → delivered [] rest ≡ rest
unfolding delivered
delivered-nil rest = refl

abbrev pub NotReady : Message → Type 0
NotReady m = m.msg_type ≢ b'Z'

pub deliver : List Message → World → World
deliver [] w = w
deliver (m ∷ ms) w = deliver ms (write_client m w)

pub deliver-out : (ms : List Message) (w : World) → (deliver ms w).client.out ≡ w.client.out ++ ms
unfolding deliver write_client
deliver-out [] w = sym (append-nil w.client.out)
deliver-out (m ∷ ms) w = deliver-out ms (write_client m w) ∙ append_assoc w.client.out (m ∷ []) ms

complete_loop-delivered :
    (before : List Message) (z : Message) (rest : List Answer) (w : World)
    → All NotReady before
    → z.msg_type ≡ b'Z'
    → complete_loop (delivered before (answer z ∷ rest)) w
      ≡ (status (status_of z.body), write_client z (deliver before w))
unfolding complete_loop delivered deliver
complete_loop-delivered [] z rest w h e = ground arith
complete_loop-delivered (m ∷ ms) z rest w h e =
    ground (arith, complete_loop-delivered ms z rest (write_client m w) h.1 e)

deliver-conn :
    (ms : List Message) (w : World)
    → ((deliver ms w).conn ≡ w.conn) × ((deliver ms w).client.backend ≡ w.client.backend)
unfolding deliver write_client
deliver-conn [] w = (refl, refl)
deliver-conn (m ∷ ms) w = deliver-conn ms (write_client m w)

ready-status :
    (z : Message) (s : ℕ) (w : World)
    → z.msg_type ≡ b'Z'
    → z.body ≡ s ∷ []
    → (write_client z w).listen.1.last_tx_status ≡ s
unfolding write_client mirror
ready-status z s w e b = ground arith

-- A simple query's response: whatever messages arrive before the ReadyForQuery, and it, are
-- written to the client unchanged and in order; the loop returns the status byte of the
-- ReadyForQuery, which the client remembers, and leaves the connection as it was and no longer
-- active. Every write is assumed to succeed, and the status byte not to be 0.
pub forward_complete_backend_response-delivered :
    (before : List Message) (z : Message) (s : ℕ) (rest : List Answer) (w : World)
    → All NotReady before
    → z.msg_type ≡ b'Z'
    → z.body ≡ s ∷ []
    → s ≢ 0
    → let (f, after) = forward_complete_backend_response (delivered before (answer z ∷ rest)) w in
      (f ≡ status s)
      × (after.client.out ≡ w.client.out ++ (before ++ z ∷ []))
      × (after.listen.1.last_tx_status ≡ s)
      × (after.conn ≡ w.conn)
      × (after.client.active_backend ≡ none)
unfolding forward_complete_backend_response deactivate set_active_backend status_of write_client
forward_complete_backend_response-delivered before z s rest w h e b n =
    let start = activate w in
    let run = complete_loop-delivered before z rest start h e in
    let last = deliver before start in
    rw run (
      ground (arith, b),
      ap (λ o. o ++ z ∷ []) (deliver-out before start) ∙ append_assoc w.client.out before (z ∷ []),
      ready-status z s last e b,
      (deliver-conn before start).0,
      refl,
    )
