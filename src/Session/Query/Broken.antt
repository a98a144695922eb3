-- ===== src/Session/Query/Broken.antt =====
-- A query served as a prepared statement whose response cannot be read to its end
-- (`executeAsPrepared` and `forwardPreparedResponse` of pkg/pgfox/query.go).
use pgfox.Prelude.{
  ℕ, suc, ◌<◌, Bool, true, false, none, List, [], ◌∷◌, ◌++◌, ◌≡◌, refl, ◌∙◌, arith, All, length,
}
use pgfox.Prelude.Bytes.{Bytes, codes}
use pgfox.Wire.Frame.{Message}
use pgfox.Listen.Registry.{Registry, Opening}
use pgfox.Session.State.{
  World, write_client, set_active_backend, mark_stmt, return_conn, enqueue, set_in_transaction,
  has_stmt,
}
use pgfox.Session.Reconcile.{reconcile_conn, reconcile_unknown}
use pgfox.Session.Responses.{
  Answer, lost, status, deactivate, activate, send_error, give_up, note_deployed, prepared_loop,
  forward_prepared_response,
}
use pgfox.Session.Responses.Verbatim.{delivered, delivered-message, delivered-nil, NotReady}
use pgfox.Session.Responses.Prepared.{absorb, absorb-message, absorb-nil, prepared_loop-answer}
use pgfox.Session.Query.{
  no_error, Parameterized, conclude, execute_as_prepared, send_all, prepared_messages,
}

abbrev pub broken : Answer
broken = record { received = lost; delivered = true }

abbrev told : World → World
told w = send_error true (codes "08006") (codes "connection failure") w

prepared_loop-broken :
    (hash : Bytes) (before : List Message) (rest : List Answer) (w : World)
    → All NotReady before
    → prepared_loop hash (delivered before (broken ∷ rest)) w
      ≡ (status 0, told (absorb hash before w))
prepared_loop-broken hash [] rest w h =
    rw (delivered-nil (broken ∷ rest), absorb-nil hash w) (unfold prepared_loop give_up in refl)
prepared_loop-broken hash (m ∷ ms) rest w h = rw (delivered-message m ms (broken ∷ rest)) (
    ground (
      arith,
      prepared_loop-answer hash m (delivered ms (broken ∷ rest)) w,
      absorb-message hash m ms w,
      prepared_loop-broken hash ms rest (write_client m w) h.1,
      prepared_loop-broken hash ms rest w h.1,
      prepared_loop-broken hash ms rest (note_deployed hash w) h.1,
    ))

record SamePool (w w' : World) : Type 0 where
  id : w'.conn.id ≡ w.conn.id
  queue : w'.queue ≡ w.queue
  capacity : w'.queue_capacity ≡ w.queue_capacity

note_deployed-SamePool : (hash : Bytes) (w : World) → SamePool w (note_deployed hash w)
unfolding note_deployed mark_stmt
note_deployed-SamePool hash w = record {
  id = ground arith;
  queue = ground arith;
  capacity = ground arith;
}

write_client-SamePool : (m : Message) (w : World) → SamePool w (write_client m w)
unfolding write_client
write_client-SamePool m w = record { id = refl; queue = refl; capacity = refl }

absorb-SamePool : (hash : Bytes) (ms : List Message) (w : World) → SamePool w (absorb hash ms w)
unfolding absorb
absorb-SamePool hash [] w = record { id = refl; queue = refl; capacity = refl }
absorb-SamePool hash (m ∷ ms) w = ground (
  arith,
  absorb-SamePool hash ms (note_deployed hash w),
  note_deployed-SamePool hash w,
  absorb-SamePool hash ms w,
  absorb-SamePool hash ms (write_client m w),
  write_client-SamePool m w,
)

told-SamePool : (w : World) → SamePool w (told w)
unfolding send_error write_client
told-SamePool w = record { id = refl; queue = refl; capacity = refl }

send_prepared :
    (p : Parameterized) (deployed : Bool) (n : ℕ)
    → (send_all (suc (suc (suc (suc (suc n))))) (prepared_messages p deployed)).0 ≡ true
unfolding send_all prepared_messages
send_prepared p true n = refl
send_prepared p false n = refl

requeued :
    (others : Registry → Registry) (opens : ℕ → Opening) (w : World)
    → length w.queue < w.queue_capacity
    → (reconcile_conn others opens 0 false w).queue ≡ w.queue ++ w.conn.id ∷ []
unfolding reconcile_conn reconcile_unknown return_conn enqueue set_in_transaction
requeued others opens w room = ground arith

-- The bug on a failed read: when reading the response fails, and the client takes the message of
-- the connection failure, the handler returns no error, so the connection is not released but
-- goes back to the queue for the next borrower, whatever part of the response was read and
-- whatever else would follow on it. It holds for a connection that takes all the messages of the
-- query, and a queue that has room.
pub execute_as_prepared-requeues_broken :
    (others : Registry → Registry) (opens : ℕ → Opening) (p : Parameterized) (n : ℕ)
    (told_client : Bool) (before : List Message) (rest : List Answer) (w : World)
    → All NotReady before
    → length w.queue < w.queue_capacity
    → let s =
        execute_as_prepared others opens p
          (suc (suc (suc (suc (suc n)))))
          told_client
          (delivered before (broken ∷ rest))
          w in
      (s.result ≡ no_error) × (s.world.queue ≡ w.queue ++ w.conn.id ∷ [])
unfolding execute_as_prepared conclude forward_prepared_response deactivate set_active_backend
execute_as_prepared-requeues_broken others opens p n told_client before rest w h room =
    let start = activate w in
    let end = told (absorb p.hash before start) in
    let pool = absorb-SamePool p.hash before start in
    let same = told-SamePool (absorb p.hash before start) in
    rw
      (
        send_prepared p (has_stmt p.hash w.conn.deployed_stmts) n,
        prepared_loop-broken p.hash before rest start h,
      )
      (
        refl,
        requeued others opens (set_active_backend none end) (ground (arith, pool, same))
            ∙ ground (arith, pool, same),
      )
