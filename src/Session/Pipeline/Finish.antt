-- ===== src/Session/Pipeline/Finish.antt =====
-- The pinning and the last phase of `executeExtendedPipeline` (pkg/pgfox/query.go), and what a
-- response that cannot be read does there.
use pgfox.Prelude.{
  ℕ, Bool, true, not, ◌&&◌, none, some, List, ◌∷◌, if◌then◌else◌, ◌==◌, ◌≡◌, refl, ap, sym, ◌∙◌,
  arith,
}
use pgfox.Prelude.Bytes.{Bytes, codes}
use pgfox.Listen.Registry.{Registry, Opening}
use pgfox.Session.State.{
  World, write_client, set_active_backend, pin, release, has_named_statements,
}
use pgfox.Session.Reconcile.Places.{InHand, places, reconcile_conn-shares_connection}
use pgfox.Session.Responses.{
  Answer, Forwarded, status, failed, waiting, deactivate, activate, send_error, give_up,
  extended_loop, forward_extended_response, drain_flush_response,
}
use pgfox.Session.Query.{Outcome, no_error, returned_error, still_waiting, conclude}
use pgfox.Session.Query.Broken.{broken}

-- Phase 2: a connection that was just borrowed is pinned if a statement cannot be remapped.
unfoldable pub pin_required : Bool → Bool → World → World
pin_required was_pinned requires_pin w = if not was_pinned && requires_pin then pin w else w

-- After a Flush the connection stays with the client.
unfoldable pub conclude_flush : Bool → Forwarded × World → Outcome × World
conclude_flush pinned (failed, w) = (returned_error, release w)
conclude_flush pinned (status s, w) = (no_error, if not pinned then pin w else w)
conclude_flush pinned (waiting, w) = (still_waiting, w)

module _ (others : Registry → Registry) (opens : ℕ → Opening) where
  -- Phase 5, by the type of the last message.
  unfoldable pub finish_pipeline : ℕ → List Bytes → List Answer → Bool → World → Outcome × World
  unfolding conclude_flush
  finish_pipeline last_type hashes answers pinned w =
      if last_type == b'S'
      then conclude others opens pinned (forward_extended_response hashes answers w)
      else conclude_flush pinned (drain_flush_response hashes answers w)

  broken-response :
      (hashes : List Bytes) (rest : List Answer) (w : World)
      → forward_extended_response hashes (broken ∷ rest) w ≡ (
        status 0,
        set_active_backend none
            (send_error true (codes "08006") (codes "connection failure") (activate w)),
      )
  unfolding forward_extended_response extended_loop give_up deactivate
  broken-response hashes rest w = refl

  told-InHand :
      (pinned : Bool) (w : World)
      → InHand pinned w
      → InHand pinned (
          set_active_backend none
            (send_error true (codes "08006") (codes "connection failure") (activate w)))
  unfolding set_active_backend send_error write_client
  told-InHand pinned w h = record {
    not_queued = h.not_queued;
    not_closing = h.not_closing;
    pointer = h.pointer;
  }

  told-same :
      (w : World)
      → let told =
          set_active_backend none
            (send_error true (codes "08006") (codes "connection failure") (activate w)) in
        (told.client.backend ≡ w.client.backend)
        × (told.conn.id ≡ w.conn.id)
        × (told.client.named_stmts ≡ w.client.named_stmts)
  unfolding set_active_backend send_error write_client
  told-same w = (refl, refl, refl)

  -- The bug on a failed read in a pipeline that ends with Sync: if reading the first message of
  -- the response fails, and the client is pinned for named statements and takes the message of the
  -- connection failure, the handler returns no error, and the failed connection is both with the
  -- client and in the queue (or, if that is full, on its way to be closed). Before, the
  -- connection is in hand: with nobody else.
  pub finish_pipeline-shares_broken :
      (hashes : List Bytes) (rest : List Answer) (pinned : Bool) (w : World)
      → InHand pinned w
      → w.client.backend ≡ some w.conn.id
      → has_named_statements w ≡ true
      → let (result, after) = finish_pipeline (b'S') hashes (broken ∷ rest) pinned w in
        (result ≡ no_error) × (places after ≡ 2) × (after.client.backend ≡ some w.conn.id)
  unfolding finish_pipeline conclude
  finish_pipeline-shares_broken hashes rest pinned w h b n =
      let told =
        set_active_backend none
          (send_error true (codes "08006") (codes "connection failure") (activate w)) in
      let same = told-same w in
      let shared =
        reconcile_conn-shares_connection others opens pinned told (told-InHand pinned w h) 0
          (ground arith) (ground arith) (ground arith) (same.0 ∙ b ∙ ap some (sym same.1))
          (ground (arith, same.2, n)) in
      rw (broken-response hashes rest w) (refl, shared.0, shared.1 ∙ ap some same.1)
