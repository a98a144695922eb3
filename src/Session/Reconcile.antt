-- ===== src/Session/Reconcile.antt =====
-- `reconcileConn` of pkg/pgfox/query.go: where the connection goes when a response is complete.
pub mod Places
use pgfox.Prelude.{ℕ, Bool, true, false, not, ◌&&◌, ◌||◌, if◌then◌else◌, ◌==◌}
use pgfox.Listen.Registry.{Registry, Opening}
use pgfox.Listen.Handlers.{resolve_pending_listens}
use pgfox.Session.State.{
  World, has_named_statements, has_backend, pin, unpin, set_in_transaction, return_conn,
}

module _ (others : Registry → Registry) (opens : ℕ → Opening) where
  -- `p.resolvePendingListens(client)`
  unfoldable pub resolve : World → World
  resolve w = record w { listen = resolve_pending_listens others opens w.listen }

  unfoldable pub reconcile_idle : Bool → World → World
  reconcile_idle was_pinned w =
      let idle = resolve (set_in_transaction false w) in
      if has_named_statements w
      then (if has_backend w then idle else pin idle)
      else if was_pinned
      then return_conn (unpin idle)
      else return_conn idle

  unfoldable pub reconcile_unknown : Bool → World → World
  reconcile_unknown was_pinned w =
      let left = set_in_transaction false w in
      if was_pinned && not (has_named_statements w)
      then return_conn (unpin left)
      else return_conn left

  unfoldable pub reconcile_conn : ℕ → Bool → World → World
  unfolding reconcile_idle reconcile_unknown
  reconcile_conn tx_status was_pinned w =
      if tx_status == b'T' || tx_status == b'E'
      then set_in_transaction true (if has_backend w then w else pin w)
      else if tx_status == b'I'
      then reconcile_idle was_pinned w
      else reconcile_unknown was_pinned w
