-- ===== src/Session/Reconcile/Places.antt =====
-- Where a connection is: in the pool's queue, on its way to be closed, or with the client.
use pgfox.Prelude.{
  ℕ, suc, ◌+◌, Bool, true, false, ◌||◌, Option, none, some, if◌then◌else◌, ◌==◌, ◌≡◌, ◌≢◌, ◌⊎◌,
  arith,
}
use pgfox.Prelude.Counting.{count, count-last}
use pgfox.Listen.Registry.{Registry, Opening}
use pgfox.Session.State.{
  World, has_named_statements, has_backend, pin, unpin, set_in_transaction, set_backend, set_client,
  return_conn, enqueue, close_conn, release, forget,
}
use pgfox.Session.Reconcile.{resolve, reconcile_idle, reconcile_unknown, reconcile_conn}

abbrev held : Option ℕ → ℕ → ℕ
held none x = 0
held (some b) x = if b == x then 1 else 0

-- How many times the connection in hand can be reached: an entry of the queue is one borrower to
-- come, an entry of the close channel one closing, the client's pointer one user.
unfoldable pub places : World → ℕ
places w = count w.conn.id w.queue + count w.conn.id w.close_ch + held w.client.backend w.conn.id

-- The connection in hand is with nobody else: not queued, not to be closed, and the client points
-- to it or to nothing; if it does, the connection points back and is known to be pinned.
pub record InHand (was_pinned : Bool) (w : World) : Type 0 where
  pub not_queued : count w.conn.id w.queue ≡ 0
  pub not_closing : count w.conn.id w.close_ch ≡ 0
  pub pointer :
      (w.client.backend ≡ none)
      ⊎ ((w.client.backend ≡ some w.conn.id)
          × (w.conn.client ≡ some w.client.id)
          × (was_pinned ≡ true))

abbrev pub stays_pinned : ℕ → World → Bool
stays_pinned tx_status w = tx_status == b'T' || tx_status == b'E' || has_named_statements w

places-close : (w : World) → places (close_conn w) ≡ suc (places w)
unfolding close_conn places
places-close w = omega (arith, count-last w.conn.id w.close_ch)

places-enqueue : (w : World) → places (enqueue w) ≡ suc (places w)
unfolding enqueue places
places-enqueue w =
    ground (arith, places-close w, count-last w.conn.id w.queue, count-last w.conn.id w.close_ch)

-- Where the connection ends: with the client, or one more place away.
pub record Settled (w w' : World) (pinned : Bool) : Type 0 where
  pub same_conn : w'.conn.id ≡ w.conn.id
  pub one_place : places w' ≡ 1
  pub kept : w'.client.backend ≡ (if pinned then some w.conn.id else none)

module _ (others : Registry → Registry) (opens : ℕ → Opening) (was_pinned : Bool) (w : World)
    (h : InHand was_pinned w) where
  pinned-Settled :
      (t : Bool) → Settled w (set_in_transaction t (if has_backend w then w else pin w)) true
  unfolding set_in_transaction pin set_backend set_client places
  pinned-Settled t = record {
    same_conn = ground arith;
    one_place = ground (arith, h.not_queued, h.not_closing, h.pointer);
    kept = ground (arith, h.pointer);
  }

  returned-Settled :
      was_pinned ≡ true
      → Settled w (return_conn (unpin (resolve others opens (set_in_transaction false w)))) false
  unfolding return_conn enqueue close_conn unpin set_backend set_client resolve set_in_transaction
      places
  returned-Settled e = record {
    same_conn = ground arith;
    one_place = ground (
      arith,
      h.not_queued,
      h.not_closing,
      count-last w.conn.id w.queue,
      count-last w.conn.id w.close_ch,
    );
    kept = ground arith;
  }

  unpinned-Settled :
      was_pinned ≡ false
      → Settled w (return_conn (resolve others opens (set_in_transaction false w))) false
  unfolding return_conn enqueue close_conn resolve set_in_transaction places
  unpinned-Settled e = record {
    same_conn = ground arith;
    one_place = ground (
      arith,
      h.not_queued,
      h.not_closing,
      h.pointer,
      count-last w.conn.id w.queue,
      count-last w.conn.id w.close_ch,
    );
    kept = ground (arith, h.pointer);
  }

  kept_idle-Settled :
      let idle = resolve others opens (set_in_transaction false w) in
      Settled w (if has_backend w then idle else pin idle) true
  unfolding resolve set_in_transaction pin set_backend set_client places
  kept_idle-Settled = record {
    same_conn = ground arith;
    one_place = ground (arith, h.not_queued, h.not_closing, h.pointer);
    kept = ground (arith, h.pointer);
  }

  reconcile_idle-Settled :
      Settled w (reconcile_idle others opens was_pinned w) (has_named_statements w)
  unfolding reconcile_idle
  reconcile_idle-Settled = ground (arith, kept_idle-Settled, returned-Settled, unpinned-Settled)

  -- `Release` leaves the connection in the close channel alone, and the client unpinned.
  pub release-Settled : Settled w (release w) false
  unfolding release forget close_conn set_client set_backend set_in_transaction places
  release-Settled = record {
    same_conn = ground arith;
    one_place =
        ground (arith, h.not_queued, h.not_closing, h.pointer, count-last w.conn.id w.close_ch);
    kept = ground (arith, h.pointer);
  }

  -- On a status that PostgreSQL sends ('I', 'T' or 'E') the connection ends in exactly one place:
  -- with the client if a transaction is open or named statements live on the connection, and else
  -- in the queue, or on its way to be closed if the queue is full, with the client's pointer
  -- cleared. Before, the connection must be in hand: with nobody else, and pinned as it is said
  -- to be.
  pub reconcile_conn-Settled :
      (tx_status : ℕ)
      → (tx_status ≡ b'I') ⊎ ((tx_status ≡ b'T') ⊎ (tx_status ≡ b'E'))
      → Settled w (reconcile_conn others opens tx_status was_pinned w) (stays_pinned tx_status w)
  unfolding reconcile_conn
  reconcile_conn-Settled tx_status known =
      ground (arith, pinned-Settled true, reconcile_idle-Settled)

  -- The bug on any other status: a connection that is pinned for named statements is returned
  -- while the client keeps its pointer, so it is in two places at once, and the next borrower
  -- shares it with the client. Before, the connection is in hand.
  pub reconcile_conn-shares_connection :
      (tx_status : ℕ)
      → tx_status ≢ b'I'
      → tx_status ≢ b'T'
      → tx_status ≢ b'E'
      → w.client.backend ≡ some w.conn.id
      → has_named_statements w ≡ true
      → let after = reconcile_conn others opens tx_status was_pinned w in
        (places after ≡ 2) × (after.client.backend ≡ some w.conn.id)
  unfolding reconcile_conn reconcile_unknown return_conn enqueue close_conn set_in_transaction
      places
  reconcile_conn-shares_connection tx_status i t e b n = (
    ground (
      arith,
      h.not_queued,
      h.not_closing,
      count-last w.conn.id w.queue,
      count-last w.conn.id w.close_ch,
    ),
    ground arith,
  )
