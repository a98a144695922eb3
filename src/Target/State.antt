-- ===== src/Target/State.antt =====
-- The state of a target (`Target` of pkg/pgfox/target.go) and of its pools (`Pool` of
-- pkg/pgfox/pool.go). A connection is known by a number, a pool by its place in `CachedPools`.
-- Counters for statistics and the wake-up signals are left out.
use pgfox.Prelude.{
  ℕ, zero, suc, ◌-◌, Bool, true, false, ◌&&◌, Option, none, some, List, [], ◌∷◌, ◌==◌, length,
}
use pgfox.Prelude.Bytes.{Bytes}

-- `peakSample`
pub record PeakSample : Type 0 where
  pub active : ℕ
  pub at_time : ℕ

-- `Pool`: `queue` is the channel `Queue` of the capacity `capacity`.
pub record Pool : Type 0 where
  pub db_name : Bytes
  pub username : Bytes
  pub queue : List ℕ
  pub capacity : ℕ
  pub all : List ℕ
  pub conn_count : ℕ
  pub peak_samples : List PeakSample

-- A connection with its `Pool`.
pub record Pooled : Type 0 where
  pub pool : ℕ
  pub conn : ℕ

-- `Target`. `privileged` tells whether `Backend` is set; `borrowed` are the connections that
-- clients hold, which Go keeps on their stacks.
pub record Target : Type 0 where
  pub pools : List Pool
  pub registered : List Pool
  pub privileged : Bool
  pub total_open : ℕ
  pub atomic_total_open : ℕ
  pub max_connections : ℕ
  pub server_max_conns : ℕ
  pub server_open_conns : ℕ
  pub draining : Bool
  pub close_ch : List Pooled
  pub borrowed : List Pooled

unfoldable pub pool_at : ℕ → List Pool → Option Pool
pool_at i [] = none
pool_at zero (p ∷ ps) = some p
pool_at (suc i) (p ∷ ps) = pool_at i ps

-- A pool is shared by pointer: what is written to it is seen through `CachedPools`.
unfoldable pub set_pool : ℕ → Pool → List Pool → List Pool
set_pool i p [] = []
set_pool zero p (q ∷ ps) = p ∷ ps
set_pool (suc i) p (q ∷ ps) = q ∷ set_pool i p ps

unfoldable pub put_pool : ℕ → Pool → Target → Target
put_pool i p t = record t { pools = set_pool i p t.pools }

-- `t.TotalOpen--` and `t.AtomicTotalOpen.Store(…)`; subtraction stops at 0.
unfoldable pub one_less_open : Target → Target
one_less_open t = record t { total_open = t.total_open - 1; atomic_total_open = t.total_open - 1 }

unfoldable pub same_pooled : Pooled → Pooled → Bool
same_pooled a b = a.pool == b.pool && a.conn == b.conn

-- The first occurrence goes.
unfoldable pub drop_pooled : Pooled → List Pooled → List Pooled
drop_pooled h [] = []
drop_pooled h (x ∷ xs) = elim (same_pooled x h) [ true ↦ xs | false ↦ x ∷ drop_pooled h xs ]

-- `IdleConnections`, `ActiveConnections` and `TotalConnections`.
unfoldable pub idle_connections : Pool → ℕ
idle_connections p = length p.queue

unfoldable pub active_connections : Pool → ℕ
active_connections p = p.conn_count - idle_connections p

unfoldable pub total_connections : Pool → ℕ
total_connections p = p.conn_count
