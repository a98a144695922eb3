-- ===== src/Target/Growth.antt =====
-- `growthCycle` and `healthCheck` of pkg/pgfox/target.go.
use pgfox.Prelude.{
  ℕ, zero, suc, ◌+◌, ◌-◌, Bool, true, false, not, ◌&&◌, ◌||◌, Option, none, some, List, [], ◌∷◌,
  ◌++◌, if◌then◌else◌, ◌==◌, ltb, length,
}
use pgfox.Target.State.{
  PeakSample, Pool, Target, pool_at, put_pool, one_less_open, active_connections, idle_connections,
}
use pgfox.Target.Connections.{open_one, close_one_idle, remove_from_all, all_pools}

-- `poolState`
pub record PoolState : Type 0 where
  pub index : ℕ
  pub active : ℕ
  pub idle : ℕ
  pub total : ℕ
  pub hwm : ℕ
  pub contended : Bool
  pub excess : ℕ

-- Samples before the cutoff are dropped from the front.
unfoldable pub recent : ℕ → List PeakSample → List PeakSample
recent cutoff [] = []
recent cutoff (s ∷ ss) =
    let rest = recent cutoff ss in if ltb s.at_time cutoff then rest else s ∷ ss

unfoldable pub high_water : ℕ → List PeakSample → ℕ
high_water hwm [] = hwm
high_water hwm (s ∷ ss) = high_water (if ltb hwm s.active then s.active else hwm) ss

unfoldable pub sample_pool : ℕ → ℕ → Pool → Pool
unfolding recent
sample_pool now cutoff p = record p {
  peak_samples =
      recent cutoff
        (p.peak_samples ++ record { active = active_connections p; at_time = now } ∷ []);
}

-- `excess := idle - (hwm + 1)`, 0 where that is negative. The pool is sampled before.
unfoldable pub pool_state : ℕ → ℕ → Pool → PoolState
unfolding high_water
pool_state index active p =
    let idle = idle_connections p in
    let total = length p.all in
    let hwm = high_water 1 p.peak_samples in
    record {
      index = index;
      active = active;
      idle = idle;
      total = total;
      hwm = hwm;
      contended = total == 0 || active == total;
      excess = idle - (hwm + 1);
    }

unfoldable pub sample_all : ℕ → ℕ → List Pool → List Pool
sample_all now cutoff [] = []
sample_all now cutoff (p ∷ ps) = sample_pool now cutoff p ∷ sample_all now cutoff ps

unfoldable pub pool_states : ℕ → ℕ → ℕ → List Pool → List PoolState
unfolding sample_pool pool_state
pool_states now cutoff index [] = []
pool_states now cutoff index (p ∷ ps) =
    pool_state index (active_connections p) (sample_pool now cutoff p)
    ∷ pool_states now cutoff (suc index) ps

-- The slots that the server has left; negative numbers are 0, and only `<= 1` is asked.
unfoldable pub server_available : Target → ℕ
server_available t =
    if ltb 0 t.server_max_conns
    then t.server_max_conns - t.server_open_conns
    else t.max_connections - t.total_open

unfoldable pub contended_pools : List PoolState → List ℕ
contended_pools [] = []
contended_pools (s ∷ ss) =
    let rest = contended_pools ss in if s.contended then s.index ∷ rest else rest

-- A pool with the connections that it has to spare.
unfoldable pub idle_pools : List PoolState → List (ℕ × ℕ)
idle_pools [] = []
idle_pools (s ∷ ss) =
    let rest = idle_pools ss in if ltb 0 s.excess then (s.index, s.excess) ∷ rest else rest

-- The loop that recycles a slot: whether it did, `idlePools` from `idleIdx` on, and the target.
unfoldable pub after_close : Bool × Target → ℕ → ℕ → List (ℕ × ℕ) → Bool × List (ℕ × ℕ) × Target
after_close (true, t) index excess rest =
    (true, if excess - 1 == 0 then rest else (index, excess - 1) ∷ rest, t)
after_close (false, t) index excess rest = (false, (index, excess) ∷ rest, t)

unfoldable pub recycle : ℕ → List (ℕ × ℕ) → Target → Bool × List (ℕ × ℕ) × Target
unfolding after_close
recycle wanted [] t = (false, [], t)
recycle wanted ((index, excess) ∷ rest) t =
    let next = recycle wanted rest t in
    if index == wanted then next else after_close (close_one_idle index t) index excess rest

-- `t.TotalOpen < t.MaxConnections && serverAvailable > 1`
abbrev pub has_slot : ℕ → Target → Bool
has_slot available t = ltb t.total_open t.max_connections && ltb 1 available

unfoldable pub shrink : List (ℕ × ℕ) → Target → Target
shrink [] t = t
shrink ((index, excess) ∷ rest) t = shrink rest (close_one_idle index t).1

unfoldable pub sampled : ℕ → ℕ → Target → Target
sampled now cutoff t = record t { pools = sample_all now cutoff t.pools }

module _ (new_conn : Target → ℕ → Option ℕ) where
  -- One contended pool.
  unfoldable pub grow_pool : ℕ → ℕ → Bool × List (ℕ × ℕ) × Target → List (ℕ × ℕ) × Target
  grow_pool available wanted (recycled, idles, t) =
      (idles, if recycled || has_slot available t then open_one (new_conn t wanted) wanted t else t)

  unfoldable pub grow : ℕ → List ℕ → List (ℕ × ℕ) → Target → Target
  unfolding grow_pool recycle
  grow available [] idles t = t
  grow available (wanted ∷ rest) idles t = elim (has_slot available t) [
    | false ↦ t
    | true ↦
        let (left, t') = grow_pool available wanted (recycle wanted idles t) in
        grow available rest left t'
  ]

  unfoldable pub rebalance : ℕ → List PoolState → Target → Target
  unfolding grow shrink
  rebalance available states t =
      let grown = grow available (contended_pools states) (idle_pools states) t in
      elim (contended_pools states) [ [] ↦ shrink (idle_pools states) grown | c ∷ cs ↦ grown ]

  unfoldable pub growth_cycle : ℕ → ℕ → Target → Target
  unfolding rebalance sampled
  growth_cycle now cutoff t =
      let t' = all_pools t in
      rebalance (server_available t') (pool_states now cutoff 0 t'.pools) (sampled now cutoff t')

-- One round of the reaper: the head of the queue is closed if it idled too long, or put back.
unfoldable pub reap_head : (ℕ → Bool) → ℕ → Pool → List ℕ → Target → Target
reap_head too_old i p [] t = t
reap_head too_old i p (conn ∷ rest) t =
    let taken = record p { queue = rest } in
    if too_old conn
    then put_pool i (remove_from_all conn taken) (one_less_open t)
    else if ltb (length rest) p.capacity
    then put_pool i (record p { queue = rest ++ conn ∷ [] }) t
    else put_pool i (remove_from_all conn taken) (one_less_open t)

unfoldable pub reap_one : (ℕ → Bool) → ℕ → Target → Target
unfolding reap_head
reap_one too_old i t = elim (pool_at i t.pools) [
  | none ↦ t
  | some p ↦ reap_head too_old i p p.queue t
]

-- `poolLen` rounds.
unfoldable pub reap : (ℕ → Bool) → ℕ → ℕ → Target → Target
unfolding reap_one
reap too_old zero i t = t
reap too_old (suc rounds) i t = reap too_old rounds i (reap_one too_old i t)

unfoldable pub reap_pools : (ℕ → Bool) → ℕ → List Pool → Target → Target
unfolding reap
reap_pools too_old i [] t = t
reap_pools too_old i (p ∷ ps) t = reap_pools too_old (suc i) ps (reap too_old (length p.queue) i t)

-- The privileged connection: closed if it does not respond, and replaced if that succeeds.
unfoldable pub replace_privileged : Bool → Bool → Target → Target
replace_privileged responsive replaced t =
    if t.privileged && not responsive
    then (let closed = record (one_less_open t) { privileged = false } in
        if replaced
        then record closed {
          privileged = true;
          total_open = closed.total_open + 1;
          atomic_total_open = closed.total_open + 1;
        }
        else closed)
    else t

-- `healthCheck`
unfoldable pub health_check : Bool → Bool → (ℕ → Bool) → Target → Target
unfolding replace_privileged reap_pools
health_check responsive replaced too_old t =
    let t' = all_pools (replace_privileged responsive replaced t) in
    reap_pools too_old 0 t'.pools t'
