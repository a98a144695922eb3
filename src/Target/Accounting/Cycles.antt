-- ===== src/Target/Accounting/Cycles.antt =====
-- The cycles of a target's goroutine, `growthCycle` and `healthCheck` of pkg/pgfox/target.go: what
-- opening and closing one connection keep, the cycles keep.
use pgfox.Prelude.{
  ℕ, ◌≤◌, ◌<◌, Bool, true, false, ◌||◌, Option, List, [], ◌∷◌, ◌==◌, ◌≡◌, refl, arith, Bool-cases,
  Option-cases, inl, inr,
}
use pgfox.Target.State.{Pool, Target, pool_at, put_pool, one_less_open}
use pgfox.Target.Connections.{open_one, close_one_idle, close_head, all_pools}
use pgfox.Target.Growth.{
  PoolState, after_close, recycle, has_slot, grow_pool, grow, shrink, sampled, rebalance,
  growth_cycle, contended_pools, idle_pools, pool_states, server_available,
}

close_head-total :
    (i : ℕ) (p : Pool) (queue : List ℕ) (t : Target)
    → ((close_head i p queue t).1.total_open ≤ t.total_open)
      × ((close_head i p queue t).1.max_connections ≡ t.max_connections)
unfolding close_head one_less_open put_pool
close_head-total i p [] t = (omega arith, refl)
close_head-total i p (c ∷ rest) t = (omega arith, refl)

-- Closing a connection makes room, and leaves the budget.
pub close_one_idle-total :
    (i : ℕ) (t : Target)
    → ((close_one_idle i t).1.total_open ≤ t.total_open)
      × ((close_one_idle i t).1.max_connections ≡ t.max_connections)
unfolding close_one_idle one_less_open put_pool
close_one_idle-total i t = elim (Option-cases (pool_at i t.pools)) [
  | inl e ↦ rw (e, close_one_idle) (omega arith, refl)
  | inr (p, e) ↦ rw (e, close_one_idle) (close_head-total i p p.queue t)
]

-- What the loop that recycles leaves.
abbrev pub Recycled : Type 0
Recycled = Bool × List (ℕ × ℕ) × Target

after_close-target :
    (r : Bool × Target) (index excess : ℕ) (rest : List (ℕ × ℕ))
    → (after_close r index excess rest).2 ≡ r.1
unfolding after_close
after_close-target (true, t) index excess rest = refl
after_close-target (false, t) index excess rest = refl

module _ {ℓ} (P : Target → Type ℓ)
    (close : (t : Target) (i : ℕ) → P t → P (close_one_idle i t).1) where
  pub recycle-keeps :
      (wanted : ℕ) (idles : List (ℕ × ℕ)) (t : Target) → P t → P (recycle wanted idles t).2
  unfolding recycle
  recycle-keeps wanted [] t h = h
  recycle-keeps wanted ((index, excess) ∷ rest) t h = elim (Bool-cases (index == wanted)) [
    | inl e ↦ rw e (recycle-keeps wanted rest t h)
    | inr e ↦
        rw e (rw (after_close-target (close_one_idle index t) index excess rest) (close t index h))
  ]

  pub shrink-keeps : (idles : List (ℕ × ℕ)) (t : Target) → P t → P (shrink idles t)
  unfolding shrink
  shrink-keeps [] t h = h
  shrink-keeps ((index, excess) ∷ rest) t h =
      shrink-keeps rest (close_one_idle index t).1 (close t index h)

abbrev HasRoom : ℕ → Target → Type 0
HasRoom n t = (t.total_open < n) × (t.max_connections ≡ n)

recycle-HasRoom :
    (n wanted : ℕ) (idles : List (ℕ × ℕ)) (t : Target)
    → HasRoom n t
    → HasRoom n (recycle wanted idles t).2
recycle-HasRoom n wanted idles t h =
    recycle-keeps (HasRoom n)
      (λ u i r. (
        omega (arith, (close_one_idle-total i u).0, r.0),
        omega (arith, (close_one_idle-total i u).1, r.1),
      ))
      wanted idles t h

module _ {ℓ} (P : Target → Type ℓ) (new_conn : Target → ℕ → Option ℕ)
    (close : (t : Target) (i : ℕ) → P t → P (close_one_idle i t).1)
    (open_room : (t : Target) (i : ℕ)
      → t.total_open < t.max_connections
      → P t
      → P (open_one (new_conn t i) i t)) where
  grow_pool-keeps :
      (available wanted : ℕ) (r : Recycled)
      → r.2.total_open < r.2.max_connections
      → P r.2
      → P (grow_pool new_conn available wanted r).1
  unfolding grow_pool
  grow_pool-keeps available wanted (recycled, idles, t) room h =
      elim (Bool-cases (recycled || has_slot available t)) [
        | inl e ↦ rw e (open_room t wanted room h)
        | inr e ↦ rw e h
      ]

  pub grow-keeps :
      (available : ℕ) (wanted : List ℕ) (idles : List (ℕ × ℕ)) (t : Target)
      → P t
      → P (grow new_conn available wanted idles t)
  unfolding grow
  grow-keeps available [] idles t h = h
  grow-keeps available (i ∷ rest) idles t h = elim (Bool-cases (has_slot available t)) [
    | inr full ↦ rw (full, grow) h
    | inl slot ↦
        rw (slot, grow)
          (let r = recycle i idles t in
            let room = recycle-HasRoom t.max_connections i idles t (ground arith, refl) in
            let next = grow_pool new_conn available i r in
            grow-keeps available rest next.0 next.1 (
              grow_pool-keeps available i r (omega (arith, room.0, room.1))
                (recycle-keeps P close i idles t h)))
  ]

  pub rebalance-keeps :
      (available : ℕ) (states : List PoolState) (t : Target)
      → P t
      → P (rebalance new_conn available states t)
  unfolding rebalance
  rebalance-keeps available states t h =
      let grown = grow-keeps available (contended_pools states) (idle_pools states) t h in
      shrink_unless (contended_pools states) (idle_pools states)
        (grow new_conn available (contended_pools states) (idle_pools states) t) grown
    where
      shrink_unless :
          (cs : List ℕ) (idles : List (ℕ × ℕ)) (u : Target)
          → P u
          → P (elim cs [ [] ↦ shrink idles u | c ∷ rest ↦ u ])
      shrink_unless [] idles u g = shrink-keeps P close idles u g
      shrink_unless (c ∷ cs) idles u g = g

  pub growth_cycle-keeps :
      (now cutoff : ℕ) (t : Target)
      → P (sampled now cutoff (all_pools t))
      → P (growth_cycle new_conn now cutoff t)
  unfolding growth_cycle
  growth_cycle-keeps now cutoff t h =
      rebalance-keeps (server_available (all_pools t))
        (pool_states now cutoff 0 (all_pools t).pools) (sampled now cutoff (all_pools t)) h
