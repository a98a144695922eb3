-- ===== src/Target/Life/Budget.antt =====
-- The connection budget of a target over its life (pkg/pgfox/target.go).
use pgfox.Prelude.{
  ℕ, ◌+◌, ◌≤◌, Bool, false, Option, List, [], ◌∷◌, ◌≡◌, refl, arith, ltb, length, Bool-cases,
  Option-cases, inl, inr,
}
use pgfox.Target.State.{Pool, Pooled, Target, pool_at, put_pool, one_less_open}
use pgfox.Target.Connections.{
  close_next, handle_close, borrow_conn, borrow_head, release_conn, give_back, all_pools,
  close_one_idle,
}
use pgfox.Target.Growth.{
  growth_cycle, health_check, replace_privileged, sampled, pool_states, contended_pools, idle_pools,
  grow, rebalance, has_slot, server_available, PoolState,
}
use pgfox.Target.Accounting.{Accounted, one_if, sum_all}
use pgfox.Target.Accounting.Cycles.{close_one_idle-total, growth_cycle-keeps}
use pgfox.Target.Accounting.Reaper.{InBudget, open_one-total, reap_pools-keeps}
use pgfox.Target.Life.{
  Step, Reach, lend, take_back, let_go, close, balance, check, register, here, next, register_pool,
  IsDisciplined, Allocates, Reach-Accounted,
}

lend-InBudget : (n i : ℕ) (t : Target) → InBudget n t → InBudget n (borrow_conn i t).1
unfolding borrow_conn borrow_head put_pool
lend-InBudget n i t h = elim (Bool-cases t.draining) [
  | inl d ↦ simp (d, borrow_conn) h
  | inr d ↦
      simp (d, borrow_conn)
        (elim (Option-cases (pool_at i t.pools)) [
          | inl e ↦ simp e h
          | inr (p, e) ↦ simp e (head p p.queue)
        ])
]
  where
    head : (p : Pool) (queue : List ℕ) → InBudget n (borrow_head i p queue t).1
    head p [] = h
    head p (c ∷ rest) = h

take_back-InBudget : (n : ℕ) (g : Pooled) (t : Target) → InBudget n t → InBudget n (give_back g t)
unfolding give_back release_conn put_pool
take_back-InBudget n g t h = elim (Option-cases (pool_at g.pool t.pools)) [
  | inl e ↦ rw (e, give_back) h
  | inr (p, e) ↦
      rw (e, give_back)
        (elim (Bool-cases (ltb (length p.queue) p.capacity)) [
          | inl room ↦ rw room h
          | inr full ↦ rw full h
        ])
]

close-InBudget :
    (n : ℕ) (queue : List Pooled) (t : Target) → InBudget n t → InBudget n (close_next queue t)
unfolding close_next handle_close put_pool
close-InBudget n [] t h = h
close-InBudget n (g ∷ rest) t h = elim (Option-cases (pool_at g.pool t.pools)) [
  | inl e ↦ rw (e, handle_close) (h.0, omega (arith, h.1))
  | inr (p, e) ↦ rw (e, handle_close) (h.0, omega (arith, h.1))
]

close_idle-InBudget :
    (n : ℕ) (t : Target) (i : ℕ) → InBudget n t → InBudget n (close_one_idle i t).1
close_idle-InBudget n t i h = (
  omega (arith, (close_one_idle-total i t).1, h.0),
  omega (arith, (close_one_idle-total i t).0, h.1),
)

balance-InBudget :
    (n : ℕ) (new_conn : Target → ℕ → Option ℕ) (now cutoff : ℕ) (t : Target)
    → InBudget n t
    → InBudget n (growth_cycle new_conn now cutoff t)
balance-InBudget n new_conn now cutoff t h =
    growth_cycle-keeps (InBudget n) new_conn (close_idle-InBudget n)
      (λ u i room k. (
        omega (arith, (open_one-total (new_conn u i) i u).1, k.0),
        omega (arith, (open_one-total (new_conn u i) i u).0, k.0, room),
      ))
      now cutoff t (unfold sampled all_pools in h)

check-InBudget :
    (n : ℕ) (responsive replaced : Bool) (too_old : ℕ → Bool) (t : Target)
    → Accounted t
    → InBudget n t
    → InBudget n (health_check responsive replaced too_old t)
unfolding health_check all_pools replace_privileged one_less_open put_pool
check-InBudget n responsive replaced too_old t ok h =
    let u = all_pools (replace_privileged responsive replaced t) in
    reap_pools-keeps (InBudget n) (close_idle-InBudget n) (λ v i p c rest at e k. k) too_old 0
      u.pools u (ground (arith, h.0), ground (arith, h.1, ok.counted))

module _ (new_conn : Target → ℕ → Option ℕ) (allocates : Allocates new_conn) where
  Step-InBudget :
      (n : ℕ) {t u : Target} → Step new_conn t u → Accounted t → InBudget n t → InBudget n u
  Step-InBudget n (lend t i) ok h = lend-InBudget n i t h
  Step-InBudget n (take_back t g) ok h = take_back-InBudget n g t h
  Step-InBudget n (let_go t g) ok h = unfold release_conn in h
  Step-InBudget n (close t) ok h = close-InBudget n t.close_ch t h
  Step-InBudget n (balance t now cutoff) ok h = balance-InBudget n new_conn now cutoff t h
  Step-InBudget n (check t responsive replaced too_old) ok h =
      check-InBudget n responsive replaced too_old t ok h
  Step-InBudget n (register t p empty) ok h = unfold register_pool in h

  Reach-InBudget :
      (n : ℕ) {t u : Target} (r : Reach new_conn t u)
      → IsDisciplined new_conn r
      → Accounted t
      → InBudget n t
      → InBudget n u
  unfolding IsDisciplined
  Reach-InBudget n here kept ok h = h
  Reach-InBudget n (next r s) kept ok h =
      Step-InBudget n s (Reach-Accounted new_conn allocates r kept.0 ok)
        (Reach-InBudget n r kept.0 ok h)

  -- Whatever the goroutine of the target and the clients do, in any order, as long as a client
  -- returns or releases a connection only while it has it, `TotalOpen` is the number of the
  -- connections in the lists of all pools, and one more where there is a privileged connection,
  -- and it never exceeds `MaxConnections`, if both hold at the start and a connection that is
  -- opened is a new one. The code does not test the condition on the clients. A configuration that is reloaded may change the bound, and is no
  -- step here.
  pub Reach-budget :
      (t u : Target) (r : Reach new_conn t u)
      → IsDisciplined new_conn r
      → Accounted t
      → t.total_open ≤ t.max_connections
      → (u.total_open ≡ one_if u.privileged + sum_all u.pools)
        × (u.total_open ≤ u.max_connections)
        × (u.max_connections ≡ t.max_connections)
  Reach-budget t u r own ok h =
      let kept = Reach-InBudget t.max_connections r own ok (refl, h) in
      ((Reach-Accounted new_conn allocates r own ok).counted, omega (arith, kept.0, kept.1), kept.0)

grow-full :
    (new_conn : Target → ℕ → Option ℕ) (available : ℕ) (wanted : List ℕ) (idles : List (ℕ × ℕ))
    (t : Target)
    → t.max_connections ≤ t.total_open
    → grow new_conn available wanted idles t ≡ t
unfolding grow
grow-full new_conn available [] idles t h = refl
grow-full new_conn available (i ∷ rest) idles t h =
    let full : has_slot available t ≡ false = ground arith in rw (full, grow)

rebalance-full :
    (new_conn : Target → ℕ → Option ℕ) (available i : ℕ) (is : List ℕ) (states : List PoolState)
    (t : Target)
    → contended_pools states ≡ i ∷ is
    → t.max_connections ≤ t.total_open
    → rebalance new_conn available states t ≡ t
unfolding rebalance
rebalance-full new_conn available i is states t e h =
    rw (e, rebalance)
      (grow-full new_conn available (contended_pools states) (idle_pools states) t h)

-- The bug in `growthCycle`: at the limit, with `TotalOpen` at `MaxConnections` or above, a cycle in
-- which some pool is contended opens and closes nothing, however many idle connections other
-- pools have to spare. The test on the budget stands before the recycling that would free a slot,
-- and pools shrink only if none is contended, so the contended pool starves.
pub growth_cycle-starves :
    (new_conn : Target → ℕ → Option ℕ) (now cutoff i : ℕ) (is : List ℕ) (t : Target)
    → t.max_connections ≤ t.total_open
    → contended_pools (pool_states now cutoff 0 (all_pools t).pools) ≡ i ∷ is
    → growth_cycle new_conn now cutoff t ≡ sampled now cutoff (all_pools t)
unfolding growth_cycle
growth_cycle-starves new_conn now cutoff i is t full e =
    rebalance-full new_conn (server_available (all_pools t)) i is
      (pool_states now cutoff 0 (all_pools t).pools) (sampled now cutoff (all_pools t)) e
      (unfold sampled all_pools in full)
