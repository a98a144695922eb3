-- ===== src/Target/Accounting/Reaper.antt =====
-- The reaper of idle connections in `healthCheck` of pkg/pgfox/target.go, and what both cycles
-- keep.
use pgfox.Prelude.{
  ℕ, zero, suc, ◌+◌, ◌-◌, ◌≤◌, Bool, true, false, not, ◌&&◌, Option, none, some, List, [], ◌∷◌,
  ◌++◌, if◌then◌else◌, ◌≡◌, refl, arith, length, ltb, Bool-cases, Option-cases, inl, inr,
}
use pgfox.Prelude.Counting.{count, count-append}
use pgfox.Target.State.{Pool, Target, pool_at, put_pool, one_less_open}
use pgfox.Target.Connections.{open_one, close_one_idle, close_head, all_pools}
use pgfox.Target.Growth.{
  sampled, sample_all, sample_pool, growth_cycle, reap_head, reap_one, reap, reap_pools,
  replace_privileged, health_check,
}
use pgfox.Target.Accounting.{outside, PoolsOk, Accounted, Accounted-put, sum_all, one_if}
use pgfox.Target.Accounting.Operations.{own, IsFresh}
use pgfox.Target.Accounting.Steps.{
  all_pools-Accounted, close_one_idle-Accounted, open_one-Accounted,
}
use pgfox.Target.Accounting.Cycles.{growth_cycle-keeps}

-- The head of a queue goes to its end.
abbrev pub rotated : ℕ → Pool → ℕ → List ℕ → Target → Target
rotated i p conn rest t = put_pool i (record p { queue = rest ++ conn ∷ [] }) t

module _ {ℓ} (P : Target → Type ℓ) (close : (t : Target) (i : ℕ) → P t → P (close_one_idle i t).1)
    (rotate : (t : Target) (i : ℕ) (p : Pool) (conn : ℕ) (rest : List ℕ)
      → pool_at i t.pools ≡ some p
      → p.queue ≡ conn ∷ rest
      → P t
      → P (rotated i p conn rest t)) where
  reap_head-keeps :
      (too_old : ℕ → Bool) (i : ℕ) (p : Pool) (t : Target) (queue : List ℕ)
      → p.queue ≡ queue
      → pool_at i t.pools ≡ some p
      → P t
      → P (close_head i p queue t).1
      → P (reap_head too_old i p queue t)
  unfolding reap_head close_head
  reap_head-keeps too_old i p t [] e at h closed = h
  reap_head-keeps too_old i p t (conn ∷ rest) e at h closed = elim (Bool-cases (too_old conn)) [
    | inl old ↦ rw (old, reap_head) closed
    | inr young ↦
        rw (young, reap_head)
          (elim (Bool-cases (ltb (length rest) p.capacity)) [
            | inl room ↦ rw room (rotate t i p conn rest at e h)
            | inr full ↦ rw full closed
          ])
  ]

  reap_one-keeps : (too_old : ℕ → Bool) (i : ℕ) (t : Target) → P t → P (reap_one too_old i t)
  unfolding reap_one close_one_idle
  reap_one-keeps too_old i t h = elim (Option-cases (pool_at i t.pools)) [
    | inl e ↦ rw (e, reap_one) h
    | inr (p, e) ↦
        rw (e, reap_one)
          (reap_head-keeps too_old i p t p.queue refl e h (rw (e, close_one_idle) at (close t i h)))
  ]

  reap-keeps : (too_old : ℕ → Bool) (n i : ℕ) (t : Target) → P t → P (reap too_old n i t)
  unfolding reap
  reap-keeps too_old zero i t h = h
  reap-keeps too_old (suc n) i t h =
      reap-keeps too_old n i (reap_one too_old i t) (reap_one-keeps too_old i t h)

  pub reap_pools-keeps :
      (too_old : ℕ → Bool) (i : ℕ) (ps : List Pool) (t : Target)
      → P t
      → P (reap_pools too_old i ps t)
  unfolding reap_pools
  reap_pools-keeps too_old i [] t h = h
  reap_pools-keeps too_old i (p ∷ ps) t h =
      reap_pools-keeps too_old (suc i) ps (reap too_old (length p.queue) i t)
        (reap-keeps too_old (length p.queue) i t h)

rotate-Accounted :
    (t : Target) (i : ℕ) (p : Pool) (conn : ℕ) (rest : List ℕ)
    → pool_at i t.pools ≡ some p
    → p.queue ≡ conn ∷ rest
    → Accounted t
    → Accounted (rotated i p conn rest t)
unfolding put_pool outside count
rotate-Accounted t i p conn rest at e ok =
    Accounted-put t _ i p (record p { queue = rest ++ conn ∷ [] }) ok at refl refl refl refl
      (λ n c far. refl)
      (record {
        once = (own t ok i p at).once;
        placed =
            λ c. ground (arith, (own t ok i p at).placed c, e, count-append c rest (conn ∷ []));
        mirrored = (own t ok i p at).mirrored;
      })

sample_all-PoolsOk :
    (now cutoff : ℕ) (held : ℕ → ℕ → ℕ) (j : ℕ) (ps : List Pool)
    → PoolsOk held j ps
    → PoolsOk held j (sample_all now cutoff ps)
unfolding sample_all sample_pool
sample_all-PoolsOk now cutoff held j [] ok = tt
sample_all-PoolsOk now cutoff held j (p ∷ ps) ok = (
  record { once = ok.0.once; placed = ok.0.placed; mirrored = ok.0.mirrored },
  sample_all-PoolsOk now cutoff held (suc j) ps ok.1,
)

sample_all-same :
    (now cutoff : ℕ) (ps : List Pool)
    → (sum_all (sample_all now cutoff ps) ≡ sum_all ps)
      × (length (sample_all now cutoff ps) ≡ length ps)
unfolding sample_all sample_pool sum_all
sample_all-same now cutoff [] = (refl, refl)
sample_all-same now cutoff (p ∷ ps) = (
  omega (arith, (sample_all-same now cutoff ps).0),
  omega (arith, (sample_all-same now cutoff ps).1),
)

sampled-Accounted : (now cutoff : ℕ) (t : Target) → Accounted t → Accounted (sampled now cutoff t)
unfolding sampled outside
sampled-Accounted now cutoff t ok = record {
  pools_ok = sample_all-PoolsOk now cutoff (outside t) 0 t.pools ok.pools_ok;
  counted = omega (arith, ok.counted, (sample_all-same now cutoff t.pools).0);
  pending = ok.pending;
  unused = λ k c far. ok.unused k c (omega (arith, far, (sample_all-same now cutoff t.pools).1));
}

pub growth_cycle-Accounted :
    (new_conn : Target → ℕ → Option ℕ)
    → ((t : Target) (i conn : ℕ) → new_conn t i ≡ some conn → IsFresh t i conn)
    → (now cutoff : ℕ) (t : Target) → Accounted t
    → Accounted (growth_cycle new_conn now cutoff t)
growth_cycle-Accounted new_conn fresh now cutoff t ok =
    growth_cycle-keeps Accounted new_conn close_one_idle-Accounted
      (λ u i room h. open_one-Accounted u i (new_conn u i) h (fresh u i)) now cutoff t
      (sampled-Accounted now cutoff (all_pools t) (all_pools-Accounted t ok))

privileged-Accounted :
    (t : Target) (privileged : Bool) (n : ℕ)
    → Accounted t
    → n ≡ one_if privileged + sum_all t.pools
    → Accounted (record t { privileged = privileged; total_open = n; atomic_total_open = n })
unfolding outside
privileged-Accounted t privileged n ok e = record {
  pools_ok = ok.pools_ok;
  counted = e;
  pending = ok.pending;
  unused = ok.unused;
}

replace_privileged-Accounted :
    (responsive replaced : Bool) (t : Target)
    → Accounted t
    → Accounted (replace_privileged responsive replaced t)
unfolding replace_privileged one_less_open
replace_privileged-Accounted responsive replaced t ok =
    elim (Bool-cases (t.privileged && not responsive)) [
      | inr e ↦ simp (e, replace_privileged) ok
      | inl e ↦ simp (e, replace_privileged) (replaced_if replaced e)
    ]
  where
    replaced_if :
        (b : Bool)
        → (t.privileged && not responsive) ≡ true
        → Accounted (
            if b
            then record t {
              privileged = true;
              total_open = t.total_open - 1 + 1;
              atomic_total_open = t.total_open - 1 + 1;
            }
            else record t {
              privileged = false;
              total_open = t.total_open - 1;
              atomic_total_open = t.total_open - 1;
            })
    replaced_if true e = privileged-Accounted t true _ ok (ground (arith, ok.counted))
    replaced_if false e = privileged-Accounted t false _ ok (ground (arith, ok.counted))

pub health_check-Accounted :
    (responsive replaced : Bool) (too_old : ℕ → Bool) (t : Target)
    → Accounted t
    → Accounted (health_check responsive replaced too_old t)
unfolding health_check
health_check-Accounted responsive replaced too_old t ok =
    let u = all_pools (replace_privileged responsive replaced t) in
    reap_pools-keeps Accounted close_one_idle-Accounted rotate-Accounted too_old 0 u.pools u (
      all_pools-Accounted (replace_privileged responsive replaced t)
        (replace_privileged-Accounted responsive replaced t ok))

-- `TotalOpen` is within `MaxConnections`.
abbrev pub InBudget : ℕ → Target → Type 0
InBudget n t = (t.max_connections ≡ n) × (t.total_open ≤ n)

pub open_one-total :
    (opened : Option ℕ) (i : ℕ) (t : Target)
    → ((open_one opened i t).total_open ≤ t.total_open + 1)
      × ((open_one opened i t).max_connections ≡ t.max_connections)
unfolding open_one one_less_open put_pool
open_one-total none i t = (omega arith, refl)
open_one-total (some conn) i t = elim (Option-cases (pool_at i t.pools)) [
  | inl e ↦ rw (e, open_one) (omega arith, refl)
  | inr (p, e) ↦
      rw (e, open_one)
        (elim (Bool-cases (ltb (length p.queue) p.capacity)) [
          | inl room ↦ rw room (omega arith, refl)
          | inr full ↦ rw full (omega arith, refl)
        ])
]
