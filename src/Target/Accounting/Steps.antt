-- ===== src/Target/Accounting/Steps.antt =====
-- The account is kept by every operation that a target or a client performs on a connection, on
-- every branch (pkg/pgfox/target.go, pkg/pgfox/pool.go and pkg/pgfox/backend.go).
use pgfox.Prelude.{
  ℕ, zero, suc, ◌+◌, ◌≤◌, Bool, true, false, Option, none, some, List, [], ◌∷◌, ◌++◌, if◌then◌else◌,
  ◌≡◌, ◌≢◌, refl, ◌∙◌, arith, length, length-append, ltb, Option-cases, Bool-cases, inl, inr, All,
}
use pgfox.Prelude.Counting.{count, count-append}
use pgfox.Target.State.{Pool, Pooled, Target, pool_at, put_pool}
use pgfox.Target.Connections.{
  open_one, close_one_idle, handle_close, close_next, borrow_conn, borrow_head, release_conn,
  give_back, all_pools,
}
use pgfox.Target.Accounting.{tally, outside, PoolsOk, Accounted, Accounted-put, sum_all, IsEmpty}
use pgfox.Target.Accounting.Operations.{
  IsFresh, IsHeld, own, opened-Accounted, closed-Accounted, lent-Accounted, removed-Accounted,
  tally-drop, outside-release,
}

pub open_one-Accounted :
    (t : Target) (i : ℕ) (opened : Option ℕ)
    → Accounted t
    → ((conn : ℕ) → opened ≡ some conn → IsFresh t i conn)
    → Accounted (open_one opened i t)
unfolding open_one
open_one-Accounted t i none ok fresh = ok
open_one-Accounted t i (some conn) ok fresh = elim (Option-cases (pool_at i t.pools)) [
  | inl e ↦ rw (e, open_one) ok
  | inr (p, e) ↦ opened-Accounted t ok i p e conn (fresh conn refl p e)
]

pub close_one_idle-Accounted : (t : Target) (i : ℕ) → Accounted t → Accounted (close_one_idle i t).1
unfolding close_one_idle
close_one_idle-Accounted t i ok = elim (Option-cases (pool_at i t.pools)) [
  | inl e ↦ rw (e, close_one_idle) ok
  | inr (p, e) ↦ rw (e, close_one_idle) (closed-Accounted t ok i p e p.queue refl)
]

unless_draining :
    (t : Target) (r : Option ℕ × Target) (draining : Bool)
    → Accounted t
    → Accounted r.1
    → Accounted (if draining then (none, t) else r).1
unless_draining t r true ok next = ok
unless_draining t r false ok next = next

pub borrow_conn-Accounted : (t : Target) (i : ℕ) → Accounted t → Accounted (borrow_conn i t).1
unfolding borrow_conn
borrow_conn-Accounted t i ok =
    unless_draining t
      (elim (pool_at i t.pools) [ none ↦ (none, t) | some p ↦ borrow_head i p p.queue t ])
      t.draining ok
      (elim (Option-cases (pool_at i t.pools)) [
        | inl e ↦ rw e ok
        | inr (p, e) ↦ rw e (lent-Accounted t ok i p e p.queue refl)
      ])

PoolsOk-outside :
    (held held' : ℕ → ℕ → ℕ) (j : ℕ) (ps : List Pool)
    → ((k c : ℕ) → held' k c ≡ held k c)
    → PoolsOk held j ps
    → PoolsOk held' j ps
PoolsOk-outside held held' j [] same ok = tt
PoolsOk-outside held held' j (p ∷ ps) same ok = (
  record {
    once = ok.0.once;
    placed = λ c. omega (arith, ok.0.placed c, same j c);
    mirrored = ok.0.mirrored;
  },
  PoolsOk-outside held held' (suc j) ps same ok.1,
)

pub release_conn-Accounted :
    (t : Target) (h : Pooled) → Accounted t → IsHeld h t → Accounted (release_conn h t)
unfolding release_conn
release_conn-Accounted t h ok held =
    let same = λ (k c : ℕ). outside-release t h k c held in
    record {
      pools_ok =
          PoolsOk-outside (outside t) (outside (release_conn h t)) 0 t.pools same ok.pools_ok;
      counted = ok.counted;
      pending = ok.pending;
      unused = λ k c far. same k c ∙ ok.unused k c far;
    }

pub give_back-Accounted :
    (t : Target) (h : Pooled) → Accounted t → IsHeld h t → Accounted (give_back h t)
unfolding give_back put_pool outside count
give_back-Accounted t h ok held = elim (Option-cases (pool_at h.pool t.pools)) [
  | inl e ↦ rw (e, give_back) ok
  | inr (p, e) ↦
      rw (e, give_back)
        (elim (Bool-cases (ltb (length p.queue) p.capacity)) [
          | inr full ↦ rw full (release_conn-Accounted t h ok held)
          | inl room ↦ rw room (
              Accounted-put t _ h.pool p (record p { queue = p.queue ++ h.conn ∷ [] }) ok e refl
                refl refl refl (λ n c far. ground (arith, tally-drop h n c t.borrowed held))
                (record {
                  once = (own t ok h.pool p e).once;
                  placed = λ c. ground (
                    arith,
                    (own t ok h.pool p e).placed c,
                    tally-drop h h.pool c t.borrowed held,
                    count-append c p.queue (h.conn ∷ []),
                  );
                  mirrored = (own t ok h.pool p e).mirrored;
                }))
        ])
]

pool_at-none : (i : ℕ) (ps : List Pool) → pool_at i ps ≡ none → length ps ≤ i
unfolding pool_at
pool_at-none i [] h = omega arith
pool_at-none zero (p ∷ ps) h = cc
pool_at-none (suc i) (p ∷ ps) h = omega (arith, pool_at-none i ps h)

-- A connection that is waiting to be closed has a pool.
has_pool :
    (t : Target) (h : Pooled) (rest : List Pooled)
    → t.close_ch ≡ h ∷ rest
    → Accounted t
    → pool_at h.pool t.pools ≢ none
unfolding outside tally
has_pool t h rest e ok none_at =
    ground (arith, ok.unused h.pool h.conn (pool_at-none h.pool t.pools none_at), e)

pub close_next-Accounted :
    (t : Target) (queue : List Pooled)
    → t.close_ch ≡ queue
    → Accounted t
    → Accounted (close_next queue t)
unfolding close_next handle_close put_pool outside tally
close_next-Accounted t [] e ok = ok
close_next-Accounted t (h ∷ rest) e ok = elim (Option-cases (pool_at h.pool t.pools)) [
  | inl none_at ↦ absurd (has_pool t h rest e ok none_at)
  | inr (p, at) ↦
      rw (at, handle_close)
        (removed-Accounted t ok h.pool p at h.conn p _ refl
          (record {
            once = (own t ok h.pool p at).once;
            placed = λ c. ground (arith, (own t ok h.pool p at).placed c, e);
            mirrored = (own t ok h.pool p at).mirrored;
          })
          refl refl refl refl (λ n c far. ground (arith, e)))
]

PoolsOk-append :
    (held : ℕ → ℕ → ℕ) (j : ℕ) (ps qs : List Pool)
    → PoolsOk held j ps
    → All IsEmpty qs
    → ((k c : ℕ) → j + length ps ≤ k → held k c ≡ 0)
    → PoolsOk held j (ps ++ qs)
unfolding count
PoolsOk-append held j [] [] ok empty far = tt
PoolsOk-append held j [] (q ∷ qs) ok empty far = (
  record {
    once = λ c. ground (arith, empty.0.no_conn);
    placed = λ c. ground (arith, empty.0.no_conn, empty.0.no_idle, far j c (omega arith));
    mirrored = ground (arith, empty.0.no_count, empty.0.no_conn);
  },
  PoolsOk-append held (suc j) [] qs tt empty.1 (λ k c h. far k c (omega arith)),
)
PoolsOk-append held j (p ∷ ps) qs ok empty far =
    (ok.0, PoolsOk-append held (suc j) ps qs ok.1 empty (λ k c h. far k c (omega arith)))

sum_all-append : (ps qs : List Pool) → All IsEmpty qs → sum_all (ps ++ qs) ≡ sum_all ps
unfolding sum_all
sum_all-append [] [] empty = refl
sum_all-append [] (q ∷ qs) empty = ground (arith, empty.0.no_conn, sum_all-append [] qs empty.1)
sum_all-append (p ∷ ps) qs empty = omega (arith, sum_all-append ps qs empty)

pub all_pools-Accounted : (t : Target) → Accounted t → Accounted (all_pools t)
unfolding all_pools outside
all_pools-Accounted t ok = record {
  pools_ok =
      PoolsOk-append (outside t) 0 t.pools t.registered ok.pools_ok ok.pending
        (λ k c far. ok.unused k c (omega (arith, far)));
  counted = omega (arith, ok.counted, sum_all-append t.pools t.registered ok.pending);
  pending = tt;
  unused = λ k c far. ok.unused k c (omega (arith, far, length-append t.pools t.registered));
}
