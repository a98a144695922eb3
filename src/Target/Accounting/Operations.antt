-- ===== src/Target/Accounting/Operations.antt =====
-- Each operation of pkg/pgfox/target.go and pkg/pgfox/pool.go on one connection keeps the account.
use pgfox.Prelude.{
  ℕ, zero, suc, ◌+◌, ◌-◌, ◌≤◌, ◌&&◌, some, List, [], ◌∷◌, ◌++◌, if◌then◌else◌, ◌==◌, ◌≡◌, ◌≢◌, refl,
  ap, arith, length, length-append, ltb, Bool-cases, inl, inr,
}
use pgfox.Prelude.Counting.{count, count-append}
use pgfox.Target.State.{
  Pool, Pooled, Target, pool_at, set_pool, put_pool, one_less_open, drop_pooled, same_pooled,
}
use pgfox.Target.Connections.{open_one, close_head, borrow_head, release_conn, remove_from_all}
use pgfox.Target.Accounting.{
  tally, outside, PoolOk, Accounted, Accounted-put, Accounted-at, sum_all,
}
use pgfox.Target.Accounting.Removal.{Loose, remove_from_all-PoolOk, remove_from_all-length}

count-length : (c : ℕ) (xs : List ℕ) → count c xs ≤ length xs
unfolding count
count-length c [] = omega arith
count-length c (x ∷ xs) = ground (arith, count-length c xs)

sum_all-at : (i : ℕ) (ps : List Pool) (p : Pool) → pool_at i ps ≡ some p → length p.all ≤ sum_all ps
unfolding sum_all pool_at
sum_all-at i [] p h = cc
sum_all-at zero (q ∷ ps) p h =
    let same : q ≡ p = cc in omega (arith, ap (λ (s : Pool). length s.all) same)
sum_all-at (suc i) (q ∷ ps) p h = omega (arith, sum_all-at i ps p h)

-- A connection that no pool list holds yet, as a new pointer is.
abbrev pub IsFresh : Target → ℕ → ℕ → Type 0
IsFresh t i conn = (p : Pool) → pool_at i t.pools ≡ some p → count conn p.all ≡ 0

module _ (t : Target) (ok : Accounted t) (i : ℕ) (p : Pool) (at : pool_at i t.pools ≡ some p) where
  pub own : PoolOk (outside t i) p
  own = Accounted-at t i p ok at

  opened-PoolOk :
      (conn : ℕ)
      → count conn p.all ≡ 0
      → PoolOk (outside t i) (record p {
        all = p.all ++ conn ∷ [];
        conn_count = length (p.all ++ conn ∷ []);
        queue = p.queue ++ conn ∷ [];
      })
  unfolding count
  opened-PoolOk conn fresh = record {
    once = λ c. ground (arith, own.once c, fresh, count-append c p.all (conn ∷ []));
    placed = λ c.
        omega (
          arith,
          own.placed c,
          count-append c p.all (conn ∷ []),
          count-append c p.queue (conn ∷ []),
        );
    mirrored = refl;
  }

  pub opened-Accounted : (conn : ℕ) → count conn p.all ≡ 0 → Accounted (open_one (some conn) i t)
  unfolding open_one put_pool outside one_less_open
  opened-Accounted conn fresh =
      rw (at, open_one)
        (elim (Bool-cases (ltb (length p.queue) p.capacity)) [
          | inl room ↦ rw room (
              Accounted-put t _ i p _ ok at refl refl refl
                (omega (arith, length-append p.all (conn ∷ []))) (λ n c h. refl)
                (opened-PoolOk conn fresh))
          | inr full ↦ rw full (
              Accounted-put t _ i p _ ok at refl refl refl (omega arith) (λ n c h. refl)
                (record { once = own.once; placed = own.placed; mirrored = refl }))
        ])

  -- The head of the queue, taken off it.
  head-Loose :
      (conn : ℕ) (rest : List ℕ)
      → p.queue ≡ conn ∷ rest
      → Loose (outside t i) conn (record p { queue = rest })
  unfolding count
  head-Loose conn rest e = record {
    once = own.once;
    placed = λ c. ground (arith, own.placed c, e);
    mirrored = own.mirrored;
  }

  positive : (conn : ℕ) → 1 ≤ count conn p.all → 1 ≤ t.total_open
  positive conn h = omega (arith, ok.counted, h, sum_all-at i t.pools p at, count-length conn p.all)

  -- A connection is closed that stands in no queue and with no client.
  pub removed-Accounted :
      (conn : ℕ) (loose : Pool) (t' : Target)
      → loose.all ≡ p.all
      → Loose (outside t' i) conn loose
      → t'.pools ≡ set_pool i (remove_from_all conn loose) t.pools
      → t'.registered ≡ t.registered
      → t'.privileged ≡ t.privileged
      → t'.total_open ≡ t.total_open - 1
      → ((n c : ℕ) → n ≢ i → outside t' n c ≡ outside t n c)
      → Accounted t'
  removed-Accounted conn loose t' all l set same_reg same_priv less same =
      Accounted-put t t' i p (remove_from_all conn loose) ok at set same_reg same_priv
        (omega (
          arith,
          less,
          remove_from_all-length (outside t' i) conn loose l,
          ap (λ (xs : List ℕ). length xs) all,
          positive conn (ground (arith, l.placed conn, all)),
        ))
        same (remove_from_all-PoolOk (outside t' i) conn loose l)

  pub closed-Accounted : (queue : List ℕ) → p.queue ≡ queue → Accounted (close_head i p queue t).1
  unfolding close_head put_pool one_less_open outside
  closed-Accounted [] e = ok
  closed-Accounted (conn ∷ rest) e =
      removed-Accounted conn (record p { queue = rest }) _ refl (head-Loose conn rest e) refl refl
        refl refl (λ n c h. refl)

  pub lent-Accounted : (queue : List ℕ) → p.queue ≡ queue → Accounted (borrow_head i p queue t).1
  unfolding borrow_head put_pool outside tally count
  lent-Accounted [] e = ok
  lent-Accounted (conn ∷ rest) e =
      Accounted-put t _ i p (record p { queue = rest }) ok at refl refl refl refl
        (λ n c h. ground arith)
        (record {
          once = own.once;
          placed = λ c. ground (arith, own.placed c, e);
          mirrored = own.mirrored;
        })

pub tally-append :
    (i c : ℕ) (xs ys : List Pooled) → tally i c (xs ++ ys) ≡ tally i c xs + tally i c ys
unfolding tally
tally-append i c [] ys = omega arith
tally-append i c (x ∷ xs) ys = ground (arith, tally-append i c xs ys)

-- How often a connection is the given one.
abbrev pub is_pooled : Pooled → ℕ → ℕ → ℕ
is_pooled h i c = if h.pool == i && h.conn == c then 1 else 0

pub tally-drop :
    (h : Pooled) (i c : ℕ) (xs : List Pooled)
    → 1 ≤ tally h.pool h.conn xs
    → tally i c xs ≡ tally i c (drop_pooled h xs) + is_pooled h i c
unfolding tally drop_pooled same_pooled
tally-drop h i c [] e = absurd (omega arith)
tally-drop h i c (x ∷ xs) e = ground (arith, tally-drop h i c xs)

-- A client holds the connection.
abbrev pub IsHeld : Pooled → Target → Type 0
IsHeld h t = 1 ≤ tally h.pool h.conn t.borrowed

pub outside-release :
    (t : Target) (h : Pooled) (i c : ℕ)
    → IsHeld h t
    → outside (release_conn h t) i c ≡ outside t i c
unfolding outside release_conn tally
outside-release t h i c held =
    omega (arith, tally-append i c t.close_ch (h ∷ []), tally-drop h i c t.borrowed held)
