-- ===== src/Target/Accounting.antt =====
-- The account of a target's connections (pkg/pgfox/target.go, pkg/pgfox/pool.go): where each one
-- is, and how many there are.
pub mod Removal
pub mod Operations
pub mod Steps
pub mod Cycles
pub mod Reaper
use pgfox.Prelude.{
  ℕ, zero, suc, ◌+◌, ◌≤◌, Bool, true, false, ◌&&◌, Option, none, some, List, [], ◌∷◌, ◌++◌,
  if◌then◌else◌, ◌==◌, ◌≡◌, ◌≢◌, refl, arith, length, All, subst, ap, sym, ◌∙◌, ==_iff,
}
use pgfox.Prelude.Counting.{count}
use pgfox.Target.State.{Pool, Pooled, Target, pool_at, set_pool}

-- How often connection `c` of pool `i` stands in a list.
unfoldable pub tally : ℕ → ℕ → List Pooled → ℕ
tally i c [] = 0
tally i c (h ∷ hs) = if h.pool == i && h.conn == c then suc (tally i c hs) else tally i c hs

-- With a client, or on its way to be closed.
unfoldable pub outside : Target → ℕ → ℕ → ℕ
outside t i c = tally i c t.borrowed + tally i c t.close_ch

-- Every connection of the pool is there once, and is in the queue or outside, not in both; no
-- other connection is.
pub record PoolOk (held : ℕ → ℕ) (p : Pool) : Type 0 where
  pub once : (c : ℕ) → count c p.all ≤ 1
  pub placed : (c : ℕ) → count c p.all ≡ count c p.queue + held c
  pub mirrored : p.conn_count ≡ length p.all

abbrev pub PoolsOk : (ℕ → ℕ → ℕ) → ℕ → List Pool → Type 0
PoolsOk held i [] = Unit {0}
PoolsOk held i (p ∷ ps) = PoolOk (held i) p × PoolsOk held (suc i) ps

unfoldable pub sum_all : List Pool → ℕ
sum_all [] = 0
sum_all (p ∷ ps) = length p.all + sum_all ps

abbrev pub one_if : Bool → ℕ
one_if true = 1
one_if false = 0

-- A pool that was just made.
pub record IsEmpty (p : Pool) : Type 0 where
  pub no_conn : p.all ≡ []
  pub no_idle : p.queue ≡ []
  pub no_count : p.conn_count ≡ 0

-- `TotalOpen` is the number of the connections of all pools, with the privileged one. Pools that
-- wait to be registered are empty, and no connection belongs to them.
pub record Accounted (t : Target) : Type 0 where
  pub pools_ok : PoolsOk (outside t) 0 t.pools
  pub counted : t.total_open ≡ one_if t.privileged + sum_all t.pools
  pub pending : All IsEmpty t.registered
  pub unused : (k c : ℕ) → length t.pools ≤ k → outside t k c ≡ 0

PoolOk-ext :
    (held held' : ℕ → ℕ) (p : Pool) → ((c : ℕ) → held' c ≡ held c) → PoolOk held p → PoolOk held' p
PoolOk-ext held held' p same ok = record {
  once = ok.once;
  placed = λ c. omega (arith, ok.placed c, same c);
  mirrored = ok.mirrored;
}

PoolsOk-ext :
    (held held' : ℕ → ℕ → ℕ) (j : ℕ) (ps : List Pool)
    → ((k c : ℕ) → j ≤ k → held' k c ≡ held k c)
    → PoolsOk held j ps
    → PoolsOk held' j ps
PoolsOk-ext held held' j [] same ok = tt
PoolsOk-ext held held' j (p ∷ ps) same ok = (
  PoolOk-ext (held j) (held' j) p (λ c. same j c (omega arith)) ok.0,
  PoolsOk-ext held held' (suc j) ps (λ k c h. same k c (omega arith)) ok.1,
)

pub PoolsOk-at :
    (held : ℕ → ℕ → ℕ) (i j k : ℕ) (ps : List Pool) (p : Pool)
    → j + i ≡ k
    → pool_at i ps ≡ some p
    → PoolsOk held j ps
    → PoolOk (held k) p
unfolding pool_at
PoolsOk-at held i j k [] p e h ok = cc
PoolsOk-at held zero j k (q ∷ ps) p e h ok =
    let at_k : j ≡ k = omega arith in
    let same : q ≡ p = cc in
    subst (λ n. PoolOk (held n) p) at_k (subst (λ r. PoolOk (held j) r) same ok.0)
PoolsOk-at held (suc i) j k (q ∷ ps) p e h ok =
    PoolsOk-at held i (suc j) k ps p (omega arith) h ok.1

-- One pool is replaced, and with it what is outside of it.
pub PoolsOk-set :
    (held held' : ℕ → ℕ → ℕ) (i j k : ℕ) (ps : List Pool) (p : Pool)
    → j + i ≡ k
    → ((n c : ℕ) → n ≢ k → held' n c ≡ held n c)
    → PoolOk (held' k) p
    → PoolsOk held j ps
    → PoolsOk held' j (set_pool i p ps)
unfolding set_pool
PoolsOk-set held held' i j k [] p e same new ok = tt
PoolsOk-set held held' zero j k (q ∷ ps) p e same new ok =
    let at_k : k ≡ j = omega arith in
    (
      subst (λ n. PoolOk (held' n) p) at_k new,
      PoolsOk-ext held held' (suc j) ps (λ n c h. same n c (omega arith)) ok.1,
    )
PoolsOk-set held held' (suc i) j k (q ∷ ps) p e same new ok = (
  PoolOk-ext (held j) (held' j) q (λ c. same j c (omega arith)) ok.0,
  PoolsOk-set held held' i (suc j) k ps p (omega arith) same new ok.1,
)

pub sum_all-set :
    (i : ℕ) (ps : List Pool) (p q : Pool)
    → pool_at i ps ≡ some p
    → sum_all (set_pool i q ps) + length p.all ≡ sum_all ps + length q.all
unfolding sum_all set_pool pool_at
sum_all-set i [] p q h = cc
sum_all-set zero (r ∷ ps) p q h =
    let same : r ≡ p = cc in omega (arith, ap (λ (s : Pool). length s.all) same)
sum_all-set (suc i) (r ∷ ps) p q h = omega (arith, sum_all-set i ps p q h)

length-set : (i : ℕ) (p : Pool) (ps : List Pool) → length (set_pool i p ps) ≡ length ps
unfolding set_pool
length-set i p [] = refl
length-set zero p (q ∷ ps) = refl
length-set (suc i) p (q ∷ ps) = ap suc (length-set i p ps)

pool_at-below : (i : ℕ) (ps : List Pool) (p : Pool) → pool_at i ps ≡ some p → suc i ≤ length ps
unfolding pool_at
pool_at-below i [] p h = cc
pool_at-below zero (q ∷ ps) p h = omega arith
pool_at-below (suc i) (q ∷ ps) p h = omega (arith, pool_at-below i ps p h)

-- An operation on one pool keeps the account if it keeps that of the pool, and counts what it
-- adds and takes.
pub Accounted-put :
    (t t' : Target) (i : ℕ) (p q : Pool)
    → Accounted t
    → pool_at i t.pools ≡ some p
    → t'.pools ≡ set_pool i q t.pools
    → t'.registered ≡ t.registered
    → t'.privileged ≡ t.privileged
    → t'.total_open + length p.all ≡ t.total_open + length q.all
    → ((n c : ℕ) → n ≢ i → outside t' n c ≡ outside t n c)
    → PoolOk (outside t' i) q
    → Accounted t'
Accounted-put t t' i p q ok at set same_reg same_priv total same new = record {
  pools_ok =
      subst (λ ps. PoolsOk (outside t') 0 ps) (sym set)
        (PoolsOk-set (outside t) (outside t') i 0 i t.pools q (omega arith) same new ok.pools_ok);
  counted =
      omega (
        arith,
        sum_all-set i t.pools p q at,
        ok.counted,
        ap sum_all set,
        ap one_if same_priv,
        total,
      );
  pending = subst (All IsEmpty) (sym same_reg) ok.pending;
  unused = λ k c far.
      let far' : length t.pools ≤ k =
        omega (arith, far, ap (λ (ps : List Pool). length ps) set, length-set i q t.pools) in
      same k c (omega (arith, pool_at-below i t.pools p at, far')) ∙ ok.unused k c far';
}

-- The account of the pool that stands at an index.
pub Accounted-at :
    (t : Target) (i : ℕ) (p : Pool)
    → Accounted t
    → pool_at i t.pools ≡ some p
    → PoolOk (outside t i) p
Accounted-at t i p ok at = PoolsOk-at (outside t) i 0 i t.pools p (omega arith) at ok.pools_ok
