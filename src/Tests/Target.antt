-- ===== src/Tests/Target.antt =====
-- A target with one pool of one idle connection, and a run of it.
use pgfox.Prelude.{ℕ, ◌+◌, ◌≤◌, true, false, Option, none, some, List, [], ◌∷◌, ◌≡◌, refl, arith}
use pgfox.Prelude.Counting.{count}
use pgfox.Target.State.{
  Pool, Pooled, Target, pool_at, set_pool, put_pool, active_connections, idle_connections,
  drop_pooled, same_pooled,
}
use pgfox.Target.Connections.{borrow_conn, borrow_head, give_back, all_pools}
use pgfox.Target.Growth.{
  sample_pool, sample_all, pool_state, pool_states, rebalance, grow, idle_pools, shrink,
  server_available, contended_pools, high_water, recent, sampled, growth_cycle,
}
use pgfox.Target.Accounting.{tally, outside, sum_all, one_if, Accounted}
use pgfox.Target.Accounting.Operations.{IsHeld}
use pgfox.Target.Life.{
  Allocates, lend, take_back, balance, Reach, OwnsIt, IsDisciplined, here, next, Reach-exclusive,
}
use pgfox.Target.Life.Budget.{Reach-budget, growth_cycle-starves}

abbrev shop : Pool
shop = record {
  db_name = [];
  username = [];
  queue = 7 ∷ [];
  capacity = 3;
  all = 7 ∷ [];
  conn_count = 1;
  peak_samples = [];
}

abbrev target : Target
target = record {
  pools = shop ∷ [];
  registered = [];
  privileged = true;
  total_open = 2;
  atomic_total_open = 2;
  max_connections = 3;
  server_max_conns = 0;
  server_open_conns = 0;
  draining = false;
  close_ch = [];
  borrowed = [];
}

-- A number above those of all connections of the pool.
above : List ℕ → ℕ
above [] = 1
above (c ∷ cs) = c + above cs

new_id : Option Pool → Option ℕ
unfolding above
new_id none = none
new_id (some p) = some (above p.all)

new_conn : Target → ℕ → Option ℕ
new_conn t i = new_id (pool_at i t.pools)

above-positive : (cs : List ℕ) → 1 ≤ above cs
unfolding above
above-positive [] = omega arith
above-positive (c ∷ cs) = omega (arith, above-positive cs)

count-above : (cs : List ℕ) (c : ℕ) → above cs ≤ c → count c cs ≡ 0
unfolding above count
count-above [] c h = refl
count-above (d ∷ cs) c h = ground (arith, h, above-positive cs, count-above cs c (omega (arith, h)))

new_id-fresh :
    (o : Option Pool) (c : ℕ) (p : Pool) → new_id o ≡ some c → o ≡ some p → count c p.all ≡ 0
unfolding new_id
new_id-fresh none c p h k = ground (arith, k)
new_id-fresh (some q) c p h k = ground (arith, h, k, count-above q.all (above q.all))

new_conn-Allocates : Allocates new_conn
unfolding new_conn
new_conn-Allocates t i c h p k = new_id-fresh (pool_at i t.pools) c p h k

target-Accounted : Accounted target
unfolding outside tally count sum_all
target-Accounted = record {
  pools_ok = (record { once = λ c. ground arith; placed = λ c. ground arith; mirrored = refl }, tt);
  counted = refl;
  pending = tt;
  unused = λ k c h. refl;
}

abbrev held : Pooled
held = record { pool = 0; conn = 7 }

abbrev lent : Target
lent = (borrow_conn 0 target).1

lent-held : IsHeld held lent
unfolding borrow_conn borrow_head tally pool_at put_pool
lent-held = ground arith

abbrev served : Target
served = growth_cycle new_conn 5 0 (give_back held lent)

abbrev run_of_target : Reach new_conn target served
run_of_target =
    next (next (next here (lend target 0)) (take_back lent held))
      (balance (give_back held lent) 5 0)

run_of_target-IsDisciplined : IsDisciplined new_conn run_of_target
unfolding IsDisciplined OwnsIt
run_of_target-IsDisciplined = (((tt, tt), lent-held), tt)

abbrev shop_sampled : Pool
shop_sampled = record shop { peak_samples = record { active = 0; at_time = 5 } ∷ [] }

served-pool : pool_at 0 served.pools ≡ some shop_sampled
unfolding growth_cycle rebalance grow sampled sample_all sample_pool recent pool_states pool_state
    high_water contended_pools idle_pools shrink server_available all_pools give_back borrow_conn
    borrow_head pool_at put_pool set_pool drop_pooled same_pooled active_connections
    idle_connections
served-pool = refl

Reach-exclusive_example :
    (count 7 (7 ∷ []) ≡ count 7 (7 ∷ []) + (tally 0 7 served.borrowed + tally 0 7 served.close_ch))
    × (count 7 (7 ∷ []) + (tally 0 7 served.borrowed + tally 0 7 served.close_ch) ≤ 1)
    × (shop_sampled.conn_count ≡ 1)
Reach-exclusive_example =
    Reach-exclusive new_conn new_conn-Allocates target served 0 7 shop_sampled run_of_target
      run_of_target-IsDisciplined target-Accounted served-pool

Reach-budget_example :
    (served.total_open ≡ one_if served.privileged + sum_all served.pools)
    × (served.total_open ≤ served.max_connections)
    × (served.max_connections ≡ 3)
Reach-budget_example =
    Reach-budget new_conn new_conn-Allocates target served run_of_target run_of_target-IsDisciplined
      target-Accounted (omega arith)

-- A second pool waits, and the target is at its limit.
abbrev empty_pool : Pool
empty_pool = record shop { queue = []; all = []; conn_count = 0 }

abbrev full : Target
full = record target { pools = empty_pool ∷ shop ∷ []; max_connections = 2 }

full-contended : contended_pools (pool_states 5 0 0 (all_pools full).pools) ≡ 0 ∷ []
unfolding contended_pools pool_states all_pools pool_state sample_pool recent high_water
    active_connections idle_connections
full-contended = refl

growth_cycle-starves_example : growth_cycle new_conn 5 0 full ≡ sampled 5 0 (all_pools full)
growth_cycle-starves_example =
    growth_cycle-starves new_conn 5 0 0 [] full (omega arith) full-contended
