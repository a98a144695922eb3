-- ===== src/Server.antt =====
-- `getPool` and `Reload` of pkg/pgfox/server.go, on the list `Server.Targets`. What other
-- goroutines do between the two parts of `getPool`, and how a new target starts, are arguments; the
-- wait for a target that is removed ends in any case, and the listener is not modelled. A map by
-- name is read as Go fills it, so that the last entry of a name counts.
pub mod Lookup
pub mod Reload
pub mod Complete
use pgfox.Prelude.{
  ℕ, Bool, true, false, not, ◌&&◌, Option, none, some, List, [], ◌∷◌, ◌++◌, if◌then◌else◌,
}
use pgfox.Prelude.Bytes.{Bytes, equal}
use pgfox.Access.{Rule, target_serves_database}
use pgfox.Config.{TargetConfig, sort_targets}
use pgfox.Target.State.{Pool}

-- A pool that was allocated. The clients of `getPool` hold it by its pointer, here a number, so
-- that two pools with the same fields are told apart.
pub record Allocated : Type 0 where
  pub address : ℕ
  pub pool : Pool

-- A running target: what its configuration sets, `Draining`, and `Pools`.
pub record Running (Net : Type 0) : Type 0 where
  pub config : TargetConfig (Rule Net)
  pub draining : Bool
  pub pools : List (Bytes × Allocated)

-- `PoolKey`
unfoldable pub pool_key : Bytes → Bytes → Bytes
pool_key db_name user = db_name ++ 0 ∷ user

unfoldable pub load : Bytes → List (Bytes × Allocated) → Option Allocated
load key [] = none
load key ((k, p) ∷ pools) = let rest = load key pools in if equal k key then some p else rest

-- `Pools.LoadOrStore`
unfoldable pub load_or_store :
    Bytes → Allocated → List (Bytes × Allocated) → Allocated × List (Bytes × Allocated)
unfolding load
load_or_store key p pools = elim (load key pools) [
  | none ↦ (p, pools ++ (key, p) ∷ [])
  | some q ↦ (q, pools)
]

-- The pool that `getPool` makes.
abbrev pub new_pool : Bytes → Bytes → ℕ → Pool
new_pool db_name user max_connections = record {
  db_name = db_name;
  username = user;
  queue = [];
  capacity = max_connections;
  all = [];
  conn_count = 0;
  peak_samples = [];
}

module _ {Net : Type 0} where
  -- Neither draining nor closed to the database.
  unfoldable pub serves : Running Net → Bytes → Bool
  serves t db_name = not t.draining && target_serves_database t.config.rules db_name

  -- The fast path: the first pool that is there.
  unfoldable pub existing_pool : Bytes → Bytes → List (Running Net) → Option Allocated
  unfolding load serves pool_key
  existing_pool db_name user [] = none
  existing_pool db_name user (t ∷ ts) =
      let rest = existing_pool db_name user ts in
      if serves t db_name
      then (elim (load (pool_key db_name user) t.pools) [ none ↦ rest | some p ↦ some p ])
      else rest

  -- The slow path: the first target that serves the database gets the pool. `address` is that of
  -- the pool that is allocated for it, stored or not.
  unfoldable pub create_pool :
      ℕ → Bytes → Bytes → List (Running Net) → Option Allocated × List (Running Net)
  unfolding load_or_store serves pool_key
  create_pool address db_name user [] = (none, [])
  create_pool address db_name user (t ∷ ts) =
      let (found, rest) = create_pool address db_name user ts in
      let (p, pools) =
        load_or_store (pool_key db_name user)
          record { address = address; pool = new_pool db_name user t.config.max_connections }
          t.pools in
      if serves t db_name then (some p, record t { pools = pools } ∷ ts) else (found, t ∷ rest)

  unfoldable pub get_pool :
      (List (Running Net) → List (Running Net))
      → ℕ
      → Bytes
      → Bytes
      → List (Running Net)
      → Option Allocated × List (Running Net)
  unfolding existing_pool create_pool
  get_pool others address db_name user ts = elim (existing_pool db_name user ts) [
    | some p ↦ (some p, ts)
    | none ↦ create_pool address db_name user (others ts)
  ]

  -- The entry of a name.
  unfoldable pub find_config :
      Bytes → List (TargetConfig (Rule Net)) → Option (TargetConfig (Rule Net))
  find_config name [] = none
  find_config name (c ∷ cs) = elim (find_config name cs) [
    | some d ↦ some d
    | none ↦ if equal c.name name then some c else none
  ]

  abbrev pub is_running : Bytes → List (Running Net) → Bool
  is_running name [] = false
  is_running name (t ∷ ts) = if equal t.config.name name then true else is_running name ts

  -- The second step, on one target.
  unfoldable pub update : TargetConfig (Rule Net) → Running Net → Running Net
  update fresh t = record t {
    config = record t.config {
      rules = fresh.rules;
      max_connections = fresh.max_connections;
      connect_timeout = fresh.connect_timeout;
      parameters = fresh.parameters;
    };
  }

  -- The first two steps: a target that the configuration does not name goes, the others are updated.
  unfoldable pub keep_or_drain :
      List (TargetConfig (Rule Net)) → List (Running Net) → List (Running Net)
  unfolding find_config update
  keep_or_drain fresh [] = []
  keep_or_drain fresh (t ∷ ts) =
      let rest = keep_or_drain fresh ts in
      elim (find_config t.config.name fresh) [ none ↦ rest | some c ↦ update c t ∷ rest ]

-- How the wait for a new target ends.
pub data Start : Type 0 where
  became_ready : Start
  timed_out : Start
  shut_down : Start

module _ {Net : Type 0} (start : Bytes → Start) where
  -- The third step, for what did not run before; `false` where the server shuts down.
  unfoldable pub start_new :
      List (Running Net)
      → List (TargetConfig (Rule Net))
      → List (Running Net)
      → Bool × List (Running Net)
  start_new old [] ts = (true, ts)
  start_new old (c ∷ cs) ts =
      let added = ts ++ record { config = c; draining = false; pools = [] } ∷ [] in
      let after = start_new old cs added in
      let skipped = start_new old cs ts in
      if is_running c.name old then skipped else (elim (start c.name) [
        | became_ready ↦ after
        | timed_out ↦ after
        | shut_down ↦ (false, ts)
      ])

  unfoldable pub sort_running : Bool × List (Running Net) → Bool × List (Running Net)
  unfolding sort_targets
  sort_running (true, ts) = (true, sort_targets (λ t. t.config) ts)
  sort_running (false, ts) = (false, ts)

  unfoldable pub reload :
      List (TargetConfig (Rule Net)) → List (Running Net) → Bool × List (Running Net)
  unfolding keep_or_drain start_new sort_running
  reload fresh ts = sort_running (start_new ts fresh (keep_or_drain fresh ts))
