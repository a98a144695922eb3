-- ===== src/Tests/Server.antt =====
-- A configuration with two targets, loaded, looked up and reloaded. A network is a number here.
use pgfox.Prelude.{ℕ, true, false, Option, some, List, [], ◌∷◌, ◌++◌, ◌≡◌, ◌≢◌, refl, All}
use pgfox.Prelude.Bytes.{Bytes, codes, equal}
use pgfox.Prelude.Result.{ok}
use pgfox.Access.{Rule, deny, target_serves_database, matches_name, any_equal}
use pgfox.Config.{
  RuleText, TargetConfig, default_rules, parse_nets, parse_rules, init_target, init_targets,
  name_less, comes_before, insert, sort_targets, check_rules, check_targets, validate, load_config,
}
use pgfox.Config.Validity.{IsSound, Distinct, names}
use pgfox.Config.Order.{Ascending}
use pgfox.Config.Load.{IsFilled, load_config-ready}
use pgfox.Server.{
  Allocated, Running, Start, timed_out, pool_key, load, load_or_store, new_pool, serves,
  existing_pool, create_pool, get_pool, reload, is_running, keep_or_drain, find_config, start_new,
  sort_running,
}
use pgfox.Server.Lookup.{IsKept, as_found, get_pool-stable}
use pgfox.Server.Complete.{reload_complete}
use pgfox.Server.Reload.{Follows, SortedIf, reload-Follows}

abbrev replica : TargetConfig RuleText
replica = record {
  name = codes "b";
  host = codes "h";
  port = 0;
  max_connections = 0;
  connect_timeout = 0;
  parameters = [];
  priority = 2;
  rules = [];
}

abbrev primary : TargetConfig RuleText
primary = record replica { name = codes "a"; port = 6432; priority = 1 }

abbrev no_system : Rule ℕ
no_system = record {
  action = deny;
  nets = [];
  users = [];
  databases = codes "template0" ∷ codes "template1" ∷ [];
}

abbrev loaded_replica : TargetConfig (Rule ℕ)
loaded_replica = record {
  name = codes "b";
  host = codes "h";
  port = 5432;
  max_connections = 20;
  connect_timeout = 7;
  parameters = [];
  priority = 2;
  rules = no_system ∷ [];
}

abbrev loaded_primary : TargetConfig (Rule ℕ)
loaded_primary = record loaded_replica { name = codes "a"; port = 6432; priority = 1 }

abbrev loaded : List (TargetConfig (Rule ℕ))
loaded = loaded_primary ∷ loaded_replica ∷ []

abbrev one_net : Bytes → Option ℕ
one_net cidr = some 1

load_runs : load_config one_net 7 (replica ∷ primary ∷ []) ≡ ok loaded
unfolding load_config init_targets init_target parse_rules parse_nets default_rules sort_targets
    insert comes_before name_less validate check_targets check_rules any_equal equal
load_runs = refl

load_config-ready_example :
    (loaded ≢ [])
    × All IsSound loaded
    × Distinct (names loaded)
    × Ascending (λ t. t) loaded
    × All IsFilled loaded
load_config-ready_example = load_config-ready one_net 7 (replica ∷ primary ∷ []) loaded load_runs

abbrev running : Running ℕ
running = record { config = loaded_primary; draining = false; pools = [] }

abbrev made : Allocated
made = record { address = 7; pool = new_pool (codes "shop") (codes "ann") 20 }

abbrev with_pool : Running ℕ
with_pool = record running { pools = (codes "shop" ++ 0 ∷ codes "ann", made) ∷ [] }

pool_made :
    get_pool (λ ts. ts) 7 (codes "shop") (codes "ann") (running ∷ []) ≡ (some made, with_pool ∷ [])
unfolding get_pool existing_pool create_pool load load_or_store pool_key serves
    target_serves_database matches_name any_equal equal
pool_made = refl

get_pool-stable_example :
    IsKept (as_found (codes "shop") (codes "ann") (λ ts. ts) (running ∷ [])) (with_pool ∷ [])
    × (get_pool (λ ts. []) 8 (codes "shop") (codes "ann") (with_pool ∷ [])
        ≡ (some made, with_pool ∷ []))
get_pool-stable_example =
    get_pool-stable (codes "shop") (codes "ann") (λ ts. ts) (λ ts. []) 7 8 (running ∷ [])
      (with_pool ∷ []) made pool_made

abbrev slow : Bytes → Start
slow name = timed_out

loaded-valid : validate loaded ≡ ok tt
unfolding validate check_targets check_rules any_equal equal
loaded-valid = refl

reload-Follows_example :
    All (Follows loaded) (reload slow loaded (with_pool ∷ [])).1
    × SortedIf (reload slow loaded (with_pool ∷ []))
reload-Follows_example = reload-Follows slow loaded (with_pool ∷ []) loaded-valid

slow-reload : (reload slow loaded (with_pool ∷ [])).0 ≡ true
unfolding reload keep_or_drain find_config start_new sort_running equal
slow-reload = refl

reload_complete_example :
    All (λ d. is_running d.name (reload slow loaded (with_pool ∷ [])).1 ≡ true) loaded
reload_complete_example = reload_complete slow loaded (with_pool ∷ []) loaded-valid slow-reload
