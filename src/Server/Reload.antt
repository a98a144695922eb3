-- ===== src/Server/Reload.antt =====
-- What `Reload` of pkg/pgfox/server.go makes of a configuration that `validate` accepts.
use pgfox.Prelude.{
  Bool, true, false, Option, none, some, List, [], ◌∷◌, ◌++◌, ◌≡◌, ◌≢◌, refl, arith, All, branches,
}
use pgfox.Prelude.Bytes.{Bytes, equal_iff, equal_refl}
use pgfox.Prelude.Result.{ok}
use pgfox.Access.{Rule}
use pgfox.Config.{TargetConfig, validate}
use pgfox.Config.Validity.{Distinct, names, validate-accepts}
use pgfox.Config.Order.{Ascending, sort_targets-Ascending, All-sort_targets}
use pgfox.Server.{
  Running, find_config, is_running, update, keep_or_drain, Start, became_ready, timed_out,
  shut_down, start_new, sort_running, reload,
}

module _ {Net : Type 0} where
  find_config-absent :
      (name : Bytes) (cs : List (TargetConfig (Rule Net)))
      → All (λ m. name ≢ m) (names cs)
      → find_config name cs ≡ none
  unfolding find_config
  find_config-absent name [] h = refl
  find_config-absent name (c ∷ cs) (h, hs) =
      ground (arith, find_config-absent name cs hs, (equal_iff c.name name).0, h)

  -- An entry in front hides no later one.
  find_config-behind :
      (c d : TargetConfig (Rule Net)) (cs : List (TargetConfig (Rule Net)))
      → find_config d.name cs ≡ some d
      → find_config d.name (c ∷ cs) ≡ some d
  unfolding find_config
  find_config-behind c d cs h = rw h

  All-behind :
      (c : TargetConfig (Rule Net)) (cs ds : List (TargetConfig (Rule Net)))
      → All (λ d. find_config d.name cs ≡ some d) ds
      → All (λ d. find_config d.name (c ∷ cs) ≡ some d) ds
  All-behind c cs [] h = tt
  All-behind c cs (d ∷ ds) (h, hs) = (find_config-behind c d cs h, All-behind c cs ds hs)

  find_config-first :
      (c : TargetConfig (Rule Net)) (cs : List (TargetConfig (Rule Net)))
      → All (λ m. c.name ≢ m) (names cs)
      → find_config c.name (c ∷ cs) ≡ some c
  unfolding find_config
  find_config-first c cs h = rw (find_config-absent c.name cs h, equal_refl c.name)

  -- Where no two names are equal, every entry is found by its name.
  pub find_config-own :
      (cs : List (TargetConfig (Rule Net)))
      → Distinct (names cs)
      → All (λ c. find_config c.name cs ≡ some c) cs
  find_config-own [] h = tt
  find_config-own (c ∷ cs) (apart, distinct) =
      (find_config-first c cs apart, All-behind c cs cs (find_config-own cs distinct))

  -- The target runs with what the configuration says under its name.
  pub record Follows (cs : List (TargetConfig (Rule Net))) (t : Running Net) : Type 0 where
    pub entry : TargetConfig (Rule Net)
    pub found : find_config t.config.name cs ≡ some entry
    pub rules : t.config.rules ≡ entry.rules
    pub max_connections : t.config.max_connections ≡ entry.max_connections
    pub connect_timeout : t.config.connect_timeout ≡ entry.connect_timeout
    pub parameters : t.config.parameters ≡ entry.parameters

  kept :
      (cs : List (TargetConfig (Rule Net))) (t : Running Net) (rest : List (Running Net))
      (r : Option (TargetConfig (Rule Net)))
      → find_config t.config.name cs ≡ r
      → All (Follows cs) rest
      → All (Follows cs) (elim r [ none ↦ rest | some c ↦ update c t ∷ rest ])
  unfolding update
  kept cs t rest none h k = k
  kept cs t rest (some c) h k = (
    record {
      entry = c;
      found = h;
      rules = refl;
      max_connections = refl;
      connect_timeout = refl;
      parameters = refl;
    },
    k,
  )

  keep_or_drain-Follows :
      (cs : List (TargetConfig (Rule Net))) (ts : List (Running Net))
      → All (Follows cs) (keep_or_drain cs ts)
  unfolding keep_or_drain
  keep_or_drain-Follows cs [] = tt
  keep_or_drain-Follows cs (t ∷ ts) =
      kept cs t (keep_or_drain cs ts) (find_config t.config.name cs) refl
        (keep_or_drain-Follows cs ts)

  All-snoc :
      (P : Running Net → Type 0) (ts : List (Running Net)) (t : Running Net)
      → All P ts
      → P t
      → All P (ts ++ t ∷ [])
  All-snoc P [] t h k = (k, tt)
  All-snoc P (u ∷ ts) t (h, hs) k = (h, All-snoc P ts t hs k)

  module _ (start : Bytes → Start) (cs : List (TargetConfig (Rule Net)))
      (old : List (Running Net)) where
    abbrev AllFollow : Bool × List (Running Net) → Type 0
    AllFollow r = All (Follows cs) r.1

    started :
        (s : Start) (after : Bool × List (Running Net)) (ts : List (Running Net))
        → AllFollow after
        → All (Follows cs) ts
        → AllFollow (elim s [ became_ready ↦ after | timed_out ↦ after | shut_down ↦ (false, ts) ])
    started became_ready after ts h k = h
    started timed_out after ts h k = h
    started shut_down after ts h k = k

    start_new-Follows :
        (ds : List (TargetConfig (Rule Net))) (ts : List (Running Net))
        → All (λ d. find_config d.name cs ≡ some d) ds
        → All (Follows cs) ts
        → AllFollow (start_new start old ds ts)
    unfolding start_new
    start_new-Follows [] ts h k = k
    start_new-Follows (d ∷ ds) ts (h, hs) k =
        let fresh : Running Net = record { config = d; draining = false; pools = [] } in
        let follows : Follows cs fresh = record {
          entry = d;
          found = h;
          rules = refl;
          max_connections = refl;
          connect_timeout = refl;
          parameters = refl;
        } in
        branches AllFollow (is_running d.name old) (start_new-Follows ds ts hs k) (
          started (start d.name) (start_new start old ds (ts ++ fresh ∷ [])) ts
            (start_new-Follows ds (ts ++ fresh ∷ []) hs (All-snoc (Follows cs) ts fresh k follows))
            k)

  abbrev pub SortedIf : Bool × List (Running Net) → Type 0
  SortedIf (true, ts) = Ascending (λ t. t.config) ts
  SortedIf (false, ts) = Unit {0}

  sort_running_lem :
      (cs : List (TargetConfig (Rule Net))) (start : Bytes → Start) (r : Bool × List (Running Net))
      → All (Follows cs) r.1
      → All (Follows cs) (sort_running start r).1 × SortedIf (sort_running start r)
  unfolding sort_running
  sort_running_lem cs start (true, ts) h = (
    All-sort_targets (λ t. t.config) (Follows cs) ts h,
    sort_targets-Ascending (λ t. t.config) ts,
  )
  sort_running_lem cs start (false, ts) h = (h, tt)

  -- After a reload of a configuration that `validate` accepts, every target that runs stands in it,
  -- and has its rules, its limit, its time-out and its parameters, however new targets start; and
  -- if the server was not shut down meanwhile, the priorities that the targets have do not
  -- decrease.
  pub reload-Follows :
      (start : Bytes → Start) (cs : List (TargetConfig (Rule Net))) (ts : List (Running Net))
      → validate cs ≡ ok tt
      → All (Follows cs) (reload start cs ts).1 × SortedIf (reload start cs ts)
  unfolding reload
  reload-Follows start cs ts valid =
      let (some_target, sound, distinct) = (validate-accepts cs).0 valid in
      sort_running_lem cs start (start_new start ts cs (keep_or_drain cs ts)) (
        start_new-Follows start cs ts cs (keep_or_drain cs ts) (find_config-own cs distinct)
          (keep_or_drain-Follows cs ts))
