-- ===== src/Server/Complete.antt =====
-- Every target of the configuration runs after `Reload` of pkg/pgfox/server.go.
use pgfox.Prelude.{
  Bool, true, false, Option, none, some, List, [], ◌∷◌, ◌++◌, ◌≡◌, refl, sym, subst, arith, All,
  branches, decided,
}
use pgfox.Prelude.Bytes.{Bytes, equal, equal_iff, equal_refl}
use pgfox.Prelude.Result.{ok}
use pgfox.Access.{Rule}
use pgfox.Config.{TargetConfig, comes_before, insert, sort_targets, validate}
use pgfox.Config.Validity.{validate-accepts}
use pgfox.Server.{
  Running, find_config, is_running, update, keep_or_drain, Start, became_ready, timed_out,
  shut_down, start_new, sort_running, reload,
}
use pgfox.Server.Reload.{find_config-own}

module _ {Net : Type 0} where
  abbrev Runs : Bytes → List (Running Net) → Type 0
  Runs name ts = is_running name ts ≡ true

  is_running-front :
      (name : Bytes) (t : Running Net) (ts us : List (Running Net))
      → (Runs name ts → Runs name us)
      → Runs name (t ∷ ts)
      → Runs name (t ∷ us)
  is_running-front name t ts us f h = ground (arith, f, h)

  is_running-append :
      (name : Bytes) (ts us : List (Running Net)) → Runs name ts → Runs name (ts ++ us)
  is_running-append name [] us h = ground (arith, h)
  is_running-append name (t ∷ ts) us h =
      is_running-front name t ts (ts ++ us) (is_running-append name ts us) h

  is_running-last :
      (name : Bytes) (ts : List (Running Net)) (t : Running Net)
      → equal t.config.name name ≡ true
      → Runs name (ts ++ t ∷ [])
  is_running-last name [] t h = ground (arith, h)
  is_running-last name (u ∷ ts) t h = ground (arith, is_running-last name ts t h)

  is_running-insert :
      (name : Bytes) (t : Running Net) (us : List (Running Net))
      → Runs name (t ∷ us)
      → Runs name (insert (λ u. u.config) t us)
  unfolding insert
  is_running-insert name t [] h = h
  is_running-insert name t (u ∷ us) h =
      branches (Runs name) (comes_before t.config u.config) h
        (ground (arith, h, is_running-insert name t us))

  is_running-sort :
      (name : Bytes) (ts : List (Running Net))
      → Runs name ts
      → Runs name (sort_targets (λ u. u.config) ts)
  unfolding sort_targets
  is_running-sort name [] h = h
  is_running-sort name (t ∷ ts) h =
      is_running-insert name t (sort_targets (λ u. u.config) ts)
        (is_running-front name t ts (sort_targets (λ u. u.config) ts) (is_running-sort name ts) h)

  kept-front :
      (name : Bytes) (t : Running Net) (rest : List (Running Net))
      (r : Option (TargetConfig (Rule Net)))
      → (equal t.config.name name ≡ true → (c : TargetConfig (Rule Net)) × (r ≡ some c))
      → (equal t.config.name name ≡ false → Runs name rest)
      → Runs name (elim r [ none ↦ rest | some c ↦ update c t ∷ rest ])
  unfolding update
  kept-front name t rest none f g = ground (arith, f, g)
  kept-front name t rest (some c) f g = ground (arith, g)

  -- A target that the configuration names is kept.
  keep_or_drain-Runs :
      (cs : List (TargetConfig (Rule Net))) (d : TargetConfig (Rule Net)) (ts : List (Running Net))
      → find_config d.name cs ≡ some d
      → Runs d.name ts
      → Runs d.name (keep_or_drain cs ts)
  unfolding keep_or_drain
  keep_or_drain-Runs cs d [] h k = ground (arith, k)
  keep_or_drain-Runs cs d (t ∷ ts) h k =
      kept-front d.name t (keep_or_drain cs ts) (find_config t.config.name cs)
        (λ e. (
          d,
          subst (λ n. find_config n cs ≡ some d) (sym ((equal_iff t.config.name d.name).0 e)) h,
        ))
        (λ e. keep_or_drain-Runs cs d ts h (ground (arith, k, e)))

  All-kept :
      (cs ds : List (TargetConfig (Rule Net))) (ts : List (Running Net))
      → All (λ d. find_config d.name cs ≡ some d) ds
      → All (λ d. Runs d.name ts → Runs d.name (keep_or_drain cs ts)) ds
  All-kept cs [] ts h = tt
  All-kept cs (d ∷ ds) ts (h, hs) = (keep_or_drain-Runs cs d ts h, All-kept cs ds ts hs)

  module _ (start : Bytes → Start) (old : List (Running Net)) where
    -- Unless the server shut down, `name` runs.
    abbrev RunsAfter : Bytes → Bool × List (Running Net) → Type 0
    RunsAfter name r = r.0 ≡ true → Runs name r.1

    on_start :
        (P : Bool × List (Running Net) → Type 0) (s : Start) (after : Bool × List (Running Net))
        (ts : List (Running Net))
        → P after
        → P (false, ts)
        → P (elim s [ became_ready ↦ after | timed_out ↦ after | shut_down ↦ (false, ts) ])
    on_start P became_ready after ts h k = h
    on_start P timed_out after ts h k = h
    on_start P shut_down after ts h k = k

    start_new-keeps :
        (name : Bytes) (ds : List (TargetConfig (Rule Net))) (ts : List (Running Net))
        → Runs name ts
        → RunsAfter name (start_new start old ds ts)
    unfolding start_new
    start_new-keeps name [] ts h = λ e. h
    start_new-keeps name (d ∷ ds) ts h =
        let fresh : Running Net = record { config = d; draining = false; pools = [] } in
        let added = ts ++ fresh ∷ [] in
        branches (RunsAfter name) (is_running d.name old) (start_new-keeps name ds ts h) (
          on_start (RunsAfter name) (start d.name) (start_new start old ds added) ts
            (start_new-keeps name ds added (is_running-append name ts (fresh ∷ []) h)) (λ e. h))

    abbrev StaysIn : List (Running Net) → TargetConfig (Rule Net) → Type 0
    StaysIn ts d = Runs d.name old → Runs d.name ts

    All-StaysIn :
        (ds : List (TargetConfig (Rule Net))) (ts us : List (Running Net))
        → All (StaysIn ts) ds
        → All (StaysIn (ts ++ us)) ds
    All-StaysIn [] ts us h = tt
    All-StaysIn (d ∷ ds) ts us (h, hs) =
        ((λ k. is_running-append d.name ts us (h k)), All-StaysIn ds ts us hs)

    AllRun : List (TargetConfig (Rule Net)) → Bool × List (Running Net) → Type 0
    AllRun ds r = r.0 ≡ true → All (λ d. Runs d.name r.1) ds

    with_first :
        (d : TargetConfig (Rule Net)) (ds : List (TargetConfig (Rule Net)))
        (r : Bool × List (Running Net))
        → RunsAfter d.name r
        → AllRun ds r
        → AllRun (d ∷ ds) r
    unfolding AllRun
    with_first d ds r h k e = (h e, k e)

    start_new-AllRun :
        (ds : List (TargetConfig (Rule Net))) (ts : List (Running Net))
        → All (StaysIn ts) ds
        → AllRun ds (start_new start old ds ts)
    unfolding start_new AllRun
    start_new-AllRun [] ts h = λ e. tt
    start_new-AllRun (d ∷ ds) ts (h, hs) =
        let fresh : Running Net = record { config = d; draining = false; pools = [] } in
        let added = ts ++ fresh ∷ [] in
        decided (AllRun (d ∷ ds)) (is_running d.name old)
          (λ runs.
            with_first d ds (start_new start old ds ts) (start_new-keeps d.name ds ts (h runs))
              (start_new-AllRun ds ts hs))
          (λ _.
            on_start (AllRun (d ∷ ds)) (start d.name) (start_new start old ds added) ts
              (with_first d ds (start_new start old ds added)
                (start_new-keeps d.name ds added
                  (is_running-last d.name ts fresh (equal_refl d.name)))
                (start_new-AllRun ds added (All-StaysIn ds ts (fresh ∷ []) hs)))
              (λ e. ground (arith, e)))

    All-sorted :
        (ds : List (TargetConfig (Rule Net))) (ts : List (Running Net))
        → All (λ d. Runs d.name ts) ds
        → All (λ d. Runs d.name (sort_targets (λ u. u.config) ts)) ds
    All-sorted [] ts h = tt
    All-sorted (d ∷ ds) ts (h, hs) = (is_running-sort d.name ts h, All-sorted ds ts hs)

    sort_running-AllRun :
        (ds : List (TargetConfig (Rule Net))) (r : Bool × List (Running Net))
        → AllRun ds r
        → AllRun ds (sort_running start r)
    unfolding sort_running AllRun
    sort_running-AllRun ds (true, ts) h e = All-sorted ds ts (h refl)
    sort_running-AllRun ds (false, ts) h e = h e

  -- After a reload of a configuration that `validate` accepts, during which the server is not shut
  -- down, every target of the configuration runs, whether it ran before or is new, and whether or
  -- not it became ready in time.
  pub reload_complete :
      (start : Bytes → Start) (cs : List (TargetConfig (Rule Net))) (ts : List (Running Net))
      → validate cs ≡ ok tt
      → (reload start cs ts).0 ≡ true
      → All (λ d. is_running d.name (reload start cs ts).1 ≡ true) cs
  unfolding reload AllRun
  reload_complete start cs ts valid =
      let (some_target, sound, distinct) = (validate-accepts cs).0 valid in
      sort_running-AllRun start ts cs (start_new start ts cs (keep_or_drain cs ts)) (
        start_new-AllRun start ts cs (keep_or_drain cs ts)
          (All-kept cs cs ts (find_config-own cs distinct)))
