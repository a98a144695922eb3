-- ===== src/Config/Validity.antt =====
-- What `validate` accepts.
use pgfox.Prelude.{
  ℕ, suc, Bool, true, false, List, [], ◌∷◌, if◌then◌else◌, map, ◌≡◌, ◌≢◌, ◌↔◌, refl, arith, All,
}
use pgfox.Prelude.Bytes.{Bytes, equal_iff}
use pgfox.Prelude.Result.{Result, ok, err, ◌>>=◌}
use pgfox.Access.{Rule, any_equal}
use pgfox.Config.{
  TargetConfig, ConfigError, name_required, host_required, duplicate_name, is_known, is_missing,
  check_rules, check_targets, validate,
}

-- No two of the names are equal.
abbrev pub Distinct : List Bytes → Type 0
Distinct [] = Unit {0}
Distinct (n ∷ ns) = All (λ m. n ≢ m) ns × Distinct ns

named-missing : (s : Bytes) → is_missing s ≡ false → s ≢ []
named-missing [] h = ground (arith, h)
named-missing (c ∷ s) h = ground arith

missing-named : (s : Bytes) → s ≢ [] → is_missing s ≡ false
missing-named [] h = ground (arith, h)
missing-named (c ∷ s) h = refl

both_ok : (r s : Result ConfigError (Unit {0})) → (r >>= λ _. s) ≡ ok tt → (r ≡ ok tt) × (s ≡ ok tt)
both_ok (ok u) s h = (refl, h)
both_ok (err e) s h = ground (arith, h)

peel :
    (b : Bool) (e : ConfigError) (r : Result ConfigError (Unit {0}))
    → (if b then err e else r) ≡ ok tt
    → (b ≡ false) × (r ≡ ok tt)
peel true e r h = ground (arith, h)
peel false e r h = (refl, h)

module _ {Net : Type 0} where
  pub record IsSound (t : TargetConfig (Rule Net)) : Type 0 where
    pub named : t.name ≢ []
    pub hosted : t.host ≢ []
    pub known : All (λ r. is_known r.action ≡ true) t.rules

  abbrev pub names : List (TargetConfig (Rule Net)) → List Bytes
  names ts = map (λ t. t.name) ts

  check_rules_sound :
      (i j : ℕ) (rules : List (Rule Net))
      → check_rules i j rules ≡ ok tt
      → All (λ r. is_known r.action ≡ true) rules
  unfolding check_rules
  check_rules_sound i j [] h = tt
  check_rules_sound i j (r ∷ rules) h =
      (ground (arith, h), check_rules_sound i (suc j) rules (ground (arith, h)))

  check_rules-accepts :
      (i j : ℕ) (rules : List (Rule Net))
      → All (λ r. is_known r.action ≡ true) rules
      → check_rules i j rules ≡ ok tt
  unfolding check_rules
  check_rules-accepts i j [] h = refl
  check_rules-accepts i j (r ∷ rules) (h, hs) =
      ground (arith, h, check_rules-accepts i (suc j) rules hs)

  -- What the rounds for later targets ask, split into what stands against `n` and the rest.
  apart :
      (n : Bytes) (seen : List Bytes) (ts : List (TargetConfig (Rule Net)))
      → All (λ t. any_equal (n ∷ seen) t.name ≡ false) ts
      → All (λ t. any_equal seen t.name ≡ false) ts × All (λ m. n ≢ m) (names ts)
  unfolding any_equal
  apart n seen [] h = (tt, tt)
  apart n seen (t ∷ ts) (h, hs) =
      let (later, others) = apart n seen ts hs in
      ((ground (arith, h), later), (λ eq. ground (arith, h, (equal_iff n t.name).1 eq), others))

  join :
      (n : Bytes) (seen : List Bytes) (ts : List (TargetConfig (Rule Net)))
      → All (λ t. any_equal seen t.name ≡ false) ts
      → All (λ m. n ≢ m) (names ts)
      → All (λ t. any_equal (n ∷ seen) t.name ≡ false) ts
  unfolding any_equal
  join n seen [] h k = tt
  join n seen (t ∷ ts) (h, hs) (k, ks) =
      (ground (arith, h, k, (equal_iff n t.name).0), join n seen ts hs ks)

  pub record Passes (i : ℕ) (seen : List Bytes) (t : TargetConfig (Rule Net))
      (ts : List (TargetConfig (Rule Net))) : Type 0 where
    pub has_name : t.name ≢ []
    pub has_host : t.host ≢ []
    pub is_new : any_equal seen t.name ≡ false
    pub rules_ok : check_rules i 0 t.rules ≡ ok tt
    pub rest_ok : check_targets (suc i) (t.name ∷ seen) ts ≡ ok tt

  check_targets-Passes :
      (i : ℕ) (seen : List Bytes) (t : TargetConfig (Rule Net))
      (ts : List (TargetConfig (Rule Net)))
      → check_targets i seen (t ∷ ts) ≡ ok tt
      → Passes i seen t ts
  unfolding check_targets
  check_targets-Passes i seen t ts h =
      let rest = check_targets (suc i) (t.name ∷ seen) ts in
      let checked = check_rules i 0 t.rules >>= λ _. rest in
      let fresh = if any_equal seen t.name then err (duplicate_name i t.name) else checked in
      let hosted = if is_missing t.host then err (host_required i) else fresh in
      let (name_ok, h1) = peel (is_missing t.name) (name_required i) hosted h in
      let (host_ok, h2) = peel (is_missing t.host) (host_required i) fresh h1 in
      let (new_ok, h3) = peel (any_equal seen t.name) (duplicate_name i t.name) checked h2 in
      let (rules_ok, rest_ok) = both_ok (check_rules i 0 t.rules) rest h3 in
      record {
        has_name = named-missing t.name name_ok;
        has_host = named-missing t.host host_ok;
        is_new = new_ok;
        rules_ok = rules_ok;
        rest_ok = rest_ok;
      }

  abbrev Accepts : List Bytes → List (TargetConfig (Rule Net)) → Type 0
  Accepts seen ts =
      All IsSound ts × All (λ t. any_equal seen t.name ≡ false) ts × Distinct (names ts)

  check_targets-Accepts :
      (i : ℕ) (seen : List Bytes) (ts : List (TargetConfig (Rule Net)))
      → check_targets i seen ts ≡ ok tt
      → Accepts seen ts
  check_targets-Accepts i seen [] h = (tt, tt, tt)
  check_targets-Accepts i seen (t ∷ ts) h =
      let p = check_targets-Passes i seen t ts h in
      let (sound, new, distinct) = check_targets-Accepts (suc i) (t.name ∷ seen) ts p.rest_ok in
      let (later, others) = apart t.name seen ts new in
      (
        (
          record {
            named = p.has_name;
            hosted = p.has_host;
            known = check_rules_sound i 0 t.rules p.rules_ok;
          },
          sound,
        ),
        (p.is_new, later),
        (others, distinct),
      )

  Accepts-check_targets :
      (i : ℕ) (seen : List Bytes) (ts : List (TargetConfig (Rule Net)))
      → Accepts seen ts
      → check_targets i seen ts ≡ ok tt
  unfolding check_targets
  Accepts-check_targets i seen [] h = refl
  Accepts-check_targets i seen (t ∷ ts) ((sound, sounds), (new, later), (others, distinct)) = rw (
    missing-named t.name sound.named,
    missing-named t.host sound.hosted,
    new,
    check_rules-accepts i 0 t.rules sound.known,
    Accepts-check_targets (suc i) (t.name ∷ seen) ts
        (sounds, join t.name seen ts later others, distinct),
  )

  none_seen : (ts : List (TargetConfig (Rule Net))) → All (λ t. any_equal [] t.name ≡ false) ts
  unfolding any_equal
  none_seen [] = tt
  none_seen (t ∷ ts) = (refl, none_seen ts)

  -- `validate` accepts exactly the configurations that have a target, in which every target has a
  -- name and a host, no two targets have the same name, and every rule allows or denies.
  pub validate-accepts :
      (ts : List (TargetConfig (Rule Net)))
      → (validate ts ≡ ok tt) ↔ ((ts ≢ []) × All IsSound ts × Distinct (names ts))
  unfolding validate
  validate-accepts [] =
      ((λ h. ground (arith, h)), (λ (some_target, sound, distinct). absurd (some_target refl)))
  validate-accepts (t ∷ ts) = (
    (λ h.
        let (sound, new, distinct) = check_targets-Accepts 0 [] (t ∷ ts) h in
        (ground arith, sound, distinct)),
    (λ (some_target, sound, distinct).
        Accepts-check_targets 0 [] (t ∷ ts) (sound, none_seen (t ∷ ts), distinct)),
  )
