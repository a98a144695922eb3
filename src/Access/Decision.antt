-- ===== src/Access/Decision.antt =====
-- What the rule list decides: `checkAccess` (pkg/pgfox/target.go) and its disagreement with
-- `targetServesDatabase` (pkg/pgfox/server.go).
use pgfox.Prelude.{
  Bool, true, false, ◌&&◌, List, [], ◌∷◌, ◌++◌, ◌≡◌, refl, ◌⊎◌, inl, inr, arith, All, Bool-cases,
  ap, ◌∙◌, if◌then◌else◌,
}
use pgfox.Prelude.Bytes.{Bytes}
use pgfox.Prelude.Result.{ok, err}
use pgfox.Access.{
  deny, Rule, access_denied, is_deny, matches_name, matches_nets, check_access,
  target_serves_database,
}

module _ {Net Ip : Type 0} (contains : Net → Ip → Bool) (ip : Ip) (user database : Bytes) where
  -- All the fields that a rule gives match.
  abbrev pub matches : Rule Net → Bool
  matches r =
      matches_nets contains r.nets ip
      && matches_name r.users user
      && matches_name r.databases database

  -- The first rule that matches, with the rules that it was found behind.
  pub record FirstMatch (rules : List (Rule Net)) : Type 0 where
    pub before : List (Rule Net)
    pub rule : Rule Net
    pub after : List (Rule Net)
    pub splits : rules ≡ before ++ rule ∷ after
    pub skipped : All (λ r. matches r ≡ false) before
    pub hit : matches rule ≡ true

  check_access-skip :
      (r : Rule Net) (rules : List (Rule Net))
      → matches r ≡ false
      → check_access contains (r ∷ rules) ip user database
        ≡ check_access contains rules ip user database
  unfolding check_access
  check_access-skip r rules h = ground arith

  check_access-hit :
      (r : Rule Net) (rules : List (Rule Net))
      → matches r ≡ true
      → check_access contains (r ∷ rules) ip user database
        ≡ (if is_deny r.action then err access_denied else ok tt)
  unfolding check_access
  check_access-hit r rules h = ground arith

  -- `checkAccess` decides by the first matching rule, and permits where none matches.
  pub check_access_lem :
      (rules : List (Rule Net))
      → ((f : FirstMatch rules) × (check_access contains rules ip user database
            ≡ (if is_deny f.rule.action then err access_denied else ok tt)))
        ⊎ (All (λ r. matches r ≡ false) rules
            × (check_access contains rules ip user database ≡ ok tt))
  unfolding check_access
  check_access_lem [] = inr (tt, refl)
  check_access_lem (r ∷ rules) = elim (Bool-cases (matches r)) [
    | inl hit ↦ inl (
      record { before = []; rule = r; after = rules; splits = refl; skipped = tt; hit = hit },
      check_access-hit r rules hit,
    )
    | inr miss ↦ elim (check_access_lem rules) [
      | inl (f, e) ↦ inl (
        record {
          before = r ∷ f.before;
          rule = f.rule;
          after = f.after;
          splits = ap (◌∷◌ r) f.splits;
          skipped = (miss, f.skipped);
          hit = f.hit;
        },
        check_access-skip r rules miss ∙ e,
      )
      | inr (all, e) ↦ inr ((miss, all), check_access-skip r rules miss ∙ e)
    ]
  ]

  check_access-missed :
      (rules : List (Rule Net))
      → All (λ r. matches r ≡ false) rules
      → check_access contains rules ip user database ≡ ok tt
  unfolding check_access
  check_access-missed [] all = refl
  check_access-missed (r ∷ rules) all =
      check_access-skip r rules all.0 ∙ check_access-missed rules all.1

  matches-other_user : (r : Rule Net) → matches_name r.users user ≡ false → matches r ≡ false
  matches-other_user r u = ground arith

  serves-denied :
      (r : Rule Net) (rules : List (Rule Net)) (name : Bytes)
      → r.action ≡ deny
      → r.databases ≡ []
      → target_serves_database (r ∷ rules) name ≡ false
  unfolding target_serves_database matches_name
  serves-denied r rules name d n = rw (n, d)

  -- A leading rule that denies some users, and names no database, denies them alone in
  -- `checkAccess`: a user whom neither it nor a later rule matches is permitted. Yet
  -- `targetServesDatabase` reads it as a refusal of every database, so the target serves nobody.
  pub target_serves_database_deny_users :
      (r : Rule Net) (rules : List (Rule Net))
      → r.action ≡ deny
      → r.databases ≡ []
      → matches_name r.users user ≡ false
      → All (λ q. matches q ≡ false) rules
      → (check_access contains (r ∷ rules) ip user database ≡ ok tt)
        × ((name : Bytes) → target_serves_database (r ∷ rules) name ≡ false)
  target_serves_database_deny_users r rules d n u all = (
    check_access-missed (r ∷ rules) (matches-other_user r u, all),
    λ name. serves-denied r rules name d n,
  )
