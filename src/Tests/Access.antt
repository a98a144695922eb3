-- ===== src/Tests/Access.antt =====
-- The rule list on concrete rules. A network is a number here, and contains itself alone.
use pgfox.Prelude.{ℕ, Bool, false, List, [], ◌∷◌, ◌≡◌, refl, ◌⊎◌, All, ◌==◌, if◌then◌else◌}
use pgfox.Prelude.Bytes.{Bytes, codes, equal}
use pgfox.Prelude.Result.{ok, err}
use pgfox.Access.{
  Rule, allow, deny, access_denied, is_deny, check_access, matches_name, any_equal,
  target_serves_database,
}
use pgfox.Access.Decision.{matches, FirstMatch, check_access_lem, target_serves_database_deny_users}

abbrev is_net : ℕ → ℕ → Bool
is_net net ip = net == ip

abbrev deny_bob : Rule ℕ
deny_bob = record { action = deny; nets = []; users = codes "bob" ∷ []; databases = [] }

abbrev allow_shop : Rule ℕ
allow_shop = record { action = allow; nets = 9 ∷ []; users = []; databases = codes "shop" ∷ [] }

abbrev rules : List (Rule ℕ)
rules = allow_shop ∷ deny_bob ∷ []

check_access_lem_example :
    ((f : FirstMatch is_net 7 (codes "bob") (codes "shop") rules) × (check_access is_net rules 7
          (codes "bob")
          (codes "shop")
        ≡ (if is_deny f.rule.action then err access_denied else ok tt)))
    ⊎ (All (λ r. matches is_net 7 (codes "bob") (codes "shop") r ≡ false) rules
        × (check_access is_net rules 7 (codes "bob") (codes "shop") ≡ ok tt))
check_access_lem_example = check_access_lem is_net 7 (codes "bob") (codes "shop") rules

ann_missed : matches_name deny_bob.users (codes "ann") ≡ false
unfolding matches_name any_equal equal
ann_missed = refl

target_serves_database_deny_users_example :
    (check_access is_net (deny_bob ∷ []) 7 (codes "ann") (codes "shop") ≡ ok tt)
    × ((name : Bytes) → target_serves_database (deny_bob ∷ []) name ≡ false)
target_serves_database_deny_users_example =
    target_serves_database_deny_users is_net 7 (codes "ann") (codes "shop") deny_bob [] refl refl
      ann_missed tt
