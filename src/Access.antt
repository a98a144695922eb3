-- ===== src/Access.antt =====
-- Access rules: `Rule` and its matchers in pkg/pgfox/config.go, `checkAccess` in
-- pkg/pgfox/target.go and `targetServesDatabase` in pkg/pgfox/server.go. Networks, addresses and
-- `IPNet.Contains` are Go's `net` package, a parameter of the matchers. `RuleAction` is a string
-- in Go; `other` stands for one that `validate` rejects.
pub mod Decision
use pgfox.Prelude.{ℕ, Bool, true, false, not, ◌&&◌, ◌||◌, List, [], ◌∷◌, if◌then◌else◌}
use pgfox.Prelude.Bytes.{Bytes, equal}
use pgfox.Prelude.Result.{Result, ok, err}

pub data RuleAction : Type 0 where
  allow : RuleAction
  deny : RuleAction
  other : Bytes → RuleAction

pub record Rule (Net : Type 0) : Type 0 where
  pub action : RuleAction
  pub nets : List Net
  pub users : List Bytes
  pub databases : List Bytes

pub data AccessError : Type 0 where
  access_denied : AccessError

-- `r.Action == RuleDeny`, and `r.Action == RuleAllow`.
abbrev pub is_deny : RuleAction → Bool
is_deny deny = true
is_deny _ = false

abbrev pub is_allow : RuleAction → Bool
is_allow allow = true
is_allow _ = false

-- The loop over `Users` or `Databases`.
unfoldable pub any_equal : List Bytes → Bytes → Bool
any_equal [] name = false
any_equal (x ∷ xs) name = if equal x name then true else any_equal xs name

-- An empty list matches anything.
unfoldable pub matches_name : List Bytes → Bytes → Bool
matches_name [] name = true
matches_name (x ∷ xs) name = any_equal (x ∷ xs) name

module _ {Net Ip : Type 0} (contains : Net → Ip → Bool) where
  unfoldable pub any_contains : List Net → Ip → Bool
  any_contains [] ip = false
  any_contains (n ∷ ns) ip = if contains n ip then true else any_contains ns ip

  unfoldable pub matches_nets : List Net → Ip → Bool
  matches_nets [] ip = true
  matches_nets (n ∷ ns) ip = any_contains (n ∷ ns) ip

  abbrev pub matches_ip : Rule Net → Ip → Bool
  matches_ip r ip = matches_nets r.nets ip

  abbrev pub matches_user : Rule Net → Bytes → Bool
  matches_user r user = matches_name r.users user

  abbrev pub matches_database : Rule Net → Bytes → Bool
  matches_database r database = matches_name r.databases database

  unfoldable pub check_access : List (Rule Net) → Ip → Bytes → Bytes → Result AccessError (Unit {0})
  check_access [] ip user database = ok tt
  check_access (r ∷ rules) ip user database =
      let next = check_access rules ip user database in
      if not (matches_ip r ip)
      then next
      else if not (matches_user r user)
      then next
      else if not (matches_database r database)
      then next
      else if is_deny r.action
      then err access_denied
      else ok tt

-- `targetServesDatabase` looks at the database field of the rules alone.
unfoldable pub target_serves_database : {Net : Type 0} → List (Rule Net) → Bytes → Bool
target_serves_database [] db_name = true
target_serves_database (r ∷ rules) db_name =
    let next = target_serves_database rules db_name in
    if not (matches_name r.databases db_name) then next else is_allow r.action
