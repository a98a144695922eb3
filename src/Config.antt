-- ===== src/Config.antt =====
-- The targets of a configuration: the part of `LoadConfig` behind the YAML decoder, and `validate`,
-- of pkg/pgfox/config.go. `net.ParseCIDR` is an argument; the network's type is that of the access
-- rules.
pub mod Validity
pub mod Order
pub mod Load
use pgfox.Prelude.{
  ℕ, zero, suc, Bool, true, false, ◌&&◌, ◌||◌, Option, none, some, List, [], ◌∷◌, if◌then◌else◌,
  ◌==◌, ltb,
}
use pgfox.Prelude.Bytes.{Bytes, codes, equal}
use pgfox.Prelude.Result.{Result, ok, err, ◌>>=◌}
use pgfox.Access.{RuleAction, allow, deny, other, Rule, any_equal}

-- A rule as it stands in the file.
pub record RuleText : Type 0 where
  pub action : RuleAction
  pub cidr : List Bytes
  pub users : List Bytes
  pub databases : List Bytes

-- The fields of `Target` that a configuration sets; `R` is the type of its rules.
pub record TargetConfig (R : Type 0) : Type 0 where
  pub name : Bytes
  pub host : Bytes
  pub port : ℕ
  pub max_connections : ℕ
  pub connect_timeout : ℕ
  pub parameters : List (Bytes × Bytes)
  pub priority : ℕ
  pub rules : List R

pub data ConfigError : Type 0 where
  no_targets : ConfigError
  name_required : ℕ → ConfigError
  host_required : ℕ → ConfigError
  duplicate_name : ℕ → Bytes → ConfigError
  bad_action : ℕ → ℕ → ConfigError
  invalid_cidr : Bytes → ℕ → Bytes → ConfigError

-- The rule for system databases, where the file has no rules.
unfoldable pub default_rules : List RuleText → List RuleText
default_rules [] =
    record {
      action = deny;
      cidr = [];
      users = [];
      databases = codes "template0" ∷ codes "template1" ∷ [];
    }
    ∷ []
default_rules (r ∷ rules) = r ∷ rules

-- `if x == 0 { x = default }`
abbrev or_default : ℕ → ℕ → ℕ
or_default value default = if value == 0 then default else value

module _ {Net : Type 0} (parse_cidr : Bytes → Option Net) where
  unfoldable pub parse_nets : Bytes → ℕ → List Bytes → Result ConfigError (List Net)
  parse_nets name i [] = ok []
  parse_nets name i (cidr ∷ cidrs) = elim (parse_cidr cidr) [
    | none ↦ err (invalid_cidr name i cidr)
    | some net ↦ parse_nets name i cidrs >>= λ nets. ok (net ∷ nets)
  ]

  unfoldable pub parse_rules : Bytes → ℕ → List RuleText → Result ConfigError (List (Rule Net))
  unfolding parse_nets
  parse_rules name i [] = ok []
  parse_rules name i (r ∷ rules) = do
    nets ← parse_nets name i r.cidr
    parsed ← parse_rules name (suc i) rules
    ok (
        record { action = r.action; nets = nets; users = r.users; databases = r.databases }
        ∷ parsed)

  -- One round of the loop over the targets.
  unfoldable pub init_target :
      ℕ → TargetConfig RuleText → Result ConfigError (TargetConfig (Rule Net))
  unfolding parse_rules default_rules
  init_target server_timeout t = do
    rules ← parse_rules t.name 0 (default_rules t.rules)
    ok record {
      name = t.name;
      host = t.host;
      port = or_default t.port 5432;
      max_connections = or_default t.max_connections 20;
      connect_timeout = or_default t.connect_timeout server_timeout;
      parameters = t.parameters;
      priority = t.priority;
      rules = rules;
    }

  unfoldable pub init_targets :
      ℕ → List (TargetConfig RuleText) → Result ConfigError (List (TargetConfig (Rule Net)))
  unfolding init_target
  init_targets server_timeout [] = ok []
  init_targets server_timeout (t ∷ ts) = do
    first ← init_target server_timeout t
    rest ← init_targets server_timeout ts
    ok (first ∷ rest)

-- `<` on strings.
unfoldable pub name_less : Bytes → Bytes → Bool
name_less [] [] = false
name_less [] (d ∷ ds) = true
name_less (c ∷ cs) [] = false
name_less (c ∷ cs) (d ∷ ds) = ltb c d || c == d && name_less cs ds

-- Lower numbers first, ties by name.
unfoldable pub comes_before : {R : Type 0} → TargetConfig R → TargetConfig R → Bool
unfolding name_less
comes_before a b =
    if a.priority == b.priority then name_less a.name b.name else ltb a.priority b.priority

-- `sort.Slice` on what has a configuration; the order is unique where the names differ.
module _ {A R : Type 0} (config_of : A → TargetConfig R) where
  unfoldable pub insert : A → List A → List A
  unfolding comes_before
  insert t [] = t ∷ []
  insert t (u ∷ us) =
      let rest = insert t us in
      if comes_before (config_of t) (config_of u) then t ∷ u ∷ us else u ∷ rest

  unfoldable pub sort_targets : List A → List A
  unfolding insert
  sort_targets [] = []
  sort_targets (t ∷ ts) = insert t (sort_targets ts)

abbrev pub is_known : RuleAction → Bool
is_known allow = true
is_known deny = true
is_known (other text) = false

abbrev pub is_missing : Bytes → Bool
is_missing [] = true
is_missing (c ∷ rest) = false

module _ {Net : Type 0} where
  -- The loop over a target's rules.
  unfoldable pub check_rules : ℕ → ℕ → List (Rule Net) → Result ConfigError (Unit {0})
  check_rules i j [] = ok tt
  check_rules i j (r ∷ rules) =
      let rest = check_rules i (suc j) rules in
      if is_known r.action then rest else err (bad_action i j)

  -- The loop over the targets, with `seen`.
  unfoldable pub check_targets :
      ℕ → List Bytes → List (TargetConfig (Rule Net)) → Result ConfigError (Unit {0})
  unfolding check_rules
  check_targets i seen [] = ok tt
  check_targets i seen (t ∷ ts) =
      let rest = check_targets (suc i) (t.name ∷ seen) ts in
      if is_missing t.name
      then err (name_required i)
      else if is_missing t.host
      then err (host_required i)
      else if any_equal seen t.name
      then err (duplicate_name i t.name)
      else (check_rules i 0 t.rules >>= λ _. rest)

  unfoldable pub validate : List (TargetConfig (Rule Net)) → Result ConfigError (Unit {0})
  unfolding check_targets
  validate [] = err no_targets
  validate (t ∷ ts) = check_targets 0 [] (t ∷ ts)

-- `LoadConfig` on the decoded targets.
unfoldable pub load_config :
    {Net : Type 0}
    → (Bytes → Option Net)
    → ℕ
    → List (TargetConfig RuleText)
    → Result ConfigError (List (TargetConfig (Rule Net)))
unfolding init_targets sort_targets validate
load_config parse_cidr server_timeout decoded = do
  ts ← init_targets parse_cidr server_timeout decoded
  _ ← validate (sort_targets (λ t. t) ts)
  ok (sort_targets (λ t. t) ts)
