-- ===== src/Config/Load.antt =====
-- What `LoadConfig` guarantees of the targets that it returns.
use pgfox.Prelude.{ℕ, Option, List, [], ◌∷◌, ◌≡◌, ◌≢◌, refl, arith, All, subst}
use pgfox.Prelude.Bytes.{Bytes}
use pgfox.Prelude.Result.{Result, ok, err, ◌>>=◌}
use pgfox.Access.{Rule}
use pgfox.Config.{
  RuleText, TargetConfig, ConfigError, parse_rules, default_rules, init_target, init_targets,
  sort_targets, validate, load_config,
}
use pgfox.Config.Validity.{IsSound, Distinct, names, validate-accepts}
use pgfox.Config.Order.{Ascending, sort_targets-Ascending, All-sort_targets}

abbrev OkIs : {A : Type 0} → A → Result ConfigError A → Type 0
OkIs a (ok b) = a ≡ b
OkIs a (err e) = Unit {0}

pub ok-injective :
    {A : Type 0} {a b : A} → (let r : Result ConfigError A = ok a in r) ≡ ok b → a ≡ b
ok-injective {A} {a} h = subst (OkIs a) h refl

-- What `r >>= next` went through, if it is a value.
pub went_through :
    {A B : Type 0} (r : Result ConfigError A) (next : A → Result ConfigError B) (b : B)
    → r >>= next ≡ ok b
    → (a : A) × (r ≡ ok a) × (next a ≡ ok b)
went_through (ok a) next b h = (a, refl, h)
went_through (err e) next b h = ground (arith, h)

module _ {Net : Type 0} where
  -- The numbers that the defaults fill.
  pub record IsFilled (t : TargetConfig (Rule Net)) : Type 0 where
    pub has_port : t.port ≢ 0
    pub has_limit : t.max_connections ≢ 0

  module _ (parse_cidr : Bytes → Option Net) (server_timeout : ℕ) where
    init_target-IsFilled :
        (t : TargetConfig RuleText) (u : TargetConfig (Rule Net))
        → init_target parse_cidr server_timeout t ≡ ok u
        → IsFilled u
    unfolding init_target
    init_target-IsFilled t u h =
        let (rules, h1, h2) =
          went_through (parse_rules parse_cidr t.name 0 (default_rules t.rules)) _ u h in
        record { has_port = ground (arith, h2); has_limit = ground (arith, h2) }

    init_targets-IsFilled :
        (ts : List (TargetConfig RuleText)) (us : List (TargetConfig (Rule Net)))
        → init_targets parse_cidr server_timeout ts ≡ ok us
        → All IsFilled us
    unfolding init_targets
    init_targets-IsFilled [] us h = subst (All IsFilled) (ok-injective h) tt
    init_targets-IsFilled (t ∷ ts) us h =
        let (first, h1, h2) = went_through (init_target parse_cidr server_timeout t) _ us h in
        let (rest, h3, h4) = went_through (init_targets parse_cidr server_timeout ts) _ us h2 in
        subst (All IsFilled) (ok-injective h4)
          (init_target-IsFilled t first h1, init_targets-IsFilled ts rest h3)

    -- The targets that a configuration is loaded to are accepted by `validate`: there is one, each
    -- has a name and a host, no two have the same name, and every rule allows or denies. Their
    -- priorities do not decrease, and no port and no limit on connections is 0.
    pub load_config-ready :
        (decoded : List (TargetConfig RuleText)) (ts : List (TargetConfig (Rule Net)))
        → load_config parse_cidr server_timeout decoded ≡ ok ts
        → (ts ≢ []) × All IsSound ts × Distinct (names ts) × Ascending (λ t. t) ts × All IsFilled ts
    unfolding load_config
    load_config-ready decoded ts h =
        let (us, h1, h2) = went_through (init_targets parse_cidr server_timeout decoded) _ ts h in
        let (u, h3, h4) = went_through (validate (sort_targets (λ t. t) us)) _ ts h2 in
        let eq = ok-injective h4 in
        let (some_target, sound, distinct) = (validate-accepts (sort_targets (λ t. t) us)).0 h3 in
        subst
          (λ l.
            (l ≢ []) × All IsSound l × Distinct (names l) × Ascending (λ t. t) l × All IsFilled l)
          eq
          (
            some_target,
            sound,
            distinct,
            sort_targets-Ascending (λ t. t) us,
            All-sort_targets (λ t. t) IsFilled us (init_targets-IsFilled decoded us h1),
          )
