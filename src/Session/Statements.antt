-- ===== src/Session/Statements.antt =====
-- The statement cache of a target (pkg/pgfox/cache.go) and the statement names of a client
-- (pkg/pgfox/client.go). A map is a list that is searched by key.
use pgfox.Prelude.{
  ℕ, ◌+◌, ◌-◌, Bool, true, false, Option, none, some, List, [], ◌∷◌, if◌then◌else◌, ◌≡◌, refl, ◌∙◌,
  arith,
}
use pgfox.Prelude.Bytes.{Bytes, equal, equal_iff}
use pgfox.Session.State.{ClientState}

-- `CachedStmt`
pub record CachedStmt : Type 0 where
  pub hash : Bytes
  pub canonical_sql : Bytes
  pub original_sql : Bytes
  pub param_count : ℕ
  pub executions : ℕ

-- `StmtCache.Get`
unfoldable pub get_stmt : Bytes → List CachedStmt → Option CachedStmt
get_stmt hash [] = none
get_stmt hash (e ∷ es) = if equal e.hash hash then some e else get_stmt hash es

-- `GetOrRegister`; the flag tells that the entry is new.
unfoldable pub get_or_register :
    Bytes → Bytes → Bytes → ℕ → List CachedStmt → List CachedStmt × Bool
get_or_register hash canonical_sql original_sql param_count cache = elim (get_stmt hash cache) [
  | some e ↦ (cache, false)
  | none ↦ (
    record {
      hash = hash;
      canonical_sql = canonical_sql;
      original_sql = original_sql;
      param_count = param_count;
      executions = 0;
    }
        ∷ cache,
    true,
  )
]

unfoldable pub record_execution : Bytes → List CachedStmt → List CachedStmt
record_execution hash [] = []
record_execution hash (e ∷ es) =
    let rest = record_execution hash es in
    if equal e.hash hash then record e { executions = e.executions + 1 } ∷ es else e ∷ rest

unfoldable pub lookup_internal_name : Bytes → List (Bytes × Bytes) → Option Bytes
lookup_internal_name name [] = none
lookup_internal_name name ((n, hash) ∷ rest) =
    if equal n name then some hash else lookup_internal_name name rest

-- `MapStmtName`: the new entry hides an old one.
unfoldable pub map_stmt_name : Bytes → Bytes → ClientState → ClientState
map_stmt_name name hash c = record c { stmt_name_map = (name, hash) ∷ c.stmt_name_map }

unfoldable pub delete_name : Bytes → List (Bytes × Bytes) → List (Bytes × Bytes)
delete_name name [] = []
delete_name name ((n, hash) ∷ rest) =
    let left = delete_name name rest in if equal n name then left else (n, hash) ∷ left

unfoldable pub unmap_stmt_name : Bytes → ClientState → ClientState
unfolding delete_name
unmap_stmt_name name c = record c { stmt_name_map = delete_name name c.stmt_name_map }

unfoldable pub add_named_statement : ClientState → ClientState
add_named_statement c = record c { named_stmts = c.named_stmts + 1 }

-- `if c.namedStmts > 0 { c.namedStmts-- }`: subtraction stops at 0.
unfoldable pub remove_named_statement : ClientState → ClientState
remove_named_statement c = record c { named_stmts = c.named_stmts - 1 }

abbrev pub new_stmt : Bytes → Bytes → Bytes → ℕ → CachedStmt
new_stmt hash canonical_sql original_sql param_count = record {
  hash = hash;
  canonical_sql = canonical_sql;
  original_sql = original_sql;
  param_count = param_count;
  executions = 0;
}

-- The first registration of a hash wins: behind `GetOrRegister` a lookup of the hash finds the
-- entry that was there before, or else the new one, and a lookup of any other hash finds what it
-- found before.
pub get_stmt-get_or_register :
    (key hash canonical_sql original_sql : Bytes) (param_count : ℕ) (cache : List CachedStmt)
    → get_stmt key (get_or_register hash canonical_sql original_sql param_count cache).0 ≡ (
        if equal hash key
        then (elim (get_stmt hash cache) [
          | some e ↦ some e
          | none ↦ some (new_stmt hash canonical_sql original_sql param_count)
        ])
        else get_stmt key cache)
unfolding get_or_register get_stmt
get_stmt-get_or_register key hash canonical_sql original_sql param_count cache =
    ground (arith, equal_iff hash key)

lookup-delete :
    (key name : Bytes) (names : List (Bytes × Bytes))
    → lookup_internal_name key (delete_name name names)
      ≡ (if equal name key then none else lookup_internal_name key names)
unfolding lookup_internal_name delete_name
lookup-delete key name [] = ground arith
lookup-delete key name ((n, hash) ∷ rest) =
    ground
      (arith, lookup-delete key name rest, equal_iff name key, equal_iff n name, equal_iff n key)

-- A client's statement names are a map: a name that was mapped and then unmapped is unknown
-- whatever it meant before, mapping it makes exactly it mean the new hash, and other names mean
-- what they meant.
pub lookup_internal_name-map_unmap :
    (key name hash : Bytes) (c : ClientState)
    → let mapped = map_stmt_name name hash c in
      (lookup_internal_name key mapped.stmt_name_map
        ≡ (if equal name key then some hash else lookup_internal_name key c.stmt_name_map))
      × (lookup_internal_name key (unmap_stmt_name name mapped).stmt_name_map
          ≡ (if equal name key then none else lookup_internal_name key c.stmt_name_map))
unfolding map_stmt_name unmap_stmt_name lookup_internal_name
lookup_internal_name-map_unmap key name hash c =
    (refl, lookup-delete key name ((name, hash) ∷ c.stmt_name_map) ∙ ground arith)
