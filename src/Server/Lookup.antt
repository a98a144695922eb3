-- ===== src/Server/Lookup.antt =====
-- The pool that `getPool` of pkg/pgfox/server.go finds or makes.
use pgfox.Prelude.{
  ℕ, true, false, inl, inr, Option-cases, Option, none, some, List, [], ◌∷◌, ◌++◌, ◌≡◌, refl, arith,
  decided, Bool-cases, subst,
}
use pgfox.Prelude.Bytes.{Bytes, equal, equal_refl}
use pgfox.Server.{
  Allocated, Running, pool_key, load, load_or_store, new_pool, serves, existing_pool, create_pool,
  get_pool,
}

load-last :
    (key : Bytes) (p : Allocated) (pools : List (Bytes × Allocated))
    → load key pools ≡ none
    → load key (pools ++ (key, p) ∷ []) ≡ some p
unfolding load
load-last key p [] h = rw (equal_refl key)
load-last key p ((k, q) ∷ pools) h = ground (arith, h, load-last key p pools)

stored :
    (key : Bytes) (p : Allocated) (pools : List (Bytes × Allocated)) (r : Option Allocated)
    → load key pools ≡ r
    → (let after : Allocated × List (Bytes × Allocated) = elim r [
      | none ↦ (p, pools ++ (key, p) ∷ [])
      | some q ↦ (q, pools)
    ] in
        load key after.1 ≡ some after.0)
stored key p pools none h = load-last key p pools h
stored key p pools (some q) h = h

load-load_or_store :
    (key : Bytes) (p : Allocated) (pools : List (Bytes × Allocated))
    → load key (load_or_store key p pools).1 ≡ some (load_or_store key p pools).0
unfolding load_or_store
load-load_or_store key p pools = stored key p pools (load key pools) refl

-- What was there is still there.
abbrev pub Extends : Option Allocated → Option Allocated → Type 0
Extends none after = Unit
Extends (some q) after = after ≡ some q

Extends-refl : (o : Option Allocated) → Extends o o
Extends-refl none = tt
Extends-refl (some q) = refl

load-append :
    (key k : Bytes) (p : Allocated) (pools : List (Bytes × Allocated))
    → Extends (load key pools) (load key (pools ++ (k, p) ∷ []))
unfolding load
load-append key k p [] = tt
load-append key k p ((j, q) ∷ pools) = elim (Bool-cases (equal j key)) [
  | inl h ↦ rw h refl
  | inr h ↦ rw h (load-append key k p pools)
]

load_or_store-Extends :
    (key k : Bytes) (p : Allocated) (pools : List (Bytes × Allocated))
    → Extends (load key pools) (load key (load_or_store k p pools).1)
unfolding load_or_store
load_or_store-Extends key k p pools = elim (Option-cases (load k pools)) [
  | inl e ↦ rw (e, load_or_store) (load-append key k p pools)
  | inr (q, e) ↦ rw (e, load_or_store) (Extends-refl (load key pools))
]

-- Target by target, every pool is still under its key.
pub IsKept : {Net : Type 0} → List (Running Net) → List (Running Net) → Type 0
IsKept [] [] = Unit
IsKept [] (u ∷ us) = true ≡ false
IsKept (t ∷ ts) [] = true ≡ false
IsKept (t ∷ ts) (u ∷ us) =
    ((key : Bytes) → Extends (load key t.pools) (load key u.pools)) × IsKept ts us

IsKept-refl : {Net : Type 0} (ts : List (Running Net)) → IsKept ts ts
unfolding IsKept
IsKept-refl [] = tt
IsKept-refl (t ∷ ts) = (λ key. Extends-refl (load key t.pools), IsKept-refl ts)

module _ {Net : Type 0} (db_name user : Bytes) where
  -- The next fast path gives what was found.
  abbrev IsThere : Option Allocated × List (Running Net) → Type 0
  IsThere (found, ts) = existing_pool db_name user ts ≡ found

  create_pool-IsThere :
      (address : ℕ) (ts : List (Running Net)) → IsThere (create_pool address db_name user ts)
  unfolding create_pool existing_pool serves
  create_pool-IsThere address [] = refl
  create_pool-IsThere address (t ∷ ts) =
      decided IsThere (serves t db_name)
        (λ h. rw (
          h,
          load-load_or_store (pool_key db_name user)
              record { address = address; pool = new_pool db_name user t.config.max_connections }
              t.pools,
        ))
        (λ h. rw (h, create_pool-IsThere address ts))

  create_pool-IsKept :
      (address : ℕ) (ts : List (Running Net)) → IsKept ts (create_pool address db_name user ts).1
  unfolding create_pool serves IsKept
  create_pool-IsKept address [] = tt
  create_pool-IsKept address (t ∷ ts) =
      let p : Allocated = record {
        address = address;
        pool = new_pool db_name user t.config.max_connections;
      } in
      let target = λ (r : Option Allocated × List (Running Net)). IsKept (t ∷ ts) r.1 in
      decided target (serves t db_name)
        (λ h. (λ key. load_or_store-Extends key (pool_key db_name user) p t.pools, IsKept-refl ts))
        (λ h. (λ key. Extends-refl (load key t.pools), create_pool-IsKept address ts))

  -- The targets as the call finds them where it acts: at its fast path, or at its slow path.
  pub as_found : (List (Running Net) → List (Running Net)) → List (Running Net) → List (Running Net)
  as_found others ts = elim (existing_pool db_name user ts) [ some p ↦ ts | none ↦ others ts ]

  Stable : List (Running Net) → Option Allocated × List (Running Net) → Type 0
  Stable base (found, after) = (existing_pool db_name user after ≡ found) × IsKept base after

  get_pool-Stable :
      (others : List (Running Net) → List (Running Net)) (address : ℕ) (ts : List (Running Net))
      → Stable (as_found others ts) (get_pool others address db_name user ts)
  unfolding get_pool as_found Stable
  get_pool-Stable others address ts = elim (Option-cases (existing_pool db_name user ts)) [
    | inl e ↦
        rw (e, get_pool, as_found)
          (create_pool-IsThere address (others ts), create_pool-IsKept address (others ts))
    | inr (p, e) ↦ rw (e, get_pool, as_found) (e, IsKept-refl ts)
  ]

  -- A pool is made once, whatever other goroutines do in a call between its fast and its slow
  -- path. A call that gives a pool leaves every pool that it found, under whatever key, in its
  -- place: at its fast path, or at its slow path, where other goroutines may have made some by
  -- then. And the next call for the same database and user gives the same pool, at the same
  -- address, and changes nothing.
  pub get_pool-stable :
      (others others_next : List (Running Net) → List (Running Net)) (address address_next : ℕ)
      (ts after : List (Running Net)) (p : Allocated)
      → get_pool others address db_name user ts ≡ (some p, after)
      → IsKept (as_found others ts) after
        × (get_pool others_next address_next db_name user after ≡ (some p, after))
  unfolding get_pool Stable
  get_pool-stable others others_next address address_next ts after p h =
      let kept : Stable (as_found others ts) (some p, after) =
        subst (Stable (as_found others ts)) h (get_pool-Stable others address ts) in
      (kept.1, rw (kept.0, get_pool) refl)
