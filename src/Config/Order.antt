-- ===== src/Config/Order.antt =====
-- The order of the targets: `sort.Slice` in `LoadConfig`, and in `Reload` of pkg/pgfox/server.go.
use pgfox.Prelude.{ℕ, ◌≤◌, true, false, List, [], ◌∷◌, ◌≡◌, arith, All, branches, decided}
use pgfox.Config.{TargetConfig, comes_before, insert, sort_targets}

module _ {A R : Type 0} (config_of : A → TargetConfig R) where
  -- Priorities do not decrease.
  abbrev pub Ascending : List A → Type 0
  Ascending [] = Unit {0}
  Ascending (t ∷ []) = Unit {0}
  Ascending (t ∷ u ∷ us) = ((config_of t).priority ≤ (config_of u).priority) × Ascending (u ∷ us)

  -- The head of the list, if it has one, does not come before the bound.
  abbrev FirstFrom : ℕ → List A → Type 0
  FirstFrom n [] = Unit {0}
  FirstFrom n (t ∷ ts) = n ≤ (config_of t).priority

  put_first :
      (t : A) (us : List A)
      → FirstFrom (config_of t).priority us
      → Ascending us
      → Ascending (t ∷ us)
  put_first t [] h k = tt
  put_first t (u ∷ us) h k = (h, k)

  from_second :
      (u : A) (us : List A)
      → Ascending (u ∷ us)
      → FirstFrom (config_of u).priority us × Ascending us
  from_second u [] h = (tt, tt)
  from_second u (v ∷ us) h = h

  comes_before-le :
      (t u : A)
      → comes_before (config_of t) (config_of u) ≡ true
      → (config_of t).priority ≤ (config_of u).priority
  unfolding comes_before
  comes_before-le t u h = ground (arith, h)

  after-le :
      (t u : A)
      → comes_before (config_of t) (config_of u) ≡ false
      → (config_of u).priority ≤ (config_of t).priority
  unfolding comes_before
  after-le t u h = ground (arith, h)

  insert-FirstFrom :
      (n : ℕ) (t : A) (us : List A)
      → n ≤ (config_of t).priority
      → FirstFrom n us
      → FirstFrom n (insert config_of t us)
  unfolding insert
  insert-FirstFrom n t [] h k = h
  insert-FirstFrom n t (u ∷ us) h k =
      branches (FirstFrom n) (comes_before (config_of t) (config_of u)) h k

  insert-Ascending : (t : A) (us : List A) → Ascending us → Ascending (insert config_of t us)
  unfolding insert
  insert-Ascending t [] h = tt
  insert-Ascending t (u ∷ us) h =
      decided Ascending (comes_before (config_of t) (config_of u)) (λ b. (comes_before-le t u b, h))
        (λ b.
          let (first, rest) = from_second u us h in
          put_first u (insert config_of t us)
            (insert-FirstFrom (config_of u).priority t us (after-le t u b) first)
            (insert-Ascending t us rest))

  pub sort_targets-Ascending : (ts : List A) → Ascending (sort_targets config_of ts)
  unfolding sort_targets
  sort_targets-Ascending [] = tt
  sort_targets-Ascending (t ∷ ts) =
      insert-Ascending t (sort_targets config_of ts) (sort_targets-Ascending ts)

  All-insert :
      (P : A → Type 0) (t : A) (us : List A) → P t → All P us → All P (insert config_of t us)
  unfolding insert
  All-insert P t [] h k = (h, tt)
  All-insert P t (u ∷ us) h (k, ks) =
      branches (All P) (comes_before (config_of t) (config_of u)) (h, (k, ks))
        (k, All-insert P t us h ks)

  pub All-sort_targets :
      (P : A → Type 0) (ts : List A) → All P ts → All P (sort_targets config_of ts)
  unfolding sort_targets
  All-sort_targets P [] h = tt
  All-sort_targets P (t ∷ ts) (h, hs) =
      All-insert P t (sort_targets config_of ts) h (All-sort_targets P ts hs)
