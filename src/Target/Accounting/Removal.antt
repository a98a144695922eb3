-- ===== src/Target/Accounting/Removal.antt =====
-- `removeFromAll` of pkg/pgfox/pool.go takes out one connection, wherever it stands in the list.
use pgfox.Prelude.{
  ℕ, suc, ◌+◌, ◌≤◌, true, List, [], ◌∷◌, if◌then◌else◌, ◌==◌, ◌≡◌, refl, arith, length,
}
use pgfox.Prelude.Counting.{count}
use pgfox.Target.State.{Pool}
use pgfox.Target.Connections.{split_last, swap_remove, has_conn, remove_from_all}
use pgfox.Target.Accounting.{PoolOk}

abbrev pub is_it : ℕ → ℕ → ℕ
is_it c y = if c == y then 1 else 0

split_last-count :
    (y x : ℕ) (xs : List ℕ)
    → count y (x ∷ xs) ≡ count y (split_last x xs).0 + is_it (split_last x xs).1 y
unfolding count split_last
split_last-count y x [] = ground arith
split_last-count y x (z ∷ zs) = ground (arith, split_last-count y z zs)

split_last-length : (x : ℕ) (xs : List ℕ) → length (split_last x xs).0 ≡ length xs
unfolding split_last
split_last-length x [] = refl
split_last-length x (z ∷ zs) = ground (arith, split_last-length z zs)

swap_remove-count :
    (conn y : ℕ) (xs : List ℕ)
    → has_conn conn xs ≡ true
    → count y xs ≡ count y (swap_remove conn xs) + is_it conn y
unfolding count swap_remove has_conn
swap_remove-count conn y [] h = cc
swap_remove-count conn y (x ∷ []) h = ground arith
swap_remove-count conn y (x ∷ z ∷ zs) h =
    ground (arith, split_last-count y z zs, swap_remove-count conn y (z ∷ zs))

swap_remove-length :
    (conn : ℕ) (xs : List ℕ)
    → has_conn conn xs ≡ true
    → length xs ≡ suc (length (swap_remove conn xs))
unfolding swap_remove has_conn
swap_remove-length conn [] h = cc
swap_remove-length conn (x ∷ []) h = ground arith
swap_remove-length conn (x ∷ z ∷ zs) h =
    ground (arith, split_last-length z zs, swap_remove-length conn (z ∷ zs))

has_conn-counted : (conn : ℕ) (xs : List ℕ) → 1 ≤ count conn xs → has_conn conn xs ≡ true
unfolding count has_conn
has_conn-counted conn [] h = absurd (omega arith)
has_conn-counted conn (x ∷ xs) h = ground (arith, has_conn-counted conn xs)

-- The connection is in `All` once, and neither in the queue nor outside any more.
pub record Loose (held : ℕ → ℕ) (conn : ℕ) (p : Pool) : Type 0 where
  pub once : (y : ℕ) → count y p.all ≤ 1
  pub placed : (y : ℕ) → count y p.all ≡ count y p.queue + held y + is_it conn y
  pub mirrored : p.conn_count ≡ length p.all

module _ (held : ℕ → ℕ) (conn : ℕ) (p : Pool) (l : Loose held conn p) where
  found : has_conn conn p.all ≡ true
  found = has_conn-counted conn p.all (ground (arith, l.placed conn))

  pub remove_from_all-PoolOk : PoolOk held (remove_from_all conn p)
  unfolding remove_from_all
  remove_from_all-PoolOk = rw found (record {
    once = λ y. omega (arith, l.once y, swap_remove-count conn y p.all found);
    placed = λ y. omega (arith, l.placed y, swap_remove-count conn y p.all found);
    mirrored = refl;
  })

  pub remove_from_all-length : length p.all ≡ suc (length (remove_from_all conn p).all)
  unfolding remove_from_all
  remove_from_all-length = rw found (swap_remove-length conn p.all found)
