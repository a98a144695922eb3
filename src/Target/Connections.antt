-- ===== src/Target/Connections.antt =====
-- What opens, lends and closes a connection: `borrowConn` and `removeFromAll` of
-- pkg/pgfox/pool.go, `Return` and `Release` of pkg/pgfox/backend.go as the target sees them, and
-- `openOne`, `closeOneIdle`, `handleClose` and `allPools` of pkg/pgfox/target.go.
use pgfox.Prelude.{
  ℕ, ◌+◌, ◌-◌, Bool, true, false, Option, none, some, List, [], ◌∷◌, ◌++◌, if◌then◌else◌, ◌==◌, ltb,
  length,
}
use pgfox.Target.State.{Pool, Pooled, Target, pool_at, put_pool, one_less_open, drop_pooled}

-- The slot of `conn` takes the last entry, and the list loses its end; `conns` without its first
-- entry, if the last one is not the one that goes.
unfoldable pub split_last : ℕ → List ℕ → List ℕ × ℕ
split_last x [] = ([], x)
split_last x (y ∷ ys) = let (front, last) = split_last y ys in (x ∷ front, last)

unfoldable pub swap_remove : ℕ → List ℕ → List ℕ
swap_remove conn [] = []
swap_remove conn (x ∷ []) = if x == conn then [] else x ∷ []
swap_remove conn (x ∷ y ∷ ys) =
    let rest = swap_remove conn (y ∷ ys) in
    let (front, last) = split_last y ys in if x == conn then last ∷ front else x ∷ rest

unfoldable pub has_conn : ℕ → List ℕ → Bool
has_conn conn [] = false
has_conn conn (x ∷ xs) = if x == conn then true else has_conn conn xs

-- `removeFromAll`: the mirror is stored only if the connection was found.
unfoldable pub remove_from_all : ℕ → Pool → Pool
remove_from_all conn p =
    let left = swap_remove conn p.all in
    if has_conn conn p.all then record p { all = left; conn_count = length left } else p

-- `openOne`, with what `pool.newConn` gave.
unfoldable pub open_one : Option ℕ → ℕ → Target → Target
open_one none i t = t
open_one (some conn) i t = elim (pool_at i t.pools) [
  | none ↦ t
  | some p ↦
      if ltb (length p.queue) p.capacity
      then record (put_pool i
          (record p {
            all = p.all ++ conn ∷ [];
            conn_count = length (p.all ++ conn ∷ []);
            queue = p.queue ++ conn ∷ [];
          })
          t) { total_open = t.total_open + 1 }
      else one_less_open (record (put_pool i (record p { conn_count = length p.all }) t) {
        total_open = t.total_open + 1;
      })
]

-- The head of the queue is closed and forgotten.
unfoldable pub close_head : ℕ → Pool → List ℕ → Target → Bool × Target
close_head i p [] t = (false, t)
close_head i p (conn ∷ rest) t =
    (true, put_pool i (remove_from_all conn (record p { queue = rest })) (one_less_open t))

unfoldable pub close_one_idle : ℕ → Target → Bool × Target
close_one_idle i t = elim (pool_at i t.pools) [
  | none ↦ (false, t)
  | some p ↦ close_head i p p.queue t
]

-- `handleClose`: the mirror `AtomicTotalOpen` is not stored.
unfoldable pub handle_close : Pooled → Target → Target
handle_close h t =
    let less = record t { total_open = t.total_open - 1 } in
    elim (pool_at h.pool t.pools) [
      | none ↦ less
      | some p ↦ put_pool h.pool (remove_from_all h.conn p) less
    ]

-- `conn := <-t.CloseCh`, and `handleClose`.
unfoldable pub close_next : List Pooled → Target → Target
close_next [] t = t
close_next (h ∷ rest) t = handle_close h (record t { close_ch = rest })

-- `borrowConn` where the queue is not empty; else the caller waits, or gives up at its timeout.
unfoldable pub borrow_head : ℕ → Pool → List ℕ → Target → Option ℕ × Target
borrow_head i p [] t = (none, t)
borrow_head i p (conn ∷ rest) t = (
  some conn,
  record (put_pool i (record p { queue = rest }) t) {
    borrowed = record { pool = i; conn = conn } ∷ t.borrowed;
  },
)

unfoldable pub borrow_conn : ℕ → Target → Option ℕ × Target
borrow_conn i t =
    if t.draining
    then (none, t)
    else (elim (pool_at i t.pools) [ none ↦ (none, t) | some p ↦ borrow_head i p p.queue t ])

-- `Release`: the connection goes to `CloseCh`.
unfoldable pub release_conn : Pooled → Target → Target
release_conn h t = record t { borrowed = drop_pooled h t.borrowed; close_ch = t.close_ch ++ h ∷ [] }

-- `Return`: into the queue, or to `CloseCh` if that is full.
unfoldable pub give_back : Pooled → Target → Target
give_back h t = elim (pool_at h.pool t.pools) [
  | none ↦ t
  | some p ↦
      if ltb (length p.queue) p.capacity
      then record (put_pool h.pool (record p { queue = p.queue ++ h.conn ∷ [] }) t) {
        borrowed = drop_pooled h t.borrowed;
      }
      else release_conn h t
]

-- `allPools`: pending registrations are appended.
unfoldable pub all_pools : Target → Target
all_pools t = record t { pools = t.pools ++ t.registered; registered = [] }
