-- ===== src/Listen/Registry.antt =====
-- The listen monitors of one target: `Listeners` and `ListenOpen`, with `getOrCreateListen`,
-- `RemoveClientFromListen`, `tearDownListen` and `failListen` of pkg/pgfox/listen_notify.go.
-- A client is known by a number. Opening the dedicated connection is the environment's; its
-- outcome is an argument, and so is what other goroutines do to the registry in each gap between
-- two critical sections of `getOrCreateListen`.
pub mod Lookup
pub mod Budget
use pgfox.Prelude.{
  ℕ, ◌+◌, ◌-◌, Bool, true, false, not, ◌&&◌, ◌||◌, Option, none, some, List, [], ◌∷◌, if◌then◌else◌,
  ◌==◌, leb,
}
use pgfox.Prelude.Result.{Result, ok, err}
use pgfox.Listen.Channel.{Channel, same}

-- The fields of the dedicated `Backend` that the registry reads: whether its `Pool` is set.
pub record Dedicated : Type 0 where
  pub has_pool : Bool

-- `Listen`. `Clients` is a set, here a list. `id` stands for its pointer: a goroutine that holds a
-- monitor adds its client to that one, and to no other that took its place.
pub record Monitor : Type 0 where
  pub id : ℕ
  pub channel : Channel
  pub backend : Option Dedicated
  pub clients : List ℕ

-- `Server.Listeners`, and of the target `ListenOpen` with the two numbers of its budget check.
-- `next_id` is the pointer of the next monitor that is made.
pub record Registry : Type 0 where
  pub listeners : List Monitor
  pub next_id : ℕ
  pub listen_open : ℕ
  pub total_open : ℕ
  pub max_connections : ℕ

-- What becomes of the dedicated connection: no pool, `newConn` fails, the LISTEN cannot be
-- written, `drainUntilReady` fails, or the backend acknowledges.
pub data Opening : Type 0 where
  no_pool : Opening
  open_failed : Opening
  send_failed : Opening
  rejected : Opening
  acknowledged : Opening

pub data ListenError : Type 0 where
  no_pool_for_database : ListenError
  at_connection_limit : ListenError
  failed_to_open : ListenError
  failed_to_send : ListenError
  backend_rejected : ListenError

unfoldable pub contains_client : ℕ → List ℕ → Bool
contains_client c [] = false
contains_client c (x ∷ xs) = x == c || contains_client c xs

-- `l.Clients[client] = true`
unfoldable pub add_client : ℕ → List ℕ → List ℕ
unfolding contains_client
add_client c xs = if contains_client c xs then xs else c ∷ xs

-- `delete(l.Clients, client)`
unfoldable pub remove_client : ℕ → List ℕ → List ℕ
remove_client c [] = []
remove_client c (x ∷ xs) = let rest = remove_client c xs in if x == c then rest else x ∷ rest

unfoldable pub lookup_listen : Channel → List Monitor → Option Monitor
lookup_listen ch [] = none
lookup_listen ch (m ∷ ms) = if same m.channel ch then some m else lookup_listen ch ms

-- A monitor is shared by pointer: its new clients are seen through the map.
unfoldable pub set_clients : Channel → List ℕ → List Monitor → List Monitor
set_clients ch cs [] = []
set_clients ch cs (m ∷ ms) =
    let rest = set_clients ch cs ms in
    if same m.channel ch then record m { clients = cs } ∷ rest else m ∷ rest

unfoldable pub delete_listen : Channel → List Monitor → List Monitor
delete_listen ch [] = []
delete_listen ch (m ∷ ms) =
    let rest = delete_listen ch ms in if same m.channel ch then rest else m ∷ rest

-- `pool.newConn`: it leaves the backend's `Pool` unset (only `openOne` sets it).
abbrev pub new_conn : Dedicated
new_conn = record { has_pool = false }

-- `l.addClient(client)` on a monitor found before, with no lock on the registry: it adds to the
-- clients that the monitor has by now. If the monitor is no longer in the registry, nothing there
-- changes.
unfoldable pub join : Registry → Monitor → ℕ → Registry
unfolding lookup_listen set_clients add_client
join r l client = elim (lookup_listen l.channel r.listeners) [
  | none ↦ r
  | some now ↦
      if now.id == l.id
      then record r {
        listeners = set_clients l.channel (add_client client now.clients) r.listeners;
      }
      else r
]

-- The budget check and the dedicated connection, with the counter put back where it fails.
unfoldable pub open_dedicated : Registry → Opening → Result ListenError Dedicated × Registry
open_dedicated r no_pool = (err no_pool_for_database, r)
open_dedicated r o =
    if leb r.max_connections (r.total_open + r.listen_open)
    then (err at_connection_limit, r)
    else elim o [
      | no_pool ↦ (err no_pool_for_database, r)
      | open_failed ↦ (err failed_to_open, r)
      | send_failed ↦ (err failed_to_send, record r { listen_open = r.listen_open + 1 - 1 })
      | rejected ↦ (err backend_rejected, record r { listen_open = r.listen_open + 1 - 1 })
      | acknowledged ↦ (ok new_conn, record r { listen_open = r.listen_open + 1 })
    ]

-- Under the write lock: the monitor that another goroutine made first wins, and the new
-- connection is closed; otherwise the new monitor is stored. The winner's monitor gets the client
-- only behind the lock.
unfoldable pub register :
    (Registry → Registry) → Registry → Channel → Dedicated → ℕ → Registry × Bool
unfolding join
register others r ch backend client = elim (lookup_listen ch r.listeners) [
  | some existing ↦
      (join (others (record r { listen_open = r.listen_open - 1 })) existing client, false)
  | none ↦ (
    record r {
      listeners =
          record { id = r.next_id; channel = ch; backend = some backend; clients = client ∷ [] }
          ∷ r.listeners;
      next_id = r.next_id + 1;
    },
    true,
  )
]

-- What is left to do once the connection is open, or is not. `others` is what other goroutines do
-- to the registry before the lock is taken.
unfoldable pub conclude_listen :
    (Registry → Registry)
    → Channel
    → ℕ
    → Result ListenError Dedicated
    → Registry
    → Result ListenError Bool × Registry
conclude_listen others ch client (err e) r = (err e, r)
conclude_listen others ch client (ok backend) r =
    let (r', is_new) = register others (others r) ch backend client in (ok is_new, r')

-- The result tells whether the monitor is new. On the fast path the read lock is released before
-- the client is added.
unfoldable pub get_or_create_listen :
    Registry → Channel → ℕ → Opening → (Registry → Registry) → Result ListenError Bool × Registry
get_or_create_listen r ch client o others = elim (lookup_listen ch r.listeners) [
  | some l ↦ (ok false, join (others r) l client)
  | none ↦ let (opened, r') = open_dedicated r o in conclude_listen others ch client opened r'
]

-- `tearDownListen`: the counter falls only for a backend that belongs to a pool.
unfoldable pub tear_down_listen : Registry → Monitor → Registry
tear_down_listen r l = elim l.backend [
  | none ↦ r
  | some b ↦ if b.has_pool then record r { listen_open = r.listen_open - 1 } else r
]

abbrev pub is_empty : List ℕ → Bool
is_empty [] = true
is_empty (x ∷ xs) = false

unfoldable pub remove_client_from_listen : Registry → Channel → ℕ → Registry
remove_client_from_listen r ch client = elim (lookup_listen ch r.listeners) [
  | none ↦ r
  | some l ↦
      let left = remove_client client l.clients in
      if is_empty left
      then tear_down_listen (record r { listeners = delete_listen ch r.listeners }) l
      else record r { listeners = set_clients ch left r.listeners }
]

-- `failListen`: the monitor goes, the counter stays; the clients are returned, to be told.
unfoldable pub fail_listen : Registry → Monitor → Registry × List ℕ
fail_listen r l = (record r { listeners = delete_listen l.channel r.listeners }, l.clients)
