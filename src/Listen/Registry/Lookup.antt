-- ===== src/Listen/Registry/Lookup.antt =====
-- Who is subscribed to what, before and after each operation on the registry.
use mathlib.Core.Option
use pgfox.Prelude.{
  ℕ, Bool, true, false, ◌&&◌, Option, none, some, List, [], ◌∷◌, if◌then◌else◌, ◌==◌, ◌-◌, ◌≡◌,
  refl, ap, ◌∙◌, subst, arith, Option-cases, inl, inr,
}
use pgfox.Prelude.Result.{Result, ok, err}
use pgfox.Listen.Channel.{Channel, same, same_iff}
use pgfox.Listen.Registry.{
  Monitor, Registry, Dedicated, Opening, ListenError, contains_client, add_client, remove_client,
  lookup_listen, set_clients, delete_listen, join, register, open_dedicated, get_or_create_listen,
  conclude_listen, tear_down_listen, is_empty, remove_client_from_listen, no_pool,
}

pub contains-add :
    (c d : ℕ) (xs : List ℕ)
    → contains_client c (add_client d xs) ≡ (if d == c then true else contains_client c xs)
unfolding add_client contains_client
contains-add c d xs = ground arith

pub contains-remove :
    (c d : ℕ) (xs : List ℕ)
    → contains_client c (remove_client d xs) ≡ (if d == c then false else contains_client c xs)
unfolding remove_client contains_client
contains-remove c d [] = ground arith
contains-remove c d (x ∷ xs) = ground (arith, contains-remove c d xs)

pub lookup-channel :
    (ch : Channel) (ms : List Monitor) (m : Monitor)
    → lookup_listen ch ms ≡ some m
    → same m.channel ch ≡ true
unfolding lookup_listen
lookup-channel ch [] m h = cc
lookup-channel ch (x ∷ ms) m h = ground (arith, lookup-channel ch ms m)

abbrev pub with_clients : List ℕ → Monitor → Monitor
with_clients cs m = record m { clients = cs }

pub lookup-set :
    (ch key : Channel) (cs : List ℕ) (ms : List Monitor)
    → lookup_listen key (set_clients ch cs ms) ≡ (
        if same ch key
        then Option.map (with_clients cs) (lookup_listen key ms)
        else lookup_listen key ms)
unfolding lookup_listen set_clients
lookup-set ch key cs [] = ground arith
lookup-set ch key cs (m ∷ ms) =
    ground (
      arith,
      lookup-set ch key cs ms,
      same_iff ch key,
      same_iff m.channel ch,
      same_iff m.channel key,
    )

pub lookup-delete :
    (ch key : Channel) (ms : List Monitor)
    → lookup_listen key (delete_listen ch ms) ≡ (if same ch key then none else lookup_listen key ms)
unfolding lookup_listen delete_listen
lookup-delete ch key [] = ground arith
lookup-delete ch key (m ∷ ms) =
    ground (
      arith,
      lookup-delete ch key ms,
      same_iff ch key,
      same_iff m.channel ch,
      same_iff m.channel key,
    )

-- Client `c` gets the notifications of the channel.
abbrev pub subscribed : Channel → ℕ → List Monitor → Bool
subscribed key c ms = elim (lookup_listen key ms) [
  | none ↦ false
  | some m ↦ contains_client c m.clients
]

subscribed-set :
    (ch key : Channel) (c : ℕ) (cs : List ℕ) (ms : List Monitor) (m : Monitor)
    → lookup_listen ch ms ≡ some m
    → subscribed key c (set_clients ch cs ms)
      ≡ (if same ch key then contains_client c cs else subscribed key c ms)
subscribed-set ch key c cs ms m e = ground (arith, lookup-set ch key cs ms, same_iff ch key)

subscribed-delete :
    (ch key : Channel) (c : ℕ) (ms : List Monitor)
    → subscribed key c (delete_listen ch ms) ≡ (if same ch key then false else subscribed key c ms)
subscribed-delete ch key c ms = ground (arith, lookup-delete ch key ms)

abbrev pub succeeded : {A : Type 0} → Result ListenError A → Bool
succeeded (ok a) = true
succeeded (err e) = false

-- The monitor that stands for a channel.
abbrev pub identity : Channel → Registry → Option ℕ
identity ch r = Option.map (λ m. m.id) (lookup_listen ch r.listeners)

join_found :
    (r : Registry) (key : Channel) (c d : ℕ) (m now : Monitor)
    → lookup_listen m.channel r.listeners ≡ some now
    → now.id ≡ m.id
    → subscribed key c (join r m d).listeners
      ≡ (if same m.channel key && d == c then true else subscribed key c r.listeners)
unfolding join
join_found r key c d m now e same_id =
    rw (e, join)
      (ground (
        arith,
        same_id,
        subscribed-set m.channel key c (add_client d now.clients) r.listeners now e,
        same_iff m.channel key,
        e,
        contains-add c d now.clients,
      ))

-- Joining a monitor that still stands for the channel subscribes that client to that channel, and
-- changes nothing else.
pub subscribed-join :
    (r : Registry) (ch key : Channel) (c d : ℕ) (m : Monitor)
    → same m.channel ch ≡ true
    → identity ch r ≡ some m.id
    → subscribed key c (join r m d).listeners
      ≡ (if same ch key && d == c then true else subscribed key c r.listeners)
subscribed-join r ch key c d m here stands = elim (Option-cases (lookup_listen ch r.listeners)) [
  | inl e ↦ ground (arith, stands, e)
  | inr (now, e) ↦
      subst
        (λ k.
          subscribed key c (join r m d).listeners
          ≡ (if same k key && d == c then true else subscribed key c r.listeners))
        ((same_iff m.channel ch).0 here)
        (join_found r key c d m now
          (ap (λ k. lookup_listen k r.listeners) ((same_iff m.channel ch).0 here) ∙ e)
          (ground (arith, stands, e)))
]

subscribed-new :
    (ch key : Channel) (id : ℕ) (b : Option Dedicated) (c d : ℕ) (ms : List Monitor)
    → lookup_listen ch ms ≡ none
    → subscribed key c (record { id = id; channel = ch; backend = b; clients = d ∷ [] } ∷ ms)
      ≡ (if same ch key && d == c then true else subscribed key c ms)
unfolding lookup_listen contains_client
subscribed-new ch key id b c d ms e = ground (arith, same_iff ch key)

-- A failed opening leaves every monitor as it was.
open_dedicated-listeners :
    (r : Registry) (o : Opening) → (open_dedicated r o).1.listeners ≡ r.listeners
unfolding open_dedicated
open_dedicated-listeners r no_pool = refl
open_dedicated-listeners r o = ground arith

module _ (ch key : Channel) (c d : ℕ) (others : Registry → Registry)
    (keep : (q : Registry) → subscribed key c (others q).listeners ≡ subscribed key c q.listeners)
    (stays : (q : Registry) (n : ℕ)
      → identity ch q ≡ some n
      → identity ch (others q) ≡ some n) where
  -- Joining a monitor that was found, once the lock is given up.
  subscribed-join_later :
      (r : Registry) (m : Monitor)
      → lookup_listen ch r.listeners ≡ some m
      → subscribed key c (join (others r) m d).listeners
        ≡ (if same ch key && d == c then true else subscribed key c r.listeners)
  subscribed-join_later r m e =
      subscribed-join (others r) ch key c d m (lookup-channel ch r.listeners m e)
        (stays r m.id (ap (Option.map (λ l. l.id)) e))
      ∙ ap (λ s. if same ch key && d == c then true else s) (keep r)

  -- So does storing a monitor, whether the goroutine wins the race for the channel or not.
  subscribed-register :
      (r : Registry) (b : Dedicated)
      → subscribed key c (register others r ch b d).0.listeners
        ≡ (if same ch key && d == c then true else subscribed key c r.listeners)
  unfolding register
  subscribed-register r b = elim (Option-cases (lookup_listen ch r.listeners)) [
    | inl e ↦ rw (e, register) (subscribed-new ch key r.next_id (some b) c d r.listeners e)
    | inr (m, e) ↦
        rw (e, register) (subscribed-join_later (record r { listen_open = r.listen_open - 1 }) m e)
  ]

  subscribed-conclude :
      (opened : Result ListenError Dedicated) (r : Registry)
      → let (done, after) = conclude_listen others ch d opened r in
        subscribed key c after.listeners
        ≡ (if succeeded done && (same ch key && d == c) then true else subscribed key c r.listeners)
  unfolding conclude_listen
  subscribed-conclude (err e) r = refl
  subscribed-conclude (ok b) r = ground (arith, subscribed-register (others r) b, keep r)

  -- LISTEN: if it succeeds, exactly this client is added to exactly this channel, on the fast path
  -- as when it wins or loses the race for a new monitor; if it fails, nobody's subscription
  -- changes. What other goroutines do meanwhile, in each gap between two critical sections, is
  -- assumed to leave the subscription asked about alone, and not to take away or replace the
  -- monitor of the channel once there is one. The code does not ensure the second.
  pub subscribed-get_or_create_listen :
      (r : Registry) (o : Opening)
      → let (done, after) = get_or_create_listen r ch d o others in
        subscribed key c after.listeners
        ≡ (if succeeded done && (same ch key && d == c) then true else subscribed key c r.listeners)
  unfolding get_or_create_listen
  subscribed-get_or_create_listen r o = elim (Option-cases (lookup_listen ch r.listeners)) [
    | inl e ↦
        rw (e, get_or_create_listen)
          (rw (open_dedicated-listeners r o) at
            (subscribed-conclude (open_dedicated r o).0 (open_dedicated r o).1))
    | inr (m, e) ↦ rw (e, get_or_create_listen) (subscribed-join_later r m e)
  ]

-- The bug of the fast path, where no lock is held from the lookup of a monitor to `addClient`: if
-- the monitor is torn down between its lookup and `addClient`, LISTEN reports success and leaves
-- the registry as it is, where the client is not subscribed.
get_or_create_listen-loses_client :
    (r : Registry) (ch : Channel) (client : ℕ) (o : Opening) (others : Registry → Registry)
    (l : Monitor)
    → lookup_listen ch r.listeners ≡ some l
    → lookup_listen ch (others r).listeners ≡ none
    → (get_or_create_listen r ch client o others ≡ (ok false, others r))
      × (subscribed ch client (others r).listeners ≡ false)
unfolding get_or_create_listen join
get_or_create_listen-loses_client r ch client o others l e gone =
    let at =
      ap (λ k. lookup_listen k (others r).listeners)
        ((same_iff l.channel ch).0 (lookup-channel ch r.listeners l e))
      ∙ gone in
    (rw (e, get_or_create_listen) (rw (at, join) refl), rw (gone, subscribed) refl)

tear_down-listeners : (r : Registry) (l : Monitor) → (tear_down_listen r l).listeners ≡ r.listeners
unfolding tear_down_listen
tear_down-listeners r l = ground arith

contains-empty : (c : ℕ) (xs : List ℕ) → is_empty xs ≡ true → contains_client c xs ≡ false
unfolding contains_client
contains-empty c [] h = refl
contains-empty c (x ∷ xs) h = cc

-- UNLISTEN: exactly this client leaves exactly this channel, whether or not the monitor is torn
-- down with it.
pub subscribed-remove_client_from_listen :
    (r : Registry) (ch key : Channel) (c d : ℕ)
    → subscribed key c (remove_client_from_listen r ch d).listeners
      ≡ (if same ch key && d == c then false else subscribed key c r.listeners)
unfolding remove_client_from_listen
subscribed-remove_client_from_listen r ch key c d =
    elim (Option-cases (lookup_listen ch r.listeners)) [
      | inl e ↦ rw (e, remove_client_from_listen) (ground (arith, same_iff ch key))
      | inr (m, e) ↦
          rw (e, remove_client_from_listen)
            (let left = remove_client d m.clients in
              ground (
                arith,
                same_iff ch key,
                contains-remove c d m.clients,
                contains-empty c left,
                tear_down-listeners (record r { listeners = delete_listen ch r.listeners }) m,
                subscribed-delete ch key c r.listeners,
                subscribed-set ch key c left r.listeners m e,
              ))
    ]
