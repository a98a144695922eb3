-- ===== src/Listen/Registry/Budget.antt =====
-- The count of dedicated connections, `ListenOpen`, and the budget check that reads it.
use pgfox.Prelude.{
  ℕ, zero, suc, ◌+◌, ◌≤◌, ◌<◌, true, none, some, List, [], ◌∷◌, ◌≡◌, refl, sym, subst, ap, ◌∙◌,
  arith, lt→leb, le→leb,
}
use pgfox.Prelude.Result.{ok, err}
use pgfox.Listen.Channel.{Channel, same_refl}
use pgfox.Listen.Registry.{
  Monitor, Registry, at_connection_limit, acknowledged, remove_client, lookup_listen, delete_listen,
  register, open_dedicated, conclude_listen, get_or_create_listen, tear_down_listen,
  remove_client_from_listen, new_conn,
}

abbrev alone : Registry → Registry
alone r = r

-- LISTEN on a channel and UNLISTEN it, by one client, with nobody else on it.
pub round : Channel → ℕ → Registry → Registry
round ch client r =
    remove_client_from_listen (get_or_create_listen r ch client acknowledged alone).1 ch client

pub rounds : ℕ → Channel → ℕ → Registry → Registry
rounds zero ch client r = r
rounds (suc n) ch client r = rounds n ch client (round ch client r)

delete-absent :
    (ch : Channel) (ms : List Monitor) → lookup_listen ch ms ≡ none → delete_listen ch ms ≡ ms
unfolding lookup_listen delete_listen
delete-absent ch [] h = refl
delete-absent ch (m ∷ ms) h = ground (arith, delete-absent ch ms)

module _ (ch : Channel) (client : ℕ) (r : Registry)
    (absent : lookup_listen ch r.listeners ≡ none) where
  new_monitor : Monitor
  new_monitor = record {
    id = r.next_id;
    channel = ch;
    backend = some new_conn;
    clients = client ∷ [];
  }

  listening : Registry
  listening = record r {
    listeners = new_monitor ∷ r.listeners;
    next_id = r.next_id + 1;
    listen_open = r.listen_open + 1;
  }

  -- What a round leaves.
  leaked : Registry
  leaked = record r { next_id = r.next_id + 1; listen_open = r.listen_open + 1 }

  get_or_create-new :
      r.total_open + r.listen_open < r.max_connections
      → get_or_create_listen r ch client acknowledged alone ≡ (ok true, listening)
  unfolding get_or_create_listen open_dedicated conclude_listen register listening new_monitor
  get_or_create-new h =
      rw (absent, get_or_create_listen)
        (rw (lt→leb (r.total_open + r.listen_open) r.max_connections h) (rw (absent, register)))

  remove-last : remove_client_from_listen listening ch client ≡ leaked
  unfolding remove_client_from_listen tear_down_listen remove_client listening leaked new_monitor
      lookup_listen delete_listen
  remove-last = ground (arith, same_refl ch, delete-absent ch r.listeners absent)

  round-leaks : r.total_open + r.listen_open < r.max_connections → round ch client r ≡ leaked
  unfolding round
  round-leaks h =
      ap (λ q. remove_client_from_listen q.1 ch client) (get_or_create-new h) ∙ remove-last

  refused-at_limit :
      r.max_connections ≤ r.total_open + r.listen_open
      → get_or_create_listen r ch client acknowledged alone ≡ (err at_connection_limit, r)
  unfolding get_or_create_listen open_dedicated conclude_listen
  refused-at_limit h =
      rw (absent, get_or_create_listen)
        (rw (le→leb r.max_connections (r.total_open + r.listen_open) h))

-- No monitor more than in `r`, `n` more places taken, and the channel refused for that.
abbrev pub Exhausted : Channel → ℕ → Registry → ℕ → Registry → Type 0
Exhausted ch client r n q =
    (q.listeners ≡ r.listeners)
    × (q.listen_open ≡ r.listen_open + n)
    × (get_or_create_listen q ch client acknowledged alone ≡ (err at_connection_limit, q))

-- The bug in `tearDownListen`: a dedicated connection has no pool, so closing it does not give its
-- place in the budget back. A client that subscribes to a channel without a monitor and leaves
-- it, over and over, leaves no monitor behind, and after as many rounds as there were places left
-- its next LISTEN on that channel is refused at the connection limit.
pub rounds-exhaust_budget :
    (n : ℕ) (ch : Channel) (client : ℕ) (r : Registry)
    → lookup_listen ch r.listeners ≡ none
    → r.total_open + r.listen_open + n ≡ r.max_connections
    → Exhausted ch client r n (rounds n ch client r)
unfolding rounds leaked
rounds-exhaust_budget zero ch client r absent full =
    (refl, omega arith, refused-at_limit ch client r absent (omega arith))
rounds-exhaust_budget (suc n) ch client r absent full =
    let ih = rounds-exhaust_budget n ch client (leaked ch client r absent) absent (omega arith) in
    subst (λ q. Exhausted ch client r (suc n) (rounds n ch client q))
      (sym (round-leaks ch client r absent (omega arith))) (ih.0, omega (arith, ih.1), ih.2)
