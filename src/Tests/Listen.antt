-- ===== src/Tests/Listen.antt =====
-- LISTEN and UNLISTEN on a concrete registry and client.
use pgfox.Prelude.{
  true, false, ◌&&◌, none, some, List, [], ◌∷◌, if◌then◌else◌, ◌==◌, ◌≡◌, refl, arith,
}
use pgfox.Prelude.Bytes.{codes, equal}
use pgfox.Listen.Channel.{Channel, same}
use pgfox.Listen.Registry.{
  Registry, Monitor, acknowledged, rejected, new_conn, get_or_create_listen,
  remove_client_from_listen, lookup_listen, contains_client,
}
use pgfox.Listen.Registry.Lookup.{
  subscribed, succeeded, subscribed-get_or_create_listen, subscribed-remove_client_from_listen,
}
use pgfox.Listen.Registry.Budget.{Exhausted, rounds, rounds-exhaust_budget}
use pgfox.Listen.Client.{ListenClient, PendingListen, listen, unlisten_all, contains_channel}
use pgfox.Listen.Client.Names.{equal_fold, fields}
use pgfox.Listen.Handlers.{handle_listen, handle_unlisten, resolve_pending_listens}
use pgfox.Listen.Handlers.Agree.{Agrees, handlers-Agrees}
use pgfox.Listen.Handlers.Deferred.{issued, resolve_pending_listens-issued}
use pgfox.Listen.Handlers.Replies.{ends_ready, subscribes, handle_listen-ready}

abbrev jobs : Channel
jobs = record { database = codes "shop"; name = codes "jobs" }

abbrev mail : Channel
mail = record { database = codes "shop"; name = codes "mail" }

abbrev on_jobs : Monitor
on_jobs = record { id = 0; channel = jobs; backend = some new_conn; clients = 5 ∷ [] }

-- Client 5 listens to `jobs`; two of five places are taken.
abbrev registry : Registry
registry = record {
  listeners = on_jobs ∷ [];
  next_id = 1;
  listen_open = 1;
  total_open = 1;
  max_connections = 5;
}

abbrev others : Registry → Registry
others r = r

abbrev client : ListenClient
client = record {
  id = 5;
  database = codes "shop";
  listen_channels = jobs ∷ [];
  is_listening = true;
  pending_listens = [];
  last_tx_status = b'I';
  last_command_tag = [];
}

subscribed-get_or_create_listen_example :
    let (done, after) = get_or_create_listen registry mail 8 acknowledged others in
    subscribed mail 8 after.listeners ≡ (
      if succeeded done && (same mail mail && 8 == 8)
      then true
      else subscribed mail 8 registry.listeners)
subscribed-get_or_create_listen_example =
    subscribed-get_or_create_listen mail mail 8 8 others (λ q. refl) (λ q n h. h) registry
      acknowledged

subscribed-remove_client_from_listen_example :
    subscribed jobs 5 (remove_client_from_listen registry jobs 5).listeners
    ≡ (if same jobs jobs && 5 == 5 then false else subscribed jobs 5 registry.listeners)
subscribed-remove_client_from_listen_example =
    subscribed-remove_client_from_listen registry jobs jobs 5 5

mail_absent : lookup_listen mail registry.listeners ≡ none
unfolding lookup_listen same equal
mail_absent = refl

rounds-exhaust_budget_example : Exhausted mail 8 registry 3 (rounds 3 mail 8 registry)
rounds-exhaust_budget_example = rounds-exhaust_budget 3 mail 8 registry mail_absent refl

agrees : Agrees (registry, client)
unfolding contains_channel lookup_listen contains_client
agrees key = ground arith

handlers-Agrees_example :
    (let listened = handle_listen others registry client (codes "LISTEN mail") acknowledged in
      Agrees (listened.registry, listened.client))
    × (let unlistened = handle_unlisten registry client (codes "LISTEN mail") in
        Agrees (unlistened.registry, unlistened.client))
    × Agrees (resolve_pending_listens others (λ n. acknowledged) (registry, client))
handlers-Agrees_example =
    handlers-Agrees others 5 (λ key q. refl) (λ ch q n h. h) registry client (codes "LISTEN mail")
      acknowledged (λ n. acknowledged) refl agrees

abbrev in_block : ListenClient
in_block = record client { last_tx_status = b'T' }

abbrev actions : List PendingListen
actions =
    record { kind = listen; channel = mail } ∷ record { kind = unlisten_all; channel = mail } ∷ []

resolve_pending_listens-issued_example :
    let (r', c') = issued others (λ n. acknowledged) (registry, in_block) actions in
    let ended : ListenClient = record c' {
      last_tx_status = b'I';
      last_command_tag = codes "COMMIT";
    } in
    let idle : ListenClient = record in_block {
      last_tx_status = b'I';
      last_command_tag = codes "COMMIT";
    } in
    (r' ≡ registry)
    × (c'.listen_channels ≡ in_block.listen_channels)
    × (resolve_pending_listens others (λ n. acknowledged) (r', ended) ≡ (
        if equal_fold (codes "COMMIT") (codes "COMMIT")
        then issued others (λ n. acknowledged) (registry, idle) actions
        else (registry, idle)))
resolve_pending_listens-issued_example =
    resolve_pending_listens-issued others actions (λ n. acknowledged) registry in_block
      (codes "COMMIT") refl refl

handle_listen-ready_example :
    (ends_ready (handle_listen others registry client (codes "LISTEN mail") rejected).replies
      ≡ subscribes others (registry, client) (fields (codes "LISTEN mail")) rejected)
    × (ends_ready (handle_unlisten registry client (codes "LISTEN mail")).replies ≡ true)
handle_listen-ready_example =
    handle_listen-ready others registry client (codes "LISTEN mail") rejected
