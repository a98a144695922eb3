-- ===== src/Listen/Handlers/Agree.antt =====
-- The client's channels and the registry's monitors tell the same story, after every command of
-- pkg/pgfox/listen_notify.go and at the end of every transaction.
use pgfox.Prelude.{
  ℕ, Bool, true, false, ◌&&◌, some, List, [], ◌∷◌, length, if◌then◌else◌, ◌==◌, ◌≡◌, refl, sym, ◌∙◌,
  arith, subst,
}
use pgfox.Prelude.Bytes.{Bytes}
use pgfox.Prelude.Result.{Result, ok, err}
use pgfox.Listen.Channel.{Channel, same, same_iff}
use pgfox.Listen.Registry.{
  Registry, Opening, ListenError, get_or_create_listen, remove_client_from_listen,
}
use pgfox.Listen.Registry.Lookup.{
  identity, subscribed, succeeded, subscribed-get_or_create_listen,
  subscribed-remove_client_from_listen,
}
use pgfox.Listen.Client.{
  ListenClient, Handled, ListenKind, PendingListen, listen, unlisten, unlisten_all, Sides,
  contains_channel, delete_channel, add_listen_channel, remove_listen_channel,
  clear_listen_channels, note_subscribed, subscribe, unsubscribe, unsubscribe_all, leave_all,
  buffer_listen,
}
use pgfox.Listen.Client.Names.{fields}
use pgfox.Listen.Handlers.{
  listen_on, listen_words, handle_listen, handle_unlisten, unlisten_on, apply_unlistening,
  buffer_unlistening, Unlistening, no_word, all_channels, one_channel, apply_pending, apply_all,
  unlistening, resolve_pending_listens,
}

-- The client lists a channel exactly if its monitor lists the client.
abbrev pub Agrees : Sides → Type 0
Agrees (r, c) =
    (key : Channel) → contains_channel key c.listen_channels ≡ subscribed key c.id r.listeners

pub contains-add_channel :
    (key ch : Channel) (c : ListenClient)
    → contains_channel key (add_listen_channel c ch).listen_channels
      ≡ (if same ch key then true else contains_channel key c.listen_channels)
unfolding contains_channel add_listen_channel
contains-add_channel key ch c = ground (arith, same_iff ch key)

pub contains-delete_channel :
    (key ch : Channel) (chs : List Channel)
    → contains_channel key (delete_channel ch chs)
      ≡ (if same ch key then false else contains_channel key chs)
unfolding contains_channel delete_channel
contains-delete_channel key ch [] = ground arith
contains-delete_channel key ch (x ∷ xs) =
    ground
      (arith, contains-delete_channel key ch xs, same_iff x ch, same_iff x key, same_iff ch key)

subscribed-leave_all :
    (key : Channel) (id : ℕ) (chs : List Channel) (r : Registry)
    → subscribed key id (leave_all r chs id).listeners
      ≡ (if contains_channel key chs then false else subscribed key id r.listeners)
unfolding leave_all contains_channel
subscribed-leave_all key id [] r = refl
subscribed-leave_all key id (ch ∷ chs) r =
    subscribed-leave_all key id chs (remove_client_from_listen r ch id)
    ∙ ground (arith, subscribed-remove_client_from_listen r ch key id id)

unsubscribe-Agrees : (s : Sides) (ch : Channel) → Agrees s → Agrees (unsubscribe s ch)
unfolding unsubscribe remove_listen_channel
unsubscribe-Agrees (r, c) ch h key = ground (
  arith,
  contains-delete_channel key ch c.listen_channels,
  subscribed-remove_client_from_listen r ch key c.id c.id,
  h key,
)

unsubscribe_all-Agrees : (s : Sides) → Agrees s → Agrees (unsubscribe_all s)
unfolding unsubscribe_all clear_listen_channels contains_channel
unsubscribe_all-Agrees (r, c) h key =
    ground (arith, subscribed-leave_all key c.id c.listen_channels r, h key)

add_listen_channel-id : (c : ListenClient) (ch : Channel) → (add_listen_channel c ch).id ≡ c.id
unfolding add_listen_channel
add_listen_channel-id c ch = refl

note_subscribed-Agrees :
    (done : Result ListenError Bool) (r r' : Registry) (c : ListenClient) (ch : Channel)
    → ((key : Channel)
        → subscribed key c.id r'.listeners ≡ (
            if succeeded done && (same ch key && c.id == c.id)
            then true
            else subscribed key c.id r.listeners))
    → Agrees (r, c)
    → let (_, r'', c') = note_subscribed done r' c ch in Agrees (r'', c') × (c'.id ≡ c.id)
unfolding note_subscribed
note_subscribed-Agrees (err e) r r' c ch changed h =
    (λ key. ground (arith, changed key, h key), refl)
note_subscribed-Agrees (ok n) r r' c ch changed h = (
  λ key.
      ground (arith, contains-add_channel key ch c, add_listen_channel-id c ch, changed key, h key),
  add_listen_channel-id c ch,
)

module _ (others : Registry → Registry) (id : ℕ)
    (keep : (key : Channel) (q : Registry)
      → subscribed key id (others q).listeners ≡ subscribed key id q.listeners)
    (stays : (ch : Channel) (q : Registry) (n : ℕ)
      → identity ch q ≡ some n
      → identity ch (others q) ≡ some n) where
  subscribe-Agrees :
      (r : Registry) (c : ListenClient) (ch : Channel) (o : Opening)
      → c.id ≡ id
      → Agrees (r, c)
      → let (done, r', c') = subscribe others (r, c) ch o in Agrees (r', c') × (c'.id ≡ id)
  unfolding subscribe
  subscribe-Agrees r c ch o e h =
      let at_id : (key : Channel) (q : Registry)
          → subscribed key c.id (others q).listeners ≡ subscribed key c.id q.listeners =
        subst
          (λ i.
            (key : Channel) (q : Registry)
            → subscribed key i (others q).listeners ≡ subscribed key i q.listeners)
          (sym e) keep in
      let got = get_or_create_listen r ch c.id o others in
      let noted =
        note_subscribed-Agrees got.0 r got.1 c ch
          (λ key.
            subscribed-get_or_create_listen ch key c.id c.id others (at_id key) (stays ch) r o)
          h in
      (noted.0, noted.1 ∙ e)

  apply_pending-Agrees :
      (kind : ListenKind) (ch : Channel) (o : Opening) (s : Sides)
      → s.1.id ≡ id
      → Agrees s
      → Agrees (apply_pending others s kind ch o) × ((apply_pending others s kind ch o).1.id ≡ id)
  unfolding apply_pending
  apply_pending-Agrees listen ch o (r, c) e h = subscribe-Agrees r c ch o e h
  apply_pending-Agrees unlisten ch o (r, c) e h =
      (unsubscribe-Agrees (r, c) ch h, unfold unsubscribe remove_listen_channel in e)
  apply_pending-Agrees unlisten_all ch o (r, c) e h =
      (unsubscribe_all-Agrees (r, c) h, unfold unsubscribe_all clear_listen_channels in e)

  apply_all-Agrees :
      (opens : ℕ → Opening) (actions : List PendingListen) (s : Sides)
      → s.1.id ≡ id
      → Agrees s
      → Agrees (apply_all others opens s actions)
  unfolding apply_all
  apply_all-Agrees opens [] s e h = h
  apply_all-Agrees opens (a ∷ rest) s e h =
      let one = apply_pending-Agrees a.kind a.channel (opens (length rest)) s e h in
      apply_all-Agrees opens rest (apply_pending others s a.kind a.channel (opens (length rest)))
        one.1 one.0

  abbrev HandledAgrees : Handled → Type 0
  HandledAgrees d = Agrees (d.registry, d.client)

  listen_on-Agrees :
      (r : Registry) (c : ListenClient) (ch : Channel) (o : Opening)
      → c.id ≡ id
      → Agrees (r, c)
      → HandledAgrees (listen_on others (r, c) ch o)
  unfolding listen_on buffer_listen
  listen_on-Agrees r c ch o e h key = ground (arith, (subscribe-Agrees r c ch o e h).0 key, h key)

  listen_words-Agrees :
      (r : Registry) (c : ListenClient) (words : List Bytes) (o : Opening)
      → c.id ≡ id
      → Agrees (r, c)
      → HandledAgrees (listen_words others (r, c) words o)
  unfolding listen_words
  listen_words-Agrees r c (command ∷ word ∷ words) o e h = listen_on-Agrees r c _ o e h
  listen_words-Agrees r c _ o e h = h

apply_unlistening-Agrees : (s : Sides) (u : Unlistening) → Agrees s → Agrees (apply_unlistening s u)
unfolding apply_unlistening
apply_unlistening-Agrees s no_word h = h
apply_unlistening-Agrees s all_channels h = unsubscribe_all-Agrees s h
apply_unlistening-Agrees s (one_channel ch) h = unsubscribe-Agrees s ch h

buffer_unlistening-same :
    (c : ListenClient) (u : Unlistening)
    → ((buffer_unlistening c u).listen_channels ≡ c.listen_channels)
      × ((buffer_unlistening c u).id ≡ c.id)
unfolding buffer_unlistening buffer_listen
buffer_unlistening-same c no_word = (refl, refl)
buffer_unlistening-same c all_channels = (refl, refl)
buffer_unlistening-same c (one_channel ch) = (refl, refl)

unlisten_on-Agrees :
    (r : Registry) (c : ListenClient) (u : Unlistening)
    → Agrees (r, c)
    → let d = unlisten_on (r, c) u in Agrees (d.registry, d.client)
unfolding unlisten_on
unlisten_on-Agrees r c u h key = ground (
  arith,
  apply_unlistening-Agrees (r, c) u h key,
  (buffer_unlistening-same c u).0,
  (buffer_unlistening-same c u).1,
  h key,
)

module _ (others : Registry → Registry) (id : ℕ)
    (keep : (key : Channel) (q : Registry)
      → subscribed key id (others q).listeners ≡ subscribed key id q.listeners)
    (stays : (ch : Channel) (q : Registry) (n : ℕ)
      → identity ch q ≡ some n
      → identity ch (others q) ≡ some n) where
  resolve-Agrees :
      (opens : ℕ → Opening) (r : Registry) (c : ListenClient)
      → c.id ≡ id
      → Agrees (r, c)
      → Agrees (resolve_pending_listens others opens (r, c))
  unfolding resolve_pending_listens
  resolve-Agrees opens r c e h key = ground (
    arith,
    apply_all-Agrees others id keep stays opens c.pending_listens
        (r, record c { pending_listens = [] }) e h key,
    h key,
  )

  -- LISTEN keeps the two sides in agreement on every branch: a syntax error, an aborted or an open
  -- transaction, a connection that cannot be opened, an old monitor and a new one. So does
  -- UNLISTEN, of one channel or of all, and so does the end of a transaction, whether its buffered
  -- actions are applied or dropped. Other goroutines are assumed, in each gap that the code leaves
  -- between its critical sections, to leave this client's subscriptions alone, and not to take
  -- away or replace a monitor once it stands for a channel. The code does not ensure the second.
  pub handlers-Agrees :
      (r : Registry) (c : ListenClient) (query : Bytes) (o : Opening) (opens : ℕ → Opening)
      → c.id ≡ id
      → Agrees (r, c)
      → (let listened = handle_listen others r c query o in
          Agrees (listened.registry, listened.client))
        × (let unlistened = handle_unlisten r c query in
            Agrees (unlistened.registry, unlistened.client))
        × Agrees (resolve_pending_listens others opens (r, c))
  unfolding handle_listen handle_unlisten
  handlers-Agrees r c query o opens e h = (
    listen_words-Agrees others id keep stays r c (fields query) o e h,
    unlisten_on-Agrees r c (unlistening c (fields query)) h,
    resolve-Agrees opens r c e h,
  )
