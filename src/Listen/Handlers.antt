-- ===== src/Listen/Handlers.antt =====
-- The LISTEN/UNLISTEN commands: `handleListen`, `handleUnlisten` and `resolvePendingListens` of
-- pkg/pgfox/listen_notify.go. A handler returns the registry, the client and the messages it
-- writes; a failed write ends the handler and touches neither state, so the replies are those of a
-- client that reads them all.
pub mod Agree
pub mod Deferred
pub mod Replies
use pgfox.Prelude.{ℕ, Bool, true, false, ◌||◌, List, [], ◌∷◌, ◌++◌, length, if◌then◌else◌, ◌==◌}
use pgfox.Prelude.Bytes.{Bytes, codes, equal}
use pgfox.Prelude.Result.{Result, ok, err}
use pgfox.Listen.Channel.{Channel}
use pgfox.Listen.Registry.{Registry, Opening, ListenError}
use pgfox.Listen.Client.Names.{fields, channel_name, equal_fold}
use pgfox.Listen.Client.{
  ListenClient, ListenKind, PendingListen, listen, unlisten, unlisten_all, Reply, error_response,
  command_complete, ready_for_query, Handled, Sides, buffer_listen, subscribe, unsubscribe,
  unsubscribe_all,
}

abbrev pub channel_of : ListenClient → Bytes → Channel
channel_of c word = record { database = c.database; name = channel_name word }

-- `status == 'T' || status == 'E'`
abbrev pub in_tx : ListenClient → Bool
in_tx c = c.last_tx_status == b'T' || c.last_tx_status == b'E'

aborted : Registry → ListenClient → Handled
aborted r c = record {
  registry = r;
  client = c;
  replies = error_response (codes "25P02") ∷ ready_for_query b'E' ∷ [];
}

listen_replies : Result ListenError Bool → List Reply
listen_replies (err e) = error_response (codes "08006") ∷ []
listen_replies (ok is_new) = command_complete (codes "LISTEN") ∷ ready_for_query b'I' ∷ []

unfoldable pub listen_on : (Registry → Registry) → Sides → Channel → Opening → Handled
unfolding aborted listen_replies
listen_on others (r, c) ch o =
    if in_tx c
    then (if c.last_tx_status == b'E' then aborted r c else record {
      registry = r;
      client = buffer_listen c listen ch;
      replies = command_complete (codes "LISTEN") ∷ ready_for_query b'T' ∷ [];
    })
    else (let (done, r', c') = subscribe others (r, c) ch o in
        record { registry = r'; client = c'; replies = listen_replies done })

listen_words : (Registry → Registry) → Sides → List Bytes → Opening → Handled
listen_words others (r, c) (command ∷ word ∷ words) o =
    listen_on others (r, c) (channel_of c word) o
listen_words others (r, c) _ o = record {
  registry = r;
  client = c;
  replies = error_response (codes "42601") ∷ [];
}

unfoldable pub handle_listen :
    (Registry → Registry) → Registry → ListenClient → Bytes → Opening → Handled
unfolding listen_words
handle_listen others r c query o = listen_words others (r, c) (fields query) o

-- What an UNLISTEN names: nothing, `*`, or a channel.
pub data Unlistening : Type 0 where
  no_word : Unlistening
  all_channels : Unlistening
  one_channel : Channel → Unlistening

unlistening : ListenClient → List Bytes → Unlistening
unlistening c (command ∷ word ∷ words) =
    if equal word (codes "*") then all_channels else one_channel (channel_of c word)
unlistening c _ = no_word

buffer_unlistening : ListenClient → Unlistening → ListenClient
buffer_unlistening c no_word = c
buffer_unlistening c all_channels =
    buffer_listen c unlisten_all (record { database = c.database; name = [] })
buffer_unlistening c (one_channel ch) = buffer_listen c unlisten ch

apply_unlistening : Sides → Unlistening → Sides
apply_unlistening s no_word = s
apply_unlistening s all_channels = unsubscribe_all s
apply_unlistening s (one_channel ch) = unsubscribe s ch

unlisten_on : Sides → Unlistening → Handled
unfolding aborted buffer_unlistening apply_unlistening
unlisten_on (r, c) u =
    if in_tx c
    then (if c.last_tx_status == b'E' then aborted r c else record {
      registry = r;
      client = buffer_unlistening c u;
      replies = command_complete (codes "UNLISTEN") ∷ ready_for_query b'T' ∷ [];
    })
    else (let (r', c') = apply_unlistening (r, c) u in
        record {
          registry = r';
          client = c';
          replies = command_complete (codes "UNLISTEN") ∷ ready_for_query b'I' ∷ [];
        })

unfoldable pub handle_unlisten : Registry → ListenClient → Bytes → Handled
unfolding unlisten_on unlistening
handle_unlisten r c query = unlisten_on (r, c) (unlistening c (fields query))

-- One buffered action, with the environment's opening for a LISTEN.
unfoldable pub apply_pending :
    (Registry → Registry) → Sides → ListenKind → Channel → Opening → Sides
apply_pending others s listen ch o = let (done, r', c') = subscribe others s ch o in (r', c')
apply_pending others s unlisten ch o = unsubscribe s ch
apply_pending others s unlisten_all ch o = unsubscribe_all s

-- `opens` gives each action its opening, by the number of actions behind it.
unfoldable pub apply_all :
    (Registry → Registry) → (ℕ → Opening) → Sides → List PendingListen → Sides
apply_all others opens s [] = s
apply_all others opens s (a ∷ rest) =
    apply_all others opens (apply_pending others s a.kind a.channel (opens (length rest))) rest

-- `resolvePendingListens`: the buffer is emptied whatever the outcome.
unfoldable pub resolve_pending_listens : (Registry → Registry) → (ℕ → Opening) → Sides → Sides
resolve_pending_listens others opens (r, c) =
    let taken = record c { pending_listens = [] } in
    if equal_fold c.last_command_tag (codes "COMMIT")
    then apply_all others opens (r, taken) c.pending_listens
    else (r, taken)
