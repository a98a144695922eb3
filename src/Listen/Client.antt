-- ===== src/Listen/Client.antt =====
-- A client's side of LISTEN/UNLISTEN: the listen fields of `Client` (pkg/pgfox/client.go) with
-- what pkg/pgfox/listen_notify.go does to a client and the registry together, `cleanupClientListeners`
-- included.
pub mod Names
use pgfox.Prelude.{
  ℕ, Bool, true, false, not, ◌&&◌, ◌||◌, Option, none, some, List, [], ◌∷◌, ◌++◌, if◌then◌else◌,
  ◌==◌,
}
use pgfox.Prelude.Bytes.{Bytes, codes, equal}
use pgfox.Prelude.Result.{Result, ok, err}
use pgfox.Listen.Channel.{Channel, same}
use pgfox.Listen.Registry.{
  Registry, Opening, ListenError, get_or_create_listen, remove_client_from_listen,
}
use pgfox.Listen.Client.Names.{fields, channel_name, equal_fold}

pub data ListenKind : Type 0 where
  listen : ListenKind
  unlisten : ListenKind
  unlisten_all : ListenKind

pub record PendingListen : Type 0 where
  pub kind : ListenKind
  pub channel : Channel

pub record ListenClient : Type 0 where
  pub id : ℕ
  pub database : Bytes
  pub listen_channels : List Channel
  pub is_listening : Bool
  pub pending_listens : List PendingListen
  pub last_tx_status : ℕ
  pub last_command_tag : Bytes

-- What a handler writes to the client; an error is known by its SQLSTATE.
pub data Reply : Type 0 where
  error_response : Bytes → Reply
  command_complete : Bytes → Reply
  ready_for_query : ℕ → Reply

pub record Handled : Type 0 where
  pub registry : Registry
  pub client : ListenClient
  pub replies : List Reply

unfoldable pub contains_channel : Channel → List Channel → Bool
contains_channel ch [] = false
contains_channel ch (x ∷ xs) = same x ch || contains_channel ch xs

unfoldable pub delete_channel : Channel → List Channel → List Channel
delete_channel ch [] = []
delete_channel ch (x ∷ xs) = let rest = delete_channel ch xs in if same x ch then rest else x ∷ rest

unfoldable pub add_listen_channel : ListenClient → Channel → ListenClient
add_listen_channel c ch = record c {
  listen_channels =
      if contains_channel ch c.listen_channels then c.listen_channels else ch ∷ c.listen_channels;
  is_listening = true;
}

abbrev pub no_channels : List Channel → Bool
no_channels [] = true
no_channels (x ∷ xs) = false

unfoldable pub remove_listen_channel : ListenClient → Channel → ListenClient
remove_listen_channel c ch =
    let left = delete_channel ch c.listen_channels in
    record c {
      listen_channels = left;
      is_listening = if no_channels left then false else c.is_listening;
    }

unfoldable pub clear_listen_channels : ListenClient → ListenClient
clear_listen_channels c = record c { listen_channels = []; is_listening = false }

unfoldable pub buffer_listen : ListenClient → ListenKind → Channel → ListenClient
buffer_listen c kind ch = record c {
  pending_listens = c.pending_listens ++ (record { kind = kind; channel = ch } ∷ []);
}

-- The registry and the client, where nothing is written.
abbrev pub Sides : Type 0
Sides = Registry × ListenClient

unfoldable pub note_subscribed :
    Result ListenError Bool
    → Registry
    → ListenClient
    → Channel
    → Result ListenError Bool × Registry × ListenClient
note_subscribed (err e) r c ch = (err e, r, c)
note_subscribed (ok is_new) r c ch = (ok is_new, r, add_listen_channel c ch)

-- `getOrCreateListen`, and on success `AddListenChannel`.
unfoldable pub subscribe :
    (Registry → Registry)
    → Sides
    → Channel
    → Opening
    → Result ListenError Bool × Registry × ListenClient
subscribe others (r, c) ch o =
    let (done, r') = get_or_create_listen r ch c.id o others in note_subscribed done r' c ch

unfoldable pub unsubscribe : Sides → Channel → Sides
unsubscribe (r, c) ch = (remove_client_from_listen r ch c.id, remove_listen_channel c ch)

-- The loop over a copy of the channels.
unfoldable pub leave_all : Registry → List Channel → ℕ → Registry
leave_all r [] id = r
leave_all r (ch ∷ chs) id = leave_all (remove_client_from_listen r ch id) chs id

unfoldable pub unsubscribe_all : Sides → Sides
unsubscribe_all (r, c) = (leave_all r c.listen_channels c.id, clear_listen_channels c)

-- `cleanupClientListeners`, when the client is gone.
unfoldable pub cleanup_client_listeners : Sides → Registry
cleanup_client_listeners (r, c) = leave_all r c.listen_channels c.id
