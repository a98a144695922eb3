-- ===== src/Listen/Handlers/Replies.antt =====
-- What LISTEN and UNLISTEN answer (pkg/pgfox/listen_notify.go). A client that sent a simple query
-- waits for ReadyForQuery.
use pgfox.Prelude.{Bool, true, false, ◌||◌, List, [], ◌∷◌, ◌≡◌, refl, arith}
use pgfox.Prelude.Bytes.{Bytes}
use pgfox.Prelude.Result.{Result, ok, err}
use pgfox.Listen.Channel.{Channel}
use pgfox.Listen.Registry.{Registry, Opening, ListenError}
use pgfox.Listen.Registry.Lookup.{succeeded}
use pgfox.Listen.Client.Names.{fields}
use pgfox.Listen.Client.{ListenClient, Reply, ready_for_query, Sides, subscribe}
use pgfox.Listen.Handlers.{
  in_tx, channel_of, listen_on, listen_words, listen_replies, handle_listen, handle_unlisten,
  unlisten_on, unlistening, Unlistening,
}

-- The last message is ReadyForQuery.
abbrev pub ends_ready : List Reply → Bool
ends_ready [] = false
ends_ready (ready_for_query s ∷ []) = true
ends_ready (r ∷ []) = false
ends_ready (r ∷ q ∷ rest) = ends_ready (q ∷ rest)

-- The subscription that a LISTEN with these words asks for outside a transaction.
abbrev pub subscribes : (Registry → Registry) → Sides → List Bytes → Opening → Bool
subscribes others (r, c) (command ∷ word ∷ words) o =
    in_tx c || succeeded (subscribe others (r, c) (channel_of c word) o).0
subscribes others s _ o = false

listen_replies-ready : (d : Result ListenError Bool) → ends_ready (listen_replies d) ≡ succeeded d
unfolding listen_replies
listen_replies-ready (ok n) = refl
listen_replies-ready (err e) = refl

listen_on-ready :
    (others : Registry → Registry) (r : Registry) (c : ListenClient) (ch : Channel) (o : Opening)
    → ends_ready (listen_on others (r, c) ch o).replies
      ≡ (in_tx c || succeeded (subscribe others (r, c) ch o).0)
unfolding listen_on
listen_on-ready others r c ch o =
    ground (arith, listen_replies-ready (subscribe others (r, c) ch o).0)

listen_words-ready :
    (others : Registry → Registry) (r : Registry) (c : ListenClient) (words : List Bytes)
    (o : Opening)
    → ends_ready (listen_words others (r, c) words o).replies ≡ subscribes others (r, c) words o
unfolding listen_words
listen_words-ready others r c (command ∷ word ∷ words) o = listen_on-ready others r c _ o
listen_words-ready others r c (command ∷ []) o = refl
listen_words-ready others r c [] o = refl

unlisten_on-ready :
    (r : Registry) (c : ListenClient) (u : Unlistening)
    → ends_ready (unlisten_on (r, c) u).replies ≡ true
unfolding unlisten_on
unlisten_on-ready r c u = ground arith

-- UNLISTEN always ends its answer with ReadyForQuery. LISTEN does so exactly when it names a
-- channel and either a transaction is open (or aborted) or the subscription succeeds: the answers
-- to a command without a channel and to a failed connection stop at the error, and the client that
-- sent a simple query waits on.
pub handle_listen-ready :
    (others : Registry → Registry) (r : Registry) (c : ListenClient) (query : Bytes) (o : Opening)
    → (ends_ready (handle_listen others r c query o).replies
        ≡ subscribes others (r, c) (fields query) o)
      × (ends_ready (handle_unlisten r c query).replies ≡ true)
unfolding handle_listen handle_unlisten
handle_listen-ready others r c query o = (
  listen_words-ready others r c (fields query) o,
  unlisten_on-ready r c (unlistening c (fields query)),
)
