-- ===== src/Session/State.antt =====
-- The state that serving one client changes, and the operations on it: `SetBackend`,
-- `WriteMessage`, `SendErrorResponse` and the statement names of pkg/pgfox/client.go, and
-- `Release`, `Return`, `HasStmt` and `MarkStmt` of pkg/pgfox/backend.go. Connections are known by
-- numbers. The connection in hand came out of a pool's queue, so its `Pool` is set. Timestamps,
-- deadlines and the counters for statistics are left out, but for `DeployCount`.
use pgfox.Prelude.{
  ℕ, Bool, true, false, ◌||◌, Option, none, some, List, [], ◌∷◌, ◌++◌, if◌then◌else◌, ◌==◌, ltb,
  length,
}
use pgfox.Prelude.Bytes.{Bytes, equal}
use pgfox.Wire.CString.{c_string}
use pgfox.Wire.Frame.{Message}
use pgfox.Listen.Client.{ListenClient, Sides}

-- The fields of `Client` beside those of LISTEN. `out` is what was written to it.
pub record ClientState : Type 0 where
  pub id : ℕ
  pub backend : Option ℕ
  pub active_backend : Option ℕ
  pub in_transaction : Bool
  pub named_stmts : ℕ
  pub stmt_name_map : List (Bytes × Bytes)
  pub out : List Message

-- The fields of `Backend`.
pub record Connection : Type 0 where
  pub id : ℕ
  pub in_use : Bool
  pub client : Option ℕ
  pub deployed_stmts : List Bytes

-- One client, the connection in hand, and its pool: `queue` is `Pool.Queue`, `close_ch` is
-- `Target.CloseCh`, `deploy_count` that of the statement being served.
pub record World : Type 0 where
  pub listen : Sides
  pub client : ClientState
  pub conn : Connection
  pub queue : List ℕ
  pub queue_capacity : ℕ
  pub close_ch : List ℕ
  pub deploy_count : ℕ

unfoldable pub set_backend : Option ℕ → World → World
set_backend b w = record w { client = record w.client { backend = b } }

unfoldable pub set_active_backend : Option ℕ → World → World
set_active_backend b w = record w { client = record w.client { active_backend = b } }

unfoldable pub set_in_transaction : Bool → World → World
set_in_transaction t w = record w { client = record w.client { in_transaction = t } }

-- `backend.SetClient`
unfoldable pub set_client : Option ℕ → World → World
set_client c w = record w { conn = record w.conn { client = c } }

abbrev pub has_named_statements : World → Bool
has_named_statements w = ltb 0 w.client.named_stmts

abbrev pub has_backend : World → Bool
has_backend w = elim w.client.backend [ none ↦ false | some b ↦ true ]

-- `client.SetBackend(backend)` and `backend.SetClient(client)`.
unfoldable pub pin : World → World
unfolding set_client set_backend
pin w = set_client (some w.client.id) (set_backend (some w.conn.id) w)

unfoldable pub unpin : World → World
unfolding set_client set_backend
unpin w = set_client none (set_backend none w)

-- What `WriteMessage` mirrors of the protocol state.
unfoldable pub mirror : Message → ListenClient → ListenClient
mirror m c =
    if m.msg_type == b'C'
    then record c { last_command_tag = c_string m.body }
    else if m.msg_type == b'Z'
    then (elim m.body [ [] ↦ c | status ∷ rest ↦ record c { last_tx_status = status } ])
    else c

-- A write that succeeds.
unfoldable pub write_client : Message → World → World
write_client m w = record w {
  listen = (w.listen.0, mirror m w.listen.1);
  client = record w.client { out = w.client.out ++ m ∷ [] };
}

unfoldable pub error_message : Bytes → Bytes → Bytes → Message
error_message severity code text = record {
  msg_type = b'E';
  body = b'S' ∷ (severity ++ 0 ∷ b'C' ∷ (code ++ 0 ∷ b'M' ∷ (text ++ 0 ∷ 0 ∷ [])));
}

unfoldable pub has_stmt : Bytes → List Bytes → Bool
has_stmt hash [] = false
has_stmt hash (h ∷ hs) = equal h hash || has_stmt hash hs

unfoldable pub mark_stmt : Bytes → World → World
mark_stmt hash w = record w {
  conn = record w.conn { deployed_stmts = hash ∷ w.conn.deployed_stmts };
}

-- The client that the connection points to forgets it.
unfoldable pub forget : Option ℕ → World → World
unfolding set_in_transaction set_backend
forget none w = w
forget (some c) w = if c == w.client.id then set_in_transaction false (set_backend none w) else w

unfoldable pub close_conn : World → World
close_conn w = record w { close_ch = w.close_ch ++ w.conn.id ∷ [] }

unfoldable pub release : World → World
unfolding forget close_conn set_client
release w = close_conn (forget w.conn.client (set_client none w))

unfoldable pub enqueue : World → World
unfolding close_conn
enqueue w =
    if ltb (length w.queue) w.queue_capacity
    then record w { queue = w.queue ++ w.conn.id ∷ [] }
    else close_conn w

-- `Return`
unfoldable pub return_conn : World → World
unfolding enqueue
return_conn w = enqueue (record w { conn = record w.conn { in_use = false; client = none } })
