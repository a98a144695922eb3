-- ===== src/Session/Dispatch.antt =====
-- `HandleClientMessage` of pkg/pgfox/query.go: a simple query at once, and an extended pipeline
-- buffered up to its Sync or Flush. What the client sends is a list; a loop that reaches its end
-- is still waiting in `ReadMessage`.
use pgfox.Prelude.{
  ℕ, Bool, true, ◌&&◌, ◌||◌, List, [], ◌∷◌, ◌++◌, if◌then◌else◌, ◌==◌, ◌≡◌, ◌≢◌, refl, ap, arith,
  All, append_assoc,
}
use pgfox.Prelude.Bytes.{Bytes, equal}
use pgfox.Wire.Frame.{Message}
use pgfox.Session.Query.{query_message}

-- What `client.ReadMessage` gives: a message, `io.EOF`, or another error.
pub data Incoming : Type 0 where
  message : Message → Incoming
  closed : Incoming
  read_failed : Incoming

-- What the handler goes on to, or the error that it returns.
pub data Dispatch : Type 0 where
  to_query : Bytes → Dispatch
  to_pipeline : List Message → Dispatch
  end_of_file : Dispatch
  returned_error : Dispatch
  waiting : Dispatch

-- `query[:len(query)-1]` for a query that ends with NUL.
unfoldable pub query_text : Bytes → Bytes
query_text [] = []
query_text (b ∷ bs) = let rest = query_text bs in if equal bs [] && b == 0 then [] else b ∷ rest

-- `msgType == Sync || msgType == 'H'`
abbrev pub completes : ℕ → Bool
completes t = t == b'S' || t == b'H'

-- The loop, with the pipeline so far; and what is left unread.
unfoldable pub buffer_pipeline : List Message → List Incoming → Dispatch × List Incoming
buffer_pipeline pipeline [] = (waiting, [])
buffer_pipeline pipeline (closed ∷ rest) = (end_of_file, rest)
buffer_pipeline pipeline (read_failed ∷ rest) = (returned_error, rest)
buffer_pipeline pipeline (message m ∷ rest) =
    let next = buffer_pipeline (pipeline ++ m ∷ []) rest in
    if m.msg_type == b'X'
    then (end_of_file, rest)
    else if completes m.msg_type
    then (to_pipeline (pipeline ++ m ∷ []), rest)
    else next

unfoldable pub dispatch_message : Message → List Incoming → Dispatch × List Incoming
dispatch_message m rest =
    if m.msg_type == b'Q'
    then (to_query (query_text m.body), rest)
    else if m.msg_type == b'X'
    then (end_of_file, rest)
    else if completes m.msg_type
    then (to_pipeline (m ∷ []), rest)
    else buffer_pipeline (m ∷ []) rest

unfoldable pub handle_client_message : List Incoming → Dispatch × List Incoming
unfolding dispatch_message
handle_client_message [] = (waiting, [])
handle_client_message (closed ∷ rest) = (end_of_file, rest)
handle_client_message (read_failed ∷ rest) = (returned_error, rest)
handle_client_message (message m ∷ rest) = dispatch_message m rest

abbrev pub Continues : Message → Type 0
Continues m = (m.msg_type ≢ b'X') × (m.msg_type ≢ b'S') × (m.msg_type ≢ b'H')

-- Messages that arrive, in front of what arrives later.
pub arriving : List Message → List Incoming → List Incoming
arriving [] rest = rest
arriving (m ∷ ms) rest = message m ∷ arriving ms rest

buffer_pipeline-arriving :
    (pipeline ms : List Message) (last : Message) (rest : List Incoming)
    → All Continues ms
    → completes last.msg_type ≡ true
    → buffer_pipeline pipeline (arriving ms (message last ∷ rest))
      ≡ (to_pipeline (pipeline ++ (ms ++ last ∷ [])), rest)
unfolding buffer_pipeline arriving
buffer_pipeline-arriving pipeline [] last rest h e = ground arith
buffer_pipeline-arriving pipeline (m ∷ ms) last rest h e = ground (
  arith,
  buffer_pipeline-arriving (pipeline ++ m ∷ []) ms last rest h.1 e,
  append_assoc pipeline (m ∷ []) (ms ++ last ∷ []),
)

-- A pipeline is dispatched whole: if the client sends a message that is neither a Query nor
-- Terminate, further messages and then the first Sync or Flush, with no Terminate on the way, all
-- of them are handed on in order, and the messages behind stay unread.
pub handle_client_message-arriving :
    (first : Message) (ms : List Message) (last : Message) (rest : List Incoming)
    → first.msg_type ≢ b'Q'
    → All Continues (first ∷ ms)
    → completes last.msg_type ≡ true
    → handle_client_message (arriving (first ∷ ms) (message last ∷ rest))
      ≡ (to_pipeline (first ∷ (ms ++ last ∷ [])), rest)
unfolding handle_client_message dispatch_message arriving
handle_client_message-arriving first ms last rest q h e =
    ground (arith, buffer_pipeline-arriving (first ∷ []) ms last rest h.1 e)

query_text-append : (query : Bytes) → query_text (query ++ 0 ∷ []) ≡ query
unfolding query_text equal
query_text-append [] = refl
query_text-append (b ∷ []) = ground arith
query_text-append (b ∷ c ∷ rest) = ground (arith, query_text-append (c ∷ rest))

-- The Query that PgFox sends to a backend is, read as a client's, dispatched as exactly its text:
-- the NUL that one side adds is the one that the other takes off, and a text that itself ends
-- with NUL keeps it. What follows stays unread.
pub handle_client_message-query_message :
    (query : Bytes) (rest : List Incoming)
    → handle_client_message (message (query_message query) ∷ rest) ≡ (to_query query, rest)
unfolding handle_client_message dispatch_message query_message
handle_client_message-query_message query rest =
    ap (λ q. (to_query q, rest)) (query_text-append query)
