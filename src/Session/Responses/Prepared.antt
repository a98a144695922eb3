-- ===== src/Session/Responses/Prepared.antt =====
-- What the client receives of a query that is served as a prepared statement, and what the
-- connection is then known to have (`forwardPreparedResponse` of pkg/pgfox/query.go).
use pgfox.Prelude.{
  ℕ, Bool, true, false, ◌||◌, List, [], ◌∷◌, ◌++◌, if◌then◌else◌, ◌==◌, ◌≡◌, ◌≢◌, refl, sym, ap,
  ◌∙◌, arith, All, append_assoc, append-nil,
}
use pgfox.Prelude.Bytes.{Bytes, equal_refl}
use pgfox.Wire.Frame.{Message}
use pgfox.Session.State.{World, write_client, set_active_backend, mark_stmt, has_stmt}
use pgfox.Session.Responses.{
  Answer, status, status_of, deactivate, activate, prepared_loop, forward_prepared_response,
  note_deployed,
}
use pgfox.Session.Responses.Verbatim.{answer, delivered, delivered-message, delivered-nil, NotReady}

-- ParseComplete, BindComplete and NoData have no place in a simple query's answer.
abbrev pub is_hidden : ℕ → Bool
is_hidden t = t == b'1' || t == b'2' || t == b'n'

pub visible : List Message → List Message
visible [] = []
visible (m ∷ ms) = if is_hidden m.msg_type then visible ms else m ∷ visible ms

pub has_parse_complete : List Message → Bool
has_parse_complete [] = false
has_parse_complete (m ∷ ms) = m.msg_type == b'1' || has_parse_complete ms

-- What the prepared loop does to the state, message by message.
unfoldable pub absorb : Bytes → List Message → World → World
absorb hash [] w = w
absorb hash (m ∷ ms) w =
    if m.msg_type == b'1'
    then absorb hash ms (note_deployed hash w)
    else if m.msg_type == b'2' || m.msg_type == b'n'
    then absorb hash ms w
    else absorb hash ms (write_client m w)

pub prepared_loop-answer :
    (hash : Bytes) (m : Message) (rest : List Answer) (w : World)
    → prepared_loop hash (answer m ∷ rest) w ≡ (
        if m.msg_type == b'1'
        then prepared_loop hash rest (note_deployed hash w)
        else if m.msg_type == b'2' || m.msg_type == b'n'
        then prepared_loop hash rest w
        else if m.msg_type == b'Z'
        then (status (status_of m.body), write_client m w)
        else prepared_loop hash rest (write_client m w))
unfolding prepared_loop
prepared_loop-answer hash m rest w = refl

pub absorb-message :
    (hash : Bytes) (m : Message) (ms : List Message) (w : World)
    → absorb hash (m ∷ ms) w ≡ (
        if m.msg_type == b'1'
        then absorb hash ms (note_deployed hash w)
        else if m.msg_type == b'2' || m.msg_type == b'n'
        then absorb hash ms w
        else absorb hash ms (write_client m w))
unfolding absorb
absorb-message hash m ms w = refl

pub absorb-nil : (hash : Bytes) (w : World) → absorb hash [] w ≡ w
unfolding absorb
absorb-nil hash w = refl

prepared_loop-ready :
    (hash : Bytes) (z : Message) (rest : List Answer) (w : World)
    → z.msg_type ≡ b'Z'
    → prepared_loop hash (answer z ∷ rest) w ≡ (status (status_of z.body), write_client z w)
prepared_loop-ready hash z rest w e = ground (arith, prepared_loop-answer hash z rest w)

prepared_loop-delivered :
    (hash : Bytes) (before : List Message) (z : Message) (rest : List Answer) (w : World)
    → All NotReady before
    → z.msg_type ≡ b'Z'
    → prepared_loop hash (delivered before (answer z ∷ rest)) w
      ≡ (status (status_of z.body), write_client z (absorb hash before w))
prepared_loop-delivered hash [] z rest w h e =
    rw (delivered-nil (answer z ∷ rest), absorb-nil hash w) (prepared_loop-ready hash z rest w e)
prepared_loop-delivered hash (m ∷ ms) z rest w h e = rw (delivered-message m ms (answer z ∷ rest)) (
    ground (
      arith,
      prepared_loop-answer hash m (delivered ms (answer z ∷ rest)) w,
      absorb-message hash m ms w,
      prepared_loop-delivered hash ms z rest (write_client m w) h.1 e,
      prepared_loop-delivered hash ms z rest w h.1 e,
      prepared_loop-delivered hash ms z rest (note_deployed hash w) h.1 e,
    ))

has_stmt-note_deployed :
    (hash : Bytes) (w : World)
    → (has_stmt hash (note_deployed hash w).conn.deployed_stmts ≡ true)
      × ((note_deployed hash w).client.out ≡ w.client.out)
unfolding note_deployed has_stmt mark_stmt
has_stmt-note_deployed hash w = (ground (arith, equal_refl hash), ground arith)

absorb-lem :
    (hash : Bytes) (ms : List Message) (w : World)
    → ((absorb hash ms w).client.out ≡ w.client.out ++ visible ms)
      × (has_stmt hash (absorb hash ms w).conn.deployed_stmts
          ≡ (has_parse_complete ms || has_stmt hash w.conn.deployed_stmts))
unfolding absorb visible has_parse_complete write_client
absorb-lem hash [] w = (sym (append-nil w.client.out), refl)
absorb-lem hash (m ∷ ms) w = (
  ground (
    arith,
    (absorb-lem hash ms (note_deployed hash w)).0,
    (has_stmt-note_deployed hash w).1,
    (absorb-lem hash ms w).0,
    (absorb-lem hash ms (write_client m w)).0,
    append_assoc w.client.out (m ∷ []) (visible ms),
  ),
  ground (
    arith,
    (absorb-lem hash ms (note_deployed hash w)).1,
    (has_stmt-note_deployed hash w).0,
    (absorb-lem hash ms w).1,
    (absorb-lem hash ms (write_client m w)).1,
  ),
)

-- A simple query served as a prepared statement: the client receives the messages before the
-- ReadyForQuery without ParseComplete, BindComplete and NoData, in order, and the ReadyForQuery,
-- whose status byte is returned. The connection is known to have the statement exactly if it was
-- before or a ParseComplete arrived. Every write is assumed to succeed, and the status byte not to
-- be 0.
pub forward_prepared_response-delivered :
    (hash : Bytes) (before : List Message) (z : Message) (s : ℕ) (rest : List Answer) (w : World)
    → All NotReady before
    → z.msg_type ≡ b'Z'
    → z.body ≡ s ∷ []
    → s ≢ 0
    → let (f, after) = forward_prepared_response hash (delivered before (answer z ∷ rest)) w in
      (f ≡ status s)
      × (after.client.out ≡ w.client.out ++ (visible before ++ z ∷ []))
      × (has_stmt hash after.conn.deployed_stmts
          ≡ (has_parse_complete before || has_stmt hash w.conn.deployed_stmts))
unfolding forward_prepared_response deactivate set_active_backend status_of write_client
forward_prepared_response-delivered hash before z s rest w h e b n =
    let start = activate w in
    let run = prepared_loop-delivered hash before z rest start h e in
    let all = absorb-lem hash before start in
    rw run (
      ground (arith, b),
      ap (λ o. o ++ z ∷ []) all.0 ∙ append_assoc w.client.out (visible before) (z ∷ []),
      all.1,
    )
