-- ===== src/Session/Responses/Extended.antt =====
-- The responses of the extended query protocol, which reach the client unchanged: after a Sync
-- (`forwardExtendedResponse`) and after a Flush (`drainFlushResponse`) of pkg/pgfox/query.go.
use pgfox.Prelude.{
  ℕ, zero, suc, Bool, false, ◌||◌, List, [], ◌∷◌, ◌++◌, if◌then◌else◌, ◌==◌, ◌≡◌, ◌≢◌, refl, sym,
  ap, ◌∙◌, arith, All, append_assoc, append-nil, take,
}
use pgfox.Prelude.Bytes.{Bytes}
use pgfox.Wire.Frame.{Message}
use pgfox.Session.State.{World, write_client, set_active_backend, mark_stmt, has_stmt}
use pgfox.Session.Responses.{
  Answer, Forwarded, status, failed, waiting, status_of, deactivate, activate, extended_loop,
  forward_extended_response, next_hashes, mark_parsed, ends_flush, flush_loop, drain_flush_response,
}
use pgfox.Session.Responses.Verbatim.{answer, delivered, delivered-message, delivered-nil, NotReady}

pub parse_completes : List Message → ℕ
parse_completes [] = 0
parse_completes (m ∷ ms) = let n = parse_completes ms in if m.msg_type == b'1' then suc n else n

-- What the loops do to the state, message by message.
absorb : List Bytes → List Message → World → World
absorb hashes [] w = w
absorb hashes (m ∷ ms) w =
    absorb (next_hashes m.msg_type hashes) ms (write_client m (mark_parsed m.msg_type hashes w))

extended_loop-answer :
    (hashes : List Bytes) (m : Message) (rest : List Answer) (w : World)
    → extended_loop hashes (answer m ∷ rest) w ≡ (
        if m.msg_type == b'Z'
        then (status (status_of m.body), write_client m (mark_parsed m.msg_type hashes w))
        else extended_loop
            (next_hashes m.msg_type hashes)
            rest
            (write_client m (mark_parsed m.msg_type hashes w)))
unfolding extended_loop
extended_loop-answer hashes m rest w = refl

mark_parsed-ready :
    (t : ℕ) (hashes : List Bytes) (w : World) → t ≡ b'Z' → mark_parsed t hashes w ≡ w
unfolding mark_parsed
mark_parsed-ready t [] w e = refl
mark_parsed-ready t (h ∷ hs) w e = ground arith

extended_loop-delivered :
    (hashes : List Bytes) (before : List Message) (z : Message) (rest : List Answer) (w : World)
    → All NotReady before
    → z.msg_type ≡ b'Z'
    → extended_loop hashes (delivered before (answer z ∷ rest)) w
      ≡ (status (status_of z.body), write_client z (absorb hashes before w))
unfolding absorb
extended_loop-delivered hashes [] z rest w h e =
    rw (delivered-nil (answer z ∷ rest)) (
      ground (arith, extended_loop-answer hashes z rest w, mark_parsed-ready z.msg_type hashes w e))
extended_loop-delivered hashes (m ∷ ms) z rest w h e =
    rw (delivered-message m ms (answer z ∷ rest)) (
      ground (
        arith,
        extended_loop-answer hashes m (delivered ms (answer z ∷ rest)) w,
        extended_loop-delivered (next_hashes m.msg_type hashes) ms z rest
            (write_client m (mark_parsed m.msg_type hashes w)) h.1 e,
      ))

mark_parsed-out :
    (t : ℕ) (hashes : List Bytes) (w : World) → (mark_parsed t hashes w).client.out ≡ w.client.out
unfolding mark_parsed mark_stmt
mark_parsed-out t [] w = refl
mark_parsed-out t (h ∷ hs) w = ground arith

absorb-out :
    (hashes : List Bytes) (ms : List Message) (w : World)
    → (absorb hashes ms w).client.out ≡ w.client.out ++ ms
unfolding absorb write_client
absorb-out hashes [] w = sym (append-nil w.client.out)
absorb-out hashes (m ∷ ms) w =
    absorb-out (next_hashes m.msg_type hashes) ms (write_client m (mark_parsed m.msg_type hashes w))
    ∙ ap (λ o. (o ++ m ∷ []) ++ ms) (mark_parsed-out m.msg_type hashes w)
    ∙ append_assoc w.client.out (m ∷ []) ms

take-none : (n : ℕ) → take {A = Bytes} n [] ≡ []
take-none zero = refl
take-none (suc n) = refl

parsed-step :
    (hash : Bytes) (t n : ℕ) (hashes : List Bytes) (w : World)
    → (has_stmt hash (take n (next_hashes t hashes))
        || has_stmt hash (mark_parsed t hashes w).conn.deployed_stmts)
      ≡ (has_stmt hash (take (if t == b'1' then suc n else n) hashes)
          || has_stmt hash w.conn.deployed_stmts)
unfolding has_stmt next_hashes mark_parsed mark_stmt
parsed-step hash t n [] w = ground (arith, take-none n)
parsed-step hash t n (h ∷ hs) w = ground arith

absorb-deployed :
    (hash : Bytes) (hashes : List Bytes) (ms : List Message) (w : World)
    → has_stmt hash (absorb hashes ms w).conn.deployed_stmts
      ≡ (has_stmt hash (take (parse_completes ms) hashes) || has_stmt hash w.conn.deployed_stmts)
unfolding absorb parse_completes write_client has_stmt
absorb-deployed hash hashes [] w = refl
absorb-deployed hash hashes (m ∷ ms) w =
    absorb-deployed hash (next_hashes m.msg_type hashes) ms
      (write_client m (mark_parsed m.msg_type hashes w))
    ∙ parsed-step hash m.msg_type (parse_completes ms) hashes w

-- The response to a pipeline that ends with Sync: every message up to the ReadyForQuery is written
-- to the client unchanged and in order, the status byte is returned, and of the Parse messages
-- that were sent exactly the first so many are marked as deployed as ParseComplete messages
-- arrived, beside what the connection had. Every write is assumed to succeed, and the status byte
-- not to be 0.
pub forward_extended_response-delivered :
    (hashes : List Bytes) (before : List Message) (z : Message) (s : ℕ) (rest : List Answer)
    (w : World)
    → All NotReady before
    → z.msg_type ≡ b'Z'
    → z.body ≡ s ∷ []
    → s ≢ 0
    → let (f, after) = forward_extended_response hashes (delivered before (answer z ∷ rest)) w in
      (f ≡ status s)
      × (after.client.out ≡ w.client.out ++ (before ++ z ∷ []))
      × ((hash : Bytes)
          → has_stmt hash after.conn.deployed_stmts ≡ (
              has_stmt hash (take (parse_completes before) hashes)
              || has_stmt hash w.conn.deployed_stmts))
unfolding forward_extended_response deactivate set_active_backend status_of write_client
forward_extended_response-delivered hashes before z s rest w h e b n =
    let start = activate w in
    let run = extended_loop-delivered hashes before z rest start h e in
    rw run (
      ground (arith, b),
      ap (λ o. o ++ z ∷ []) (absorb-out hashes before start)
          ∙ append_assoc w.client.out before (z ∷ []),
      λ hash. absorb-deployed hash hashes before start,
    )

pub has_end : List Message → Bool
has_end [] = false
has_end (m ∷ ms) = ends_flush m.msg_type || has_end ms

flush_loop-answer :
    (hashes : List Bytes) (m : Message) (rest : List Answer) (w : World)
    → flush_loop hashes (answer m ∷ rest) w ≡ (
        if ends_flush m.msg_type
        then (status 0, write_client m (mark_parsed m.msg_type hashes w))
        else flush_loop
            (next_hashes m.msg_type hashes)
            rest
            (write_client m (mark_parsed m.msg_type hashes w)))
unfolding flush_loop
flush_loop-answer hashes m rest w = refl

flush_loop-ends :
    (hashes : List Bytes) (ms : List Message) (w : World)
    → (flush_loop hashes (delivered ms []) w).0 ≡ (if has_end ms then status 0 else waiting)
unfolding has_end
flush_loop-ends hashes [] w = rw (delivered-nil []) (unfold flush_loop in refl)
flush_loop-ends hashes (m ∷ ms) w = rw (delivered-message m ms []) (
    ground (
      arith,
      flush_loop-answer hashes m (delivered ms []) w,
      flush_loop-ends (next_hashes m.msg_type hashes) ms
          (write_client m (mark_parsed m.msg_type hashes w)),
    ))

deactivate-result : (r : Forwarded × World) → (deactivate r).0 ≡ r.0
unfolding deactivate
deactivate-result (status s, w) = refl
deactivate-result (failed, w) = refl
deactivate-result (waiting, w) = refl

-- The response to a pipeline that ends with Flush: the loop returns exactly if a RowDescription,
-- a NoData or an ErrorResponse is among the messages that the backend has to send. A pipeline
-- that calls for none of them, as Parse and Flush without a Describe, leaves it waiting after the
-- last one. Every write is assumed to succeed.
pub drain_flush_response-waits :
    (hashes : List Bytes) (ms : List Message) (w : World)
    → (drain_flush_response hashes (delivered ms []) w).0
      ≡ (if has_end ms then status 0 else waiting)
unfolding drain_flush_response
drain_flush_response-waits hashes ms w =
    deactivate-result (flush_loop hashes (delivered ms []) (activate w))
    ∙ flush_loop-ends hashes ms (activate w)
