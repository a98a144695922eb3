-- ===== src/Startup/Outcome.antt =====
-- Who reaches the message loop of `handleClient`, and what stands behind the flag `authenticated`
-- (pkg/pgfox/startup.go, pkg/pgfox/server.go).
use pgfox.Prelude.{
  ℕ, zero, suc, ◌≤◌, Bool, true, none, some, List, [], ◌∷◌, ◌++◌, ◌==◌, ◌≡◌, ◌≢◌, refl, sym, ap,
  ◌∙◌, subst, arith, branches,
}
use pgfox.Prelude.Bytes.{Bytes}
use pgfox.Prelude.Result.{Result, ok, err}
use pgfox.Access.{AccessError}
use pgfox.Wire.Frame.{Message}
use pgfox.Startup.{
  StartupError, panics, write_failed, read_failed, unexpected_message, bad_initial_response,
  bad_client_first, no_nonce, no_proof, bad_proof_encoding, proof_failed, Starting, Action, resume,
  ◌>>=◌, ◌>>◌, lift, send, receive, receive_password, parse_sasl_initial_response,
  extract_client_first_bare, extract_nonce, split_client_final, Verifier, Crypto, server_first,
  check_proof, decode_proof,
}
use pgfox.Startup.Scram.{
  verify_final, handle_client_scram, welcome, settle_scram, Attempt, with_verifier,
  authenticate_from, authenticate_client_with_backend, enters_loop,
}

-- The action leaves the flag as it is, on every branch.
abbrev pub KeepsFlag : {A : Type 0} → Action A → Type 0
KeepsFlag m = (c : Starting) → (m c).1.authenticated ≡ c.authenticated

resume-keeps :
    {A B : Type 0} (flag : Bool) (r : Result StartupError A × Starting) (next : A → Action B)
    → r.1.authenticated ≡ flag
    → ((a : A) → KeepsFlag (next a))
    → (resume r next).1.authenticated ≡ flag
resume-keeps flag (ok a, c) next h k = k a c ∙ h
resume-keeps flag (err e, c) next h k = h

bind-KeepsFlag :
    {A B : Type 0} (m : Action A) (next : A → Action B)
    → KeepsFlag m
    → ((a : A) → KeepsFlag (next a))
    → KeepsFlag (m >>= next)
bind-KeepsFlag m next h k c = resume-keeps c.authenticated (m c) next (h c) k

send_room :
    (m : Message) (c : Starting) (n : ℕ)
    → (let r : Result StartupError (Unit {0}) × Starting = elim n [
      | zero ↦ (err write_failed, c)
      | suc left ↦ (ok tt, record c { sent = c.sent ++ m ∷ []; room = left })
    ] in
        r.1.authenticated ≡ c.authenticated)
send_room m c zero = refl
send_room m c (suc n) = refl

pub send-KeepsFlag : (m : Message) → KeepsFlag (send m)
unfolding send
send-KeepsFlag m c = send_room m c c.room

lift-KeepsFlag : {A : Type 0} (r : Result StartupError A) → KeepsFlag (lift r)
unfolding lift
lift-KeepsFlag r c = refl

received :
    (c : Starting) (ms : List Message)
    → (let r : Result StartupError Message × Starting = elim ms [
      | [] ↦ (err read_failed, c)
      | m ∷ rest ↦ (ok m, record c { incoming = rest })
    ] in
        r.1.authenticated ≡ c.authenticated)
received c [] = refl
received c (m ∷ ms) = refl

receive_password-KeepsFlag : KeepsFlag receive_password
unfolding receive_password receive
receive_password-KeepsFlag =
    bind-KeepsFlag receive _ (λ c. received c c.incoming)
      (λ m c.
        branches (λ (r : Result StartupError Bytes × Starting). r.1.authenticated ≡ c.authenticated)
          (m.msg_type == b'p') refl refl)

lift-then :
    {A B : Type 0} (r : Result StartupError A) (next : A → Action B)
    → ((a : A) → KeepsFlag (next a))
    → KeepsFlag (lift r >>= next)
lift-then r next k = bind-KeepsFlag (lift r) next (lift-KeepsFlag r) k

send-then :
    {B : Type 0} (m : Message) (next : Action B) → KeepsFlag next → KeepsFlag (send m >> next)
send-then m next k = bind-KeepsFlag (send m) (λ _. next) (send-KeepsFlag m) (λ _. k)

password-then :
    {B : Type 0} (next : Bytes → Action B)
    → ((body : Bytes) → KeepsFlag (next body))
    → KeepsFlag (receive_password >>= next)
password-then next k = bind-KeepsFlag receive_password next receive_password-KeepsFlag k

verify_final-KeepsFlag :
    (crypto : Crypto) (v : Verifier) (bare first : Bytes)
    → KeepsFlag (verify_final crypto v bare first)
unfolding verify_final
verify_final-KeepsFlag crypto v bare first = password-then _ λ client_final.
    lift-then (split_client_final client_final) _ λ parts.
      lift-then (decode_proof crypto parts.1) _ λ proof.
        lift-then (check_proof crypto v (bare ++ b',' ∷ (first ++ b',' ∷ parts.0)) proof) _
          λ _. send-KeepsFlag _

pub handle_client_scram-KeepsFlag :
    (crypto : Crypto) (v : Verifier) (suffix : Bytes)
    → KeepsFlag (handle_client_scram crypto v suffix)
unfolding handle_client_scram
handle_client_scram-KeepsFlag crypto v suffix = send-then _ _ (
    password-then _ λ body. lift-then (parse_sasl_initial_response body) _ λ client_first.
      lift-then (extract_client_first_bare client_first) _ λ bare.
        lift-then (extract_nonce bare) _ λ nonce.
          send-then _ _ (verify_final-KeepsFlag crypto v bare (server_first crypto v nonce suffix)))

-- How an attempt is turned down, with the client behind it.
pub data Refused (crypto : Crypto) (a : Attempt) (c : Starting) : Starting → Type 0 where
  no_pool : a.pool_access ≡ none → Refused crypto a c c
  denied : (e : AccessError) → a.pool_access ≡ some (err e) → Refused crypto a c c
  no_verifier : a.pool_access ≡ some (ok tt) → a.verifier ≡ none → Refused crypto a c c
  bad_exchange :
      (v : Verifier) (e : StartupError) (after : Starting)
      → a.pool_access ≡ some (ok tt)
      → a.verifier ≡ some v
      → handle_client_scram crypto v a.suffix c ≡ (err e, after)
      → e ≢ panics
      → Refused crypto a c after

EntersAs : Bool → Result StartupError (Unit {0}) × Starting → Type 0
EntersAs flag r = (enters_loop r ≡ true) × (r.1.authenticated ≡ flag)

sent_room :
    (m : Message) (c : Starting) (n : ℕ)
    → 1 ≤ n
    → EntersAs c.authenticated (elim n [
      | zero ↦ (err write_failed, c)
      | suc left ↦ (ok tt, record c { sent = c.sent ++ m ∷ []; room = left })
    ])
unfolding EntersAs enters_loop
sent_room m c zero h = ground (arith, h)
sent_room m c (suc n) h = (refl, refl)

send-EntersAs : (m : Message) (c : Starting) → 1 ≤ c.room → EntersAs c.authenticated (send m c)
unfolding send
send-EntersAs m c h = sent_room m c c.room h

settle_scram-EntersAs :
    (next : Action (Unit {0})) (e : StartupError) (c : Starting)
    → e ≢ panics
    → 1 ≤ c.room
    → EntersAs c.authenticated (settle_scram next (err e, c))
unfolding settle_scram
settle_scram-EntersAs next write_failed c h k = send-EntersAs _ c k
settle_scram-EntersAs next read_failed c h k = send-EntersAs _ c k
settle_scram-EntersAs next unexpected_message c h k = send-EntersAs _ c k
settle_scram-EntersAs next bad_initial_response c h k = send-EntersAs _ c k
settle_scram-EntersAs next bad_client_first c h k = send-EntersAs _ c k
settle_scram-EntersAs next no_nonce c h k = send-EntersAs _ c k
settle_scram-EntersAs next no_proof c h k = send-EntersAs _ c k
settle_scram-EntersAs next bad_proof_encoding c h k = send-EntersAs _ c k
settle_scram-EntersAs next proof_failed c h k = send-EntersAs _ c k
settle_scram-EntersAs next panics c h k = absurd (h refl)

-- The bug in `authenticateClientWithBackend`: it returns the outcome of writing the error message,
-- so that a client that is turned down, and takes the message, reaches the message loop. It does so
-- whether there is no pool for it, its access is denied, no verifier is found, or its password is
-- wrong, and `authenticated`, which nothing reads, is what it was before.
pub Refused-enters_loop :
    (crypto : Crypto) (user : Bytes) (a : Attempt) (c after : Starting)
    → Refused crypto a c after
    → 1 ≤ after.room
    → (enters_loop (authenticate_client_with_backend crypto user a c) ≡ true)
      × ((authenticate_client_with_backend crypto user a c).1.authenticated ≡ c.authenticated)
unfolding authenticate_client_with_backend authenticate_from with_verifier EntersAs
Refused-enters_loop crypto user a c after (no_pool h) k = rw h (send-EntersAs _ c k)
Refused-enters_loop crypto user a c after (denied e h) k = rw h (send-EntersAs _ c k)
Refused-enters_loop crypto user a c after (no_verifier h g) k = rw (h, g) (send-EntersAs _ c k)
Refused-enters_loop crypto user a c after (bad_exchange v e _ h g s ne) k =
    let kept : after.authenticated ≡ c.authenticated =
      ap (λ r. r.1.authenticated) (sym s) ∙ handle_client_scram-KeepsFlag crypto v a.suffix c in
    rw (h, g, s)
      (subst
        (λ flag. EntersAs flag (settle_scram (welcome user a.pid a.secret a.params) (err e, after)))
        kept (settle_scram-EntersAs (welcome user a.pid a.secret a.params) e after ne k))
