-- ===== src/Startup/Scram.antt =====
-- `handleClientSCRAM` and `authenticateClientWithBackend` of pkg/pgfox/startup.go, and the step from
-- the start to the message loop in `handleClient` of pkg/pgfox/server.go.
use pgfox.Prelude.{ℕ, Bool, true, false, Option, none, some, List, [], ◌∷◌, ◌++◌, if◌then◌else◌}
use pgfox.Prelude.Bytes.{Bytes, codes, equal}
use pgfox.Prelude.Result.{Result, ok, err}
use pgfox.Access.{AccessError}
use pgfox.Wire.Frame.{Message}
use pgfox.Wire.Ints.{put_uint32}
use pgfox.Session.State.{error_message}
use pgfox.Startup.{
  StartupError, panics, Starting, Action, ◌>>=◌, ◌>>◌, lift, send, receive_password,
  parse_sasl_initial_response, extract_client_first_bare, extract_nonce, split_client_final,
  Verifier, Crypto, authentication, server_first, check_proof, decode_proof,
}

-- The proof of the client, over the messages of the exchange.
unfoldable pub verify_final : Crypto → Verifier → Bytes → Bytes → Action (Unit {0})
unfolding split_client_final decode_proof check_proof lift
verify_final crypto v bare first = do
  client_final ← receive_password
  (without_proof, proof_text) ← lift (split_client_final client_final)
  let auth_message = bare ++ b',' ∷ (first ++ b',' ∷ without_proof)
  proof ← lift (decode_proof crypto proof_text)
  lift (check_proof crypto v auth_message proof)
  send (authentication 12 (codes "v=" ++ crypto.encode (crypto.hmac v.server_key auth_message)))

unfoldable pub handle_client_scram : Crypto → Verifier → Bytes → Action (Unit {0})
unfolding verify_final server_first lift
handle_client_scram crypto v suffix = do
  send (authentication 10 (codes "SCRAM-SHA-256" ++ 0 ∷ 0 ∷ []))
  body ← receive_password
  client_first ← lift (parse_sasl_initial_response body)
  bare ← lift (extract_client_first_bare client_first)
  nonce ← lift (extract_nonce bare)
  send (authentication 11 (server_first crypto v nonce suffix))
  verify_final crypto v bare (server_first crypto v nonce suffix)

-- `sendTargetParameterStatuses`: the values of the target, with the user's own authorization.
abbrev authorization : Bytes
authorization = codes "session_authorization"

unfoldable pub parameter_status : Bytes → Bytes → Message
parameter_status name value = record { msg_type = b'S'; body = name ++ 0 ∷ (value ++ 0 ∷ []) }

unfoldable pub send_parameters : Bytes → Bool → List (Bytes × Bytes) → Action (Unit {0})
unfolding parameter_status
send_parameters user overridden [] =
    if overridden then lift (ok tt) else send (parameter_status authorization user)
send_parameters user overridden ((name, value) ∷ params) =
    let sent_here = send_parameters user true params in
    let sent_later = send_parameters user overridden params in
    if equal name authorization
    then send (parameter_status name user) >> sent_here
    else (send (parameter_status name value) >> sent_later)

unfoldable pub set_cancel_key : ℕ → ℕ → Action (Unit {0})
set_cancel_key pid secret c = (ok tt, record c { cancel_key = some (pid, secret) })

unfoldable pub set_authenticated : Action (Unit {0})
set_authenticated c = (ok tt, record c { authenticated = true })

-- What stands behind a successful exchange, where `rand.Read` gave the secret.
unfoldable pub welcome : Bytes → ℕ → ℕ → List (Bytes × Bytes) → Action (Unit {0})
unfolding send_parameters set_cancel_key set_authenticated
welcome user pid secret params = do
  send (authentication 0 [])
  set_cancel_key pid secret
  send record { msg_type = b'K'; body = put_uint32 pid ++ put_uint32 secret }
  send_parameters user false params
  send record { msg_type = b'Z'; body = b'I' ∷ [] }
  set_authenticated

-- `return client.SendErrorResponse("FATAL", …)`
abbrev refuse : Bytes → Bytes → Action (Unit {0})
refuse code text = send (error_message (codes "FATAL") code text)

-- An error of the exchange is answered; a panic is none.
unfoldable pub settle_scram :
    Action (Unit {0})
    → Result StartupError (Unit {0}) × Starting
    → Result StartupError (Unit {0}) × Starting
unfolding send
settle_scram next (ok u, c) = next c
settle_scram next (err panics, c) = (err panics, c)
settle_scram next (err e, c) = refuse (codes "28P01") (codes "password authentication failed") c

-- What `getPool`, `checkAccess`, the query for the verifier and the random source give.
pub record Attempt : Type 0 where
  pub pool_access : Option (Result AccessError (Unit {0}))
  pub verifier : Option Verifier
  pub suffix : Bytes
  pub pid : ℕ
  pub secret : ℕ
  pub params : List (Bytes × Bytes)

unfoldable pub with_verifier : Crypto → Bytes → Attempt → Option Verifier → Action (Unit {0})
unfolding handle_client_scram settle_scram welcome
with_verifier crypto user a none = refuse (codes "28P01") (codes "authentication failed")
with_verifier crypto user a (some v) = λ c.
    settle_scram (welcome user a.pid a.secret a.params) (handle_client_scram crypto v a.suffix c)

unfoldable pub authenticate_from :
    Crypto → Bytes → Attempt → Option (Result AccessError (Unit {0})) → Action (Unit {0})
unfolding with_verifier
authenticate_from crypto user a none = refuse (codes "3D000") (codes "database not found")
authenticate_from crypto user a (some (err e)) = refuse (codes "28000") (codes "access denied")
authenticate_from crypto user a (some (ok u)) = with_verifier crypto user a a.verifier

unfoldable pub authenticate_client_with_backend : Crypto → Bytes → Attempt → Action (Unit {0})
unfolding authenticate_from
authenticate_client_with_backend crypto user a = authenticate_from crypto user a a.pool_access

-- `handleClient` goes on to its message loop.
unfoldable pub enters_loop : Result StartupError (Unit {0}) × Starting → Bool
enters_loop (ok u, c) = true
enters_loop (err e, c) = false
