-- ===== src/Tests/Startup.antt =====
-- An exchange with one-byte keys: the hash is the identity, a signature is one zero byte, and
-- base64 is the identity.
use pgfox.Prelude.{ℕ, ◌≤◌, true, false, none, some, [], ◌∷◌, ◌≡◌, refl, arith}
use pgfox.Prelude.Bytes.{codes, equal}
use pgfox.Prelude.Result.{ok, err}
use pgfox.Wire.CString.{find_nul}
use pgfox.Wire.Ints.{put_uint32}
use pgfox.Sql.Tokens.{is_prefix, split_at}
use pgfox.Sql.Decimal.{decimal}
use pgfox.Startup.{
  proof_failed, Starting, lift, send, receive, receive_password, first_behind,
  parse_sasl_initial_response, extract_client_first_bare, extract_nonce, split_commas, first_nonce,
  split_client_final, split_at_last, Verifier, Crypto, server_first, scram_xor, check_proof,
  decode_proof,
}
use pgfox.Startup.Scram.{
  verify_final, handle_client_scram, send_parameters, parameter_status, set_cancel_key,
  set_authenticated, welcome, settle_scram, Attempt, with_verifier, authenticate_from,
  authenticate_client_with_backend, enters_loop,
}
use pgfox.Startup.Outcome.{bad_exchange, Refused-enters_loop}
use pgfox.Startup.Proof.{Admitted, authenticate_client_with_backend-Admitted}

abbrev crypto : Crypto
crypto = record {
  hmac = λ key text. 0 ∷ [];
  hash = λ text. text;
  encode = λ text. text;
  decode = λ text. some text;
}

abbrev verifier_of : ℕ → Verifier
verifier_of key = record {
  iterations = 1;
  salt = codes "s";
  stored_key = key ∷ [];
  server_key = codes "k";
}

abbrev attempt : ℕ → Attempt
attempt key = record {
  pool_access = some (ok tt);
  verifier = some (verifier_of key);
  suffix = codes "z";
  pid = 1;
  secret = 2;
  params = [];
}

abbrev client : Starting
client = record {
  authenticated = false;
  cancel_key = none;
  sent = [];
  room = 9;
  incoming =
      record { msg_type = b'p'; body = codes "n,,n=,r=a" }
      ∷ record { msg_type = b'p'; body = codes "c=b,r=az,p=x" }
      ∷ [];
}

-- The client's key is `x`; another one is stored.
abbrev wrong : ℕ
wrong = 5

abbrev turned_down : Starting
turned_down = (handle_client_scram crypto (verifier_of wrong) (codes "z") client).1

wrong_password :
    handle_client_scram crypto (verifier_of wrong) (codes "z") client
    ≡ (err proof_failed, turned_down)
unfolding handle_client_scram verify_final send receive receive_password lift
    parse_sasl_initial_response first_behind find_nul extract_client_first_bare split_at is_prefix
    extract_nonce split_commas first_nonce split_client_final split_at_last decode_proof check_proof
    scram_xor equal server_first decimal put_uint32
wrong_password = refl

room_left : 1 ≤ turned_down.room
unfolding handle_client_scram verify_final send receive receive_password lift
    parse_sasl_initial_response first_behind find_nul extract_client_first_bare split_at is_prefix
    extract_nonce split_commas first_nonce split_client_final split_at_last decode_proof check_proof
    scram_xor equal server_first decimal put_uint32
room_left = omega arith

Refused-enters_loop_example :
    (enters_loop (authenticate_client_with_backend crypto (codes "ann") (attempt wrong) client)
      ≡ true)
    × ((authenticate_client_with_backend crypto
          (codes "ann")
          (attempt wrong)
          client).1.authenticated
        ≡ false)
Refused-enters_loop_example =
    Refused-enters_loop crypto (codes "ann") (attempt wrong) client turned_down
      (bad_exchange (verifier_of wrong) proof_failed turned_down refl refl wrong_password
        (ground arith))
      room_left

right_password :
    (authenticate_client_with_backend crypto (codes "ann") (attempt b'x') client).1.authenticated
    ≡ true
unfolding authenticate_client_with_backend authenticate_from with_verifier settle_scram welcome
    send_parameters parameter_status set_cancel_key set_authenticated handle_client_scram
    verify_final send receive receive_password lift parse_sasl_initial_response first_behind
    find_nul extract_client_first_bare split_at is_prefix extract_nonce split_commas first_nonce
    split_client_final split_at_last decode_proof check_proof scram_xor equal server_first decimal
    put_uint32
right_password = refl

authenticate_client_with_backend-Admitted_example : Admitted crypto (attempt b'x') client
authenticate_client_with_backend-Admitted_example =
    authenticate_client_with_backend-Admitted crypto (codes "ann") (attempt b'x') client refl
      right_password
