-- ===== src/Startup.antt =====
-- The start of a client's connection: `authenticateClientWithBackend`, `handleClientSCRAM` and their
-- helpers of pkg/pgfox/startup.go, and what `handleClient` of pkg/pgfox/server.go does then. SHA-256,
-- HMAC, base64 and the random bytes are arguments. What the client sends is the list of its
-- messages, and `room` is how many messages it still takes.
pub mod Scram
pub mod Outcome
pub mod Proof
use Prim.Native.Nat.{bit_xor}
use mathlib.Core.Option
use pgfox.Prelude.{
  ℕ, zero, suc, ◌+◌, ◌^◌, Bool, true, false, Option, none, some, List, [], ◌∷◌, ◌++◌, if◌then◌else◌,
  ◌==◌, ltb, leb, length, take, drop,
}
use pgfox.Prelude.Bytes.{Bytes, codes, equal}
use pgfox.Prelude.Result.{Result, ok, err}
use pgfox.Access.{AccessError, access_denied}
use pgfox.Wire.Frame.{Message}
use pgfox.Wire.CString.{find_nul}
use pgfox.Wire.Ints.{put_uint32, read_uint32}
use pgfox.Sql.Tokens.{Token, is_prefix, split_at, write}
use pgfox.Sql.Decimal.{decimal}
use pgfox.Session.State.{error_message}

pub data StartupError : Type 0 where
  write_failed : StartupError
  read_failed : StartupError
  unexpected_message : StartupError
  bad_initial_response : StartupError
  bad_client_first : StartupError
  no_nonce : StartupError
  no_proof : StartupError
  bad_proof_encoding : StartupError
  proof_failed : StartupError
  -- Not an error: the index out of range in `scramXOR`, which nothing recovers.
  panics : StartupError

-- The fields of `Client` that the start sets, with what was sent to it.
pub record Starting : Type 0 where
  pub authenticated : Bool
  pub cancel_key : Option (ℕ × ℕ)
  pub sent : List Message
  pub room : ℕ
  pub incoming : List Message

-- `(value, error)`, with the client behind it.
abbrev pub Action : Type 0 → Type 0
Action A = Starting → Result StartupError A × Starting

abbrev pub resume :
    {A B : Type 0}
    → Result StartupError A × Starting
    → (A → Action B)
    → Result StartupError B × Starting
resume (ok a, c) next = next a c
resume (err e, c) next = (err e, c)

infixl 5 ◌>>=◌ ◌>>◌
abbrev pub ◌>>=◌ : {A B : Type 0} → Action A → (A → Action B) → Action B
◌>>=◌ m next c = resume (m c) next

abbrev pub ◌>>◌ : {B : Type 0} → Action (Unit {0}) → Action B → Action B
m >> next = m >>= λ _. next

unfoldable pub lift : {A : Type 0} → Result StartupError A → Action A
lift r c = (r, c)

unfoldable pub send : Message → Action (Unit {0})
send m c = elim c.room [
  | zero ↦ (err write_failed, c)
  | suc left ↦ (ok tt, record c { sent = c.sent ++ m ∷ []; room = left })
]

unfoldable pub receive : Action Message
receive c = elim c.incoming [
  | [] ↦ (err read_failed, c)
  | m ∷ ms ↦ (ok m, record c { incoming = ms })
]

-- `client.ReadMessage`, and the test of the type.
unfoldable pub receive_password : Action Bytes
unfolding receive
receive_password =
    receive >>= λ m. λ c. if m.msg_type == b'p' then (ok m.body, c) else (err unexpected_message, c)

-- `string(body[pos : pos+msgLen])`, behind the length.
unfoldable pub take_first : ℕ → Bytes → Result StartupError Bytes
take_first len rest =
    if leb (2 ^ 31) len
    then err bad_initial_response
    else if ltb (length rest) len
    then err bad_initial_response
    else ok (take len rest)

unfoldable pub first_behind : Bytes → ℕ → Result StartupError Bytes
unfolding take_first read_uint32
first_behind body null_idx =
    if ltb (null_idx + 5) (length body)
    then (elim (read_uint32 (drop (suc null_idx) body)) [
      | none ↦ err bad_initial_response
      | some (len, rest) ↦ take_first len rest
    ])
    else ok body

unfoldable pub parse_sasl_initial_response : Bytes → Result StartupError Bytes
unfolding first_behind find_nul
parse_sasl_initial_response [] = err bad_initial_response
parse_sasl_initial_response (b ∷ body) = elim (find_nul (b ∷ body)) [
  | none ↦ ok (b ∷ body)
  | some i ↦ first_behind (b ∷ body) i
]

unfoldable pub extract_client_first_bare : Bytes → Result StartupError Bytes
unfolding split_at
extract_client_first_bare client_first = elim (split_at (codes ",,") client_first) [
  | none ↦ err bad_client_first
  | some (header, rest) ↦ ok (drop 2 rest)
]

-- `strings.Split(msg, ",")`: the first part, and the others.
unfoldable pub split_commas : Bytes → Bytes × List Bytes
split_commas [] = ([], [])
split_commas (c ∷ cs) =
    let (part, parts) = split_commas cs in
    if c == b',' then ([], part ∷ parts) else (c ∷ part, parts)

unfoldable pub first_nonce : List Bytes → Result StartupError Bytes
first_nonce [] = err no_nonce
first_nonce (part ∷ parts) =
    let later = first_nonce parts in if is_prefix (codes "r=") part then ok (drop 2 part) else later

unfoldable pub extract_nonce : Bytes → Result StartupError Bytes
unfolding split_commas first_nonce
extract_nonce msg = let (part, parts) = split_commas msg in first_nonce (part ∷ parts)

-- `strings.LastIndex`, with what stands before the last occurrence.
unfoldable pub split_at_last : Bytes → Bytes → Option Token
split_at_last tag [] = none
split_at_last tag (c ∷ cs) = elim (split_at_last tag cs) [
  | some t ↦ some (write c t)
  | none ↦ if is_prefix tag (c ∷ cs) then some ([], c ∷ cs) else none
]

unfoldable pub split_client_final : Bytes → Result StartupError (Bytes × Bytes)
unfolding split_at_last
split_client_final client_final = elim (split_at_last (codes ",p=") client_final) [
  | none ↦ err no_proof
  | some (without_proof, rest) ↦ ok (without_proof, drop 3 rest)
]

-- `scramXOR`: `none` is the panic where the second list is shorter.
unfoldable pub scram_xor : Bytes → Bytes → Option Bytes
scram_xor [] b = some []
scram_xor (x ∷ a) [] = none
scram_xor (x ∷ a) (y ∷ b) = Option.map (λ out. bit_xor x y ∷ out) (scram_xor a b)

-- `auth.SCRAMVerifier`
pub record Verifier : Type 0 where
  pub iterations : ℕ
  pub salt : Bytes
  pub stored_key : Bytes
  pub server_key : Bytes

-- The arguments: `scramHMAC`, `scramHash` and the codec.
pub record Crypto : Type 0 where
  pub hmac : Bytes → Bytes → Bytes
  pub hash : Bytes → Bytes
  pub encode : Bytes → Bytes
  pub decode : Bytes → Option Bytes

abbrev pub authentication : ℕ → Bytes → Message
authentication code rest = record { msg_type = b'R'; body = put_uint32 code ++ rest }

unfoldable pub server_first : Crypto → Verifier → Bytes → Bytes → Bytes
unfolding decimal
server_first crypto v client_nonce suffix =
    codes "r="
    ++ (client_nonce
        ++ (crypto.encode suffix
            ++ (codes ",s=" ++ (crypto.encode v.salt ++ (codes ",i=" ++ decimal v.iterations)))))

-- The test of the proof.
unfoldable pub check_proof : Crypto → Verifier → Bytes → Bytes → Result StartupError (Unit {0})
unfolding scram_xor
check_proof crypto v auth_message proof =
    elim (scram_xor proof (crypto.hmac v.stored_key auth_message)) [
      | none ↦ err panics
      | some client_key ↦
          if equal (crypto.hash client_key) v.stored_key then ok tt else err proof_failed
    ]

unfoldable pub decode_proof : Crypto → Bytes → Result StartupError Bytes
decode_proof crypto text = elim (crypto.decode text) [
  | none ↦ err bad_proof_encoding
  | some proof ↦ ok proof
]
