-- ===== src/Startup/Proof.antt =====
-- What the flag `authenticated` of pkg/pgfox/startup.go stands for: the client proved its password.
use pgfox.Prelude.{
  true, false, Option, none, some, List, [], ◌∷◌, ◌++◌, if◌then◌else◌, ◌≡◌, refl, sym, ap, ◌∙◌,
  arith,
}
use pgfox.Prelude.Bytes.{Bytes, codes, equal, equal_iff}
use pgfox.Prelude.Result.{Result, ok, err}
use pgfox.Access.{AccessError}
use pgfox.Wire.Frame.{Message}
use pgfox.Sql.Decimal.{decimal}
use pgfox.Startup.{
  StartupError, panics, write_failed, read_failed, unexpected_message, bad_initial_response,
  bad_client_first, no_nonce, no_proof, bad_proof_encoding, proof_failed, Starting, Action, resume,
  ◌>>=◌, lift, send, receive, receive_password, parse_sasl_initial_response,
  extract_client_first_bare, extract_nonce, split_client_final, Verifier, Crypto, server_first,
  scram_xor, check_proof, decode_proof,
}
use pgfox.Startup.Scram.{
  verify_final, handle_client_scram, welcome, settle_scram, Attempt, with_verifier,
  authenticate_from, authenticate_client_with_backend,
}
use pgfox.Startup.Outcome.{send-KeepsFlag, handle_client_scram-KeepsFlag}

-- Unblinded with the signature of the message, the proof gives a key whose hash is the stored one.
pub record Unblinds (crypto : Crypto) (v : Verifier) (message proof : Bytes) : Type 0 where
  pub client_key : Bytes
  pub unblinded : scram_xor proof (crypto.hmac v.stored_key message) ≡ some client_key
  pub stored : crypto.hash client_key ≡ v.stored_key

-- The text of the server's first message, written out.
abbrev first_text : Crypto → Verifier → Bytes → Bytes → Bytes
first_text crypto v nonce suffix =
    codes "r="
    ++ (nonce
        ++ (crypto.encode suffix
            ++ (codes ",s=" ++ (crypto.encode v.salt ++ (codes ",i=" ++ decimal v.iterations)))))

-- The two messages that the client has waiting are a first and a final message of the exchange:
-- the final one carries a proof for the text made of the client's first message without its
-- header, the server's answer to it, with the client's nonce and the server's random suffix, and
-- the final message without the proof.
pub record Proved (crypto : Crypto) (v : Verifier) (suffix : Bytes) (c : Starting) : Type 0 where
  pub first : Message
  pub final : Message
  pub behind : List Message
  pub arrived : c.incoming ≡ first ∷ final ∷ behind
  pub types : (first.msg_type ≡ b'p') × (final.msg_type ≡ b'p')
  pub client_first : Bytes
  pub initial : parse_sasl_initial_response first.body ≡ ok client_first
  pub bare : Bytes
  pub header : extract_client_first_bare client_first ≡ ok bare
  pub nonce : Bytes
  pub has_nonce : extract_nonce bare ≡ ok nonce
  pub without_proof : Bytes
  pub proof_text : Bytes
  pub parts : split_client_final final.body ≡ ok (without_proof, proof_text)
  pub proof : Bytes
  pub decoded : crypto.decode proof_text ≡ some proof
  pub unblinds :
      Unblinds crypto v
        (bare ++ b',' ∷ (first_text crypto v nonce suffix ++ b',' ∷ without_proof))
        proof

-- A step that an exchange which succeeds went through.
pub record Passed {A B : Type 0} (m : Action A) (next : A → Action B) (c : Starting) (b : B)
    (end : Starting) : Type 0 where
  pub value : A
  pub between : Starting
  pub first : m c ≡ (ok value, between)
  pub rest : next value between ≡ (ok b, end)

resume-Passed :
    {A B : Type 0} (m : Action A) (next : A → Action B) (c : Starting) (b : B) (end : Starting)
    (r : Result StartupError A × Starting)
    → m c ≡ r
    → resume r next ≡ (ok b, end)
    → Passed m next c b end
resume-Passed m next c b end (ok a, d) h k = record { value = a; between = d; first = h; rest = k }
resume-Passed m next c b end (err e, d) h k = ground (arith, k)

bind-Passed :
    {A B : Type 0} (m : Action A) (next : A → Action B) (c : Starting) (b : B) (end : Starting)
    → (m >>= next) c ≡ (ok b, end)
    → Passed m next c b end
bind-Passed m next c b end k = resume-Passed m next c b end (m c) refl k

unblind :
    (crypto : Crypto) (v : Verifier) (message proof : Bytes) (o : Option Bytes)
    → scram_xor proof (crypto.hmac v.stored_key message) ≡ o
    → (let r : Result StartupError (Unit {0}) = elim o [
      | none ↦ err panics
      | some key ↦ if equal (crypto.hash key) v.stored_key then ok tt else err proof_failed
    ] in
        r ≡ ok tt)
    → Unblinds crypto v message proof
unblind crypto v message proof none h k = ground (arith, k)
unblind crypto v message proof (some key) h k = record {
  client_key = key;
  unblinded = h;
  stored = (equal_iff (crypto.hash key) v.stored_key).0 (ground (arith, k));
}

check_proof-Unblinds :
    (crypto : Crypto) (v : Verifier) (message proof : Bytes)
    → check_proof crypto v message proof ≡ ok tt
    → Unblinds crypto v message proof
unfolding check_proof
check_proof-Unblinds crypto v message proof h =
    unblind crypto v message proof (scram_xor proof (crypto.hmac v.stored_key message)) refl h

decode_proof-some :
    (crypto : Crypto) (text proof : Bytes)
    → decode_proof crypto text ≡ ok proof
    → crypto.decode text ≡ some proof
unfolding decode_proof
decode_proof-some crypto text proof h = ground (arith, h)

-- What waits for the server is not touched by what it sends.
send-incoming : (m : Message) (c d : Starting) → send m c ≡ (ok tt, d) → d.incoming ≡ c.incoming
unfolding send
send-incoming m c d h = ground (arith, h)

lift-incoming :
    {A : Type 0} (r : Result StartupError A) (c d : Starting) (a : A)
    → lift r c ≡ (ok a, d)
    → d.incoming ≡ c.incoming
unfolding lift
lift-incoming r c d a h = sym (ap (λ x. x.1.incoming) h)

lift-value :
    {A : Type 0} (r : Result StartupError A) (c d : Starting) (a : A)
    → lift r c ≡ (ok a, d)
    → r ≡ ok a
unfolding lift
lift-value r c d a h = ap (λ x. x.0) h

-- A message of the type `p` that waited is the one that was read.
record Password (c : Starting) (body : Bytes) (d : Starting) : Type 0 where
  message : Message
  waited : c.incoming ≡ message ∷ d.incoming
  is_password : message.msg_type ≡ b'p'
  body_lem : message.body ≡ body

receive_password-Password :
    (ms : List Message) (c d : Starting) (body : Bytes)
    → c.incoming ≡ ms
    → receive_password c ≡ (ok body, d)
    → Password c body d
unfolding receive_password receive
receive_password-Password [] c d body e h = ground (arith, e, h)
receive_password-Password (m ∷ ms) c d body e h = record {
  message = m;
  waited = ground (arith, e, h);
  is_password = ground (arith, e, h);
  body_lem = ground (arith, e, h);
}

receive-Password :
    (c d : Starting) (body : Bytes) → receive_password c ≡ (ok body, d) → Password c body d
receive-Password c d body h = receive_password-Password c.incoming c d body refl h

-- The second half of the exchange.
record ProvedFinal (crypto : Crypto) (v : Verifier) (bare first : Bytes) (c : Starting)
    : Type 0 where
  final : Message
  behind : List Message
  waited : c.incoming ≡ final ∷ behind
  is_password : final.msg_type ≡ b'p'
  without_proof : Bytes
  proof_text : Bytes
  parts : split_client_final final.body ≡ ok (without_proof, proof_text)
  proof : Bytes
  decoded : crypto.decode proof_text ≡ some proof
  unblinds : Unblinds crypto v (bare ++ b',' ∷ (first ++ b',' ∷ without_proof)) proof

verify_final-ProvedFinal :
    (crypto : Crypto) (v : Verifier) (bare first : Bytes) (c end : Starting)
    → verify_final crypto v bare first c ≡ (ok tt, end)
    → ProvedFinal crypto v bare first c
unfolding verify_final
verify_final-ProvedFinal crypto v bare first c end h =
    let s1 = bind-Passed receive_password _ c tt end h in
    let s2 = bind-Passed (lift (split_client_final s1.value)) _ s1.between tt end s1.rest in
    let s3 = bind-Passed (lift (decode_proof crypto s2.value.1)) _ s2.between tt end s2.rest in
    let message = bare ++ b',' ∷ (first ++ b',' ∷ s2.value.0) in
    let s4 =
      bind-Passed (lift (check_proof crypto v message s3.value)) _ s3.between tt end s3.rest in
    let read = receive-Password c s1.between s1.value s1.first in
    record {
      final = read.message;
      behind = s1.between.incoming;
      waited = read.waited;
      is_password = read.is_password;
      without_proof = s2.value.0;
      proof_text = s2.value.1;
      parts =
          ap split_client_final read.body_lem
          ∙ lift-value (split_client_final s1.value) s1.between s2.between s2.value s2.first;
      proof = s3.value;
      decoded =
          decode_proof-some crypto s2.value.1 s3.value
            (lift-value (decode_proof crypto s2.value.1) s2.between s3.between s3.value s3.first);
      unblinds =
          check_proof-Unblinds crypto v message s3.value
            (lift-value (check_proof crypto v message s3.value) s3.between s4.between tt s4.first);
    }

handle_client_scram-Proved :
    (crypto : Crypto) (v : Verifier) (suffix : Bytes) (c end : Starting)
    → handle_client_scram crypto v suffix c ≡ (ok tt, end)
    → Proved crypto v suffix c
unfolding handle_client_scram server_first
handle_client_scram-Proved crypto v suffix c end h =
    let s1 = bind-Passed (send _) _ c tt end h in
    let s2 = bind-Passed receive_password _ s1.between tt end s1.rest in
    let s3 =
      bind-Passed (lift (parse_sasl_initial_response s2.value)) _ s2.between tt end s2.rest in
    let s4 = bind-Passed (lift (extract_client_first_bare s3.value)) _ s3.between tt end s3.rest in
    let s5 = bind-Passed (lift (extract_nonce s4.value)) _ s4.between tt end s4.rest in
    let s6 = bind-Passed (send _) _ s5.between tt end s5.rest in
    let read = receive-Password s1.between s2.between s2.value s2.first in
    let last =
      verify_final-ProvedFinal crypto v s4.value (server_first crypto v s5.value suffix) s6.between
        end s6.rest in
    let waiting =
      sym (
        lift-incoming (parse_sasl_initial_response s2.value) s2.between s3.between s3.value
          s3.first)
      ∙ sym (
          lift-incoming (extract_client_first_bare s3.value) s3.between s4.between s4.value
            s4.first)
      ∙ sym (lift-incoming (extract_nonce s4.value) s4.between s5.between s5.value s5.first)
      ∙ sym (send-incoming _ s5.between s6.between s6.first)
      ∙ last.waited in
    record {
      first = read.message;
      final = last.final;
      behind = last.behind;
      arrived =
          sym (send-incoming _ c s1.between s1.first) ∙ read.waited ∙ ap (◌∷◌ read.message) waiting;
      types = (read.is_password, last.is_password);
      client_first = s3.value;
      initial =
          ap parse_sasl_initial_response read.body_lem
          ∙ lift-value (parse_sasl_initial_response s2.value) s2.between s3.between s3.value
              s3.first;
      bare = s4.value;
      header =
          lift-value (extract_client_first_bare s3.value) s3.between s4.between s4.value s4.first;
      nonce = s5.value;
      has_nonce = lift-value (extract_nonce s4.value) s4.between s5.between s5.value s5.first;
      without_proof = last.without_proof;
      proof_text = last.proof_text;
      parts = last.parts;
      proof = last.proof;
      decoded = last.decoded;
      unblinds = last.unblinds;
    }

refused-flag :
    (next : Action (Unit {0})) (e : StartupError) (c : Starting)
    → (settle_scram next (err e, c)).1.authenticated ≡ c.authenticated
unfolding settle_scram
refused-flag next write_failed c = send-KeepsFlag _ c
refused-flag next read_failed c = send-KeepsFlag _ c
refused-flag next unexpected_message c = send-KeepsFlag _ c
refused-flag next bad_initial_response c = send-KeepsFlag _ c
refused-flag next bad_client_first c = send-KeepsFlag _ c
refused-flag next no_nonce c = send-KeepsFlag _ c
refused-flag next no_proof c = send-KeepsFlag _ c
refused-flag next bad_proof_encoding c = send-KeepsFlag _ c
refused-flag next proof_failed c = send-KeepsFlag _ c
refused-flag next panics c = refl

module _ (crypto : Crypto) (a : Attempt) (v : Verifier) (c : Starting) where
  settled :
      (next : Action (Unit {0})) (r : Result StartupError (Unit {0}) × Starting)
      → handle_client_scram crypto v a.suffix c ≡ r
      → c.authenticated ≡ false
      → (settle_scram next r).1.authenticated ≡ true
      → Proved crypto v a.suffix c
  settled next (ok tt, d) h unset set = handle_client_scram-Proved crypto v a.suffix c d h
  settled next (err e, d) h unset set =
      let kept : d.authenticated ≡ c.authenticated =
        ap (λ r. r.1.authenticated) (sym h) ∙ handle_client_scram-KeepsFlag crypto v a.suffix c in
      ground (arith, refused-flag next e d, kept, unset, set)

-- Access and a verifier were given, and the password was proved.
pub record Admitted (crypto : Crypto) (a : Attempt) (c : Starting) : Type 0 where
  pub allowed : a.pool_access ≡ some (ok tt)
  pub verifier : Verifier
  pub found : a.verifier ≡ some verifier
  pub proved : Proved crypto verifier a.suffix c

module _ (crypto : Crypto) (user : Bytes) (a : Attempt) (c : Starting) where
  with_verifier-Admitted :
      (o : Option Verifier)
      → a.pool_access ≡ some (ok tt)
      → a.verifier ≡ o
      → c.authenticated ≡ false
      → (with_verifier crypto user a o c).1.authenticated ≡ true
      → Admitted crypto a c
  unfolding with_verifier
  with_verifier-Admitted none allowed found unset set =
      ground (arith, send-KeepsFlag _ c, unset, set)
  with_verifier-Admitted (some v) allowed found unset set = record {
    allowed = allowed;
    verifier = v;
    found = found;
    proved =
        settled crypto a v c (welcome user a.pid a.secret a.params)
          (handle_client_scram crypto v a.suffix c) refl unset set;
  }

  authenticate_from-Admitted :
      (o : Option (Result AccessError (Unit {0})))
      → a.pool_access ≡ o
      → c.authenticated ≡ false
      → (authenticate_from crypto user a o c).1.authenticated ≡ true
      → Admitted crypto a c
  unfolding authenticate_from
  authenticate_from-Admitted none h unset set = ground (arith, send-KeepsFlag _ c, unset, set)
  authenticate_from-Admitted (some (err e)) h unset set =
      ground (arith, send-KeepsFlag _ c, unset, set)
  authenticate_from-Admitted (some (ok tt)) h unset set =
      with_verifier-Admitted a.verifier h refl unset set

  -- A client is marked as authenticated only if a pool was found for it, its access was allowed, a
  -- verifier was found for its user, and the next two messages it had sent are a first and a final
  -- message of the exchange with this proof: unblinded with the signature of the client's first
  -- message without its header, the server's answer, which holds the client's nonce and this
  -- exchange's random suffix, and the final message without the proof, it gives a key whose hash
  -- is the stored one.
  pub authenticate_client_with_backend-Admitted :
      c.authenticated ≡ false
      → (authenticate_client_with_backend crypto user a c).1.authenticated ≡ true
      → Admitted crypto a c
  unfolding authenticate_client_with_backend
  authenticate_client_with_backend-Admitted unset set =
      authenticate_from-Admitted a.pool_access refl unset set
