-- ===== src/Wire/Notification.antt =====
-- NotificationResponse ('A') bodies: `SendNotificationToClient` (pkg/pgfox/client.go) writes what
-- `parseNotificationResponse` (pkg/pgfox/protocol.go) reads.
use pgfox.Prelude.{
  ℕ, suc, ◌+◌, ◌≡◌, ◌<◌, ◌^◌, refl, Option, none, some, [], ◌∷◌, ◌++◌, arith, ap, take, drop,
  length, ◌==◌, ltb, if◌then◌else◌, lt→ltb, take-length-append, length-append,
}
use pgfox.Prelude.Bytes.{Bytes, NoNul}
use pgfox.Wire.CString.{find_nul, find_nul-append, drop-name}
use pgfox.Wire.Ints.{put_uint32, read_uint32, read_uint32-put_uint32}

pub record NotificationMessage : Type 0 where
  pub process_id : ℕ
  pub channel : Bytes
  pub payload : Bytes

unfoldable pub notification_body : NotificationMessage → Bytes
notification_body n = put_uint32 n.process_id ++ (n.channel ++ 0 ∷ (n.payload ++ 0 ∷ []))

-- `payloadBytes` without the NUL that it may end with.
trim_nul : Bytes → Bytes
trim_nul [] = []
trim_nul (b ∷ []) = if b == 0 then [] else b ∷ []
trim_nul (b ∷ c ∷ rest) = b ∷ trim_nul (c ∷ rest)

-- From the channel on.
unfoldable pub parse_channel : ℕ → Bytes → Option NotificationMessage
unfolding trim_nul
parse_channel process_id rest = elim (find_nul rest) [
  | none ↦ none
  | some null_pos ↦ some (record {
    process_id = process_id;
    channel = take null_pos rest;
    payload = if ltb (suc null_pos) (length rest) then trim_nul (drop (suc null_pos) rest) else [];
  })
]

unfoldable pub parse_process_id : Bytes → Option NotificationMessage
parse_process_id body = elim (read_uint32 body) [
  | none ↦ none
  | some (process_id, rest) ↦ parse_channel process_id rest
]

unfoldable pub parse_notification_response : Bytes → Option NotificationMessage
parse_notification_response body = if ltb (length body) 8 then none else parse_process_id body

trim_nul-append : (payload : Bytes) → trim_nul (payload ++ 0 ∷ []) ≡ payload
unfolding trim_nul
trim_nul-append [] = refl
trim_nul-append (b ∷ []) = refl
trim_nul-append (b ∷ c ∷ rest) = ap (◌∷◌ b) (trim_nul-append (c ∷ rest))

length-notification_body :
    (n : NotificationMessage)
    → length (notification_body n) ≡ 6 + length n.channel + length n.payload
unfolding notification_body put_uint32
length-notification_body n =
    omega
      (arith, length-append n.channel (0 ∷ (n.payload ++ 0 ∷ [])), length-append n.payload (0 ∷ []))

parse_channel-append :
    (id : ℕ) (channel payload : Bytes)
    → NoNul channel
    → parse_channel id (channel ++ 0 ∷ (payload ++ 0 ∷ []))
      ≡ some (record { process_id = id; channel = channel; payload = payload })
unfolding parse_channel
parse_channel-append id channel payload h =
    rw (find_nul-append channel (payload ++ 0 ∷ []) h, parse_channel)
      (rw
        (lt→ltb (suc (length channel)) (length (channel ++ 0 ∷ (payload ++ 0 ∷ []))) (
          omega (
            arith,
            length-append channel (0 ∷ (payload ++ 0 ∷ [])),
            length-append payload (0 ∷ []),
          )))
        (rw (
          take-length-append channel (0 ∷ (payload ++ 0 ∷ [])),
          drop-name channel (payload ++ 0 ∷ []),
          trim_nul-append payload,
        )))

parse_process_id-notification_body :
    (n : NotificationMessage)
    → NoNul n.channel
    → n.process_id < 2 ^ 32
    → parse_process_id (notification_body n) ≡ some n
unfolding parse_process_id notification_body
parse_process_id-notification_body n h k =
    rw
      (
        read_uint32-put_uint32 n.process_id (n.channel ++ 0 ∷ (n.payload ++ 0 ∷ [])) k,
        parse_process_id,
      )
      (parse_channel-append n.process_id n.channel n.payload h)

-- A notification that PgFox sends, read back. If its channel holds no NUL and its process id fits
-- 32 bits, it is returned unchanged whenever channel and payload together hold two bytes or more;
-- otherwise it is refused as unparseable: the reader wants eight bytes, and a one-byte channel
-- with an empty payload makes seven.
pub parse_notification_response-notification_body :
    (n : NotificationMessage)
    → NoNul n.channel
    → n.process_id < 2 ^ 32
    → parse_notification_response (notification_body n)
      ≡ (if ltb (length n.channel + length n.payload) 2 then none else some n)
unfolding parse_notification_response
parse_notification_response-notification_body n h k =
    ground (arith, length-notification_body n, parse_process_id-notification_body n h k)
