-- ===== src/Wire/Frame.antt =====
-- Message framing: `WriteMessage` and `ReadMessage` of pkg/pgfox/backend.go and
-- pkg/pgfox/client.go over a reliable byte stream. The stream is the list of the bytes that are
-- still to be read; a read that finds it too short is the error that `io.ReadFull` returns.
use pgfox.Prelude.{
  ℕ, ◌+◌, ◌-◌, ◌%◌, ◌^◌, ◌≡◌, ◌≤◌, ◌<◌, none, some, [], ◌∷◌, ◌++◌, arith, take, drop, length, ltb,
  if◌then◌else◌, le→ltb, append_assoc,
}
use pgfox.Prelude.Bytes.{Bytes}
use pgfox.Prelude.Result.{Result, ok, err, ◌>>=◌}
use pgfox.Wire.Ints.{put_uint32, read_uint32, read_uint32-put_uint32}

pub data FrameError : Type 0 where
  body_too_large : FrameError
  no_type : FrameError
  no_length : FrameError
  invalid_length : FrameError
  length_over_limit : FrameError
  truncated_body : FrameError

pub record Message : Type 0 where
  pub msg_type : ℕ
  pub body : Bytes

-- The bytes that one `WriteMessage` puts on the wire. `uint32(len(body) + 4)` wraps.
unfoldable pub write_message : ℕ → Message → Result FrameError Bytes
write_message max_message_size m =
    if ltb max_message_size (length m.body)
    then err body_too_large
    else ok (m.msg_type ∷ (put_uint32 ((length m.body + 4) % 2 ^ 32) ++ m.body))

-- `io.ReadFull` on the body.
unfoldable pub read_full : ℕ → Bytes → Result FrameError (Bytes × Bytes)
read_full n stream =
    if ltb (length stream) n then err truncated_body else ok (take n stream, drop n stream)

-- The checks on the length field, which counts itself.
unfoldable pub check_length : ℕ → ℕ → Result FrameError ℕ
check_length max_message_size len =
    if ltb len 4
    then err invalid_length
    else if ltb max_message_size len
    then err length_over_limit
    else ok (len - 4)

unfoldable pub read_length : Bytes → Result FrameError (ℕ × Bytes)
read_length stream = elim (read_uint32 stream) [ none ↦ err no_length | some r ↦ ok r ]

-- One message off the stream, and the stream behind it.
unfoldable pub read_message : ℕ → Bytes → Result FrameError (Message × Bytes)
read_message max_message_size [] = err no_type
read_message max_message_size (msg_type ∷ stream) = do
  (len, rest) ← read_length stream
  body_length ← check_length max_message_size len
  (body, after) ← read_full body_length rest
  ok (record { msg_type = msg_type; body = body }, after)

check_length_over :
    (max len : ℕ)
    → max < len + 4
    → len + 4 < 2 ^ 32
    → check_length max ((len + 4) % 2 ^ 32) ≡ err length_over_limit
unfolding check_length
check_length_over max len h k = ground arith

read_length-append :
    (n : ℕ) (rest : Bytes) → read_length (put_uint32 (n % 2 ^ 32) ++ rest) ≡ ok (n % 2 ^ 32, rest)
unfolding read_length
read_length-append n rest = rw (read_uint32-put_uint32 (n % 2 ^ 32) rest (omega arith), read_length)

module _ (max : ℕ) (m : Message) (max_fits : max < 2 ^ 32) where
  wire : Bytes
  wire = m.msg_type ∷ (put_uint32 ((length m.body + 4) % 2 ^ 32) ++ m.body)

  write-wire : length m.body ≤ max → write_message max m ≡ ok wire
  unfolding write_message wire
  write-wire h = rw (le→ltb max (length m.body) h)

  -- `WriteMessage` checks the body against the limit and `ReadMessage` the body plus its four
  -- bytes of length: the messages between the two limits are written, and the peer refuses them.
  pub read_message-refuses_written :
      (rest : Bytes)
      → length m.body ≤ max
      → max < length m.body + 4
      → length m.body + 4 < 2 ^ 32
      → (bytes : Bytes) × (write_message max m ≡ ok bytes)
        × (read_message max (bytes ++ rest) ≡ err length_over_limit)
  unfolding read_message wire
  read_message-refuses_written rest h k f = (
    wire,
    write-wire h,
    rw (append_assoc (put_uint32 ((length m.body + 4) % 2 ^ 32)) m.body rest) (
        rw (read_length-append (length m.body + 4) (m.body ++ rest))
          (rw (check_length_over max (length m.body) k f))),
  )
