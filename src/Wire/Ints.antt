-- ===== src/Wire/Ints.antt =====
-- Big-endian integers (`binary.BigEndian` in protocol.go, `appendInt16` and `appendInt32` in
-- extended.go). A machine integer is the number below 2 ^ 32 or 2 ^ 16 that its bit pattern spells.
use pgfox.Prelude.{
  ℕ, ◌+◌, ◌*◌, ◌/◌, ◌%◌, ◌^◌, ◌<◌, ◌≡◌, Option, none, some, [], ◌∷◌, ◌++◌, arith, ap,
}
use pgfox.Prelude.Bytes.{Bytes}

-- `byte(v)`
abbrev pub byte : ℕ → ℕ
byte v = v % 256

-- `writeUint32`, `writeInt32` and `PutUint32`: the most significant byte first.
unfoldable pub put_uint32 : ℕ → Bytes
put_uint32 v = byte (v / 2 ^ 24) ∷ byte (v / 2 ^ 16) ∷ byte (v / 2 ^ 8) ∷ byte v ∷ []

-- `readUint32` and `readInt32`: four bytes and what follows them, or an error at a short input.
unfoldable pub read_uint32 : Bytes → Option (ℕ × Bytes)
read_uint32 (a ∷ b ∷ c ∷ d ∷ rest) = some (a * 2 ^ 24 + b * 2 ^ 16 + c * 2 ^ 8 + d, rest)
read_uint32 _ = none

unfoldable pub append_int16 : Bytes → ℕ → Bytes
append_int16 buf v = buf ++ byte (v / 2 ^ 8) ∷ byte v ∷ []

unfoldable pub append_int32 : Bytes → ℕ → Bytes
append_int32 buf v = buf ++ put_uint32 v

-- The two bytes that PostgreSQL reads back as an Int16.
unfoldable pub read_uint16 : Bytes → Option (ℕ × Bytes)
read_uint16 (a ∷ b ∷ rest) = some (a * 2 ^ 8 + b, rest)
read_uint16 _ = none

bytes_of_uint32 :
    (v : ℕ)
    → v < 2 ^ 32
    → byte (v / 2 ^ 24) * 2 ^ 24 + byte (v / 2 ^ 16) * 2 ^ 16 + byte (v / 2 ^ 8) * 2 ^ 8 + byte v
      ≡ v
bytes_of_uint32 v h = omega arith

pub read_uint32-put_uint32 :
    (v : ℕ) (rest : Bytes) → v < 2 ^ 32 → read_uint32 (put_uint32 v ++ rest) ≡ some (v, rest)
unfolding read_uint32 put_uint32
read_uint32-put_uint32 v rest h = ap (λ n. some (n, rest)) (bytes_of_uint32 v h)

pub read_uint16-append_int16 :
    (v : ℕ) (rest : Bytes) → v < 2 ^ 16 → read_uint16 (append_int16 [] v ++ rest) ≡ some (v, rest)
unfolding read_uint16 append_int16
read_uint16-append_int16 v rest h = ap (λ n. some (n, rest)) (omega arith)
