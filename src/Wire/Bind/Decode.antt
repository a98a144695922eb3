-- ===== src/Wire/Bind/Decode.antt =====
-- How PostgreSQL reads a Bind message, by the layout that stands in `RewriteBindBodyName`
-- (pkg/pgfox/extended.go), and the round trip of `BuildBindBody` through it.
use mathlib.Core.Option
use pgfox.Prelude.{
  ℕ, zero, suc, ◌≡◌, ◌<◌, ◌^◌, refl, sym, Option, none, some, List, [], ◌∷◌, ◌++◌, arith, ◌∙◌, take,
  drop, length, take-length-append, drop-length-append, append_assoc, append-nil, All, map, ltb,
  if◌then◌else◌, lt→ltb, le→ltb, length-append,
}
use pgfox.Prelude.Bytes.{Bytes, NoNul}
use pgfox.Wire.CString.{find_nul, find_nul-append, drop-name}
use pgfox.Wire.Bind.{append_int16s, append_values, build_bind_body}
use pgfox.Wire.Ints.{
  append_int16, append_int32, read_uint32, read_uint16, read_uint32-put_uint32,
  read_uint16-append_int16,
}

infixl 5 ◌>>=◌
abbrev ◌>>=◌ : {A B : Type 0} → Option A → (A → Option B) → Option B
none >>= f = none
some a >>= f = f a

abbrev pub read_c_string : Bytes → Option (Bytes × Bytes)
read_c_string body = Option.map (λ i. (take i body, drop (suc i) body)) (find_nul body)

pub read_int16s : ℕ → Bytes → Option (List ℕ × Bytes)
read_int16s zero body = some ([], body)
read_int16s (suc n) body = do
  (v, rest) ← read_uint16 body
  (vs, end) ← read_int16s n rest
  some (v ∷ vs, end)

-- A length of -1 (any negative Int32) stands for NULL.
pub read_value : Bytes → Option (Option Bytes × Bytes)
read_value body = do
  (len, rest) ← read_uint32 body
  if ltb len (2 ^ 31)
      then (if ltb (length rest) len then none else some (some (take len rest), drop len rest))
      else some (none, rest)

pub read_values : ℕ → Bytes → Option (List (Option Bytes) × Bytes)
read_values zero body = some ([], body)
read_values (suc n) body = do
  (v, rest) ← read_value body
  (vs, end) ← read_values n rest
  some (v ∷ vs, end)

pub record BindMessage : Type 0 where
  pub portal : Bytes
  pub statement : Bytes
  pub param_formats : List ℕ
  pub values : List (Option Bytes)
  pub result_formats : List ℕ
  pub trailing : Bytes

pub read_bind : Bytes → Option BindMessage
read_bind body = do
  (portal, b) ← read_c_string body
  (statement, c) ← read_c_string b
  (n, d) ← read_uint16 c
  (param_formats, e) ← read_int16s n d
  (m, f) ← read_uint16 e
  (values, g) ← read_values m f
  (k, h) ← read_uint16 g
  (result_formats, trailing) ← read_int16s k h
  some (record {
    portal = portal;
    statement = statement;
    param_formats = param_formats;
    values = values;
    result_formats = result_formats;
    trailing = trailing;
  })

-- What each loop of `BuildBindBody` adds to the buffer.
int16s : List ℕ → Bytes
int16s [] = []
int16s (v ∷ vs) = append_int16 [] v ++ int16s vs

counted : List Bytes → Bytes
counted [] = []
counted (v ∷ vs) = append_int32 [] (length v) ++ (v ++ counted vs)

append_int16s-eq : (buf : Bytes) (vs : List ℕ) → append_int16s buf vs ≡ buf ++ int16s vs
unfolding append_int16s int16s append_int16
append_int16s-eq buf [] = sym (append-nil buf)
append_int16s-eq buf (v ∷ vs) =
    append_int16s-eq (append_int16 buf v) vs ∙ append_assoc buf _ (int16s vs)

append_values-eq : (buf : Bytes) (vs : List Bytes) → append_values buf vs ≡ buf ++ counted vs
unfolding append_values counted append_int32
append_values-eq buf [] = sym (append-nil buf)
append_values-eq buf (v ∷ vs) =
    append_values-eq (append_int32 buf (length v) ++ v) vs ∙ simp append_assoc

build-eq :
    (portal name : Bytes) (fmts : List ℕ) (vals : List Bytes) (rfmts : List ℕ)
    → build_bind_body portal name fmts vals rfmts
      ≡ portal
        ++ 0
          ∷ (name
              ++ 0
                ∷ (append_int16 [] (length fmts)
                    ++ (int16s fmts
                        ++ (append_int16 [] (length vals)
                            ++ (counted vals
                                ++ (append_int16 [] (length rfmts) ++ int16s rfmts))))))
unfolding build_bind_body append_int16
build-eq portal name fmts vals rfmts = simp (append_int16s-eq, append_values-eq, append_assoc)

abbrev pub Below : ℕ → List ℕ → Type 0
Below n = All (λ v. v < n)

read_int16s-int16s :
    (vs : List ℕ) (rest : Bytes)
    → Below (2 ^ 16) vs
    → read_int16s (length vs) (int16s vs ++ rest) ≡ some (vs, rest)
unfolding read_int16s int16s
read_int16s-int16s [] rest h = refl
read_int16s-int16s (v ∷ vs) rest h =
    rw (append_assoc (append_int16 [] v) (int16s vs) rest) (
      rw (read_uint16-append_int16 v (int16s vs ++ rest) h.0) (rw (read_int16s-int16s vs rest h.1)))

read_value-counted :
    (v rest : Bytes)
    → length v < 2 ^ 31
    → read_value (append_int32 [] (length v) ++ (v ++ rest)) ≡ some (some v, rest)
unfolding read_value append_int32
read_value-counted v rest h = rw (read_uint32-put_uint32 (length v) (v ++ rest) (omega arith)) (
    rw (lt→ltb _ _ h) (
      rw (
        le→ltb (length (v ++ rest)) (length v) (omega (arith, length-append v rest)),
        take-length-append v rest,
        drop-length-append v rest,
      )))

read_values-counted :
    (vs : List Bytes) (rest : Bytes)
    → All (λ v. length v < 2 ^ 31) vs
    → read_values (length vs) (counted vs ++ rest) ≡ some (map some vs, rest)
unfolding read_values counted
read_values-counted [] rest h = refl
read_values-counted (v ∷ vs) rest h =
    rw (append_assoc (append_int32 [] (length v)) (v ++ counted vs) rest) (
      rw (append_assoc v (counted vs) rest)
        (rw (read_value-counted v (counted vs ++ rest) h.0) (rw (read_values-counted vs rest h.1))))

read_c_string-append :
    (name rest : Bytes) → NoNul name → read_c_string (name ++ 0 ∷ rest) ≡ some (name, rest)
read_c_string-append name rest h =
    rw (find_nul-append name rest h) (rw (take-length-append name (0 ∷ rest), drop-name name rest))

-- The Bind body that `BuildBindBody` writes is read back by the wire format's own layout as
-- exactly its arguments, with no byte left over, whenever the two names hold no NUL, the format
-- codes and the three counts fit 16 bits, and each value is shorter than 2 ^ 31 bytes.
pub read_bind-build_bind_body :
    (portal name : Bytes) (fmts : List ℕ) (vals : List Bytes) (rfmts : List ℕ)
    → NoNul portal
    → NoNul name
    → Below (2 ^ 16) fmts
    → Below (2 ^ 16) rfmts
    → All (λ v. length v < 2 ^ 31) vals
    → length fmts < 2 ^ 16
    → length vals < 2 ^ 16
    → length rfmts < 2 ^ 16
    → read_bind (build_bind_body portal name fmts vals rfmts)
      ≡ some (record {
        portal = portal;
        statement = name;
        param_formats = fmts;
        values = map some vals;
        result_formats = rfmts;
        trailing = [];
      })
unfolding read_bind
read_bind-build_bind_body portal name fmts vals rfmts hp hn hf hr hv nf nv nr =
    rw (build-eq portal name fmts vals rfmts) (
      rw (read_c_string-append portal _ hp) (
        rw (read_c_string-append name _ hn) (
          rw (read_uint16-append_int16 (length fmts) _ nf) (
            rw (read_int16s-int16s fmts _ hf) (
              rw (read_uint16-append_int16 (length vals) _ nv) (
                rw (read_values-counted vals _ hv) (
                  rw (read_uint16-append_int16 (length rfmts) _ nr)
                    (rw (← append-nil (int16s rfmts)) (rw (read_int16s-int16s rfmts [] hr))))))))))
