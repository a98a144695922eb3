-- ===== src/Wire/Startup.antt =====
-- Startup parameters: `parseStartupParams` and `buildStartupMessage` of pkg/pgfox/protocol.go.
-- `strings.Split` at NUL is written out; a Go map is an association list in which a later entry
-- for a key hides the earlier ones.
use pgfox.Prelude.{
  ◌+◌, ◌≡◌, ◌≢◌, refl, Option, none, some, List, [], ◌∷◌, ◌++◌, arith, ap, ◌∙◌, length, ◌==◌, drop,
  if◌then◌else◌,
}
use pgfox.Prelude.Bytes.{Bytes, NoNul, codes, equal, equal_iff}
use pgfox.Wire.Ints.{put_uint32}

abbrev pub Params : Type 0
Params = List (Bytes × Bytes)

-- `strings.Split(str, "\x00")`: the current part, and the parts behind it.
pub split_nul : Bytes → Bytes × List Bytes
split_nul [] = ([], [])
split_nul (b ∷ bs) =
    let (part, parts) = split_nul bs in if b == 0 then ([], part ∷ parts) else (b ∷ part, parts)

-- The loop that drops the empty parts.
pub clean_parts : List Bytes → List Bytes
clean_parts [] = []
clean_parts ([] ∷ parts) = clean_parts parts
clean_parts ((b ∷ bs) ∷ parts) = (b ∷ bs) ∷ clean_parts parts

-- The loop over pairs; a key with no value behind it is left out.
pub pair_up : Params → List Bytes → Params
pair_up params (key ∷ value ∷ parts) = pair_up ((key, value) ∷ params) parts
pair_up params _ = params

unfoldable pub parse_startup_params : Bytes → Params
unfolding split_nul clean_parts pair_up
parse_startup_params body =
    let (part, parts) = split_nul body in pair_up [] (clean_parts (part ∷ parts))

-- `params[key]`, with `none` for the zero value of a missing key.
unfoldable pub lookup_param : Bytes → Params → Option Bytes
lookup_param key [] = none
lookup_param key ((k, v) ∷ params) = if equal k key then some v else lookup_param key params

-- One `name\x00value\x00`.
abbrev pub entry : Bytes → Bytes → Bytes → Bytes
entry name value rest = name ++ 0 ∷ (value ++ 0 ∷ rest)

startup_params : Bytes → Bytes → Bytes
startup_params user database =
    entry (codes "user") user (entry (codes "database") database (0 ∷ []))

unfoldable pub build_startup_message : Bytes → Bytes → Bytes
unfolding startup_params
build_startup_message user database =
    let params = startup_params user database in
    put_uint32 (8 + length params) ++ (put_uint32 196608 ++ params)

split_nul-append :
    (part rest : Bytes)
    → NoNul part
    → split_nul (part ++ 0 ∷ rest) ≡ (part, (split_nul rest).0 ∷ (split_nul rest).1)
unfolding split_nul
split_nul-append [] rest h = refl
split_nul-append (b ∷ bs) rest h = ground (arith, split_nul-append bs rest h.1)

-- What a client sends for a list of parameters.
abbrev pub encode : Params → Bytes
encode [] = 0 ∷ []
encode ((k, v) ∷ params) = entry k v (encode params)

abbrev IsPart : Bytes → Type 0
IsPart p = NoNul p × (p ≢ [])

abbrev pub AreParts : Params → Type 0
AreParts [] = Unit {0}
AreParts ((k, v) ∷ params) = IsPart k × IsPart v × AreParts params

abbrev onto : Params → Params → Params
onto acc [] = acc
onto acc (p ∷ params) = onto (p ∷ acc) params

abbrev parts : Bytes → List Bytes
parts body = (split_nul body).0 ∷ (split_nul body).1

clean_parts-part :
    (p : Bytes) (ps : List Bytes) → p ≢ [] → clean_parts (p ∷ ps) ≡ p ∷ clean_parts ps
unfolding clean_parts
clean_parts-part [] ps h = absurd (h refl)
clean_parts-part (b ∷ bs) ps h = refl

parts-append : (p rest : Bytes) → NoNul p → parts (p ++ 0 ∷ rest) ≡ p ∷ parts rest
parts-append p rest h = rw (split_nul-append p rest h)

clean-entry :
    (k v rest : Bytes)
    → IsPart k
    → IsPart v
    → clean_parts (parts (entry k v rest)) ≡ k ∷ v ∷ clean_parts (parts rest)
clean-entry k v rest hk hv =
    ap clean_parts (parts-append k _ hk.0 ∙ ap (◌∷◌ k) (parts-append v rest hv.0))
    ∙ clean_parts-part k _ hk.1
    ∙ ap (◌∷◌ k) (clean_parts-part v _ hv.1)

pair_up-terminator : (acc : Params) → pair_up acc (clean_parts (parts (0 ∷ []))) ≡ acc
unfolding pair_up clean_parts split_nul
pair_up-terminator acc = refl

pair_up-encode :
    (params acc : Params)
    → AreParts params
    → pair_up acc (clean_parts (parts (encode params))) ≡ onto acc params
unfolding pair_up
pair_up-encode [] acc h = pair_up-terminator acc
pair_up-encode ((k, v) ∷ params) acc h =
    rw (clean-entry k v (encode params) h.0 h.1) (pair_up-encode params ((k, v) ∷ acc) h.2)

-- Parameters whose names and values are not empty and hold no NUL are read back exactly, the
-- latest first, so that a lookup finds the last value sent for a name.
pub parse_startup_params-encode :
    (params : Params) → AreParts params → parse_startup_params (encode params) ≡ onto [] params
unfolding parse_startup_params
parse_startup_params-encode params h = pair_up-encode params [] h

user-IsPart : IsPart (codes "user")
user-IsPart = ground arith

database-IsPart : IsPart (codes "database")
database-IsPart = ground arith

-- What `buildStartupMessage` sends for a user and a database that are not empty and hold no NUL:
-- a reader of the parameters behind the eight bytes of length and version finds both.
pub lookup_param-build_startup_message :
    (user database : Bytes)
    → IsPart user
    → IsPart database
    → let params = parse_startup_params (drop 8 (build_startup_message user database)) in
      (lookup_param (codes "user") params ≡ some user)
      × (lookup_param (codes "database") params ≡ some database)
unfolding build_startup_message put_uint32 lookup_param equal
lookup_param-build_startup_message user database hu hd =
    let sent : Params = (codes "user", user) ∷ (codes "database", database) ∷ [] in
    let read = parse_startup_params-encode sent (user-IsPart, hu, (database-IsPart, hd, tt)) in
    (ap (lookup_param (codes "user")) read, ap (lookup_param (codes "database")) read)

clean_parts-empty :
    (k rest : Bytes)
    → IsPart k
    → clean_parts (parts (entry k [] rest)) ≡ k ∷ clean_parts (parts rest)
unfolding clean_parts
clean_parts-empty k rest h =
    ap clean_parts (parts-append k _ h.0 ∙ ap (◌∷◌ k) (parts-append [] rest tt))
    ∙ clean_parts-part k ([] ∷ parts rest) h.1

clean_parts-terminator : clean_parts (parts (0 ∷ [])) ≡ []
unfolding clean_parts split_nul
clean_parts-terminator = refl

clean_parts-shifted :
    (user k database : Bytes)
    → IsPart user
    → IsPart k
    → IsPart database
    → clean_parts
        (parts (encode ((codes "user", user) ∷ (k, []) ∷ (codes "database", database) ∷ [])))
      ≡ codes "user" ∷ user ∷ k ∷ codes "database" ∷ database ∷ []
clean_parts-shifted user k database hu hk hd =
    clean-entry (codes "user") user _ user-IsPart hu
    ∙ ap (λ ps. codes "user" ∷ user ∷ ps)
        (clean_parts-empty k _ hk
          ∙ ap (◌∷◌ k) (
              clean-entry (codes "database") database (0 ∷ []) database-IsPart hd
              ∙ ap (λ ps. codes "database" ∷ database ∷ ps) clean_parts-terminator))

-- The bug in dropping empty parts: behind a parameter with an empty value the pairs shift by one.
-- The parameter takes the name `database` for its value and the database itself is lost, so the
-- lookup that start-up makes for it finds nothing.
pub parse_startup_params_empty_value :
    (user k database : Bytes)
    → IsPart user
    → IsPart k
    → IsPart database
    → k ≢ codes "database"
    → let params =
        parse_startup_params
          (encode ((codes "user", user) ∷ (k, []) ∷ (codes "database", database) ∷ [])) in
      (params ≡ (k, codes "database") ∷ (codes "user", user) ∷ [])
      × (lookup_param (codes "database") params ≡ none)
unfolding parse_startup_params pair_up lookup_param equal
parse_startup_params_empty_value user k database hu hk hd ne =
    let read = clean_parts-shifted user k database hu hk hd in
    (
      ap (pair_up []) read,
      ap (λ ps. lookup_param (codes "database") (pair_up [] ps)) read
          ∙ ground (arith, equal_iff k (codes "database")),
    )
