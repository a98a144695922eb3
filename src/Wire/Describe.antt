-- ===== src/Wire/Describe.antt =====
-- Describe ('D') and Close ('C') message bodies: the type byte, the name and a NUL
-- (`CloseBodyTarget`, `DescribeBodyTarget`, `BuildDescribePortal`, `RewriteDescribeBodyName` and
-- `RewriteCloseBodyName` of pkg/pgfox/extended.go).
use pgfox.Prelude.{ℕ, ◌≡◌, none, some, [], ◌∷◌, ◌++◌, ap, take, take-length-append}
use pgfox.Prelude.Bytes.{Bytes, NoNul}
use pgfox.Wire.CString.{find_nul, find_nul-append}

name_of : Bytes → Bytes
name_of rest = elim (find_nul rest) [ none ↦ rest | some i ↦ take i rest ]

-- The type byte is 0 where the body is too short.
unfoldable pub close_body_target : Bytes → ℕ × Bytes
unfolding name_of
close_body_target (close_type ∷ b ∷ rest) = (close_type, name_of (b ∷ rest))
close_body_target _ = (0, [])

unfoldable pub describe_body_target : Bytes → ℕ × Bytes
describe_body_target body = close_body_target body

unfoldable pub build_describe_portal : Bytes → Bytes
build_describe_portal portal = b'P' ∷ (portal ++ 0 ∷ [])

unfoldable pub rewrite_describe_body_name : Bytes → Bytes → Bytes
rewrite_describe_body_name [] new_name = []
rewrite_describe_body_name (desc_type ∷ rest) new_name = desc_type ∷ (new_name ++ 0 ∷ [])

unfoldable pub rewrite_close_body_name : Bytes → Bytes → Bytes
rewrite_close_body_name body new_name = rewrite_describe_body_name body new_name

name_of-append : (name rest : Bytes) → NoNul name → name_of (name ++ 0 ∷ rest) ≡ name
unfolding name_of
name_of-append name rest h =
    rw (find_nul-append name rest h, name_of) (take-length-append name (0 ∷ rest))

close_body_target-append :
    (t : ℕ) (name rest : Bytes)
    → NoNul name
    → close_body_target (t ∷ (name ++ 0 ∷ rest)) ≡ (t, name)
unfolding close_body_target
close_body_target-append t [] rest h = ap (λ n. (t, n)) (name_of-append [] rest h)
close_body_target-append t (c ∷ cs) rest h = ap (λ n. (t, n)) (name_of-append (c ∷ cs) rest h)

-- Renaming the target of a Describe or a Close to a name with no NUL keeps the type byte of any
-- body that is not empty and shows the reader exactly the new name; what `BuildDescribePortal`
-- builds is read back as that portal.
pub describe_target_lem :
    (t : ℕ) (body name : Bytes)
    → NoNul name
    → (describe_body_target (rewrite_describe_body_name (t ∷ body) name) ≡ (t, name))
      × (close_body_target (rewrite_close_body_name (t ∷ body) name) ≡ (t, name))
      × (describe_body_target (build_describe_portal name) ≡ (b'P', name))
unfolding describe_body_target rewrite_describe_body_name rewrite_close_body_name
    build_describe_portal
describe_target_lem t body name h = (
  close_body_target-append t name [] h,
  close_body_target-append t name [] h,
  close_body_target-append b'P' name [] h,
)
