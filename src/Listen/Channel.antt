-- ===== src/Listen/Channel.antt =====
-- `Channel` of pkg/pgfox/listen_notify.go, and Go's `==` on it.
use pgfox.Prelude.{Bool, true, ◌&&◌, ◌≡◌, ◌↔◌, arith}
use pgfox.Prelude.Bytes.{Bytes, equal, equal_iff, equal_refl}

pub record Channel : Type 0 where
  pub database : Bytes
  pub name : Bytes

unfoldable pub same : Channel → Channel → Bool
same a b = equal a.database b.database && equal a.name b.name

pub same_iff : (a b : Channel) → (same a b ≡ true) ↔ (a ≡ b)
unfolding same
same_iff a b = ground (arith, equal_iff a.database b.database, equal_iff a.name b.name)

pub same_refl : (a : Channel) → same a a ≡ true
unfolding same
same_refl a = ground (arith, equal_refl a.database, equal_refl a.name)
