-- ===== src/Base/Int.antt =====
-- `i64` as an integer, and the casts of `u64` to it.
use Prim.Native.Nat.{ℕ, ◌+◌, ◌-◌}
use mathlib.Core.Path.{◌≡◌}
use mathlib.Core.Bool.{Bool, true, false}
use mathlib.Core.Logic.{◌↔◌}
use native.Mathlib.Omega.{arith}
use acp_mux.Base.Test.{ltb, leb, nat_eq, if◌then◌else◌, Eq}

-- `negsuc n` is -(n + 1).
pub data ℤ : Type 0 where
  pos : ℕ → ℤ
  negsuc : ℕ → ℤ

abbrev pub i64_max : ℕ
i64_max = 9223372036854775807

abbrev pub u64_max : ℕ
u64_max = 18446744073709551615

-- `n as i64` for a `u64` n: the two's complement reading.
abbrev pub as_i64 : ℕ → ℤ
as_i64 n = if leb n i64_max then pos n else negsuc (u64_max - n)

-- `u64::saturating_add(1)`.
abbrev pub saturating_suc : ℕ → ℕ
saturating_suc n = if ltb n u64_max then n + 1 else u64_max

-- `n += 1` on a `u64` of a release build.
abbrev pub wrapping_suc : ℕ → ℕ
wrapping_suc n = if ltb n u64_max then n + 1 else 0

unfoldable pub int_eq : ℤ → ℤ → Bool
int_eq (pos a) (pos b) = nat_eq a b
int_eq (negsuc a) (negsuc b) = nat_eq a b
int_eq _ _ = false

pub int-eq_iff : (a b : ℤ) → (int_eq a b ≡ true) ↔ (a ≡ b)
unfolding int_eq
int-eq_iff (pos a) (pos b) = ground arith
int-eq_iff (negsuc a) (negsuc b) = ground arith
int-eq_iff (pos a) (negsuc b) = ground arith
int-eq_iff (negsuc a) (pos b) = ground arith

instance abbrev pub eq_int : Eq ℤ
eq_int = record { alike = int_eq; alike_iff = int-eq_iff }
