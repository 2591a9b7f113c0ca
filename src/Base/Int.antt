-- ===== src/Base/Int.antt =====
-- Signed integers over the native numbers, and their two's complement patterns.
use Prim.Native.Nat.{ℕ, ◌+◌, ◌-◌, ◌%◌, ◌<◌}
use mathlib.Core.Path.{◌≡◌, ap}
use native.Mathlib.Omega.{arith}
use libamqp_cpp.Base.Tests.{ltb, if◌then◌else◌, lt→ltb, le→ltb}

-- `negsuc n` is -(n + 1).
pub data ℤ : Type 0 where
  pos : ℕ → ℤ
  negsuc : ℕ → ℤ

-- The conversion to an unsigned type of modulus `m`: the value modulo `m`.
unfoldable pub to_unsigned : ℕ → ℤ → ℕ
to_unsigned m (pos n) = n % m
to_unsigned m (negsuc n) = m - 1 - n % m

-- The conversion of an unsigned value to the signed type whose values lie in [-h, h).
unfoldable pub to_signed : ℕ → ℕ → ℤ
to_signed h u = if ltb u h then pos u else negsuc (h + h - 1 - u)

-- The values of the signed type.
abbrev pub IsInt : ℕ → ℤ → Type 0
IsInt h (pos n) = n < h
IsInt h (negsuc n) = n < h

pub to_unsigned-lt : (m : ℕ) (z : ℤ) → 0 < m → to_unsigned m z < m
unfolding to_unsigned
to_unsigned-lt m (pos n) h = grind arith
to_unsigned-lt m (negsuc n) h = omega arith

-- Converting to the unsigned type and back is the identity on the values of the signed type.
pub to_signed-to_unsigned : (h : ℕ) (z : ℤ) → IsInt h z → to_signed h (to_unsigned (h + h) z) ≡ z
unfolding to_signed to_unsigned
to_signed-to_unsigned h (pos n) i =
    let small : n % (h + h) ≡ n = grind arith in rw (small, lt→ltb n h i)
to_signed-to_unsigned h (negsuc n) i =
    let small : n % (h + h) ≡ n = grind arith in
    rw (small, le→ltb (h + h - 1 - n) h (omega arith)) (ap negsuc (omega arith))
