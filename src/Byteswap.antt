-- ===== src/Byteswap.antt =====
-- detail/byteswap.h: reversing the bytes of 16, 32 and 64 bit words, for a little-endian machine.
-- `(0xFF00 & v) >> 8` is `v / 2 ^ 8 % 2 ^ 8`; the parts share no bit, so `|` is their sum.
-- The compiler's built-in reversals of the other branches do the same.
pub mod Laws
use libamqp_cpp.Base.{ℕ, zero, suc, ◌+◌, ◌*◌, ◌/◌, ◌%◌, ◌^◌, List, [], ◌∷◌}

unfoldable pub byteswap16 : ℕ → ℕ
byteswap16 v = v % 2 ^ 8 * 2 ^ 8 + v / 2 ^ 8 % 2 ^ 8

unfoldable pub byteswap32 : ℕ → ℕ
byteswap32 v =
    v % 2 ^ 8 * 2 ^ 24
    + v / 2 ^ 8 % 2 ^ 8 * 2 ^ 16
    + v / 2 ^ 16 % 2 ^ 8 * 2 ^ 8
    + v / 2 ^ 24 % 2 ^ 8

unfoldable pub byteswap64 : ℕ → ℕ
byteswap64 v =
    v % 2 ^ 8 * 2 ^ 56
    + v / 2 ^ 8 % 2 ^ 8 * 2 ^ 48
    + v / 2 ^ 16 % 2 ^ 8 * 2 ^ 40
    + v / 2 ^ 24 % 2 ^ 8 * 2 ^ 32
    + v / 2 ^ 32 % 2 ^ 8 * 2 ^ 24
    + v / 2 ^ 40 % 2 ^ 8 * 2 ^ 16
    + v / 2 ^ 48 % 2 ^ 8 * 2 ^ 8
    + v / 2 ^ 56 % 2 ^ 8

-- The bytes of a word of `w` bytes in the memory of a little-endian machine.
unfoldable pub le_bytes : ℕ → ℕ → List ℕ
le_bytes zero v = []
le_bytes (suc w) v = (v % 256) ∷ le_bytes w (v / 256)

-- The word that bytes in the memory of a little-endian machine stand for.
unfoldable pub of_le_bytes : List ℕ → ℕ
of_le_bytes [] = 0
of_le_bytes (b ∷ bs) = b + 256 * of_le_bytes bs
