-- ===== src/Bitset.antt =====
-- detail/bitset.h at the unsigned types of `w` bits, up to 16: the integer promotions then lose
-- nothing. `1 << position` is 2 ^ position, and `~(1 << position)`, after the conversion to w
-- bits, is all ones but that bit. The position is within the type, as the assertions say. At wider
-- types the shift of an int goes wrong from position 31 on; no run of bit arguments in AMQP 0-9-1 is
-- longer than 8, and longer ones than 16 are outside of the model.
pub mod Laws
use Prim.Native.Nat.{bit_and, bit_or}
use libamqp_cpp.Base.{ℕ, ◌-◌, ◌^◌, Bool, not, ◌==◌, if◌then◌else◌}

unfoldable pub set_bit : ℕ → ℕ → Bool → ℕ → ℕ
set_bit w bitset val position =
    if val then bit_or bitset (2 ^ position) else bit_and bitset (2 ^ w - 1 - 2 ^ position)

unfoldable pub get_bit : ℕ → ℕ → Bool
get_bit bitset position = not (bit_and bitset (2 ^ position) == 0)
