-- ===== src/Method/Bits.antt =====
-- A run of bits as a number: the first flag is the lowest bit.
use libamqp_cpp.Base.{
  ℕ, zero, suc, ◌+◌, ◌*◌, ◌/◌, ◌%◌, ◌^◌, ◌<◌, ◌≤◌, ◌≡◌, refl, Bool, true, false, List, [], ◌∷◌,
  ◌==◌, ltb, lt→ltb, if◌then◌else◌, arith, eq→==, ==→eq,
}
use libamqp_cpp.Bitset.{set_bit, get_bit}
use libamqp_cpp.Bitset.Laws.{all_below, all_below-holds, same, same→eq}

abbrev pub bit_value : Bool → ℕ
bit_value b = if b then 1 else 0

unfoldable pub octet_of : List Bool → ℕ
octet_of [] = 0
octet_of (b ∷ rest) = bit_value b + 2 * octet_of rest

-- A clear bit above all the set ones is set by an addition.
sets : Bool → ℕ → ℕ → Bool
sets v b n = if ltb b (2 ^ n) then set_bit 8 b v n == b + 2 ^ n * bit_value v else true

reads : ℕ → ℕ → Bool
reads b n = same (get_bit b n) (b / 2 ^ n % 2 == 1)

sets_table : (v : Bool) → all_below 256 (λ b. all_below 8 (sets v b)) ≡ true
unfolding all_below sets set_bit
sets_table true = refl
sets_table false = refl

reads_table : all_below 256 (λ b. all_below 8 (reads b)) ≡ true
unfolding all_below reads get_bit
reads_table = refl

pub set_bit-lowest :
    (v : Bool) (b n : ℕ) → n < 8 → b < 2 ^ n → b < 256 → set_bit 8 b v n ≡ b + 2 ^ n * bit_value v
unfolding sets
set_bit-lowest v b n hn low hb =
    let found =
      all_below-holds 8 (sets v b) n
        (all_below-holds 256 (λ d. all_below 8 (sets v d)) b (sets_table v) hb) hn in
    ==→eq _ _ (rw (lt→ltb b (2 ^ n) low) at found)

pub get_bit-parity : (b n : ℕ) → n < 8 → b < 256 → get_bit b n ≡ (b / 2 ^ n % 2 == 1)
unfolding reads
get_bit-parity b n hn hb = same→eq _ _ (
    all_below-holds 8 (reads b) n
      (all_below-holds 256 (λ d. all_below 8 (reads d)) b reads_table hb) hn)

pub halve : (v n : ℕ) → n < 8 → v / 2 ^ suc n ≡ v / 2 ^ n / 2
halve v zero h = omega arith
halve v (suc zero) h = omega arith
halve v (suc (suc zero)) h = omega arith
halve v (suc (suc (suc zero))) h = omega arith
halve v (suc (suc (suc (suc zero)))) h = omega arith
halve v (suc (suc (suc (suc (suc zero))))) h = omega arith
halve v (suc (suc (suc (suc (suc (suc zero)))))) h = omega arith
halve v (suc (suc (suc (suc (suc (suc (suc zero))))))) h = omega arith
halve v (suc (suc (suc (suc (suc (suc (suc (suc n)))))))) h = absurd (omega arith)

-- What a number of a run is at its head, and behind it.
pub octet_of-parity : (b : Bool) (rest : List Bool) → (octet_of (b ∷ rest) % 2 == 1) ≡ b
unfolding octet_of
octet_of-parity true rest = eq→== _ _ (omega arith)
octet_of-parity false rest = ground arith

pub octet_of-half : (b : Bool) (rest : List Bool) → octet_of (b ∷ rest) / 2 ≡ octet_of rest
unfolding octet_of
octet_of-half true rest = omega arith
octet_of-half false rest = omega arith

pub regroup : (a q c r : ℕ) → a + q * c + q * 2 * r ≡ a + q * (c + 2 * r)
regroup a q c r = grind arith

-- Powers of two within an octet.
pub pow_bounds : (n : ℕ) → n < 8 → (2 ^ suc n ≡ 2 ^ n * 2) × (2 ^ suc n ≤ 256) × (0 < 2 ^ n)
pow_bounds zero h = omega arith
pow_bounds (suc zero) h = omega arith
pow_bounds (suc (suc zero)) h = omega arith
pow_bounds (suc (suc (suc zero))) h = omega arith
pow_bounds (suc (suc (suc (suc zero)))) h = omega arith
pow_bounds (suc (suc (suc (suc (suc zero))))) h = omega arith
pow_bounds (suc (suc (suc (suc (suc (suc zero)))))) h = omega arith
pow_bounds (suc (suc (suc (suc (suc (suc (suc zero))))))) h = omega arith
pow_bounds (suc (suc (suc (suc (suc (suc (suc (suc n)))))))) h = absurd (omega arith)
