-- ===== src/Bitset/Laws.antt =====
-- The bits of an octet, by a table of all octets, values and positions.
use libamqp_cpp.Base.{
  ℕ, zero, suc, ◌<◌, ◌≡◌, refl, Bool, true, false, ◌&&◌, ◌==◌, ltb, ltb→lt, if◌then◌else◌, arith,
}
use libamqp_cpp.Bitset.{set_bit, get_bit}

unfoldable pub all_below : ℕ → (ℕ → Bool) → Bool
all_below zero p = true
all_below (suc n) p = p n && all_below n p

pub all_below-holds : (n : ℕ) (p : ℕ → Bool) (x : ℕ) → all_below n p ≡ true → x < n → p x ≡ true
unfolding all_below
all_below-holds zero p x h lt = absurd (omega arith)
all_below-holds (suc n) p x h lt = ground (arith, all_below-holds n p x)

abbrev pub same : Bool → Bool → Bool
same true b = b
same false true = false
same false false = true

pub same→eq : (a b : Bool) → same a b ≡ true → a ≡ b
same→eq true true h = refl
same→eq true false h = cc
same→eq false true h = cc
same→eq false false h = refl

pub both : (a b : Bool) → (a && b) ≡ true → (a ≡ true) × (b ≡ true)
both true b h = (refl, h)
both false b h = cc

-- The test of one octet, value and pair of positions.
check : Bool → ℕ → ℕ → ℕ → Bool
check v b i j =
    same (get_bit (set_bit 8 b v i) j) (if i == j then v else get_bit b j)
    && ltb (set_bit 8 b v i) 256

table : (v : Bool) → all_below 256 (λ b. all_below 8 λ i. all_below 8 (check v b i)) ≡ true
unfolding all_below check set_bit get_bit
table true = refl
table false = refl

checked : (v : Bool) (b i j : ℕ) → b < 256 → i < 8 → j < 8 → check v b i j ≡ true
checked v b i j hb hi hj =
    all_below-holds 8 (check v b i) j
      (all_below-holds 8 (λ k. all_below 8 (check v b k)) i
        (all_below-holds 256 (λ d. all_below 8 λ k. all_below 8 (check v d k)) b (table v) hb) hi)
      hj

-- In an octet and for positions below 8, set_bit gives the bit at its position the value, and
-- leaves every other bit; the result is an octet.
get_bit-set_bit :
    (b : ℕ) (v : Bool) (i j : ℕ)
    → b < 256
    → i < 8
    → j < 8
    → (get_bit (set_bit 8 b v i) j ≡ (if i == j then v else get_bit b j)) × (set_bit 8 b v i < 256)
unfolding check
get_bit-set_bit b v i j hb hi hj =
    let (p, q) = both _ _ (checked v b i j hb hi hj) in (same→eq _ _ p, ltb→lt _ _ q)
