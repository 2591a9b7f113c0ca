-- ===== src/Printing/Numbers.antt =====
-- The digits of a number tell it, and hold no colon.
use libamqp_cpp.Base.{
  ℕ, zero, suc, ◌+◌, ◌-◌, ◌*◌, ◌/◌, ◌%◌, ◌<◌, ◌≤◌, ◌≡◌, refl, ap, ◌∙◌, sym, inl, inr, List, [], ◌∷◌,
  ◌++◌, ltb, ltb→lt, ltb→le, lt→ltb, le→ltb, Bool-cases, All, All-append, arith, subst, Bool, true,
  false,
}
use libamqp_cpp.Printing.{digit, digits, print_number, print_hex}

-- The number that decimal digits stand for, `n` before them.
unfoldable read_digits : ℕ → List ℕ → ℕ
read_digits n [] = n
read_digits n (c ∷ rest) = read_digits (n * 10 + (c - b'0')) rest

read_digits-append :
    (xs ys : List ℕ) (n : ℕ) → read_digits n (xs ++ ys) ≡ read_digits (read_digits n xs) ys
unfolding read_digits
read_digits-append [] ys n = refl
read_digits-append (x ∷ xs) ys n = read_digits-append xs ys (n * 10 + (x - b'0'))

read_one : (n d : ℕ) → d < 10 → read_digits n (digit d ∷ []) ≡ n * 10 + d
unfolding read_digits
read_one n d h = rw (lt→ltb d 10 h) (omega arith)

digits_last : (base fuel n : ℕ) → ltb n base ≡ true → digits base (suc fuel) n ≡ digit n ∷ []
unfolding digits
digits_last base fuel n e =
    ap
      (λ (b : Bool). elim b [
        | true ↦ digit n ∷ []
        | false ↦ digits base fuel (n / base) ++ digit (n % base) ∷ []
      ])
      e

digits_more :
    (base fuel n : ℕ)
    → ltb n base ≡ false
    → digits base (suc fuel) n ≡ digits base fuel (n / base) ++ digit (n % base) ∷ []
unfolding digits
digits_more base fuel n e =
    ap
      (λ (b : Bool). elim b [
        | true ↦ digit n ∷ []
        | false ↦ digits base fuel (n / base) ++ digit (n % base) ∷ []
      ])
      e

read_digits-digits : (fuel n : ℕ) → n ≤ fuel → read_digits 0 (digits 10 fuel n) ≡ n
unfolding digits
read_digits-digits zero n h = rw (read_one 0 n (omega arith)) (omega arith)
read_digits-digits (suc fuel) n h = elim (Bool-cases (ltb n 10)) [
  | inl e ↦ rw (digits_last 10 fuel n e, read_one 0 n (ltb→lt n 10 e)) (omega arith)
  | inr e ↦
      let large = ltb→le n 10 e in
      rw
        (
          digits_more 10 fuel n e,
          read_digits-append (digits 10 fuel (n / 10)) (digit (n % 10) ∷ []) 0,
          read_digits-digits fuel (n / 10) (omega arith),
          read_one (n / 10) (n % 10) (omega arith),
        )
        (omega arith)
]

digit_below : (n : ℕ) → n < 10 → digit n < b':'
digit_below n h = rw (lt→ltb n 10 h) (omega arith)

digits_below : (fuel n : ℕ) → n ≤ fuel → All (λ c. c < b':') (digits 10 fuel n)
unfolding digits
digits_below zero n h = (digit_below n (omega arith), tt)
digits_below (suc fuel) n h = elim (Bool-cases (ltb n 10)) [
  | inl e ↦
      subst (All (λ c. c < b':')) (sym (digits_last 10 fuel n e))
        (digit_below n (ltb→lt n 10 e), tt)
  | inr e ↦
      let large = ltb→le n 10 e in
      subst (All (λ c. c < b':')) (sym (digits_more 10 fuel n e)) (
        All-append (λ c. c < b':') (digits 10 fuel (n / 10)) (digit (n % 10) ∷ [])
          (digits_below fuel (n / 10) (omega arith)) (digit_below (n % 10) (omega arith), tt))
]

pub print_number-injective : (m n : ℕ) → print_number m ≡ print_number n → m ≡ n
unfolding print_number
print_number-injective m n e =
    sym (read_digits-digits m m (omega arith))
    ∙ ap (read_digits 0) e
    ∙ read_digits-digits n n (omega arith)

pub print_number-below : (n : ℕ) → All (λ c. c < b':') (print_number n)
unfolding print_number
print_number-below n = digits_below n n (omega arith)

-- A number below 16, and one from there up to 255, in hexadecimal.
pub print_hex-one : (n : ℕ) → n < 16 → print_hex n ≡ digit n ∷ []
unfolding print_hex digits
print_hex-one zero h = refl
print_hex-one (suc n) h = digits_last 16 n (suc n) (lt→ltb (suc n) 16 h)

pub print_hex-two : (n : ℕ) → 16 ≤ n → n < 256 → print_hex n ≡ digit (n / 16) ∷ digit (n % 16) ∷ []
unfolding print_hex
print_hex-two zero h k = absurd (omega arith)
print_hex-two (suc zero) h k = absurd (omega arith)
print_hex-two (suc (suc n)) h k =
    digits_more 16 (suc n) (suc (suc n)) (le→ltb (suc (suc n)) 16 h)
    ∙ ap (λ (xs : List ℕ). xs ++ digit (suc (suc n) % 16) ∷ [])
        (digits_last 16 n (suc (suc n) / 16) (lt→ltb (suc (suc n) / 16) 16 (omega arith)))
