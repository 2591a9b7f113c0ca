-- ===== src/Printing/Texts.antt =====
-- Which texts tell what was printed.
use libamqp_cpp.Base.{
  ℕ, ◌+◌, ◌*◌, ◌<◌, ◌≡◌, ◌≢◌, refl, sym, List, [], ◌∷◌, ◌++◌, append_assoc, length, All, arith, ◌∙◌,
  ◌%◌, ◌/◌,
}
use libamqp_cpp.Table.{bytes}
use libamqp_cpp.Printing.{
  codes, digit, print_hex, print_number, print_octets, print_string, value_to_string,
}
use libamqp_cpp.Printing.Numbers.{
  print_hex-one, print_hex-two, print_number-injective, print_number-below,
}

-- Two texts that begin alike up to the first colon.
split_at_colon :
    (xs ys a b : List ℕ)
    → All (λ c. c < b':') xs
    → All (λ c. c < b':') ys
    → xs ++ b':' ∷ a ≡ ys ++ b':' ∷ b
    → (xs ≡ ys) × (a ≡ b)
split_at_colon [] [] a b p q e = (refl, cc)
split_at_colon [] (y ∷ ys) a b p q e = let same : b':' ≡ y = cc in absurd (omega (arith, q.0, same))
split_at_colon (x ∷ xs) [] a b p q e = let same : x ≡ b':' = cc in absurd (omega (arith, p.0, same))
split_at_colon (x ∷ xs) (y ∷ ys) a b p q e =
    let (same, rest) = split_at_colon xs ys a b p.1 q.1 (cc) in let head : x ≡ y = cc in (cc, rest)

-- Two texts whose beginnings are of the same length.
split_at_length :
    (xs ys a b : List ℕ) → length xs ≡ length ys → xs ++ a ≡ ys ++ b → (xs ≡ ys) × (a ≡ b)
split_at_length [] [] a b l e = (refl, e)
split_at_length [] (y ∷ ys) a b l e = absurd (omega (arith, l))
split_at_length (x ∷ xs) [] a b l e = absurd (omega (arith, l))
split_at_length (x ∷ xs) (y ∷ ys) a b l e =
    let (same, rest) = split_at_length xs ys a b (omega (arith, l)) (cc) in
    let head : x ≡ y = cc in (cc, rest)

tail_of : {x y : ℕ} {a b : List ℕ} → x ∷ a ≡ y ∷ b → a ≡ b
tail_of e = cc

print_string-append :
    (s a : List ℕ)
    → print_string s ++ a
      ≡ print_number (length s) ++ b':' ∷ (codes "\"" ++ (s ++ (codes "\"" ++ a)))
unfolding print_string
print_string-append s a = simp append_assoc

-- The text of print_string tells the string, quotes within it included, and what follows it.
pub print_string-unambiguous :
    (s t a b : List ℕ) → print_string s ++ a ≡ print_string t ++ b → (s ≡ t) × (a ≡ b)
print_string-unambiguous s t a b e =
    let (lengths, rest) =
      split_at_colon (print_number (length s)) (print_number (length t)) _ _
        (print_number-below (length s)) (print_number-below (length t))
        (sym (print_string-append s a) ∙ e ∙ print_string-append t b) in
    let (same, behind) =
      split_at_length s t (codes "\"" ++ a) (codes "\"" ++ b)
        (print_number-injective (length s) (length t) lengths) (tail_of rest) in
    (same, tail_of behind)

hex_pair : (x y : ℕ) → 0 < x → x < 16 → y < 16 → print_hex (16 * x + y) ≡ digit x ∷ digit y ∷ []
hex_pair x y p h k = print_hex-two (16 * x + y) (omega arith) (omega arith) ∙ same
  where
    same : digit ((16 * x + y) / 16) ∷ digit ((16 * x + y) % 16) ∷ [] ≡ digit x ∷ digit y ∷ []
    same =
        let high : (16 * x + y) / 16 ≡ x = omega arith in
        let low : (16 * x + y) % 16 ≡ y = omega arith in rw (high, low)

-- The text of a byte array does not tell it: as the bytes are printed in hexadecimal without a
-- separator or a leading zero, for any three digits of which the first two are not zero there are
-- two arrays of two bytes that differ and have the same text, whatever the texts of floats are.
pub bytes_alike :
    (print_float print_double : ℕ → List ℕ) (x y z : ℕ)
    → 0 < x
    → x < 16
    → 0 < y
    → y < 16
    → z < 16
    → let (first, second) : List ℕ × List ℕ = ((16 * x + y) ∷ z ∷ [], x ∷ (16 * y + z) ∷ []) in
      (first ≢ second)
      × (value_to_string print_float print_double (bytes first)
          ≡ value_to_string print_float print_double (bytes second))
unfolding value_to_string print_octets
bytes_alike print_float print_double x y z p h q k l = (
  λ e. let same : 16 * x + y ≡ x = cc in omega (arith, same),
  rw (hex_pair x y p h k, print_hex-one z l, print_hex-one x h, hex_pair y z q k l),
)
