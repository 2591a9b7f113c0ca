-- ===== src/Table/Keys.antt =====
-- The order of std::map<const std::string, ...>: std::string's operator <, byte by byte.
use libamqp_cpp.Base.{ℕ, ◌≡◌, refl, Bool, true, false, List, [], ◌∷◌, ltb, if◌then◌else◌, arith}

unfoldable pub key_lt : List ℕ → List ℕ → Bool
key_lt [] [] = false
key_lt [] (y ∷ ys) = true
key_lt (x ∷ xs) [] = false
key_lt (x ∷ xs) (y ∷ ys) =
    let rest = key_lt xs ys in if ltb x y then true else (if ltb y x then false else rest)

pub key_lt_irrefl : (xs : List ℕ) → key_lt xs xs ≡ false
unfolding key_lt
key_lt_irrefl [] = refl
key_lt_irrefl (x ∷ xs) = ground (arith, key_lt_irrefl xs)

pub key_lt_trans :
    (xs ys zs : List ℕ) → key_lt xs ys ≡ true → key_lt ys zs ≡ true → key_lt xs zs ≡ true
unfolding key_lt
key_lt_trans [] [] zs p q = cc
key_lt_trans [] (y ∷ ys) [] p q = cc
key_lt_trans [] (y ∷ ys) (z ∷ zs) p q = refl
key_lt_trans (x ∷ xs) [] zs p q = cc
key_lt_trans (x ∷ xs) (y ∷ ys) [] p q = cc
key_lt_trans (x ∷ xs) (y ∷ ys) (z ∷ zs) p q = ground (arith, key_lt_trans xs ys zs)

pub key_lt_asym : (xs ys : List ℕ) → key_lt xs ys ≡ true → key_lt ys xs ≡ false
unfolding key_lt
key_lt_asym [] [] p = refl
key_lt_asym [] (y ∷ ys) p = refl
key_lt_asym (x ∷ xs) [] p = cc
key_lt_asym (x ∷ xs) (y ∷ ys) p = ground (arith, key_lt_asym xs ys)

-- Keys that are not ordered are equal.
pub key_lt-eq : (xs ys : List ℕ) → key_lt xs ys ≡ false → key_lt ys xs ≡ false → xs ≡ ys
unfolding key_lt
key_lt-eq [] [] p q = refl
key_lt-eq [] (y ∷ ys) p q = cc
key_lt-eq (x ∷ xs) [] p q = cc
key_lt-eq (x ∷ xs) (y ∷ ys) p q = ground (arith, key_lt-eq xs ys)
