-- ===== src/Sasl/Laws.antt =====
-- The choice of PLAIN, and that its response tells the user name and the password.
use libamqp_cpp.Base.{
  ℕ, ◌≡◌, refl, ◌⊎◌, inl, inr, true, false, List, [], ◌∷◌, ◌++◌, none, some, ok, err, runtime_error,
  ◌==◌, if◌then◌else◌, arith, Bool-cases,
}
use libamqp_cpp.StringUtils.{contains}
use libamqp_cpp.Sasl.{
  same_string, find_string, plain_mechanism, select_sasl_mechanism, get_plain_response,
}

same_string→eq : (xs ys : List ℕ) → same_string xs ys ≡ true → xs ≡ ys
unfolding same_string
same_string→eq [] [] h = refl
same_string→eq [] (y ∷ ys) h = cc
same_string→eq (x ∷ xs) [] h = cc
same_string→eq (x ∷ xs) (y ∷ ys) h = ground (arith, same_string→eq xs ys)

same_string_refl : (xs : List ℕ) → same_string xs xs ≡ true
unfolding same_string
same_string_refl [] = refl
same_string_refl (x ∷ xs) = ground (arith, same_string_refl xs)

-- One of the strings is `s`.
abbrev pub Offers : List ℕ → List (List ℕ) → Type 0
Offers s [] = ⊥
Offers s (x ∷ xs) = (x ≡ s) ⊎ Offers s xs

find_string-Offers : (s : List ℕ) (xs : List (List ℕ)) → Offers s xs → find_string s xs ≡ some s
unfolding find_string
find_string-Offers s [] h = absurd h
find_string-Offers s (x ∷ xs) (inl e) = rw (e, same_string_refl s)
find_string-Offers s (x ∷ xs) (inr h) =
    ground (arith, find_string-Offers s xs h, same_string→eq x s)

find_string-absent : (s : List ℕ) (xs : List (List ℕ)) → ¬ Offers s xs → find_string s xs ≡ none
unfolding find_string
find_string-absent s [] h = refl
find_string-absent s (x ∷ xs) h = elim (Bool-cases (same_string x s)) [
  | inl e ↦ absurd (h (inl (same_string→eq x s e)))
  | inr e ↦ rw e (find_string-absent s xs (λ o. h (inr o)))
]

-- If PLAIN is among the mechanisms that the broker offers, PLAIN is chosen.
pub select_sasl_mechanism-offered :
    (split : List ℕ → List (List ℕ)) (offered : List ℕ)
    → Offers plain_mechanism (split offered)
    → select_sasl_mechanism split offered ≡ ok plain_mechanism
unfolding select_sasl_mechanism
select_sasl_mechanism-offered split offered h =
    rw (find_string-Offers plain_mechanism (split offered) h, select_sasl_mechanism)

-- If PLAIN is not among the mechanisms that the broker offers, the call throws.
select_sasl_mechanism-absent :
    (split : List ℕ → List (List ℕ)) (offered : List ℕ)
    → ¬ Offers plain_mechanism (split offered)
    → select_sasl_mechanism split offered
      ≡ err (runtime_error "Broker does not support PLAIN SASL mechanism")
unfolding select_sasl_mechanism
select_sasl_mechanism-absent split offered h =
    rw (find_string-absent plain_mechanism (split offered) h, select_sasl_mechanism)

-- What stands before the first NUL of a string, and what stands behind it.
unfoldable pub before_nul : List ℕ → List ℕ
before_nul [] = []
before_nul (x ∷ xs) = let rest = before_nul xs in if x == 0 then [] else x ∷ rest

unfoldable pub behind_nul : List ℕ → List ℕ
behind_nul [] = []
behind_nul (x ∷ xs) = let rest = behind_nul xs in if x == 0 then xs else rest

split_nul :
    (u p : List ℕ)
    → contains 0 u ≡ false
    → (before_nul (u ++ 0 ∷ p) ≡ u) × (behind_nul (u ++ 0 ∷ p) ≡ p)
unfolding before_nul behind_nul contains
split_nul [] p h = (refl, refl)
split_nul (x ∷ xs) p h = ground (arith, split_nul xs p)

-- A response that was made is a NUL and two parts with a NUL between them: what stands before that
-- second NUL is the user name, and all behind it is the password.
get_plain_response_lem :
    (u p r : List ℕ)
    → get_plain_response u p ≡ ok r
    → (x : List ℕ) × (r ≡ 0 ∷ x) × (before_nul x ≡ u) × (behind_nul x ≡ p)
unfolding get_plain_response
get_plain_response_lem u p r h = elim (Bool-cases (contains 0 u)) [
  | inl e ↦ ground arith
  | inr e ↦ (u ++ 0 ∷ p, ground arith, (split_nul u p e).0, (split_nul u p e).1)
]
