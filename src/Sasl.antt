-- ===== src/Sasl.antt =====
-- amqp_sasl.h and amqp_sasl.cpp. `split` is boost::algorithm::split at white space.
pub mod Laws
use libamqp_cpp.Base.{
  ℕ, Bool, true, false, ◌||◌, List, [], ◌∷◌, ◌++◌, Option, none, some, Result, ok, err,
  runtime_error, ◌==◌, if◌then◌else◌,
}
use libamqp_cpp.StringUtils.{contains}

-- std::string's operator ==
unfoldable pub same_string : List ℕ → List ℕ → Bool
same_string [] [] = true
same_string [] (y ∷ ys) = false
same_string (x ∷ xs) [] = false
same_string (x ∷ xs) (y ∷ ys) = let rest = same_string xs ys in if x == y then rest else false

-- std::find over the mechanisms; `none` is end().
unfoldable pub find_string : List ℕ → List (List ℕ) → Option (List ℕ)
unfolding same_string
find_string s [] = none
find_string s (x ∷ xs) = let rest = find_string s xs in if same_string x s then some x else rest

abbrev pub plain_mechanism : List ℕ
plain_mechanism = b'P' ∷ b'L' ∷ b'A' ∷ b'I' ∷ b'N' ∷ []

unfoldable pub select_sasl_mechanism : (List ℕ → List (List ℕ)) → List ℕ → Result (List ℕ)
select_sasl_mechanism split mechanism_list =
    elim (find_string plain_mechanism (split mechanism_list)) [
      | none ↦ err (runtime_error "Broker does not support PLAIN SASL mechanism")
      | some m ↦ ok m
    ]

unfoldable pub get_plain_response : List ℕ → List ℕ → Result (List ℕ)
unfolding contains
get_plain_response username password =
    if contains 0 username || contains 0 password
    then err (runtime_error "Username or password contains a NULL character")
    else ok (0 ∷ [] ++ (username ++ (0 ∷ [] ++ password)))

unfoldable pub get_sasl_response : List ℕ → List ℕ → List ℕ → Result (List ℕ)
unfolding same_string
get_sasl_response mechanism username password =
    if same_string plain_mechanism mechanism
    then get_plain_response username password
    else err (runtime_error "Unknown SASL mechanism")
