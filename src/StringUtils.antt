-- ===== src/StringUtils.antt =====
-- detail/string_utils.h: the validation that the setters of methods make. The lengths on the wire
-- of the same header are in Table.antt.
pub mod Laws
use libamqp_cpp.Base.{
  ℕ, ◌-◌, ◌^◌, Bool, true, false, List, [], ◌∷◌, Result, ok, err, runtime_error, ltb, ◌==◌,
  if◌then◌else◌, length,
}

-- s.find(c) != std::string::npos
unfoldable pub contains : ℕ → List ℕ → Bool
contains c [] = false
contains c (x ∷ xs) = let rest = contains c xs in if x == c then true else rest

unfoldable pub validate_shortstring : List ℕ → Result (Unit {0})
unfolding contains
validate_shortstring s =
    if ltb 255 (length s)
    then err (runtime_error "Short string is longer than 255 bytes in length")
    else (if contains 0 s
        then err (runtime_error "Short string may not contain any embedded '\\0' characters")
        else ok tt)

unfoldable pub validate_longstring : List ℕ → Result (Unit {0})
validate_longstring s =
    if ltb (2 ^ 32 - 1) (length s)
    then err (runtime_error "Long string cannot be longer than UINT_MAX bytes in length")
    else ok tt
