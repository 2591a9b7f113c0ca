-- ===== src/StringUtils/Laws.antt =====
-- A string that passes the validation can be written, and is read back.
use libamqp_cpp.Base.{ℕ, ◌+◌, ◌^◌, ◌<◌, ◌≡◌, List, ◌++◌, Option, ok, arith, length}
use libamqp_cpp.Stream.{ostream, istream}
use libamqp_cpp.Stream.Laws.{Room, Writes}
use libamqp_cpp.Wire.{write_shortstring, read_shortstring, write_longstring, read_longstring}
use libamqp_cpp.Wire.Strings.{
  shortstring_bytes, longstring_bytes, write_shortstring-Writes, write_longstring-Writes,
  read_shortstring-append, read_longstring-append,
}
use libamqp_cpp.StringUtils.{validate_shortstring, validate_longstring}

pub validate_shortstring-lt : (s : List ℕ) → validate_shortstring s ≡ ok tt → length s < 256
unfolding validate_shortstring
validate_shortstring-lt s h = ground arith

pub validate_longstring-lt : (s : List ℕ) → validate_longstring s ≡ ok tt → length s < 2 ^ 32
unfolding validate_longstring
validate_longstring-lt s h = ground arith

-- A short string that passes its validation is written whole wherever there is room for it and
-- its length octet, and read_shortstring gives it back and leaves what follows.
validated_shortstring :
    (s : List ℕ) (l : Option ℕ) (sent rest : List ℕ)
    → validate_shortstring s ≡ ok tt
    → Room l (length sent + length (shortstring_bytes s))
    → (write_shortstring s (ostream l sent) ≡ ok (ostream l (sent ++ shortstring_bytes s)))
      × (read_shortstring (istream (shortstring_bytes s ++ rest)) ≡ ok (s, istream rest))
unfolding Writes
validated_shortstring s l sent rest v r =
    let small = validate_shortstring-lt s v in
    (write_shortstring-Writes s small l sent r, read_shortstring-append s rest small)

-- A long string that passes its validation is written whole wherever there is room for it and its
-- four length octets, and read_longstring, which takes it in pieces of 1024 bytes, gives it back
-- and leaves what follows.
validated_longstring :
    (s : List ℕ) (l : Option ℕ) (sent rest : List ℕ)
    → validate_longstring s ≡ ok tt
    → Room l (length sent + length (longstring_bytes s))
    → (write_longstring s (ostream l sent) ≡ ok (ostream l (sent ++ longstring_bytes s)))
      × (read_longstring (istream (longstring_bytes s ++ rest)) ≡ ok (s, istream rest))
unfolding Writes
validated_longstring s l sent rest v r =
    let small = validate_longstring-lt s v in
    (write_longstring-Writes s small l sent r, read_longstring-append s rest small)
