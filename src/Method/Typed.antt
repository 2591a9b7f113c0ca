-- ===== src/Method/Typed.antt =====
-- What method::read returns, against the specification.
use libamqp_cpp.Base.{
  ℕ, ◌+◌, ◌^◌, ◌<◌, ◌≡◌, refl, ap, sym, ◌∙◌, subst, List, [], ◌∷◌, ◌==◌, if◌then◌else◌, arith, ok,
  err, undefined, out_of_fuel, Result, ◌>>=◌, Exception, length,
}
use libamqp_cpp.Byteswap.{byteswap16, byteswap32, byteswap64, of_le_bytes}
use libamqp_cpp.Stream.{IStream, read_or_throw}
use libamqp_cpp.TableFormat.{read_table}
use libamqp_cpp.Wire.{
  read_uint8, read_uint16, read_uint32, read_uint64, read_shortstring, read_longstring,
}
use libamqp_cpp.StringUtils.{validate_shortstring, validate_longstring}
use libamqp_cpp.Method.{
  Simple, octet, short, long, longlong, shortstr, longstr, table, timestamp, Domain, bit, simple,
  Member, uint8, uint16, uint32, uint64, time, short_text, long_text, fields, Argument, flag,
  member, simple_of, domains, ClassSpec, Method, bits_ahead, get_bitfield_size, read_bits,
  read_member, read_arguments, arguments_of, read,
}

-- If the call returns, its value satisfies `P`.
data Returns {ℓ κ} {A : Type ℓ} (P : A → Type κ) : Result A → Type (ℓ ⊔ κ) where
  returns : {a : A} → P a → Returns P (ok a)
  throws : {e : Exception} → Returns P (err e)
  is_undefined : Returns P undefined
  has_no_fuel : Returns P out_of_fuel

module _ {ℓ κ} {A : Type ℓ} {P : A → Type κ} where
  Returns-bind {ℓ' κ'} :
      {B : Type ℓ'} {Q : B → Type κ'} {m : Result A} {f : A → Result B}
      → Returns P m
      → ((a : A) → P a → Returns Q (f a))
      → Returns Q (m >>= f)
  Returns-bind (returns {a} h) k = k a h
  Returns-bind throws k = throws
  Returns-bind is_undefined k = is_undefined
  Returns-bind has_no_fuel k = has_no_fuel

  Returns-ok : {m : Result A} {a : A} → Returns P m → m ≡ ok a → P a
  Returns-ok (returns h) e = subst P (cc) h
  Returns-ok throws e = cc
  Returns-ok is_undefined e = cc
  Returns-ok has_no_fuel e = cc

Returns-value {ℓ} : {A : Type ℓ} (m : Result A) → Returns (λ a. m ≡ ok a) m
Returns-value (ok a) = returns refl
Returns-value (err e) = throws
Returns-value undefined = is_undefined
Returns-value out_of_fuel = has_no_fuel

-- A number of more than one byte within the range of its type, or a string that passes its
-- validation.
abbrev pub IsTypedMember : Member → Type 0
IsTypedMember (uint8 v) = Unit {0}
IsTypedMember (uint16 v) = v < 2 ^ 16
IsTypedMember (uint32 v) = v < 2 ^ 32
IsTypedMember (uint64 v) = v < 2 ^ 64
IsTypedMember (time v) = v < 2 ^ 64
IsTypedMember (short_text s) = validate_shortstring s ≡ ok tt
IsTypedMember (long_text s) = validate_longstring s ≡ ok tt
IsTypedMember (fields t) = Unit {0}

abbrev pub AreTyped : List Argument → Type 0
AreTyped [] = Unit {0}
AreTyped (flag b ∷ rest) = AreTyped rest
AreTyped (member m ∷ rest) = IsTypedMember m × AreTyped rest

byteswap16-lt : (v : ℕ) → byteswap16 v < 2 ^ 16
unfolding byteswap16
byteswap16-lt v = omega arith

byteswap32-lt : (v : ℕ) → byteswap32 v < 2 ^ 32
unfolding byteswap32
byteswap32-lt v = omega arith

byteswap64-lt : (v : ℕ) → byteswap64 v < 2 ^ 64
unfolding byteswap64
byteswap64-lt v = omega arith

read_uint16-Returns : (i : IStream) → Returns (λ (v, j). v < 2 ^ 16) (read_uint16 i)
unfolding read_uint16
read_uint16-Returns i =
    Returns-bind (Returns-value (read_or_throw 2 "Unable to read uint16" i))
      λ (bytes, j) e. returns (byteswap16-lt (of_le_bytes bytes))

read_uint32-Returns : (i : IStream) → Returns (λ (v, j). v < 2 ^ 32) (read_uint32 i)
unfolding read_uint32
read_uint32-Returns i =
    Returns-bind (Returns-value (read_or_throw 4 "Unable to read uint32" i))
      λ (bytes, j) e. returns (byteswap32-lt (of_le_bytes bytes))

read_uint64-Returns : (i : IStream) → Returns (λ (v, j). v < 2 ^ 64) (read_uint64 i)
unfolding read_uint64
read_uint64-Returns i =
    Returns-bind (Returns-value (read_or_throw 8 "Unable to read uint64" i))
      λ (bytes, j) e. returns (byteswap64-lt (of_le_bytes bytes))

read_member-Returns :
    (d : Simple) (i : IStream)
    → Returns (λ (m, j). (simple_of m ≡ d) × IsTypedMember m) (read_member d i)
unfolding read_member
read_member-Returns octet i =
    Returns-bind (Returns-value (read_uint8 i)) λ (v, j) e. returns (refl, tt)
read_member-Returns short i = Returns-bind (read_uint16-Returns i) λ (v, j) h. returns (refl, h)
read_member-Returns long i = Returns-bind (read_uint32-Returns i) λ (v, j) h. returns (refl, h)
read_member-Returns longlong i = Returns-bind (read_uint64-Returns i) λ (v, j) h. returns (refl, h)
read_member-Returns timestamp i = Returns-bind (read_uint64-Returns i) λ (v, j) h. returns (refl, h)
read_member-Returns shortstr i =
    Returns-bind (Returns-value (read_shortstring i))
      λ (s, j) e. Returns-bind (Returns-value (validate_shortstring s)) λ done v. returns (refl, v)
read_member-Returns longstr i =
    Returns-bind (Returns-value (read_longstring i))
      λ (s, j) e. Returns-bind (Returns-value (validate_longstring s)) λ done v. returns (refl, v)
read_member-Returns table i =
    Returns-bind (Returns-value (read_table (length i.rest + 1) i)) λ (t, j) e. returns (refl, tt)

read_arguments-Returns :
    (ds : List Domain) (number bits : ℕ) (i : IStream)
    → Returns (λ (xs, j). (domains xs ≡ ds) × AreTyped xs) (read_arguments number bits ds i)
unfolding read_arguments
read_arguments-Returns [] number bits i = returns (refl, tt)
read_arguments-Returns (simple d ∷ ds) number bits i =
    Returns-bind (read_member-Returns d i) λ (m, j) (same, typed).
      Returns-bind (read_arguments-Returns ds 0 0 j)
        λ (xs, k) (rest, all). returns (cc, (typed, all))
read_arguments-Returns (bit ∷ ds) number bits i =
    let w = get_bitfield_size (number + bits_ahead (bit ∷ ds)) in
    Returns-bind (Returns-value (if number == 0 then read_bits w i else ok (bits, i))) λ (v, j) e.
      Returns-bind (read_arguments-Returns ds _ v j)
        λ (xs, k) (rest, all). returns (ap (◌∷◌ bit) rest, all)

-- A method of the specification: its identifiers have 16 bits, its arguments are of the domains
-- that are listed for them, in this order, and are typed.
abbrev pub IsOfSpec : List ClassSpec → Method → Type 0
IsOfSpec spec m =
    (m.class_id < 2 ^ 16)
    × (m.method_id < 2 ^ 16)
    × (arguments_of spec m.class_id m.method_id ≡ ok (domains m.arguments))
    × AreTyped m.arguments

-- Whatever the state of the stream, a method that the reader returns is one of the specification:
-- its identifiers have 16 bits, its arguments are of the domains that the specification lists for
-- them, in this order; its numbers of 16, 32 and 64 bits are in range, and its strings pass the
-- validation of their setters.
pub read-IsOfSpec :
    (spec : List ClassSpec) (i j : IStream) (m : Method) → read spec i ≡ ok (m, j) → IsOfSpec spec m
unfolding read
read-IsOfSpec spec i j m e =
    Returns-ok {P = λ (m, j). IsOfSpec spec m}
      (Returns-bind (read_uint16-Returns i) λ (c, i₁) c_lt.
        Returns-bind (read_uint16-Returns i₁) λ (n, i₂) n_lt.
          Returns-bind (Returns-value (arguments_of spec c n)) λ ds known.
            Returns-bind (read_arguments-Returns ds 0 0 i₂)
              λ (xs, i₄) (same, typed). returns (c_lt, n_lt, known ∙ ap ok (sym same), typed))
      e
