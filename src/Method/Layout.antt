-- ===== src/Method/Layout.antt =====
-- The bytes of a method, and that its writer sends them.
use libamqp_cpp.Base.{
  ℕ, suc, ◌+◌, ◌-◌, ◌*◌, ◌%◌, ◌^◌, ◌<◌, ◌≤◌, ◌≡◌, refl, ap, Bool, true, false, List, [], ◌∷◌, ◌++◌,
  ok, ◌>>=◌, ◌==◌, eq→==, ne→==, if◌then◌else◌, le→leb, arith,
}
use libamqp_cpp.Byteswap.Laws.{be_bytes}
use libamqp_cpp.Stream.Laws.{Writes, Writes-seq, Writes-nil}
use libamqp_cpp.Wire.Integers.{
  write_uint8-Writes, write_uint16-Writes, write_uint32-Writes, write_uint64-Writes,
}
use libamqp_cpp.Wire.{write_uint16}
use libamqp_cpp.Wire.Strings.{
  shortstring_bytes, longstring_bytes, write_shortstring-Writes, write_longstring-Writes,
}
use libamqp_cpp.StringUtils.{validate_shortstring, validate_longstring}
use libamqp_cpp.StringUtils.Laws.{validate_shortstring-lt, validate_longstring-lt}
use libamqp_cpp.TableFormat.Bytes.{table_bytes, write_table-Writes}
use libamqp_cpp.TableFormat.Plain.{IsPlainTable, IsPlainTable→IsWritable}
use libamqp_cpp.Bitset.{set_bit}
use libamqp_cpp.Method.{
  Domain, Member, uint8, uint16, uint32, uint64, time, short_text, long_text, fields, Argument,
  flag, member, domains, bits_ahead, get_bitfield_size, write_bits, write_member, write_arguments,
  Method, write,
}
use libamqp_cpp.Method.Bits.{octet_of, bit_value, set_bit-lowest, regroup, pow_bounds}

-- A value in the range of its member's type; a string that its setter takes; a plain table.
abbrev pub IsPlainMember : Member → Type 0
IsPlainMember (uint8 v) = v < 2 ^ 8
IsPlainMember (uint16 v) = v < 2 ^ 16
IsPlainMember (uint32 v) = v < 2 ^ 32
IsPlainMember (uint64 v) = v < 2 ^ 64
IsPlainMember (time v) = v < 2 ^ 64
IsPlainMember (short_text s) = validate_shortstring s ≡ ok tt
IsPlainMember (long_text s) = validate_longstring s ≡ ok tt
IsPlainMember (fields t) = IsPlainTable t

abbrev pub ArePlain : List Argument → Type 0
ArePlain [] = Unit {0}
ArePlain (flag b ∷ rest) = ArePlain rest
ArePlain (member m ∷ rest) = IsPlainMember m × ArePlain rest

-- At most 8 bits stand side by side.
abbrev pub HasShortRuns : List Domain → Type 0
HasShortRuns [] = Unit {0}
HasShortRuns (d ∷ rest) = (bits_ahead (d ∷ rest) ≤ 8) × HasShortRuns rest

unfoldable pub member_bytes : Member → List ℕ
member_bytes (uint8 v) = be_bytes 1 v
member_bytes (uint16 v) = be_bytes 2 v
member_bytes (uint32 v) = be_bytes 4 v
member_bytes (uint64 v) = be_bytes 8 v
member_bytes (time v) = be_bytes 8 v
member_bytes (short_text s) = shortstring_bytes s
member_bytes (long_text s) = longstring_bytes s
member_bytes (fields t) = table_bytes t

abbrev pub flags_ahead : List Argument → List Bool
flags_ahead [] = []
flags_ahead (flag b ∷ rest) = b ∷ flags_ahead rest
flags_ahead (member m ∷ rest) = []

-- The layout of the AMQP specification: a run of bits is one octet, its first bit the lowest. The
-- octet stands where the run begins; `in_run` says that it has been passed.
unfoldable pub arguments_bytes : Bool → List Argument → List ℕ
unfolding member_bytes
arguments_bytes in_run [] = []
arguments_bytes in_run (member m ∷ rest) = member_bytes m ++ arguments_bytes false rest
arguments_bytes false (flag b ∷ rest) =
    be_bytes 1 (octet_of (b ∷ flags_ahead rest)) ++ arguments_bytes true rest
arguments_bytes true (flag b ∷ rest) = arguments_bytes true rest

unfoldable pub method_bytes : Method → List ℕ
method_bytes m =
    be_bytes 2 m.class_id ++ (be_bytes 2 m.method_id ++ arguments_bytes false m.arguments)

pub write_member-Writes : (m : Member) → IsPlainMember m → Writes (write_member m) (member_bytes m)
unfolding write_member member_bytes
write_member-Writes (uint8 v) h = write_uint8-Writes v
write_member-Writes (uint16 v) h = write_uint16-Writes v
write_member-Writes (uint32 v) h = write_uint32-Writes v
write_member-Writes (uint64 v) h = write_uint64-Writes v
write_member-Writes (time v) h = write_uint64-Writes v
write_member-Writes (short_text s) h = write_shortstring-Writes s (validate_shortstring-lt s h)
write_member-Writes (long_text s) h = write_longstring-Writes s (validate_longstring-lt s h)
write_member-Writes (fields t) h = write_table-Writes t (IsPlainTable→IsWritable t h)

pub bitfield_size_octet : (len : ℕ) → len ≤ 8 → get_bitfield_size len ≡ 8
unfolding get_bitfield_size
bitfield_size_octet len h = rw (le→leb len 8 h)

write_octet_8 : (v : ℕ) → Writes (write_bits 8 v) (be_bytes 1 v)
unfolding write_bits
write_octet_8 v = write_uint8-Writes v

-- The octet of a run of which the writer has set the bits below `number`.
abbrev pub run_octet : ℕ → ℕ → Bool → List Argument → ℕ
run_octet number low b rest = low + 2 ^ number * octet_of (b ∷ flags_ahead rest)

bits_set :
    (number low : ℕ) (b : Bool)
    → number < 8
    → low < 2 ^ number
    → set_bit 8 low b number ≡ low + 2 ^ number * bit_value b
bits_set number low b h l = set_bit-lowest b low number h l (omega (arith, pow_bounds number h))

-- One more bit is set below the next number.
bits_below :
    (number low : ℕ) (b : Bool)
    → number < 8
    → low < 2 ^ number
    → low + 2 ^ number * bit_value b < 2 ^ suc number
bits_below number low true h l = omega (arith, pow_bounds number h)
bits_below number low false h l = omega (arith, pow_bounds number h)

-- The last bit of a run: the octet is written.
closed_run :
    (number low bits : ℕ) (b : Bool) (rest : List Argument) (bs : List ℕ)
    → (if number == 0 then 0 else bits) ≡ low
    → low < 2 ^ number
    → number < 8
    → bits_ahead (domains rest) ≡ 0
    → Writes (write_arguments 0 0 rest) bs
    → Writes
        (write_arguments number bits (flag b ∷ rest))
        (be_bytes 1 (low + 2 ^ number * bit_value b) ++ bs)
unfolding Writes write_arguments
closed_run number low bits b rest bs e l h none w o_limit sent r =
    let len_eq : number + suc (bits_ahead (domains rest)) ≡ number + 1 = omega (arith, none) in
    let last = eq→== number (number + 1 - 1) (omega arith) in
    let size_eq : get_bitfield_size (number + 1) ≡ 8 =
      bitfield_size_octet (number + 1) (omega arith) in
    rw (bits_ahead, len_eq, last, e, size_eq, bits_set number low b h l)
      (Writes-seq (write_bits 8 (low + 2 ^ number * bit_value b)) (write_arguments 0 0 rest) _ bs
        (write_octet_8 (low + 2 ^ number * bit_value b)) w o_limit sent r)

-- Another bit follows.
open_run :
    (number low bits : ℕ) (b : Bool) (rest : List Argument) (bs : List ℕ)
    → (if number == 0 then 0 else bits) ≡ low
    → low < 2 ^ number
    → number + suc (bits_ahead (domains rest)) ≤ 8
    → 0 < bits_ahead (domains rest)
    → Writes (write_arguments (suc number) (low + 2 ^ number * bit_value b) rest) bs
    → Writes (write_arguments number bits (flag b ∷ rest)) bs
unfolding Writes write_arguments
open_run number low bits b rest bs e l h more w o_limit sent r =
    let len = number + suc (bits_ahead (domains rest)) in
    let last = ne→== number (len - 1) (λ x. omega arith) in
    let size_eq : get_bitfield_size len ≡ 8 = bitfield_size_octet len h in
    rw (bits_ahead, last, e, size_eq, bits_set number low b (omega arith) l) (w o_limit sent r)

-- At a run's end, the number that the bits make.
octet_of-one : (low q : ℕ) (b : Bool) → low + q * octet_of (b ∷ []) ≡ low + q * bit_value b
unfolding octet_of
octet_of-one low q b = ap (λ (x : ℕ). low + q * x) (omega arith)

octet_of-more :
    (low number : ℕ) (b : Bool) (bs : List Bool)
    → number < 8
    → low + 2 ^ number * bit_value b + 2 ^ suc number * octet_of bs
      ≡ low + 2 ^ number * octet_of (b ∷ bs)
unfolding octet_of
octet_of-more low number b bs h =
    rw (pow_bounds number h).0 (regroup low (2 ^ number) (bit_value b) (octet_of bs))

empty_run_lem : Writes (write_arguments 0 0 []) []
unfolding write_arguments
empty_run_lem = Writes-nil

member_run_lem :
    (m : Member) (rest : List Argument) (bs : List ℕ)
    → IsPlainMember m
    → Writes (write_arguments 0 0 rest) bs
    → Writes (write_arguments 0 0 (member m ∷ rest)) (member_bytes m ++ bs)
unfolding write_arguments
member_run_lem m rest bs p w =
    Writes-seq (write_member m) (write_arguments 0 0 rest) _ bs (write_member-Writes m p) w

run_start :
    (b : Bool) (rest : List Argument) → run_octet 0 0 b rest ≡ octet_of (b ∷ flags_ahead rest)
run_start b rest = omega arith

mutual
  unfolding arguments_bytes bits_ahead

  write_arguments-run :
      (rest : List Argument) (number low bits : ℕ) (b : Bool)
      → (if number == 0 then 0 else bits) ≡ low
      → low < 2 ^ number
      → number + suc (bits_ahead (domains rest)) ≤ 8
      → HasShortRuns (domains rest)
      → ArePlain rest
      → Writes
          (write_arguments number bits (flag b ∷ rest))
          (be_bytes 1 (run_octet number low b rest) ++ arguments_bytes true rest)
  write_arguments-run [] number low bits b e l h s p =
      rw (octet_of-one low (2 ^ number) b)
        (closed_run number low bits b [] [] e l (omega arith) refl empty_run_lem)
  write_arguments-run (member m ∷ rest) number low bits b e l h s p =
      rw (octet_of-one low (2 ^ number) b) (
        closed_run number low bits b (member m ∷ rest) (arguments_bytes false (member m ∷ rest)) e l
          (omega arith) refl
          (member_run_lem m rest (arguments_bytes false rest) p.0
            (write_arguments-bytes rest s.1 p.1)))
  write_arguments-run (flag c ∷ rest) number low bits b e l h s p =
      let low' = low + 2 ^ number * bit_value b in
      let nonzero = ne→== (suc number) 0 (λ x. omega arith) in
      rw (← octet_of-more low number b (c ∷ flags_ahead rest) (omega arith)) (
        open_run number low bits b (flag c ∷ rest) _ e l h (omega arith) (
          write_arguments-run rest (suc number) low' low' c (rw nonzero)
            (bits_below number low b (omega arith) l) (omega arith) s.1 p))

  write_arguments-bytes :
      (xs : List Argument)
      → HasShortRuns (domains xs)
      → ArePlain xs
      → Writes (write_arguments 0 0 xs) (arguments_bytes false xs)
  write_arguments-bytes [] s p = empty_run_lem
  write_arguments-bytes (member m ∷ rest) s p =
      member_run_lem m rest (arguments_bytes false rest) p.0 (write_arguments-bytes rest s.1 p.1)
  write_arguments-bytes (flag b ∷ rest) s p =
      rw (run_start b rest) at
        (write_arguments-run rest 0 0 0 b refl (omega arith) (omega (arith, s.0)) s.1 p)

pub write_arguments-Writes :
    (xs : List Argument)
    → HasShortRuns (domains xs)
    → ArePlain xs
    → Writes (write_arguments 0 0 xs) (arguments_bytes false xs)
write_arguments-Writes xs s p = write_arguments-bytes xs s p

-- A method's writer sends its identifiers and the bytes of its arguments.
pub write-Writes :
    (m : Method)
    → m.class_id < 2 ^ 16
    → m.method_id < 2 ^ 16
    → HasShortRuns (domains m.arguments)
    → ArePlain m.arguments
    → Writes (write m) (method_bytes m)
unfolding Writes write method_bytes
write-Writes m c i s p l sent r =
    let class_eq : m.class_id % 2 ^ 16 ≡ m.class_id = omega arith in
    let method_eq : m.method_id % 2 ^ 16 ≡ m.method_id = omega arith in
    rw (class_eq, method_eq)
      (Writes-seq (write_uint16 m.class_id)
        (λ o. write_uint16 m.method_id o >>= write_arguments 0 0 m.arguments) _ _
        (write_uint16-Writes m.class_id)
        (Writes-seq (write_uint16 m.method_id) (write_arguments 0 0 m.arguments) _ _
          (write_uint16-Writes m.method_id) (write_arguments-Writes m.arguments s p))
        l sent r)
