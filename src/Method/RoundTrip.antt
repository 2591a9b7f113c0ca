-- ===== src/Method/RoundTrip.antt =====
-- A method that was written is read back.
use libamqp_cpp.Base.{
  ℕ, zero, suc, ◌+◌, ◌-◌, ◌/◌, ◌%◌, ◌^◌, ◌<◌, ◌≤◌, ◌≡◌, refl, ap, ◌∙◌, Bool, true, false, List, [],
  ◌∷◌, ◌++◌, append_assoc, ok, ◌==◌, eq→==, ne→==, if◌then◌else◌, arith, length,
}
use libamqp_cpp.Byteswap.Laws.{be_bytes}
use libamqp_cpp.Stream.{istream}
use libamqp_cpp.Wire.Integers.{read_uint8-be, read_uint16-be, read_uint32-be, read_uint64-be}
use libamqp_cpp.Wire.Strings.{read_shortstring-append, read_longstring-append}
use libamqp_cpp.StringUtils.Laws.{validate_shortstring-lt, validate_longstring-lt}
use libamqp_cpp.TableFormat.Bytes.{table_bytes}
use libamqp_cpp.TableFormat.Size.{lengths}
use libamqp_cpp.TableFormat.RoundTrip.{read-write_table}
use libamqp_cpp.Bitset.{get_bit}
use libamqp_cpp.Method.{
  simple_of, Member, uint8, uint16, uint32, uint64, time, short_text, long_text, fields, Argument,
  flag, member, domains, bits_ahead, get_bitfield_size, read_bits, read_member, read_arguments,
  Method, ClassSpec, arguments_of, read,
}
use libamqp_cpp.Method.Bits.{
  octet_of, pow_bounds, get_bit-parity, halve, octet_of-parity, octet_of-half,
}
use libamqp_cpp.Method.Layout.{
  IsPlainMember, ArePlain, HasShortRuns, member_bytes, flags_ahead, arguments_bytes, method_bytes,
  bitfield_size_octet,
}

pub read_member-bytes :
    (m : Member) (rest : List ℕ)
    → IsPlainMember m
    → read_member (simple_of m) (istream (member_bytes m ++ rest)) ≡ ok (m, istream rest)
unfolding read_member member_bytes
read_member-bytes (uint8 v) rest h = rw (read_uint8-be v rest h)
read_member-bytes (uint16 v) rest h = rw (read_uint16-be v rest h)
read_member-bytes (uint32 v) rest h = rw (read_uint32-be v rest h)
read_member-bytes (uint64 v) rest h = rw (read_uint64-be v rest h)
read_member-bytes (time v) rest h = rw (read_uint64-be v rest h)
read_member-bytes (short_text s) rest h =
    rw (read_shortstring-append s rest (validate_shortstring-lt s h), h)
read_member-bytes (long_text s) rest h =
    rw (read_longstring-append s rest (validate_longstring-lt s h), h)
read_member-bytes (fields t) rest h =
    rw (read-write_table (length (table_bytes t ++ rest) + 1) t rest h (omega lengths))

-- What is left of an octet at a bit's number tells the flags from there on.
octet_next :
    (v number : ℕ) (b : Bool) (bs : List Bool)
    → number < 8
    → v < 256
    → v / 2 ^ number ≡ octet_of (b ∷ bs)
    → (get_bit v number ≡ b) × (v / 2 ^ suc number ≡ octet_of bs)
octet_next v number b bs h l e = (
  get_bit-parity v number h l ∙ ap (λ (x : ℕ). x % 2 == 1) e ∙ octet_of-parity b bs,
  halve v number h ∙ ap (λ (x : ℕ). x / 2) e ∙ octet_of-half b bs,
)

read_octet :
    (v : ℕ) (rest : List ℕ)
    → v < 256
    → read_bits 8 (istream (be_bytes 1 v ++ rest)) ≡ ok (v, istream rest)
unfolding read_bits
read_octet v rest h = read_uint8-be v rest h

pow_positive : (n : ℕ) → n ≤ 8 → 0 < 2 ^ n
pow_positive zero h = omega arith
pow_positive (suc n) h = omega (arith, pow_bounds n)

octet_of-lt :
    (xs : List Argument) (n : ℕ)
    → bits_ahead (domains xs) ≤ n
    → n ≤ 8
    → octet_of (flags_ahead xs) < 2 ^ n
unfolding octet_of bits_ahead
octet_of-lt [] n h k = pow_positive n k
octet_of-lt (member m ∷ xs) n h k = pow_positive n k
octet_of-lt (flag b ∷ xs) zero h k = absurd (omega arith)
octet_of-lt (flag true ∷ xs) (suc n) h k =
    omega (arith, pow_bounds n, octet_of-lt xs n (omega arith) (omega arith))
octet_of-lt (flag false ∷ xs) (suc n) h k =
    omega (arith, pow_bounds n, octet_of-lt xs n (omega arith) (omega arith))

read_none :
    (number bits : ℕ) (rest : List ℕ)
    → read_arguments number bits [] (istream rest) ≡ ok ([], istream rest)
unfolding read_arguments
read_none number bits rest = refl

read_simple :
    (m : Member) (xs : List Argument) (number bits : ℕ) (bs rest : List ℕ)
    → IsPlainMember m
    → read_arguments 0 0 (domains xs) (istream (bs ++ rest)) ≡ ok (xs, istream rest)
    → read_arguments number bits
        (domains (member m ∷ xs))
        (istream ((member_bytes m ++ bs) ++ rest))
      ≡ ok (member m ∷ xs, istream rest)
unfolding read_arguments
read_simple m xs number bits bs rest p later =
    rw (append_assoc, read_member-bytes m (bs ++ rest) p, later)

-- One bit of a run of which `v` is the octet: it comes from the stream with the first bit only.
module _ (v number bits : ℕ) (b : Bool) (xs : List Argument) (bs bs' rest : List ℕ)
    (first : (if number == 0 then read_bits 8 (istream bs) else ok (bits, istream bs))
      ≡ ok (v, istream bs'))
    (told : get_bit v number ≡ b) (small : number + suc (bits_ahead (domains xs)) ≤ 8) where
  read_last_bit :
      bits_ahead (domains xs) ≡ 0
      → read_arguments 0 v (domains xs) (istream bs') ≡ ok (xs, istream rest)
      → read_arguments number bits (domains (flag b ∷ xs)) (istream bs)
        ≡ ok (flag b ∷ xs, istream rest)
  unfolding read_arguments
  read_last_bit none later =
      let len_eq : number + suc (bits_ahead (domains xs)) ≡ number + 1 = omega (arith, none) in
      let last = eq→== number (number + 1 - 1) (omega arith) in
      let size_eq : get_bitfield_size (number + 1) ≡ 8 =
        bitfield_size_octet (number + 1) (omega arith) in
      rw (bits_ahead, len_eq, size_eq, first, last, later, told)

  read_next_bit :
      0 < bits_ahead (domains xs)
      → read_arguments (suc number) v (domains xs) (istream bs') ≡ ok (xs, istream rest)
      → read_arguments number bits (domains (flag b ∷ xs)) (istream bs)
        ≡ ok (flag b ∷ xs, istream rest)
  unfolding read_arguments
  read_next_bit more later =
      let len = number + suc (bits_ahead (domains xs)) in
      let last = ne→== number (len - 1) (λ x. omega arith) in
      let size_eq : get_bitfield_size len ≡ 8 = bitfield_size_octet len small in
      rw (bits_ahead, size_eq, first, last, later, told)

mutual
  unfolding arguments_bytes bits_ahead

  read_run :
      (xs : List Argument) (v number bits : ℕ) (b : Bool) (bs rest : List ℕ)
      → (if number == 0 then read_bits 8 (istream bs) else ok (bits, istream bs))
        ≡ ok (v, istream (arguments_bytes true xs ++ rest))
      → v < 256
      → v / 2 ^ number ≡ octet_of (b ∷ flags_ahead xs)
      → number + suc (bits_ahead (domains xs)) ≤ 8
      → HasShortRuns (domains xs)
      → ArePlain xs
      → read_arguments number bits (domains (flag b ∷ xs)) (istream bs)
        ≡ ok (flag b ∷ xs, istream rest)
  read_run [] v number bits b bs rest first l e h s p =
      let (told, after) = octet_next v number b [] (omega arith) l e in
      read_last_bit v number bits b [] bs rest rest first told h refl (read_none 0 v rest)
  read_run (member m ∷ xs) v number bits b bs rest first l e h s p =
      let (told, after) = octet_next v number b [] (omega arith) l e in
      read_last_bit v number bits b (member m ∷ xs) bs _ rest first told h refl
        (read_simple m xs 0 v (arguments_bytes false xs) rest p.0 (read_all xs 0 rest s.1 p.1))
  read_run (flag c ∷ xs) v number bits b bs rest first l e h s p =
      let (told, after) = octet_next v number b (c ∷ flags_ahead xs) (omega arith) l e in
      let nonzero = ne→== (suc number) 0 (λ x. omega arith) in
      read_next_bit v number bits b (flag c ∷ xs) bs _ rest first told h (omega arith)
        (read_run xs v (suc number) v c _ rest (rw nonzero) l after (omega arith) s.1 p)

  read_all :
      (xs : List Argument) (bits : ℕ) (rest : List ℕ)
      → HasShortRuns (domains xs)
      → ArePlain xs
      → read_arguments 0 bits (domains xs) (istream (arguments_bytes false xs ++ rest))
        ≡ ok (xs, istream rest)
  read_all [] bits rest s p = read_none 0 bits rest
  read_all (member m ∷ xs) bits rest s p =
      read_simple m xs 0 bits (arguments_bytes false xs) rest p.0 (read_all xs 0 rest s.1 p.1)
  read_all (flag b ∷ xs) bits rest s p =
      let v = octet_of (b ∷ flags_ahead xs) in
      let small : v < 256 = octet_of-lt (flag b ∷ xs) 8 s.0 (omega arith) in
      read_run xs v 0 bits b _ rest
        (rw append_assoc (read_octet v (arguments_bytes true xs ++ rest) small)) small (omega arith)
        (omega (arith, s.0)) s.1 p

-- A method of the specification whose values are plain, and with at most 8 bits side by side, is
-- read back from its bytes, whatever follows them, and this is left.
pub read-write_method :
    (spec : List ClassSpec) (m : Method) (rest : List ℕ)
    → m.class_id < 2 ^ 16
    → m.method_id < 2 ^ 16
    → arguments_of spec m.class_id m.method_id ≡ ok (domains m.arguments)
    → HasShortRuns (domains m.arguments)
    → ArePlain m.arguments
    → read spec (istream (method_bytes m ++ rest)) ≡ ok (m, istream rest)
unfolding read method_bytes
read-write_method spec m rest c i known s p = rw (
  append_assoc,
  append_assoc,
  read_uint16-be m.class_id (be_bytes 2 m.method_id ++ (arguments_bytes false m.arguments ++ rest))
      c,
  read_uint16-be m.method_id (arguments_bytes false m.arguments ++ rest) i,
  known,
  read_all m.arguments 0 rest s p,
)
