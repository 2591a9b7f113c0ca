-- ===== src/Method/Size.antt =====
-- get_serialized_size against the bytes that are written.
use libamqp_cpp.Base.{
  ℕ, suc, ◌+◌, ◌-◌, ◌%◌, ◌^◌, ◌<◌, ◌≤◌, ◌≡◌, refl, ap, Bool, true, false, List, [], ◌∷◌, ◌==◌,
  eq→==, ne→==, Bool-cases, inl, inr, arith, length,
}
use libamqp_cpp.Table.{u32}
use libamqp_cpp.TableFormat.Size.{lengths}
use libamqp_cpp.TableFormat.Plain.{wireformat_size-exact}
use libamqp_cpp.Method.{
  Member, uint8, uint16, uint32, uint64, time, short_text, long_text, fields, Argument, flag,
  member, bit, domains, bits_ahead, get_bitfield_size, member_size, arguments_size, Method,
  get_serialized_size,
}
use libamqp_cpp.Method.Layout.{
  IsPlainMember, ArePlain, HasShortRuns, member_bytes, arguments_bytes, method_bytes,
  bitfield_size_octet,
}

pub member_size-account :
    (m : Member) → IsPlainMember m → member_size m % 2 ^ 32 ≡ length (member_bytes m) % 2 ^ 32
unfolding member_size member_bytes
member_size-account (short_text s) h = omega lengths
member_size-account (long_text s) h = omega lengths
member_size-account (fields t) h = ap (λ (n : ℕ). n % 2 ^ 32) (wireformat_size-exact t h)
member_size-account (uint8 v) h = omega lengths
member_size-account (uint16 v) h = omega lengths
member_size-account (uint32 v) h = omega lengths
member_size-account (uint64 v) h = omega lengths
member_size-account (time v) h = omega lengths

-- A bit adds its octet if it is the last of its run, and nothing else.
module _ (number size : ℕ) (b : Bool) (xs : List Argument)
    (small : number + suc (bits_ahead (domains xs)) ≤ 8) where
  size_of_last :
      bits_ahead (domains xs) ≡ 0
      → arguments_size number size (flag b ∷ xs) ≡ arguments_size 0 (u32 (size + 1)) xs
  unfolding arguments_size
  size_of_last none =
      let len_eq : number + suc (bits_ahead (domains xs)) ≡ number + 1 = omega (arith, none) in
      let last = eq→== number (number + 1 - 1) (omega arith) in
      let size_eq : get_bitfield_size (number + 1) ≡ 8 =
        bitfield_size_octet (number + 1) (omega arith) in
      rw (bits_ahead, len_eq, last, size_eq)

  size_of_next :
      0 < bits_ahead (domains xs)
      → arguments_size number size (flag b ∷ xs) ≡ arguments_size (suc number) size xs
  unfolding arguments_size
  size_of_next more =
      let last = ne→== number (number + suc (bits_ahead (domains xs)) - 1) (λ x. omega arith) in
      rw (bits_ahead, last)

size_of_none : (size : ℕ) → arguments_size 0 size [] ≡ size
unfolding arguments_size
size_of_none size = refl

size_of_member :
    (number size : ℕ) (m : Member) (xs : List Argument)
    → arguments_size number size (member m ∷ xs) ≡ arguments_size 0 (u32 (size + member_size m)) xs
unfolding arguments_size
size_of_member number size m xs = refl

mutual
  unfolding arguments_bytes bits_ahead

  size_of_run :
      (xs : List Argument) (number size : ℕ) (b : Bool)
      → number + suc (bits_ahead (domains xs)) ≤ 8
      → HasShortRuns (domains xs)
      → ArePlain xs
      → arguments_size number size (flag b ∷ xs) % 2 ^ 32
        ≡ (size + 1 + length (arguments_bytes true xs)) % 2 ^ 32
  size_of_run [] number size b h s p =
      omega (arith, size_of_last number size b [] h refl, size_of_none (u32 (size + 1)))
  size_of_run (member m ∷ xs) number size b h s p = omega (
    lengths,
    size_of_last number size b (member m ∷ xs) h refl,
    size_of_member 0 (u32 (size + 1)) m xs,
    member_size-account m p.0,
    size_of_all xs (u32 (u32 (size + 1) + member_size m)) s.1 p.1,
  )
  size_of_run (flag c ∷ xs) number size b h s p = omega (
    arith,
    size_of_next number size b (flag c ∷ xs) h (omega arith),
    size_of_run xs (suc number) size c (omega arith) s.1 p,
  )

  size_of_all :
      (xs : List Argument) (size : ℕ)
      → HasShortRuns (domains xs)
      → ArePlain xs
      → arguments_size 0 size xs % 2 ^ 32 ≡ (size + length (arguments_bytes false xs)) % 2 ^ 32
  size_of_all [] size s p = omega (arith, size_of_none size)
  size_of_all (member m ∷ xs) size s p = omega (
    lengths,
    size_of_member 0 size m xs,
    member_size-account m p.0,
    size_of_all xs (u32 (size + member_size m)) s.1 p.1,
  )
  size_of_all (flag b ∷ xs) size s p =
      omega (lengths, size_of_run xs 0 size b (omega (arith, s.0)) s.1 p)

arguments_size-lt :
    (xs : List Argument) (number size : ℕ) → size < 2 ^ 32 → arguments_size number size xs < 2 ^ 32
unfolding arguments_size
arguments_size-lt [] number size h = h
arguments_size-lt (member m ∷ xs) number size h =
    arguments_size-lt xs 0 (u32 (size + member_size m)) (omega arith)
arguments_size-lt (flag b ∷ xs) number size h =
    elim (Bool-cases (number == number + bits_ahead (bit ∷ domains xs) - 1)) [
      | inl e ↦ rw e (arguments_size-lt xs 0 _ (omega arith))
      | inr e ↦ rw e (arguments_size-lt xs (suc number) size h)
    ]

-- A method's announced size is the number of bytes that its writer sends, if these are less than
-- 2 ^ 32, its values are plain and at most 8 bits stand side by side.
pub get_serialized_size-exact :
    (m : Method)
    → HasShortRuns (domains m.arguments)
    → ArePlain m.arguments
    → length (method_bytes m) < 2 ^ 32
    → get_serialized_size m ≡ length (method_bytes m)
unfolding get_serialized_size method_bytes
get_serialized_size-exact m s p h =
    omega (lengths, size_of_all m.arguments 4 s p, arguments_size-lt m.arguments 0 4 (omega arith))
