-- ===== src/Method/Total.antt =====
-- The end of reading a method, whatever the bytes.
use libamqp_cpp.Base.{
  ℕ, ◌+◌, ◌-◌, ◌≤◌, ◌≡◌, refl, inl, inr, true, false, List, [], ◌∷◌, if◌then◌else◌, Bool, ltb, ◌^◌,
  Option-cases, length, arith, ◌==◌, Result, ok, Ensures, holds, raised, Ensures-bind,
  Ensures-weaken,
}
use libamqp_cpp.Stream.{IStream, istream}
use libamqp_cpp.StringUtils.{contains, validate_shortstring, validate_longstring}
use libamqp_cpp.Wire.Progress.{
  Leaves, read_uint8-Ensures, read_uint16-Ensures, read_uint32-Ensures, read_uint64-Ensures,
  read_shortstring-Ensures, read_longstring-Ensures,
}
use libamqp_cpp.TableFormat.Read.{read_table_total}
use libamqp_cpp.Method.{
  Simple, octet, short, long, longlong, shortstr, longstr, table, timestamp, Domain, bit, simple,
  ClassSpec, bits_ahead, get_bitfield_size, read_bits, read_member, read_arguments, find_class,
  find_method, arguments_of, read,
}

-- The stream `j` is good, and holds no more than `bs`.
abbrev Good : List ℕ → IStream → Type 0
Good bs j = (rest : List ℕ) × (j ≡ istream rest) × (length rest ≤ length bs)

Ensures-if {ℓ κ} :
    {A : Type ℓ} {P : A → Type κ} {m n : Result A} (b : Bool)
    → Ensures P m
    → Ensures P n
    → Ensures P (if b then m else n)
Ensures-if true h k = h
Ensures-if false h k = k

validate_shortstring-Ensures :
    (s : List ℕ) → Ensures (λ (u : Unit {0}). Unit {0}) (validate_shortstring s)
unfolding validate_shortstring
validate_shortstring-Ensures s =
    Ensures-if (ltb 255 (length s)) raised (Ensures-if (contains 0 s) raised (holds tt))

validate_longstring-Ensures :
    (s : List ℕ) → Ensures (λ (u : Unit {0}). Unit {0}) (validate_longstring s)
unfolding validate_longstring
validate_longstring-Ensures s = Ensures-if (ltb (2 ^ 32 - 1) (length s)) raised (holds tt)

read_bits-Ensures : (w : ℕ) (bs : List ℕ) → Ensures (λ (v, j). Good bs j) (read_bits w (istream bs))
unfolding read_bits
read_bits-Ensures w bs =
    Ensures-if _ (Ensures-weaken (read_uint8-Ensures bs) λ (v, j) (r, e, h). (r, e, omega arith)) (
      Ensures-if _ (Ensures-weaken (read_uint16-Ensures bs) λ (v, j) (r, e, h). (r, e, omega arith))
        (Ensures-if _
          (Ensures-weaken (read_uint32-Ensures bs) λ (v, j) (l, (r, e, h)). (r, e, omega arith))
          (Ensures-weaken (read_uint64-Ensures bs) λ (v, j) (r, e, h). (r, e, omega arith))))

read_member-Ensures :
    (d : Simple) (bs : List ℕ) → Ensures (λ (x, j). Good bs j) (read_member d (istream bs))
unfolding read_member
read_member-Ensures octet bs =
    Ensures-bind (read_uint8-Ensures bs) λ (v, j) (rest, e, h). holds (rest, e, omega arith)
read_member-Ensures short bs =
    Ensures-bind (read_uint16-Ensures bs) λ (v, j) (rest, e, h). holds (rest, e, omega arith)
read_member-Ensures long bs =
    Ensures-bind (read_uint32-Ensures bs) λ (v, j) (l, (rest, e, h)). holds (rest, e, omega arith)
read_member-Ensures longlong bs =
    Ensures-bind (read_uint64-Ensures bs) λ (v, j) (rest, e, h). holds (rest, e, omega arith)
read_member-Ensures timestamp bs =
    Ensures-bind (read_uint64-Ensures bs) λ (v, j) (rest, e, h). holds (rest, e, omega arith)
read_member-Ensures shortstr bs = Ensures-bind (read_shortstring-Ensures bs) λ (s, j) (rest, e, h).
    Ensures-bind (validate_shortstring-Ensures s) λ u v. holds (rest, e, omega arith)
read_member-Ensures longstr bs = Ensures-bind (read_longstring-Ensures bs) λ (s, j) (rest, e, h).
    Ensures-bind (validate_longstring-Ensures s) λ u v. holds (rest, e, omega arith)
read_member-Ensures table bs =
    Ensures-bind (read_table_total (length bs + 1) bs (omega arith))
      λ (t, j) (rest, e, h). holds (rest, e, omega arith)

read_arguments-Ensures :
    (number bits : ℕ) (ds : List Domain) (bs : List ℕ)
    → Ensures (λ (xs, j). Good bs j) (read_arguments number bits ds (istream bs))
unfolding read_arguments
read_arguments-Ensures number bits [] bs = holds (bs, refl, omega arith)
read_arguments-Ensures number bits (simple d ∷ ds) bs =
    Ensures-bind (read_member-Ensures d bs) λ (m, j) (rest, e, h). rw e (
      Ensures-bind (read_arguments-Ensures 0 0 ds rest)
        λ (xs, k) (rest', e', h'). holds (rest', e', omega arith))
read_arguments-Ensures number bits (bit ∷ ds) bs =
    Ensures-bind (first_read (number == 0)) λ (v, j) (rest, e, h). rw e (
      Ensures-bind (read_arguments-Ensures _ v ds rest)
        λ (xs, k) (rest', e', h'). holds (rest', e', omega arith))
  where
    first_read :
        (starts : Bool)
        → Ensures
            (λ (v, j). Good bs j)
            (if starts
              then read_bits (get_bitfield_size (number + bits_ahead (bit ∷ ds))) (istream bs)
              else ok (bits, istream bs))
    first_read true = read_bits-Ensures (get_bitfield_size (number + bits_ahead (bit ∷ ds))) bs
    first_read false = holds (bs, refl, omega arith)

arguments_of-Ensures :
    (spec : List ClassSpec) (class_id method_id : ℕ)
    → Ensures (λ ds. Unit {0}) (arguments_of spec class_id method_id)
unfolding arguments_of
arguments_of-Ensures spec class_id method_id = elim (Option-cases (find_class class_id spec)) [
  | inl e ↦ rw (arguments_of, e) raised
  | inr (methods, e) ↦
      rw (arguments_of, e)
        (elim (Option-cases (find_method method_id methods)) [
          | inl e' ↦ rw e' raised
          | inr (ds, e') ↦ rw e' (holds tt)
        ])
]

-- On every input, and for every specification, the reader of methods ends, by a method or by an
-- exception. After a method the stream is good, and holds four bytes less than before, or fewer.
pub read_method_total :
    (spec : List ClassSpec) (bs : List ℕ)
    → Ensures (λ (m, j). Leaves 4 bs j) (read spec (istream bs))
unfolding read
read_method_total spec bs = Ensures-bind (read_uint16-Ensures bs) λ (c, j) (rest, e, h). rw e (
    Ensures-bind (read_uint16-Ensures rest) λ (i, k) (rest', e', h'). rw e' (
      Ensures-bind (arguments_of-Ensures spec c i) λ ds u.
        Ensures-bind (read_arguments-Ensures 0 0 ds rest')
          λ (xs, l) (r, e'', h''). holds (r, e'', omega arith)))
