-- ===== src/TableFormat/Losses.antt =====
-- Values that the format does not carry: doubles, byte arrays, and tables whose size is miscounted.
use libamqp_cpp.Base.{
  ℕ, suc, ◌+◌, ◌-◌, ◌%◌, ◌^◌, ◌<◌, ◌≤◌, ◌≡◌, ◌≢◌, refl, sym, ap, ◌∙◌, List, [], ◌++◌, append_assoc,
  ok, err, runtime_error, arith, length, Ensures, holds, Ensures-bind, Ensures-ok,
}
use libamqp_cpp.Stream.{IStream, istream}
use libamqp_cpp.Stream.Laws.{read_or_throw-short}
use libamqp_cpp.Wire.{read_longstring}
use libamqp_cpp.Wire.Chunks.{read_chunks-eq-read}
use libamqp_cpp.Wire.Integers.{read_uint8-be, read_uint32-be, read_uint64-be}
use libamqp_cpp.Wire.Progress.{Leaves, read_uint32-Ensures, read_or_throw-Ensures}
use libamqp_cpp.Table.{
  type_octet, get_type, bytes_type, FieldValue, double, bytes, Table, u32, wireformat_size,
}
use libamqp_cpp.TableFormat.{read_field_value, read_typed, read_table, float_to_double}
use libamqp_cpp.TableFormat.Bytes.{content_bytes, entries_bytes, value_bytes, table_bytes}
use libamqp_cpp.TableFormat.Size.{
  over_entries, under_entries, wireformat_size-account, lengths, length-append_bytes,
}
use libamqp_cpp.TableFormat.Plain.{entries_size-lt}
use libamqp_cpp.TableFormat.RoundTrip.{field_type_of-octet, type_octet-lt}

-- The type octet that a writer sends selects the case for the value's type.
pub read_field_value-typed :
    (f : ℕ) (v : FieldValue) (rest : List ℕ)
    → read_field_value (suc f) (istream (value_bytes v ++ rest))
      ≡ read_typed f (get_type v) (istream (content_bytes v ++ rest))
unfolding read_field_value value_bytes
read_field_value-typed f v rest = rw (
  append_assoc,
  read_uint8-be (type_octet (get_type v)) (content_bytes v ++ rest) (type_octet-lt (get_type v)),
  field_type_of-octet (get_type v),
)

-- A double is read back as the conversion of the float that its low 32 bits make.
double_truncated :
    (f p : ℕ) (rest : List ℕ)
    → p < 2 ^ 64
    → read_field_value (suc (suc f)) (istream (value_bytes (double p) ++ rest))
      ≡ ok (double (float_to_double (p % 2 ^ 32)), istream rest)
unfolding read_field_value content_bytes get_type
double_truncated f p rest h =
    read_field_value-typed (suc f) (double p) rest ∙ rw (read_uint64-be p rest h)

-- Every double whose low 32 bits are zero is read back as +0.0.
pub double_read_as_zero :
    (f p : ℕ) (rest : List ℕ)
    → p < 2 ^ 64
    → p % 2 ^ 32 ≡ 0
    → read_field_value (suc (suc f)) (istream (value_bytes (double p) ++ rest))
      ≡ ok (double 0, istream rest)
unfolding float_to_double
double_read_as_zero f p rest h low = double_truncated f p rest h ∙ rw low

bytes_read :
    (f : ℕ) (bs : List ℕ)
    → Ensures
        (λ (v, j). (s : List ℕ) × (v ≡ bytes s) × Leaves (4 + length s) bs j)
        (read_typed (suc f) bytes_type (istream bs))
unfolding read_field_value
bytes_read f bs = Ensures-bind (read_uint32-Ensures bs) λ (n, j) (small, (rest, e, k)). rw e (
    Ensures-bind (read_or_throw-Ensures n "Read failed." rest)
      λ (s, j') (l, (r, e', k')). holds (s, refl, (r, e', omega arith)))

-- No byte array is read back as it was written: the writer sends no length, which the reader
-- expects before the bytes.
bytes_not_read_back :
    (f : ℕ) (s rest : List ℕ)
    → read_field_value (suc (suc f)) (istream (value_bytes (bytes s) ++ rest))
      ≢ ok (bytes s, istream rest)
unfolding content_bytes get_type
bytes_not_read_back f s rest same =
    let (s', e, (r, e', k)) =
      Ensures-ok (bytes_read f (s ++ rest))
        (sym (read_field_value-typed (suc f) (bytes s) rest) ∙ same) in
    absurd (miscount s s' rest r e (ap (λ (j : IStream). j.rest) e') k)
  where
    bytes_of : FieldValue → List ℕ
    bytes_of (bytes x) = x
    bytes_of _ = []

    miscount :
        (s s' rest r : List ℕ)
        → bytes s ≡ bytes s'
        → rest ≡ r
        → length r + (4 + length s') ≤ length (s ++ rest)
        → ⊥
    miscount s s' rest r p q k = omega (
      arith,
      length-append_bytes s rest,
      ap length q,
      ap (λ (v : FieldValue). length (bytes_of v)) p,
    )

-- The size counts more bytes than are written, and does not wrap.
module _ (t : Table) (more : under_entries t < over_entries t)
    (small : length (table_bytes t) + over_entries t < 2 ^ 32) where
  oversize :
      u32 (wireformat_size t + 2 ^ 64 - 4) + under_entries t
      ≡ length (entries_bytes t) + over_entries t
  unfolding wireformat_size table_bytes
  oversize =
      omega (lengths, wireformat_size-account t, entries_size-lt t 4 (omega arith), more, small)

  -- A table whose size counts more bytes too many than too few, with no wrap of 32 bits, cannot be
  -- read back from the bytes that write_table sends: the length that it announces is more than
  -- there are, and the reader throws.
  pub oversize_unreadable :
      (f : ℕ)
      → read_table (suc f) (istream (table_bytes t))
        ≡ err (runtime_error "Failure to read longstring data")
  unfolding read_field_value read_longstring table_bytes
  oversize_unreadable f =
      let announced = u32 (wireformat_size t + 2 ^ 64 - 4) in
      rw (
        read_uint32-be announced (entries_bytes t) (omega arith),
        read_chunks-eq-read announced (entries_bytes t) (omega arith),
        read_or_throw-short (entries_bytes t) announced "Failure to read longstring data"
            (omega (arith, oversize, more)),
      )
