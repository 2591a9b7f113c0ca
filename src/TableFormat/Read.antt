-- ===== src/TableFormat/Read.antt =====
-- Reading ends on every input, and a field array is never read.
use libamqp_cpp.Base.{
  ℕ, zero, suc, ◌+◌, ◌≤◌, ◌≡◌, refl, List, [], ◌∷◌, err, Exception, arith, length, Ensures, holds,
  Ensures-bind, Ensures-weaken, Ensures-any, Ensures-never,
}
use libamqp_cpp.Stream.{IStream, istream}
use libamqp_cpp.Stream.Laws.{peek_eof-nil, peek_eof-cons}
use libamqp_cpp.Wire.Progress.{
  Leaves, read_or_throw-Ensures, read_uint8-Ensures, read_uint16-Ensures, read_uint32-Ensures,
  read_uint64-Ensures, read_shortstring-Ensures, read_longstring-Ensures,
}
use libamqp_cpp.Table.{
  FieldType, boolean_type, int8_type, int16_type, int32_type, int64_type, float_type, double_type,
  decimal_type, longstring_type, fieldarray_type, timestamp_type, fieldtable_type, void_type,
  bytes_type, FieldValue, FieldArray, push_back, insert, Table, no_entries, no_values, TableEntry,
  table_entry_of_variant,
}
use libamqp_cpp.TableFormat.{
  read_field_value, read_typed, read_values, read_table, read_entries, read_table_entry,
  field_type_of,
}

Leaves-le : (m n : ℕ) (bs : List ℕ) (j : IStream) → m ≤ n → Leaves n bs j → Leaves m bs j
Leaves-le m n bs j h (rest, e, k) = (rest, e, omega arith)

table_entry_of_variant-Ensures :
    (k : List ℕ) (v : FieldValue)
    → Ensures (λ (e : TableEntry). Unit {0}) (table_entry_of_variant k v)
unfolding table_entry_of_variant
table_entry_of_variant-Ensures k v = Ensures-any _ (ground arith) (ground arith)

field_type_of-Ensures : (c : ℕ) → Ensures (λ (t : FieldType). Unit {0}) (field_type_of c)
unfolding field_type_of
field_type_of-Ensures c = Ensures-any _ (ground arith) (ground arith)

-- One induction on the fuel. A value takes a byte at least, an entry two, a table four.
mutual
  unfolding read_field_value

  read_field_value-Ensures :
      (f : ℕ) (bs : List ℕ)
      → length bs + 2 ≤ f
      → Ensures (λ (v, j). Leaves 1 bs j) (read_field_value f (istream bs))
  read_field_value-Ensures zero bs h = absurd (omega arith)
  read_field_value-Ensures (suc f) bs h =
      Ensures-bind (read_uint8-Ensures bs) λ (c, j) (rest, e, k). rw e (
        Ensures-bind (field_type_of-Ensures c) λ t u.
          Ensures-weaken (read_typed-Ensures f t rest (omega arith))
            λ (v, j') (r, e', k'). (r, e', omega arith))

  read_typed-Ensures :
      (f : ℕ) (t : FieldType) (bs : List ℕ)
      → length bs + 2 ≤ f
      → Ensures (λ (v, j). Leaves 0 bs j) (read_typed f t (istream bs))
  read_typed-Ensures zero t bs h = absurd (omega arith)
  read_typed-Ensures (suc f) boolean_type bs h =
      Ensures-bind (read_uint8-Ensures bs) λ (v, j) l. holds (Leaves-le 0 1 bs j (omega arith) l)
  read_typed-Ensures (suc f) int8_type bs h =
      Ensures-bind (read_uint8-Ensures bs) λ (v, j) l. holds (Leaves-le 0 1 bs j (omega arith) l)
  read_typed-Ensures (suc f) int16_type bs h =
      Ensures-bind (read_uint16-Ensures bs) λ (v, j) l. holds (Leaves-le 0 2 bs j (omega arith) l)
  read_typed-Ensures (suc f) int32_type bs h =
      Ensures-bind (read_uint32-Ensures bs) λ (v, j) l. holds (Leaves-le 0 4 bs j (omega arith) l.1)
  read_typed-Ensures (suc f) int64_type bs h =
      Ensures-bind (read_uint64-Ensures bs) λ (v, j) l. holds (Leaves-le 0 8 bs j (omega arith) l)
  read_typed-Ensures (suc f) float_type bs h =
      Ensures-bind (read_uint32-Ensures bs) λ (v, j) l. holds (Leaves-le 0 4 bs j (omega arith) l.1)
  read_typed-Ensures (suc f) double_type bs h =
      Ensures-bind (read_uint64-Ensures bs) λ (v, j) l. holds (Leaves-le 0 8 bs j (omega arith) l)
  read_typed-Ensures (suc f) decimal_type bs h =
      Ensures-bind (read_uint8-Ensures bs) λ (m, j) (rest, e, k). rw e (
        Ensures-bind (read_uint32-Ensures rest)
          λ (v, j') (_, (r, e', k')). holds (r, e', omega arith))
  read_typed-Ensures (suc f) longstring_type bs h =
      Ensures-bind (read_longstring-Ensures bs)
        λ (s, j) l. holds (Leaves-le 0 (4 + length s) bs j (omega arith) l)
  read_typed-Ensures (suc f) fieldarray_type bs h =
      Ensures-bind (read_longstring-Ensures bs) λ (s, j) (rest, e, k).
        Ensures-bind (read_values-Ensures f no_values s (omega arith)) λ a never. absurd never
  read_typed-Ensures (suc f) timestamp_type bs h =
      Ensures-bind (read_uint64-Ensures bs) λ (v, j) l. holds (Leaves-le 0 8 bs j (omega arith) l)
  read_typed-Ensures (suc f) fieldtable_type bs h =
      Ensures-bind (read_table-Ensures f bs (omega arith)) λ (t, j) l. holds l
  read_typed-Ensures (suc f) void_type bs h = holds (bs, refl, omega arith)
  read_typed-Ensures (suc f) bytes_type bs h =
      Ensures-bind (read_uint32-Ensures bs) λ (n, j) (_, (rest, e, k)). rw e (
        Ensures-bind (read_or_throw-Ensures n "Read failed." rest)
          λ (s, j') (_, (r, e', k')). holds (r, e', omega arith))

  -- The eof flag is never set between two values, so the loop ends by an exception only.
  read_values-Ensures :
      (f : ℕ) (a : FieldArray) (bs : List ℕ)
      → length bs + 3 ≤ f
      → Ensures (λ b. ⊥) (read_values f a (istream bs))
  read_values-Ensures zero a bs h = absurd (omega arith)
  read_values-Ensures (suc f) a bs h =
      Ensures-bind (read_field_value-Ensures f bs (omega arith))
        λ (v, j) (rest, e, k). rw e (read_values-Ensures f (push_back a v) rest (omega arith))

  read_table-Ensures :
      (f : ℕ) (bs : List ℕ)
      → length bs + 1 ≤ f
      → Ensures (λ (t, j). Leaves 0 bs j) (read_table f (istream bs))
  read_table-Ensures zero bs h = absurd (omega arith)
  read_table-Ensures (suc f) bs h = Ensures-bind (read_longstring-Ensures bs) λ (s, j) (rest, e, k).
      Ensures-bind (read_entries-Ensures f no_entries s (omega arith))
        λ t u. holds (rest, e, omega arith)

  read_entries-Ensures :
      (f : ℕ) (t : Table) (bs : List ℕ)
      → length bs + 3 ≤ f
      → Ensures (λ u. Unit {0}) (read_entries f t (istream bs))
  read_entries-Ensures zero t bs h = absurd (omega arith)
  read_entries-Ensures (suc f) t [] h = rw (peek_eof-nil, read_entries) (holds tt)
  read_entries-Ensures (suc f) t (b ∷ bs) h = rw peek_eof-cons (
      Ensures-bind (read_table_entry-Ensures f (b ∷ bs) (omega arith))
        λ (x, j) (rest, e, k). rw e (read_entries-Ensures f (insert x t) rest (omega arith)))

  read_table_entry-Ensures :
      (f : ℕ) (bs : List ℕ)
      → length bs + 2 ≤ f
      → Ensures (λ (x, j). Leaves 2 bs j) (read_table_entry f (istream bs))
  read_table_entry-Ensures zero bs h = absurd (omega arith)
  read_table_entry-Ensures (suc f) bs h =
      Ensures-bind (read_shortstring-Ensures bs) λ (s, j) (rest, e, k). rw e (
        Ensures-bind (read_field_value-Ensures f rest (omega arith)) λ (v, j') (r, e', k').
          Ensures-bind (table_entry_of_variant-Ensures s v) λ x u. holds (r, e', omega arith))

-- On every input the reader of tables ends, by a table or an exception: the bytes of the stream and
-- one more are fuel enough. After a table the stream is good, and holds no more than before.
pub read_table_total :
    (f : ℕ) (bs : List ℕ)
    → length bs + 1 ≤ f
    → Ensures (λ (t, j). Leaves 0 bs j) (read_table f (istream bs))
read_table_total f bs h = read_table-Ensures f bs h

-- A field array cannot be read: whatever bytes follow its type octet, the reader throws. The bytes
-- and two more are fuel enough for that.
pub fieldarray_unreadable :
    (f : ℕ) (bs : List ℕ)
    → length bs + 2 ≤ f
    → (e : Exception) × (read_typed f fieldarray_type (istream bs) ≡ err e)
unfolding read_field_value
fieldarray_unreadable zero bs h = absurd (omega arith)
fieldarray_unreadable (suc f) bs h =
    Ensures-never {P = λ p. ⊥}
      (Ensures-bind (read_longstring-Ensures bs) λ (s, j) (rest, e, k).
        Ensures-bind (read_values-Ensures f no_values s (omega arith)) λ a never. absurd never)
      λ p never. never
