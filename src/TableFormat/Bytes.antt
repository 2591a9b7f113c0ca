-- ===== src/TableFormat/Bytes.antt =====
-- The bytes of a field value, of a vector and of a table, and that the writers send them.
use libamqp_cpp.Base.{
  ℕ, ◌+◌, ◌-◌, ◌^◌, ◌<◌, ◌≡◌, ◌>>=◌, List, [], ◌++◌, append-nil, Option, Result, ok, length,
}
use libamqp_cpp.Base.Int.{to_unsigned}
use libamqp_cpp.Byteswap.Laws.{be_bytes}
use libamqp_cpp.Stream.{OStream, ostream, check_written}
use libamqp_cpp.Stream.Laws.{Room, Writes, Writes-seq, Writes-nil, write_or_throw-Writes}
use libamqp_cpp.Wire.{write_uint8}
use libamqp_cpp.Wire.Integers.{
  write_uint8-Writes, write_uint16-Writes, write_uint32-Writes, write_uint64-Writes,
}
use libamqp_cpp.Wire.Strings.{
  shortstring_bytes, longstring_bytes, write_shortstring-Writes, write_longstring-Writes,
}
use libamqp_cpp.Table.{
  FieldType, type_octet, get_type, FieldValue, boolean, int8, int16, int32, int64, float, double,
  decimal, longstring, fieldarray, timestamp, fieldtable, void, bytes, FieldArray, no_values, value,
  Table, no_entries, entry, TableEntry, u32, array_size, wireformat_size,
}
use libamqp_cpp.TableFormat.{
  write_table_value, write_values, write_entries, write_table, write_table_entry, bool_octet,
}

-- The contents that follow the type octet.
unfoldable mutual
  pub content_bytes : FieldValue → List ℕ
  content_bytes (boolean b) = be_bytes 1 (bool_octet b)
  content_bytes (int8 z) = be_bytes 1 (to_unsigned (2 ^ 8) z)
  content_bytes (int16 z) = be_bytes 2 (to_unsigned (2 ^ 16) z)
  content_bytes (int32 z) = be_bytes 4 (to_unsigned (2 ^ 32) z)
  content_bytes (int64 z) = be_bytes 8 (to_unsigned (2 ^ 64) z)
  content_bytes (float p) = be_bytes 4 p
  content_bytes (double p) = be_bytes 8 p
  content_bytes (decimal m z) = be_bytes 1 m ++ be_bytes 4 (to_unsigned (2 ^ 32) z)
  content_bytes (longstring s) = longstring_bytes s
  content_bytes (fieldarray a) = be_bytes 4 (array_size 0 a) ++ values_bytes a
  content_bytes (timestamp t) = be_bytes 8 t
  content_bytes (fieldtable t) =
      be_bytes 4 (u32 (wireformat_size t + 2 ^ 64 - 4)) ++ entries_bytes t
  content_bytes void = []
  content_bytes (bytes s) = s

  pub values_bytes : FieldArray → List ℕ
  values_bytes no_values = []
  values_bytes (value v a) =
      (be_bytes 1 (type_octet (get_type v)) ++ content_bytes v) ++ values_bytes a

  pub entries_bytes : Table → List ℕ
  entries_bytes no_entries = []
  entries_bytes (entry k v t) =
      shortstring_bytes k
      ++ ((be_bytes 1 (type_octet (get_type v)) ++ content_bytes v) ++ entries_bytes t)

unfoldable pub value_bytes : FieldValue → List ℕ
value_bytes v = be_bytes 1 (type_octet (get_type v)) ++ content_bytes v

unfoldable pub table_bytes : Table → List ℕ
table_bytes t = be_bytes 4 (u32 (wireformat_size t + 2 ^ 64 - 4)) ++ entries_bytes t

-- Keys and long strings whose length fits its field: 8 and 32 bits.
abbrev mutual
  pub IsWritable : FieldValue → Type 0
  IsWritable (longstring s) = length s < 2 ^ 32
  IsWritable (fieldarray a) = AreWritable a
  IsWritable (fieldtable t) = IsWritableTable t
  IsWritable _ = Unit {0}

  pub AreWritable : FieldArray → Type 0
  AreWritable no_values = Unit {0}
  AreWritable (value v a) = IsWritable v × AreWritable a

  pub IsWritableTable : Table → Type 0
  IsWritableTable no_entries = Unit {0}
  IsWritableTable (entry k v t) = (length k < 256) × IsWritable v × IsWritableTable t

check_written-Writes : Writes (check_written "Write Failure") []
unfolding Writes check_written
check_written-Writes l sent r = rw append-nil

then_checked :
    (w : OStream → Result OStream) (bs : List ℕ)
    → Writes w bs
    → Writes (λ o. w o >>= λ p. check_written "Write Failure" p) bs
then_checked w bs h = rw append-nil at (Writes-seq _ _ _ _ h check_written-Writes)

-- The type octet, and what a writer of the contents does.
after_octet :
    (t : FieldType) (w : OStream → Result OStream) (bs : List ℕ)
    → Writes w bs
    → Writes (λ o. write_uint8 (type_octet t) o >>= w) (be_bytes 1 (type_octet t) ++ bs)
after_octet t w bs = Writes-seq _ w _ bs (write_uint8-Writes (type_octet t))

mutual
  unfolding write_table_value content_bytes get_type

  write_table_value-octet :
      (v : FieldValue)
      → IsWritable v
      → Writes (write_table_value v) (be_bytes 1 (type_octet (get_type v)) ++ content_bytes v)
  write_table_value-octet (boolean b) h = after_octet _ _ _ (write_uint8-Writes (bool_octet b))
  write_table_value-octet (int8 z) h = after_octet _ _ _ (write_uint8-Writes _)
  write_table_value-octet (int16 z) h = after_octet _ _ _ (write_uint16-Writes _)
  write_table_value-octet (int32 z) h = after_octet _ _ _ (write_uint32-Writes _)
  write_table_value-octet (int64 z) h = after_octet _ _ _ (write_uint64-Writes _)
  write_table_value-octet (float p) h = after_octet _ _ _ (write_uint32-Writes p)
  write_table_value-octet (double p) h = after_octet _ _ _ (write_uint64-Writes p)
  write_table_value-octet (decimal m z) h =
      after_octet _ _ _ (Writes-seq _ _ _ _ (write_uint8-Writes m) (write_uint32-Writes _))
  write_table_value-octet (longstring s) h = after_octet _ _ _ (write_longstring-Writes s h)
  write_table_value-octet (fieldarray a) h =
      after_octet _ _ _
        (Writes-seq _ _ _ _ (write_uint32-Writes (array_size 0 a)) (write_values-Writes a h))
  write_table_value-octet (timestamp t) h = after_octet _ _ _ (write_uint64-Writes t)
  write_table_value-octet (fieldtable t) h = after_octet _ _ _ (
      Writes-seq _ _ _ _ (write_uint32-Writes (u32 (wireformat_size t + 2 ^ 64 - 4)))
        (then_checked _ _ (write_entries-Writes t h)))
  write_table_value-octet void h = rw append-nil (write_uint8-Writes _)
  write_table_value-octet (bytes s) h = after_octet _ _ _ (write_or_throw-Writes s _)

  write_values-Writes : (a : FieldArray) → AreWritable a → Writes (write_values a) (values_bytes a)
  write_values-Writes no_values h = Writes-nil
  write_values-Writes (value v a) h =
      Writes-seq _ _ _ _ (write_table_value-octet v h.0) (write_values-Writes a h.1)

  write_entries-Writes :
      (t : Table) → IsWritableTable t → Writes (write_entries t) (entries_bytes t)
  write_entries-Writes no_entries h = Writes-nil
  write_entries-Writes (entry k v t) h =
      Writes-seq _ _ _ _ (write_shortstring-Writes k h.0)
        (Writes-seq _ _ _ _ (write_table_value-octet v h.1) (write_entries-Writes t h.2))

-- A writer of a field value sends `value_bytes`, into any stream with room for them.
pub write_table_value-Writes :
    (v : FieldValue) → IsWritable v → Writes (write_table_value v) (value_bytes v)
unfolding value_bytes
write_table_value-Writes v h = write_table_value-octet v h

pub write_table-Writes : (t : Table) → IsWritableTable t → Writes (write_table t) (table_bytes t)
unfolding write_table table_bytes
write_table-Writes t h =
    Writes-seq _ _ _ _ (write_uint32-Writes (u32 (wireformat_size t + 2 ^ 64 - 4)))
      (then_checked _ _ (write_entries-Writes t h))

-- For a table whose strings fit their length fields, write_table appends the bytes of the table to
-- what the stream holds, if there is room for all of them, and leaves the stream good.
pub write_table_lem :
    (t : Table) (l : Option ℕ) (sent : List ℕ)
    → IsWritableTable t
    → Room l (length sent + length (table_bytes t))
    → write_table t (ostream l sent) ≡ ok (ostream l (sent ++ table_bytes t))
unfolding Writes
write_table_lem t l sent h r = write_table-Writes t h l sent r

pub write_table_entry-Writes :
    (e : TableEntry)
    → length e.key < 256
    → IsWritable e.value_of
    → Writes (write_table_entry e) (shortstring_bytes e.key ++ value_bytes e.value_of)
unfolding write_table_entry
write_table_entry-Writes e k h =
    Writes-seq _ _ _ _ (write_shortstring-Writes e.key k) (write_table_value-Writes e.value_of h)
