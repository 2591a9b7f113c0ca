-- ===== src/TableFormat/Size.antt =====
-- wireformat_size against the bytes that are written.
use libamqp_cpp.Base.{
  ℕ, zero, suc, ◌+◌, ◌-◌, ◌*◌, ◌%◌, ◌^◌, ◌<◌, ◌≡◌, refl, List, [], ◌∷◌, ◌++◌, arith, none, ok,
  length, length-append,
}
pub use libamqp_cpp.Wire.Integers.{length-be_bytes}
use libamqp_cpp.Table.{
  FieldValue, decimal, longstring, fieldarray, fieldtable, bytes, FieldArray, no_values, value,
  Table, no_entries, entry, u32, data_size, array_size, entries_size, wireformat_data_size,
  wireformat_size, wireformat_size_shortstring, wireformat_size_longstring,
}
use libamqp_cpp.TableFormat.{write_table}
use libamqp_cpp.Stream.{ostream}
use libamqp_cpp.TableFormat.Bytes.{
  content_bytes, values_bytes, entries_bytes, value_bytes, table_bytes, IsWritableTable,
  write_table_lem,
}

-- How many bytes too many the size counts: 3 for a decimal, whose pair has three bytes of padding,
-- and 4 for a byte array, which is written with no length.
unfoldable mutual
  pub over : FieldValue → ℕ
  over (decimal m z) = 3
  over (bytes s) = 4
  over (fieldarray a) = over_values a
  over (fieldtable t) = over_entries t
  over _ = 0

  pub over_values : FieldArray → ℕ
  over_values no_values = 0
  over_values (value v a) = over v + over_values a

  pub over_entries : Table → ℕ
  over_entries no_entries = 0
  over_entries (entry k v t) = over v + over_entries t

-- How many bytes it leaves out: 4 for a field array, whose length is not counted.
unfoldable mutual
  pub under : FieldValue → ℕ
  under (fieldarray a) = 4 + under_values a
  under (fieldtable t) = under_entries t
  under _ = 0

  pub under_values : FieldArray → ℕ
  under_values no_values = 0
  under_values (value v a) = under v + under_values a

  pub under_entries : Table → ℕ
  under_entries no_entries = 0
  under_entries (entry k v t) = under v + under_entries t

pub length-append_bytes : (xs ys : List ℕ) → length (xs ++ ys) ≡ length xs + length ys
length-append_bytes = length-append

pub ruleset lengths = (arith, length-append_bytes, length-be_bytes)

mutual
  unfolding over under content_bytes data_size wireformat_size_shortstring
      wireformat_size_longstring

  data_size-account :
      (v : FieldValue)
      → (data_size v + under v) % 2 ^ 32 ≡ (length (content_bytes v) + over v) % 2 ^ 32
  data_size-account (longstring s) = omega lengths
  data_size-account (decimal m z) = omega lengths
  data_size-account (bytes s) = omega lengths
  data_size-account (fieldarray a) = omega (lengths, array_size-account 0 a)
  data_size-account (fieldtable t) = omega (lengths, entries_size-account 4 t)
  data_size-account _ = omega lengths

  array_size-account :
      (size : ℕ) (a : FieldArray)
      → (array_size size a + under_values a) % 2 ^ 32
        ≡ (size + length (values_bytes a) + over_values a) % 2 ^ 32
  array_size-account size no_values = omega arith
  array_size-account size (value v a) =
      omega
        (lengths, data_size-account v, array_size-account (u32 (size + u32 (1 + data_size v))) a)

  entries_size-account :
      (size : ℕ) (t : Table)
      → (entries_size size t + under_entries t) % 2 ^ 32
        ≡ (size + length (entries_bytes t) + over_entries t) % 2 ^ 32
  entries_size-account size no_entries = omega arith
  entries_size-account size (entry k v t) = omega (
    lengths,
    data_size-account v,
    entries_size-account (u32 (size + u32 (wireformat_size_shortstring k + u32 (1 + data_size v))))
        t,
  )

pub wireformat_size-account :
    (t : Table)
    → (wireformat_size t + under_entries t) % 2 ^ 32
      ≡ (length (table_bytes t) + over_entries t) % 2 ^ 32
unfolding wireformat_size table_bytes
wireformat_size-account t = omega (lengths, entries_size-account 4 t)

-- A table whose strings fit their length fields is written by write_table to an unbounded stream,
-- and table::wireformat_size is the number of bytes that are sent, as a uint32_t, but for 3 bytes too
-- many for each decimal in the table or in a value of it, 4 too many for each byte array, and 4 too
-- few for each field array.
pub wireformat_size-write_table :
    (t : Table)
    → IsWritableTable t
    → (bytes : List ℕ) × (write_table t (ostream none []) ≡ ok (ostream none bytes))
      × ((wireformat_size t + under_entries t) % 2 ^ 32 ≡ (length bytes + over_entries t) % 2 ^ 32)
wireformat_size-write_table t h =
    (table_bytes t, write_table_lem t none [] h tt, wireformat_size-account t)

-- The account of table_entry::wireformat_data_size.
pub wireformat_data_size-account :
    (v : FieldValue)
    → (wireformat_data_size v + under v) % 2 ^ 32 ≡ (length (value_bytes v) + over v) % 2 ^ 32
unfolding wireformat_data_size value_bytes
wireformat_data_size-account v = omega (lengths, data_size-account v)
