-- ===== src/TableFormat.antt =====
-- The table part of detail/wireformat.cpp: writing and reading field values and tables.
pub mod Bytes
pub mod Losses
pub mod Plain
pub mod Read
pub mod RoundTrip
pub mod Size
use libamqp_cpp.Base.{
  ℕ, zero, suc, ◌+◌, ◌-◌, ◌*◌, ◌/◌, ◌%◌, ◌^◌, ◌>>=◌, Bool, true, false, List, [], ◌∷◌, Option, none,
  some, Result, ok, err, out_of_fuel, runtime_error, leb, ltb, ◌==◌, if◌then◌else◌, not,
}
use libamqp_cpp.Base.Int.{ℤ, to_unsigned, to_signed}
use libamqp_cpp.Stream.{
  OStream, IStream, istream, write_or_throw, check_written, read_or_throw, peek_eof,
}
use libamqp_cpp.Wire.{
  write_uint8, read_uint8, write_uint16, read_uint16, write_uint32, read_uint32, write_uint64,
  read_uint64, write_shortstring, read_shortstring, write_longstring, read_longstring,
}
use libamqp_cpp.Table.{
  FieldType, boolean_type, int8_type, int16_type, int32_type, int64_type, float_type, double_type,
  decimal_type, longstring_type, fieldarray_type, timestamp_type, fieldtable_type, void_type,
  bytes_type, type_octet, FieldValue, boolean, int8, int16, int32, int64, float, double, decimal,
  longstring, fieldarray, timestamp, fieldtable, void, bytes, FieldArray, no_values, value, Table,
  no_entries, entry, TableEntry, table_entry_of_variant, insert, push_back, u32, array_size,
  wireformat_size,
}

-- The bool true is the octet 1.
abbrev pub bool_octet : Bool → ℕ
bool_octet b = if b then 1 else 0

-- table_value_writer, with write_table and its loop. `&v[0]` of an empty byte array is taken as an
-- address that a write of no bytes does not follow, here and in the reader. A signed number goes to
-- write_uintN by the conversion to uintN_t.
unfoldable mutual
  pub write_table_value : FieldValue → OStream → Result OStream
  write_table_value (boolean b) o = do
    p ← write_uint8 (type_octet boolean_type) o
    write_uint8 (bool_octet b) p
  write_table_value (int8 z) o = do
    p ← write_uint8 (type_octet int8_type) o
    write_uint8 (to_unsigned (2 ^ 8) z) p
  write_table_value (int16 z) o = do
    p ← write_uint8 (type_octet int16_type) o
    write_uint16 (to_unsigned (2 ^ 16) z) p
  write_table_value (int32 z) o = do
    p ← write_uint8 (type_octet int32_type) o
    write_uint32 (to_unsigned (2 ^ 32) z) p
  write_table_value (int64 z) o = do
    p ← write_uint8 (type_octet int64_type) o
    write_uint64 (to_unsigned (2 ^ 64) z) p
  write_table_value (float pattern) o = do
    p ← write_uint8 (type_octet float_type) o
    write_uint32 pattern p
  write_table_value (double pattern) o = do
    p ← write_uint8 (type_octet double_type) o
    write_uint64 pattern p
  write_table_value (decimal magnitude z) o = do
    p ← write_uint8 (type_octet decimal_type) o
    q ← write_uint8 magnitude p
    write_uint32 (to_unsigned (2 ^ 32) z) q
  write_table_value (longstring s) o = do
    p ← write_uint8 (type_octet longstring_type) o
    write_longstring s p
  write_table_value (fieldarray a) o = do
    p ← write_uint8 (type_octet fieldarray_type) o
    q ← write_uint32 (array_size 0 a) p
    write_values a q
  write_table_value (timestamp t) o = do
    p ← write_uint8 (type_octet timestamp_type) o
    write_uint64 t p
  write_table_value (fieldtable t) o = do
    p ← write_uint8 (type_octet fieldtable_type) o
    q ← write_uint32 (u32 (wireformat_size t + 2 ^ 64 - 4)) p
    r ← write_entries t q
    check_written "Write Failure" r
  write_table_value void o = write_uint8 (type_octet void_type) o
  write_table_value (bytes s) o = do
    p ← write_uint8 (type_octet bytes_type) o
    write_or_throw s "Write failed." p

  pub write_values : FieldArray → OStream → Result OStream
  write_values no_values o = ok o
  write_values (value v a) o = do p ← write_table_value v o; write_values a p

  pub write_entries : Table → OStream → Result OStream
  write_entries no_entries o = ok o
  write_entries (entry k v t) o = do
    p ← write_shortstring k o
    q ← write_table_value v p
    write_entries t q

-- t.wireformat_size() - sizeof(uint32_t) is of type size_t, and is converted to uint32_t.
unfoldable pub write_table : Table → OStream → Result OStream
unfolding write_table_value
write_table t o = do
  q ← write_uint32 (u32 (wireformat_size t + 2 ^ 64 - 4)) o
  r ← write_entries t q
  check_written "Write Failure" r

unfoldable pub write_table_entry : TableEntry → OStream → Result OStream
write_table_entry e o = do p ← write_shortstring e.key o; write_table_value e.value_of p

-- The cases of the switch on the type octet, and its default.
unfoldable pub field_type_of : ℕ → Result FieldType
field_type_of c =
    if c == b't'
    then ok boolean_type
    else (if c == b'b'
        then ok int8_type
        else (if c == b'U'
            then ok int16_type
            else (if c == b'I'
                then ok int32_type
                else (if c == b'L'
                    then ok int64_type
                    else (if c == b'f'
                        then ok float_type
                        else (if c == b'd'
                            then ok double_type
                            else (if c == b'D'
                                then ok decimal_type
                                else (if c == b'S'
                                    then ok longstring_type
                                    else (if c == b'A'
                                        then ok fieldarray_type
                                        else (if c == b'T'
                                            then ok timestamp_type
                                            else (if c == b'F'
                                                then ok fieldtable_type
                                                else (if c == b'V'
                                                    then ok void_type
                                                    else (if c == b'x'
                                                        then ok bytes_type
                                                        else err (
                                                            runtime_error
                                                            "Invalid field table type"))))))))))))))

-- The leading bit of a subnormal float's fraction, from bit `k` down.
unfoldable pub widen_subnormal : ℕ → ℕ → ℕ
widen_subnormal zero m = 874 * 2 ^ 52
widen_subnormal (suc k) m =
    let lower = widen_subnormal k m in
    if leb (2 ^ suc k) m then (suc k + 874) * 2 ^ 52 + (m - 2 ^ suc k) * 2 ^ (52 - suc k) else lower

-- The conversion of a float to double, on IEEE 754 bit patterns.
unfoldable pub float_to_double : ℕ → ℕ
unfolding widen_subnormal
float_to_double p =
    let sign = p / 2 ^ 31 % 2 in
    let exponent = p / 2 ^ 23 % 2 ^ 8 in
    let fraction = p % 2 ^ 23 in
    sign * 2 ^ 63
    + (if exponent == 255
        then 2047 * 2 ^ 52
          + fraction * 2 ^ 29
          + (if not (fraction == 0) then (if ltb fraction (2 ^ 22) then 2 ^ 51 else 0) else 0)
        else (if exponent == 0
            then (if fraction == 0 then 0 else widen_subnormal 22 fraction)
            else (exponent + 896) * 2 ^ 52 + fraction * 2 ^ 29))

-- read_field_value, read_table, read_table_entry and their loops, on fuel: a nested value lies in
-- fewer bytes than what holds it, so the bytes of the stream and two more bound the calls.
unfoldable mutual
  pub read_field_value : ℕ → IStream → Result (FieldValue × IStream)
  read_field_value zero i = out_of_fuel
  read_field_value (suc f) i = do (c, j) ← read_uint8 i; t ← field_type_of c; read_typed f t j

  pub read_typed : ℕ → FieldType → IStream → Result (FieldValue × IStream)
  read_typed zero t i = out_of_fuel
  read_typed (suc f) boolean_type i = do
    (v, j) ← read_uint8 i
    ok (boolean (if v == 0 then false else true), j)
  read_typed (suc f) int8_type i = do (v, j) ← read_uint8 i; ok (int8 (to_signed (2 ^ 7) v), j)
  read_typed (suc f) int16_type i = do (v, j) ← read_uint16 i; ok (int16 (to_signed (2 ^ 15) v), j)
  read_typed (suc f) int32_type i = do (v, j) ← read_uint32 i; ok (int32 (to_signed (2 ^ 31) v), j)
  read_typed (suc f) int64_type i = do (v, j) ← read_uint64 i; ok (int64 (to_signed (2 ^ 63) v), j)
  read_typed (suc f) float_type i = do (v, j) ← read_uint32 i; ok (float v, j)
  read_typed (suc f) double_type i = do
    (v, j) ← read_uint64 i
    ok (double (float_to_double (v % 2 ^ 32)), j)
  read_typed (suc f) decimal_type i = do
    (m, j) ← read_uint8 i
    (v, k) ← read_uint32 j
    ok (decimal m (to_signed (2 ^ 31) v), k)
  read_typed (suc f) longstring_type i = do (s, j) ← read_longstring i; ok (longstring s, j)
  read_typed (suc f) fieldarray_type i = do
    (s, j) ← read_longstring i
    a ← read_values f no_values (istream s)
    ok (fieldarray a, j)
  read_typed (suc f) timestamp_type i = do (v, j) ← read_uint64 i; ok (timestamp v, j)
  read_typed (suc f) fieldtable_type i = do (t, j) ← read_table f i; ok (fieldtable t, j)
  read_typed (suc f) void_type i = ok (void, i)
  read_typed (suc f) bytes_type i = do
    (size, j) ← read_uint32 i
    (s, k) ← read_or_throw size "Read failed." j
    ok (bytes s, k)

  -- while (!is.eof()) val.push_back(read_field_value(is));
  pub read_values : ℕ → FieldArray → IStream → Result FieldArray
  read_values zero a i = out_of_fuel
  read_values (suc f) a i =
      let more = read_field_value f i >>= λ (v, j). read_values f (push_back a v) j in
      if i.eof then ok a else more

  pub read_table : ℕ → IStream → Result (Table × IStream)
  read_table zero i = out_of_fuel
  read_table (suc f) i = do
    (s, j) ← read_longstring i
    t ← read_entries f no_entries (istream s)
    ok (t, j)

  -- while (is.peek() != eof) t.insert(read_table_entry(is));
  pub read_entries : ℕ → Table → IStream → Result Table
  read_entries zero t i = out_of_fuel
  read_entries (suc f) t i =
      let (ended, j) = peek_eof i in
      let more = read_table_entry f j >>= λ (e, k). read_entries f (insert e t) k in
      if ended then ok t else more

  pub read_table_entry : ℕ → IStream → Result (TableEntry × IStream)
  read_table_entry zero i = out_of_fuel
  read_table_entry (suc f) i = do
    (key, j) ← read_shortstring i
    (v, k) ← read_field_value f j
    e ← table_entry_of_variant key v
    ok (e, k)
