-- ===== src/TableFormat/RoundTrip.antt =====
-- What is written is read back.
use libamqp_cpp.Base.{
  ℕ, zero, suc, ◌+◌, ◌^◌, ◌<◌, ◌≤◌, ◌≡◌, refl, Bool, true, false, List, ◌++◌, append_assoc, Result,
  ok, arith, length, le→ltb, ap, ◌==◌, if◌then◌else◌,
}
use libamqp_cpp.Base.Int.{to_unsigned, to_unsigned-lt, to_signed-to_unsigned}
use libamqp_cpp.Byteswap.Laws.{be_bytes}
use libamqp_cpp.Stream.{IStream, istream}
use libamqp_cpp.Stream.Laws.{peek_eof-nil, peek_eof-nonempty}
use libamqp_cpp.Wire.Integers.{read_uint8-be, read_uint16-be, read_uint32-be, read_uint64-be}
use libamqp_cpp.Wire.Strings.{
  shortstring_bytes, longstring_bytes, read_shortstring-append, read_longstring-append,
}
use libamqp_cpp.Table.{
  FieldType, type_octet, get_type, FieldValue, boolean, int8, int16, int32, int64, float, double,
  decimal, longstring, fieldarray, timestamp, fieldtable, void, bytes, Table, no_entries, entry,
  table_entry_of_variant, insert, boolean_type,
}
use libamqp_cpp.Table.Map.{IsSorted}
use libamqp_cpp.Table.Join.{join, join-nil, join-entry, insert_at-last}
use libamqp_cpp.TableFormat.{
  read_field_value, read_typed, read_table, read_entries, read_table_entry, field_type_of,
  bool_octet,
}
use libamqp_cpp.TableFormat.Bytes.{content_bytes, entries_bytes, value_bytes, table_bytes}
use libamqp_cpp.TableFormat.Size.{lengths}
use libamqp_cpp.TableFormat.Plain.{IsPlain, HasPlainEntries, IsPlainTable, table_bytes-longstring}

pub field_type_of-octet : (t : FieldType) → field_type_of (type_octet t) ≡ ok t
unfolding field_type_of type_octet
field_type_of-octet boolean_type = refl
field_type_of-octet _ = refl

pub type_octet-lt : (t : FieldType) → type_octet t < 2 ^ 8
unfolding type_octet
type_octet-lt boolean_type = omega arith
type_octet-lt _ = omega arith

bool_octet-lt : (b : Bool) → bool_octet b < 2 ^ 8
bool_octet-lt true = omega arith
bool_octet-lt false = omega arith

table_entry_lem :
    (k : List ℕ) (v : FieldValue)
    → length k ≤ 128
    → table_entry_of_variant k v ≡ ok (record { key = k; value_of = v })
unfolding table_entry_of_variant
table_entry_lem k v h = rw (le→ltb 128 (length k) h)

insert-last :
    (u : Table) (k : List ℕ) (v : FieldValue) (t : Table)
    → IsSorted (join u (entry k v t))
    → insert (record { key = k; value_of = v }) u ≡ join u (entry k v no_entries)
unfolding insert
insert-last u k v t s = insert_at-last u k v t s

content_table :
    (t : Table) → IsPlainTable t → content_bytes (fieldtable t) ≡ longstring_bytes (entries_bytes t)
unfolding content_bytes table_bytes
content_table t h = table_bytes-longstring t h

entry_bytes :
    (k : List ℕ) (v : FieldValue) (t : Table)
    → entries_bytes (entry k v t) ≡ shortstring_bytes k ++ (value_bytes v ++ entries_bytes t)
unfolding content_bytes value_bytes
entry_bytes k v t = refl

value_bytes_lem :
    (v : FieldValue) → value_bytes v ≡ be_bytes 1 (type_octet (get_type v)) ++ content_bytes v
unfolding value_bytes
value_bytes_lem v = refl

content_fits :
    (t : Table)
    → IsPlainTable t
    → (f : ℕ) → length (content_bytes (fieldtable t)) + 1 ≤ suc f
    → length (longstring_bytes (entries_bytes t)) ≤ f
content_fits t p f h = omega (arith, ap length (content_table t p))

boolean_back :
    (b : Bool) (rest : List ℕ)
    → ◌≡◌ {A = Result (FieldValue × IStream)}
        (ok (boolean (if bool_octet b == 0 then false else true), istream rest))
        (ok (boolean b, istream rest))
boolean_back true rest = refl
boolean_back false rest = refl

-- The fuel is one more than the bytes that are read, or little more.
mutual
  unfolding read_field_value content_bytes get_type

  read_field_value-bytes :
      (f : ℕ) (v : FieldValue) (rest : List ℕ)
      → IsPlain v
      → length (value_bytes v) + 1 ≤ f
      → read_field_value f (istream (value_bytes v ++ rest)) ≡ ok (v, istream rest)
  read_field_value-bytes zero v rest p h = absurd (omega arith)
  read_field_value-bytes (suc f) v rest p h =
      let split = value_bytes_lem v in
      rw
        (
          split,
          append_assoc,
          read_uint8-be (type_octet (get_type v)) (content_bytes v ++ rest)
              (type_octet-lt (get_type v)),
          field_type_of-octet (get_type v),
        )
        (read_typed-bytes f v rest p (omega (lengths, ap length split)))

  read_typed-bytes :
      (f : ℕ) (v : FieldValue) (rest : List ℕ)
      → IsPlain v
      → length (content_bytes v) + 1 ≤ f
      → read_typed f (get_type v) (istream (content_bytes v ++ rest)) ≡ ok (v, istream rest)
  read_typed-bytes zero v rest p h = absurd (omega arith)
  read_typed-bytes (suc f) (boolean b) rest p h =
      rw (read_uint8-be (bool_octet b) rest (bool_octet-lt b)) (boolean_back b rest)
  read_typed-bytes (suc f) (int8 z) rest p h = rw (
    read_uint8-be (to_unsigned (2 ^ 8) z) rest (to_unsigned-lt (2 ^ 8) z (omega arith)),
    to_signed-to_unsigned (2 ^ 7) z p,
  )
  read_typed-bytes (suc f) (int16 z) rest p h = rw (
    read_uint16-be (to_unsigned (2 ^ 16) z) rest (to_unsigned-lt (2 ^ 16) z (omega arith)),
    to_signed-to_unsigned (2 ^ 15) z p,
  )
  read_typed-bytes (suc f) (int32 z) rest p h = rw (
    read_uint32-be (to_unsigned (2 ^ 32) z) rest (to_unsigned-lt (2 ^ 32) z (omega arith)),
    to_signed-to_unsigned (2 ^ 31) z p,
  )
  read_typed-bytes (suc f) (int64 z) rest p h = rw (
    read_uint64-be (to_unsigned (2 ^ 64) z) rest (to_unsigned-lt (2 ^ 64) z (omega arith)),
    to_signed-to_unsigned (2 ^ 63) z p,
  )
  read_typed-bytes (suc f) (float x) rest p h = rw (read_uint32-be x rest p)
  read_typed-bytes (suc f) (double x) rest p h = absurd p
  read_typed-bytes (suc f) (decimal m z) rest p h = absurd p
  read_typed-bytes (suc f) (longstring s) rest p h = rw (read_longstring-append s rest p)
  read_typed-bytes (suc f) (fieldarray a) rest p h = absurd p
  read_typed-bytes (suc f) (timestamp t) rest p h = rw (read_uint64-be t rest p)
  read_typed-bytes (suc f) (fieldtable t) rest p h =
      rw (content_table t p, read_table-bytes f t rest p (content_fits t p f h))
  read_typed-bytes (suc f) void rest p h = refl
  read_typed-bytes (suc f) (bytes s) rest p h = absurd p

  read_table-bytes :
      (f : ℕ) (t : Table) (rest : List ℕ)
      → IsPlainTable t
      → length (longstring_bytes (entries_bytes t)) ≤ f
      → read_table f (istream (longstring_bytes (entries_bytes t) ++ rest)) ≡ ok (t, istream rest)
  read_table-bytes zero t rest p h = absurd (omega lengths)
  read_table-bytes (suc f) t rest p h = rw (
    read_longstring-append (entries_bytes t) rest (omega (arith, p.1)),
    read_entries-bytes f no_entries t p.0 p.2 (omega lengths),
  )

  read_entries-bytes :
      (f : ℕ) (u t : Table)
      → IsSorted (join u t)
      → HasPlainEntries t
      → length (entries_bytes t) + 2 ≤ f
      → read_entries f u (istream (entries_bytes t)) ≡ ok (join u t)
  read_entries-bytes zero u t s p h = absurd (omega arith)
  read_entries-bytes (suc f) u no_entries s p h = rw (peek_eof-nil, read_entries, join-nil)
  read_entries-bytes (suc f) u (entry k v t) s p h =
      let bytes_of_entry = entry_bytes k v t in
      rw
        (
          bytes_of_entry,
          peek_eof-nonempty (shortstring_bytes k ++ (value_bytes v ++ entries_bytes t))
              (omega lengths),
          read_table_entry-bytes f k v (entries_bytes t) p.0 p.1
              (omega (lengths, ap length bytes_of_entry)),
          insert-last u k v t s,
          read_entries-bytes f (join u (entry k v no_entries)) t (rw join-entry s) p.2
              (omega (lengths, ap length bytes_of_entry)),
        )
        (ap ok (join-entry u k v t))

  read_table_entry-bytes :
      (f : ℕ) (k : List ℕ) (v : FieldValue) (rest : List ℕ)
      → length k ≤ 128
      → IsPlain v
      → length (shortstring_bytes k ++ value_bytes v) + 1 ≤ f
      → read_table_entry f (istream (shortstring_bytes k ++ (value_bytes v ++ rest)))
        ≡ ok (record { key = k; value_of = v }, istream rest)
  read_table_entry-bytes zero k v rest kh p h = absurd (omega arith)
  read_table_entry-bytes (suc f) k v rest kh p h = rw (
    read_shortstring-append k (value_bytes v ++ rest) (omega arith),
    read_field_value-bytes f v rest p (omega lengths),
    table_entry_lem k v kh,
  )

-- A plain value that was written is read back, whatever bytes follow it, and these are left: a
-- number in the range of its type, a string that fits its length field, or a table of such values,
-- but no double, decimal, field array or byte array. Fuel of one more than the value's bytes is
-- enough.
read-write_value :
    (f : ℕ) (v : FieldValue) (rest : List ℕ)
    → IsPlain v
    → length (value_bytes v) + 1 ≤ f
    → read_field_value f (istream (value_bytes v ++ rest)) ≡ ok (v, istream rest)
read-write_value f v rest p h = read_field_value-bytes f v rest p h

-- A plain table that was written is read back with the same entries under the same keys, whatever
-- bytes follow it, and these are left. Its keys are increasing and of 128 bytes at most, its values
-- are plain, in tables within it too, and its bytes fit the length field. Fuel of as many steps as
-- it has bytes is enough.
pub read-write_table :
    (f : ℕ) (t : Table) (rest : List ℕ)
    → IsPlainTable t
    → length (table_bytes t) ≤ f
    → read_table f (istream (table_bytes t ++ rest)) ≡ ok (t, istream rest)
read-write_table f t rest p h =
    let same = table_bytes-longstring t p in
    rw same (read_table-bytes f t rest p (omega (arith, ap length same)))
