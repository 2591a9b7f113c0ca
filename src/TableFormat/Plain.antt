-- ===== src/TableFormat/Plain.antt =====
-- The values that the format carries without loss, and their sizes.
use libamqp_cpp.Base.{ℕ, ◌+◌, ◌-◌, ◌^◌, ◌<◌, ◌≤◌, ◌≡◌, refl, arith, length}
use libamqp_cpp.Base.Int.{IsInt}
use libamqp_cpp.Wire.Strings.{longstring_bytes}
use libamqp_cpp.Table.{
  FieldValue, boolean, int8, int16, int32, int64, float, double, decimal, longstring, fieldarray,
  timestamp, fieldtable, void, bytes, Table, no_entries, entry, u32, entries_size, data_size,
  wireformat_size,
}
use libamqp_cpp.Table.Map.{IsSorted}
use libamqp_cpp.TableFormat.Bytes.{entries_bytes, table_bytes, IsWritable, IsWritableTable}
use libamqp_cpp.TableFormat.Size.{
  over, over_entries, under, under_entries, wireformat_size-account, lengths,
}

-- A value in the range of its type, other than a double, a decimal, a field array or a byte array.
-- A table's keys are increasing and of 128 bytes at most, and its bytes fit the length field.
abbrev mutual
  pub IsPlain : FieldValue → Type 0
  IsPlain (boolean b) = Unit {0}
  IsPlain (int8 z) = IsInt (2 ^ 7) z
  IsPlain (int16 z) = IsInt (2 ^ 15) z
  IsPlain (int32 z) = IsInt (2 ^ 31) z
  IsPlain (int64 z) = IsInt (2 ^ 63) z
  IsPlain (float p) = p < 2 ^ 32
  IsPlain (double p) = ⊥
  IsPlain (decimal m z) = ⊥
  IsPlain (longstring s) = length s < 2 ^ 32
  IsPlain (fieldarray a) = ⊥
  IsPlain (timestamp t) = t < 2 ^ 64
  IsPlain (fieldtable t) = IsSorted t × (4 + length (entries_bytes t) < 2 ^ 32) × HasPlainEntries t
  IsPlain void = Unit {0}
  IsPlain (bytes s) = ⊥

  pub HasPlainEntries : Table → Type 0
  HasPlainEntries no_entries = Unit {0}
  HasPlainEntries (entry k v t) = (length k ≤ 128) × IsPlain v × HasPlainEntries t

abbrev pub IsPlainTable : Table → Type 0
IsPlainTable t = IsSorted t × (4 + length (entries_bytes t) < 2 ^ 32) × HasPlainEntries t

mutual
  unfolding over under

  IsPlain-exact : (v : FieldValue) → IsPlain v → (over v ≡ 0) × (under v ≡ 0)
  IsPlain-exact (double p) h = absurd h
  IsPlain-exact (decimal m z) h = absurd h
  IsPlain-exact (fieldarray a) h = absurd h
  IsPlain-exact (bytes s) h = absurd h
  IsPlain-exact (fieldtable t) h = HasPlainEntries-exact t h.2
  IsPlain-exact _ h = (refl, refl)

  HasPlainEntries-exact :
      (t : Table) → HasPlainEntries t → (over_entries t ≡ 0) × (under_entries t ≡ 0)
  HasPlainEntries-exact no_entries h = (refl, refl)
  HasPlainEntries-exact (entry k v t) h =
      omega (arith, IsPlain-exact v h.1, HasPlainEntries-exact t h.2)

pub entries_size-lt : (t : Table) (size : ℕ) → size < 2 ^ 32 → entries_size size t < 2 ^ 32
unfolding data_size
entries_size-lt no_entries size h = h
entries_size-lt (entry k v t) size h = entries_size-lt t _ (omega arith)

-- Of a plain table the size is the number of bytes written, with no wrap.
pub wireformat_size-exact :
    (t : Table) → IsPlainTable t → wireformat_size t ≡ length (table_bytes t)
unfolding wireformat_size table_bytes
wireformat_size-exact t h = omega (
  lengths,
  wireformat_size-account t,
  HasPlainEntries-exact t h.2,
  entries_size-lt t 4 (omega arith),
)

-- So the length that write_table sends is that of the entries.
pub table_bytes-longstring :
    (t : Table) → IsPlainTable t → table_bytes t ≡ longstring_bytes (entries_bytes t)
unfolding table_bytes
table_bytes-longstring t h =
    let size : u32 (wireformat_size t + 2 ^ 64 - 4) ≡ length (entries_bytes t) =
      omega (lengths, wireformat_size-exact t h) in
    rw size

mutual
  IsPlain-IsWritable : (v : FieldValue) → IsPlain v → IsWritable v
  IsPlain-IsWritable (longstring s) h = h
  IsPlain-IsWritable (fieldarray a) h = absurd h
  IsPlain-IsWritable (fieldtable t) h = HasPlainEntries-IsWritable t h.2
  IsPlain-IsWritable _ h = tt

  HasPlainEntries-IsWritable : (t : Table) → HasPlainEntries t → IsWritableTable t
  HasPlainEntries-IsWritable no_entries h = tt
  HasPlainEntries-IsWritable (entry k v t) h =
      (omega arith, IsPlain-IsWritable v h.1, HasPlainEntries-IsWritable t h.2)

pub IsPlain→IsWritable : (v : FieldValue) → IsPlain v → IsWritable v
IsPlain→IsWritable v h = IsPlain-IsWritable v h

pub IsPlainTable→IsWritable : (t : Table) → IsPlainTable t → IsWritableTable t
IsPlainTable→IsWritable t h = HasPlainEntries-IsWritable t h.2
