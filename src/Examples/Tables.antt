-- ===== src/Examples/Tables.antt =====
-- Tables: the entries of testing/table_test.cpp.
use mathlib.Core.List.{Permᴰ}
use libamqp_cpp.Base.{
  ℕ, ◌+◌, ◌%◌, ◌^◌, ◌≡◌, refl, List, [], ◌∷◌, ◌++◌, none, some, ok, err, runtime_error, Exception,
  length, arith, if◌then◌else◌, Ensures,
}
use libamqp_cpp.Base.Int.{pos, negsuc, to_unsigned}
use libamqp_cpp.Byteswap.Laws.{be_bytes}
use libamqp_cpp.Stream.{ostream, istream}
use libamqp_cpp.Wire.Progress.{Leaves}
use libamqp_cpp.Table.{
  FieldValue, int8, double, decimal, longstring, fieldarray_type, Table, no_entries, entry,
  TableEntry, insert, wireformat_size, type_octet, get_type,
}
use libamqp_cpp.Table.Keys.{key_lt}
use libamqp_cpp.Table.Order.{insert_all, insert_all-Perm}
use libamqp_cpp.Table.Map.{IsSorted, lookup, first_of_two, insert_lem}
use libamqp_cpp.TableFormat.{write_table, read_table, read_field_value, read_typed}
use libamqp_cpp.TableFormat.Bytes.{content_bytes, value_bytes, table_bytes, write_table_lem}
use libamqp_cpp.TableFormat.Size.{
  lengths, over, under, over_entries, under_entries, wireformat_size-write_table,
}
use libamqp_cpp.TableFormat.Plain.{IsPlainTable}
use libamqp_cpp.TableFormat.Read.{read_table_total, fieldarray_unreadable}
use libamqp_cpp.TableFormat.RoundTrip.{read-write_table}
use libamqp_cpp.TableFormat.Losses.{double_read_as_zero, oversize_unreadable}

-- { "a": -3 (int8), "key": "hi" }
abbrev sample : Table
sample =
    entry (b'a' ∷ []) (int8 (negsuc 2))
      (entry (b'k' ∷ b'e' ∷ b'y' ∷ []) (longstring (b'h' ∷ b'i' ∷ [])) no_entries)

-- { "a": decimal }
abbrev priced : Table
priced = entry (b'a' ∷ []) (decimal 2 (pos 150)) no_entries

sample_size : wireformat_size sample ≡ 19
unfolding wireformat_size
sample_size = refl

priced_size : wireformat_size priced ≡ 15
unfolding wireformat_size
priced_size = refl

sample_plain : IsPlainTable sample
unfolding content_bytes key_lt be_bytes to_unsigned type_octet get_type
sample_plain = (
  (((refl, tt), (tt, tt))),
  omega arith,
  (omega arith, omega arith, (omega arith, omega arith, tt)),
)

abbrev minus_three : FieldValue
minus_three = int8 (negsuc 2)

read-write_table_example :
    read_table 19 (istream (table_bytes sample ++ 7 ∷ [])) ≡ ok (sample, istream (7 ∷ []))
unfolding table_bytes content_bytes
read-write_table_example = read-write_table 19 sample (7 ∷ []) sample_plain (omega lengths)

wireformat_size-write_table_example :
    (bytes : List ℕ) × (write_table priced (ostream none []) ≡ ok (ostream none bytes))
    × ((wireformat_size priced + under_entries priced) % 2 ^ 32
        ≡ (length bytes + over_entries priced) % 2 ^ 32)
wireformat_size-write_table_example = wireformat_size-write_table priced (omega arith, tt, tt)

read_table_total_example :
    Ensures
      (λ (t, j). Leaves 0 (0 ∷ 0 ∷ 0 ∷ 9 ∷ 1 ∷ []) j)
      (read_table 6 (istream (0 ∷ 0 ∷ 0 ∷ 9 ∷ 1 ∷ [])))
read_table_total_example = read_table_total 6 (0 ∷ 0 ∷ 0 ∷ 9 ∷ 1 ∷ []) (omega arith)

write_table_lem_example :
    write_table sample (ostream none (7 ∷ [])) ≡ ok (ostream none ((7 ∷ []) ++ table_bytes sample))
write_table_lem_example =
    write_table_lem sample none (7 ∷ []) (omega arith, tt, (omega arith, omega arith, tt)) tt

insert_lem_example :
    IsSorted (insert (record { key = b'a' ∷ []; value_of = double 0 }) sample)
    × (lookup (b'a' ∷ []) (insert (record { key = b'a' ∷ []; value_of = double 0 }) sample) ≡ (
        if key_lt (b'a' ∷ []) (b'a' ∷ [])
        then lookup (b'a' ∷ []) sample
        else (if key_lt (b'a' ∷ []) (b'a' ∷ [])
            then lookup (b'a' ∷ []) sample
            else some (first_of_two (lookup (b'a' ∷ []) sample) (double 0)))))
insert_lem_example =
    insert_lem (record { key = b'a' ∷ []; value_of = double 0 }) sample (b'a' ∷ []) sample_plain.0

abbrev product : TableEntry
product = record { key = b'p' ∷ []; value_of = longstring (b'x' ∷ []) }

abbrev version : TableEntry
version = record { key = b'v' ∷ []; value_of = longstring (b'1' ∷ []) }

insert_all-Perm_example :
    insert_all (product ∷ version ∷ []) sample ≡ insert_all (version ∷ product ∷ []) sample
insert_all-Perm_example =
    insert_all-Perm (Permᴰ.swap refl refl) ((grind arith, tt), (tt, tt)) sample

fieldarray_unreadable_example :
    (e : Exception) × (read_typed 7 fieldarray_type (istream (0 ∷ 0 ∷ 0 ∷ 1 ∷ b'V' ∷ [])) ≡ err e)
fieldarray_unreadable_example = fieldarray_unreadable 7 (0 ∷ 0 ∷ 0 ∷ 1 ∷ b'V' ∷ []) (omega arith)

oversize_unreadable_example :
    read_table 1 (istream (table_bytes priced))
    ≡ err (runtime_error "Failure to read longstring data")
unfolding over under table_bytes content_bytes
oversize_unreadable_example = oversize_unreadable priced (omega arith) (omega lengths) 0

-- The double 1.0.
double_read_as_zero_example :
    read_field_value 2 (istream (value_bytes (double 0x3FF0000000000000) ++ []))
    ≡ ok (double 0, istream [])
double_read_as_zero_example =
    double_read_as_zero 0 0x3FF0000000000000 [] (omega arith) (omega arith)
