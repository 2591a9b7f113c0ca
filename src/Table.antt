-- ===== src/Table.antt =====
-- table.h, table.cpp, table_entry.h, table_entry.cpp and the lengths of detail/string_utils.h:
-- field values, tables and their sizes on the wire.
pub mod Keys
pub mod Join
pub mod Map
pub mod Order
use libamqp_cpp.Base.{
  ℕ, ◌+◌, ◌*◌, ◌%◌, ◌^◌, Bool, true, false, List, [], ◌∷◌, Result, ok, err, runtime_error, ltb,
  if◌then◌else◌, length, Option, some, none, ◌==◌,
}
use libamqp_cpp.Base.Int.{ℤ}
use Keys.{key_lt}

-- enum field_type
pub data FieldType : Type 0 where
  boolean_type int8_type int16_type int32_type int64_type float_type double_type : FieldType
  decimal_type longstring_type fieldarray_type timestamp_type fieldtable_type : FieldType
  void_type bytes_type : FieldType

-- The values of the enumerators, which are the type octets on the wire.
unfoldable pub type_octet : FieldType → ℕ
type_octet boolean_type = b't'
type_octet int8_type = b'b'
type_octet int16_type = b'U'
type_octet int32_type = b'I'
type_octet int64_type = b'L'
type_octet float_type = b'f'
type_octet double_type = b'd'
type_octet decimal_type = b'D'
type_octet longstring_type = b'S'
type_octet fieldarray_type = b'A'
type_octet timestamp_type = b'T'
type_octet fieldtable_type = b'F'
type_octet void_type = b'V'
type_octet bytes_type = b'x'

-- The variant field_value_t. A float and a double are their IEEE 754 bit patterns. An array_t is
-- the vector of its values, and a table the std::map of its entries in the order of their keys.
mutual
  pub data FieldValue : Type 0 where
    boolean : Bool → FieldValue
    int8 int16 int32 int64 : ℤ → FieldValue
    float double : ℕ → FieldValue
    decimal : ℕ → ℤ → FieldValue
    longstring : List ℕ → FieldValue
    fieldarray : FieldArray → FieldValue
    timestamp : ℕ → FieldValue
    fieldtable : Table → FieldValue
    void : FieldValue
    bytes : List ℕ → FieldValue

  pub data FieldArray : Type 0 where
    no_values : FieldArray
    value : FieldValue → FieldArray → FieldArray

  pub data Table : Type 0 where
    no_entries : Table
    entry : List ℕ → FieldValue → Table → Table

pub record TableEntry : Type 0 where
  pub key : List ℕ
  pub value_of : FieldValue

unfoldable pub validate_key_name : List ℕ → Bool
validate_key_name key = if ltb 128 (length key) then false else true

-- The constructors of table_entry that take a value of one of the variant's types.
unfoldable pub table_entry : List ℕ → FieldValue → Result TableEntry
unfolding validate_key_name
table_entry key v =
    if validate_key_name key
    then ok (record { key = key; value_of = v })
    else err (runtime_error "Table entry key name is not valid.")

-- The constructor that takes a field_value_t, which has a message of its own.
unfoldable pub table_entry_of_variant : List ℕ → FieldValue → Result TableEntry
unfolding validate_key_name
table_entry_of_variant key v =
    if validate_key_name key
    then ok (record { key = key; value_of = v })
    else err (runtime_error "Key name is invalid")

-- type_getter
unfoldable pub get_type : FieldValue → FieldType
get_type (boolean b) = boolean_type
get_type (int8 z) = int8_type
get_type (int16 z) = int16_type
get_type (int32 z) = int32_type
get_type (int64 z) = int64_type
get_type (float p) = float_type
get_type (double p) = double_type
get_type (decimal m z) = decimal_type
get_type (longstring s) = longstring_type
get_type (fieldarray a) = fieldarray_type
get_type (timestamp t) = timestamp_type
get_type (fieldtable t) = fieldtable_type
get_type void = void_type
get_type (bytes s) = bytes_type

-- m_table.insert(std::make_pair(key, data)): an entry already there under the key stays.
unfoldable pub insert_at : List ℕ → FieldValue → Table → Table
insert_at k v no_entries = entry k v no_entries
insert_at k v (entry j w t) =
    if key_lt k j
    then entry k v (entry j w t)
    else (if key_lt j k then entry j w (insert_at k v t) else entry j w t)

unfoldable pub insert : TableEntry → Table → Table
unfolding insert_at
insert e t = insert_at e.key e.value_of t

unfoldable pub push_back : FieldArray → FieldValue → FieldArray
push_back no_values v = value v no_values
push_back (value w a) v = value w (push_back a v)

-- uint32_t
abbrev pub u32 : ℕ → ℕ
u32 n = n % 2 ^ 32

unfoldable pub wireformat_size_shortstring : List ℕ → ℕ
wireformat_size_shortstring s = u32 (1 + u32 (length s))

unfoldable pub wireformat_size_longstring : List ℕ → ℕ
wireformat_size_longstring s = u32 (4 + u32 (length s))

-- datatype_size_counter, with table_entry::wireformat_data_size, table::wireformat_size and their
-- loops, `size` what these have added up so far. The generic case is sizeof(T), for decimal_t
-- that of std::pair<uint8_t, int32_t>: 8 with its padding.
unfoldable mutual
  unfolding wireformat_size_shortstring wireformat_size_longstring

  pub data_size : FieldValue → ℕ
  data_size (boolean b) = 1
  data_size (int8 z) = 1
  data_size (int16 z) = 2
  data_size (int32 z) = 4
  data_size (int64 z) = 8
  data_size (float p) = 4
  data_size (double p) = 8
  data_size (decimal m z) = 8
  data_size (longstring s) = wireformat_size_longstring s
  data_size (fieldarray a) = array_size 0 a
  data_size (timestamp t) = 8
  data_size (fieldtable t) = entries_size 4 t
  data_size void = 0
  data_size (bytes s) = u32 (4 + u32 (length s))

  pub array_size : ℕ → FieldArray → ℕ
  array_size size no_values = size
  array_size size (value v a) = array_size (u32 (size + u32 (1 + data_size v))) a

  pub entries_size : ℕ → Table → ℕ
  entries_size size no_entries = size
  entries_size size (entry k v t) =
      entries_size (u32 (size + u32 (wireformat_size_shortstring k + u32 (1 + data_size v)))) t

unfoldable pub wireformat_data_size : FieldValue → ℕ
unfolding data_size
wireformat_data_size v = u32 (1 + data_size v)

unfoldable pub entry_wireformat_size : TableEntry → ℕ
unfolding wireformat_size_shortstring wireformat_data_size
entry_wireformat_size e = u32 (wireformat_size_shortstring e.key + wireformat_data_size e.value_of)

unfoldable pub wireformat_size : Table → ℕ
unfolding data_size
wireformat_size t = entries_size 4 t
