-- ===== src/Printing.antt =====
-- The texts of values: data_stringifier and to_string of table_entry.cpp, to_string of table.cpp and
-- print_string of detail/string_utils.h. A text is the list of its bytes. How a stream prints a
-- float and a double is the standard library's and is a parameter; whole numbers it prints in
-- decimal, or in lower case hexadecimal between std::hex and std::dec, and an int8_t, which is a
-- signed char, as the character that it is.

pub mod Numbers
pub mod Texts
use Prim.Native.Char.{code}
use libamqp_cpp.Base.{
  ℕ, zero, suc, ◌+◌, ◌/◌, ◌%◌, ◌^◌, ◌-◌, Bool, true, false, String, List, [], ◌∷◌, ◌++◌, ltb,
  if◌then◌else◌, length,
}
use libamqp_cpp.Base.Int.{ℤ, pos, negsuc, to_unsigned}
use libamqp_cpp.Table.{
  FieldValue, boolean, int8, int16, int32, int64, float, double, decimal, longstring, fieldarray,
  timestamp, fieldtable, void, bytes, FieldArray, no_values, value, Table, no_entries, entry,
  TableEntry,
}

abbrev pub codes : String → List ℕ
codes String.[] = []
codes (String.◌∷◌ c s) = code c ∷ codes s

abbrev pub digit : ℕ → ℕ
digit d = if ltb d 10 then b'0' + d else b'a' + d - 10

-- The digits of a number to a base, the highest first; it has no more digits than it counts.
unfoldable pub digits : ℕ → ℕ → ℕ → List ℕ
digits base zero n = digit n ∷ []
digits base (suc fuel) n = elim (ltb n base) [
  | true ↦ digit n ∷ []
  | false ↦ digits base fuel (n / base) ++ digit (n % base) ∷ []
]

unfoldable pub print_number : ℕ → List ℕ
unfolding digits
print_number n = digits 10 n n

unfoldable pub print_hex : ℕ → List ℕ
unfolding digits
print_hex n = digits 16 n n

unfoldable pub print_integer : ℤ → List ℕ
unfolding print_number
print_integer (pos n) = print_number n
print_integer (negsuc n) = b'-' ∷ print_number (suc n)

unfoldable pub print_string : List ℕ → List ℕ
unfolding print_number
print_string s = print_number (length s) ++ (codes ":\"" ++ (s ++ codes "\""))

unfoldable pub print_octets : List ℕ → List ℕ
unfolding print_hex
print_octets [] = []
print_octets (b ∷ rest) = print_hex b ++ print_octets rest

abbrev pub count_values : FieldArray → ℕ
count_values no_values = 0
count_values (value v a) = suc (count_values a)

abbrev pub count_entries : Table → ℕ
count_entries no_entries = 0
count_entries (entry k v t) = suc (count_entries t)

module _ (print_float print_double : ℕ → List ℕ) where
  unfoldable mutual
    unfolding print_number print_integer print_octets

    pub value_to_string : FieldValue → List ℕ
    value_to_string (boolean true) = codes "<boolean>: true"
    value_to_string (boolean false) = codes "<boolean>: false"
    value_to_string (int8 z) = codes "<int8>: " ++ (to_unsigned (2 ^ 8) z ∷ [])
    value_to_string (int16 z) = codes "<int16>: " ++ print_integer z
    value_to_string (int32 z) = codes "<int32>: " ++ print_integer z
    value_to_string (int64 z) = codes "<int64>: " ++ print_integer z
    value_to_string (float p) = codes "<float>: " ++ print_float p
    value_to_string (double p) = codes "<double>: " ++ print_double p
    value_to_string (decimal m z) =
        codes "<decimal>: mag: " ++ (print_number m ++ (codes " val: " ++ print_integer z))
    value_to_string (longstring s) =
        codes "<longstring>: len:"
        ++ (print_number (length s) ++ (codes " \"" ++ (s ++ codes "\"")))
    value_to_string (fieldarray a) =
        codes "<fieldarray>: len:"
        ++ (print_number (count_values a) ++ (codes " {" ++ (values_to_string a ++ codes "}")))
    value_to_string (timestamp t) = codes "<timestamp>: " ++ print_number t
    value_to_string (fieldtable t) =
        codes "<fieldtable>: "
        ++ (codes "{ elements: "
            ++ (print_number (count_entries t) ++ (entries_to_string t ++ codes "}")))
    value_to_string void = codes "<void>"
    value_to_string (bytes s) =
        codes "<bytes>: { len: " ++ (print_number (length s) ++ print_octets s)

    pub values_to_string : FieldArray → List ℕ
    values_to_string no_values = []
    values_to_string (value v a) = value_to_string v ++ (codes ", " ++ values_to_string a)

    pub entries_to_string : Table → List ℕ
    entries_to_string no_entries = []
    entries_to_string (entry k v t) =
        codes ", " ++ (k ++ (value_to_string v ++ entries_to_string t))

  -- table_entry::to_string
  unfoldable pub entry_to_string : TableEntry → List ℕ
  unfolding value_to_string
  entry_to_string e = e.key ++ value_to_string e.value_of

  -- table::to_string
  unfoldable pub table_to_string : Table → List ℕ
  unfolding value_to_string
  table_to_string t =
      codes "{ elements: " ++ (print_number (count_entries t) ++ (entries_to_string t ++ codes "}"))
