-- ===== src/Examples/Format.antt =====
-- Integers, strings, bits and SASL: the inputs of testing/wireformat_test.cpp and
-- testing/byteswap_test.cpp, and the theorems at such inputs.
use libamqp_cpp.Base.Int.{negsuc}
use libamqp_cpp.Table.{bytes, entry, int16, no_entries}
use libamqp_cpp.Printing.{
  codes, value_to_string, table_to_string, print_number, print_octets, print_integer,
}
use libamqp_cpp.Printing.Texts.{print_string-unambiguous, bytes_alike}
use libamqp_cpp.Base.{ℕ, ◌≡◌, ◌≢◌, refl, List, [], ◌∷◌, err, runtime_error, arith, ◌+◌, ◌/◌}
use libamqp_cpp.Byteswap.{byteswap32, of_le_bytes}
use libamqp_cpp.Stream.{istream, read_or_throw}
use libamqp_cpp.Wire.{read_uint8, read_shortstring, read_chunks, buffer_length}
use libamqp_cpp.Wire.Chunks.{read_chunks-eq-read}

byteswap32_run : byteswap32 0x41424344 ≡ 0x44434241
unfolding byteswap32
byteswap32_run = refl

read_shortstring_run :
    read_shortstring (istream (4 ∷ 49 ∷ 50 ∷ 51 ∷ []))
    ≡ err (runtime_error "Failure to read short string data")
unfolding read_shortstring read_uint8 read_or_throw of_le_bytes
read_shortstring_run = refl

abbrev greeting : List ℕ
greeting = b'h' ∷ b'i' ∷ []

read_chunks-eq-read_example :
    read_chunks (2 / buffer_length + 2) 2 0 [] (istream greeting)
    ≡ read_or_throw 2 "Failure to read longstring data" (istream greeting)
read_chunks-eq-read_example = read_chunks-eq-read 2 greeting (omega arith)

abbrev quoted : List ℕ
quoted = codes "a\" 2:\"b"

print_string-unambiguous_example : (quoted ≡ quoted) × (codes " " ≡ codes " ")
print_string-unambiguous_example =
    print_string-unambiguous quoted quoted (codes " ") (codes " ") refl

printed_bytes :
    value_to_string (λ p. []) (λ p. []) (bytes (18 ∷ 3 ∷ [])) ≡ codes "<bytes>: { len: 2123"
unfolding value_to_string print_number print_octets
printed_bytes = refl

printed_table :
    table_to_string (λ p. []) (λ p. []) (entry (codes "a") (int16 (negsuc 41)) no_entries)
    ≡ codes "{ elements: 1, a<int16>: -42}"
unfolding table_to_string print_integer
printed_table = refl

bytes_alike_example :
    (◌≢◌ {A = List ℕ} (18 ∷ 3 ∷ []) (1 ∷ 35 ∷ []))
    × (value_to_string (λ p. []) (λ p. []) (bytes (18 ∷ 3 ∷ []))
        ≡ value_to_string (λ p. []) (λ p. []) (bytes (1 ∷ 35 ∷ [])))
bytes_alike_example =
    bytes_alike (λ p. []) (λ p. []) 1 2 3 (omega arith) (omega arith) (omega arith) (omega arith)
      (omega arith)
