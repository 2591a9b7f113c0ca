-- ===== src/Wire.antt =====
-- detail/wireformat.h and the strings of detail/wireformat.cpp: integers in network order, short
-- strings with one length byte, long strings with four.
-- A number given to write_uintN is a value of the type uintN_t.
pub mod Integers
pub mod Chunks
pub mod Progress
pub mod Strings
use libamqp_cpp.Base.{
  ℕ, zero, suc, ◌+◌, ◌-◌, ◌*◌, ◌/◌, ◌%◌, ◌^◌, ◌>>=◌, List, [], ◌∷◌, ◌++◌, Result, ok, err,
  out_of_fuel, runtime_error, logic_error, ltb, if◌then◌else◌, length,
}
use libamqp_cpp.Byteswap.{le_bytes, of_le_bytes, byteswap16, byteswap32, byteswap64}
use libamqp_cpp.Stream.{OStream, IStream, read_or_throw, write_or_throw}

unfoldable pub write_uint8 : ℕ → OStream → Result OStream
write_uint8 i o = write_or_throw (le_bytes 1 i) "Write failure" o

unfoldable pub read_uint8 : IStream → Result (ℕ × IStream)
read_uint8 i = do (bytes, j) ← read_or_throw 1 "Unable to read uint8" i; ok (of_le_bytes bytes, j)

unfoldable pub write_uint16 : ℕ → OStream → Result OStream
write_uint16 i o = write_or_throw (le_bytes 2 (byteswap16 i)) "Write failure" o

unfoldable pub read_uint16 : IStream → Result (ℕ × IStream)
read_uint16 i = do
  (bytes, j) ← read_or_throw 2 "Unable to read uint16" i
  ok (byteswap16 (of_le_bytes bytes), j)

unfoldable pub write_uint32 : ℕ → OStream → Result OStream
write_uint32 i o = write_or_throw (le_bytes 4 (byteswap32 i)) "Write failure" o

unfoldable pub read_uint32 : IStream → Result (ℕ × IStream)
read_uint32 i = do
  (bytes, j) ← read_or_throw 4 "Unable to read uint32" i
  ok (byteswap32 (of_le_bytes bytes), j)

unfoldable pub write_uint64 : ℕ → OStream → Result OStream
write_uint64 i o = write_or_throw (le_bytes 8 (byteswap64 i)) "Write failure" o

unfoldable pub read_uint64 : IStream → Result (ℕ × IStream)
read_uint64 i = do
  (bytes, j) ← read_or_throw 8 "Unable to read uint64" i
  ok (byteswap64 (of_le_bytes bytes), j)

unfoldable pub write_shortstring : List ℕ → OStream → Result OStream
write_shortstring s o =
    if ltb 255 (length s)
    then err (logic_error "AMQPP: short strings can only be 255 bytes long")
    else (do p ← write_uint8 (length s % 2 ^ 8) o; write_or_throw s "Write failure" p)

-- read_uint8 has thrown on a bad stream already, so the test after it is never met.
unfoldable pub read_shortstring : IStream → Result (List ℕ × IStream)
read_shortstring i = do
  (len, j) ← read_uint8 i
  read_or_throw len "Failure to read short string data" j

unfoldable pub write_longstring : List ℕ → OStream → Result OStream
write_longstring s o =
    if ltb (2 ^ 32 - 1) (length s)
    then err (logic_error "AMQPP: long strings can only be UINT32_MAX bytes long")
    else (do p ← write_uint32 (length s % 2 ^ 32) o; write_or_throw s "Write failure" p)

abbrev pub buffer_length : ℕ
buffer_length = 1024

-- The loop of read_longstring: `s` is what it has read, `read_bytes` how much it has asked for.
-- Its numbers are of type uint32_t. `fuel` bounds its rounds.
unfoldable pub read_chunks : ℕ → ℕ → ℕ → List ℕ → IStream → Result (List ℕ × IStream)
read_chunks zero len read_bytes s i = out_of_fuel
read_chunks (suc fuel) len read_bytes s i =
    let left = (len + 2 ^ 32 - read_bytes) % 2 ^ 32 in
    let to_read = if ltb buffer_length left then buffer_length else left in
    let round = read_or_throw to_read "Failure to read longstring data" i >>= λ (chunk, j).
    read_chunks fuel len ((read_bytes + to_read) % 2 ^ 32) (s ++ chunk) j in
    if ltb read_bytes len then round else ok (s, i)

-- A round reads 1024 bytes but the last, and the test is made once more after it.
unfoldable pub read_longstring : IStream → Result (List ℕ × IStream)
read_longstring i = do (len, j) ← read_uint32 i; read_chunks (len / buffer_length + 2) len 0 [] j
