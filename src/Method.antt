-- ===== src/Method.antt =====
-- codegen.py, detail/methods.h, detail/methods.cpp and detail/frame_reader_adapter.h: the methods'
-- classes, as the generator writes them out for the arguments that the specification lists.
-- The specification is not in the repository; it is a list of classes here, with the domain of each
-- argument as resolveDomain gives it. A run of bit arguments is packed into one unsigned number.
pub mod Bits
pub mod Layout
pub mod Size
pub mod RoundTrip
pub mod Total
pub mod Transfer
pub mod Typed
pub mod Interface
use libamqp_cpp.Base.{
  ℕ, zero, suc, ◌+◌, ◌-◌, ◌*◌, ◌/◌, ◌%◌, ◌^◌, ◌>>=◌, Bool, true, false, List, [], ◌∷◌, ◌++◌, Option,
  none, some, Result, ok, err, undefined, runtime_error, ◌==◌, leb, ltb, if◌then◌else◌, length,
  take,
}
use libamqp_cpp.Stream.{OStream, IStream, istream}
use libamqp_cpp.Wire.{
  write_uint8, read_uint8, write_uint16, read_uint16, write_uint32, read_uint32, write_uint64,
  read_uint64, write_shortstring, read_shortstring, write_longstring, read_longstring,
}
use libamqp_cpp.Table.{Table, wireformat_size, u32}
use libamqp_cpp.TableFormat.{write_table, read_table}
use libamqp_cpp.StringUtils.{validate_shortstring, validate_longstring}
use libamqp_cpp.Bitset.{set_bit, get_bit}
use libamqp_cpp.Frame.{Frame, Serializable}

-- The domains but `bit`.
pub data Simple : Type 0 where
  octet short long longlong shortstr longstr table timestamp : Simple

pub data Domain : Type 0 where
  bit : Domain
  simple : Simple → Domain

-- The members of a method's class, of the types that `types` gives.
pub data Member : Type 0 where
  uint8 uint16 uint32 uint64 time : ℕ → Member
  short_text long_text : List ℕ → Member
  fields : Table → Member

pub data Argument : Type 0 where
  flag : Bool → Argument
  member : Member → Argument

abbrev pub simple_of : Member → Simple
simple_of (uint8 v) = octet
simple_of (uint16 v) = short
simple_of (uint32 v) = long
simple_of (uint64 v) = longlong
simple_of (time v) = timestamp
simple_of (short_text s) = shortstr
simple_of (long_text s) = longstr
simple_of (fields t) = table

abbrev pub domains : List Argument → List Domain
domains [] = []
domains (flag b ∷ rest) = bit ∷ domains rest
domains (member m ∷ rest) = simple (simple_of m) ∷ domains rest

-- How many bits stand at the head; getBitsLength is this and getBitsNumber together, and
-- getBitsNumber of an argument is counted along the list.
unfoldable pub bits_ahead : List Domain → ℕ
bits_ahead [] = 0
bits_ahead (bit ∷ rest) = suc (bits_ahead rest)
bits_ahead (simple d ∷ rest) = 0

-- For more than 64 bits the generator raises an exception, and there is no code.
unfoldable pub get_bitfield_size : ℕ → ℕ
get_bitfield_size len =
    if leb len 8 then 8 else (if leb len 16 then 16 else (if leb len 32 then 32 else 64))

-- detail::wireformat::write_uint%d and read_uint%d, for the size of the bit field.
unfoldable pub write_bits : ℕ → ℕ → OStream → Result OStream
write_bits w bits o =
    if w == 8
    then write_uint8 bits o
    else (if w == 16
        then write_uint16 bits o
        else (if w == 32 then write_uint32 bits o else write_uint64 bits o))

unfoldable pub read_bits : ℕ → IStream → Result (ℕ × IStream)
read_bits w i =
    if w == 8
    then read_uint8 i
    else (if w == 16 then read_uint16 i else (if w == 32 then read_uint32 i else read_uint64 i))

unfoldable pub write_member : Member → OStream → Result OStream
write_member (uint8 v) o = write_uint8 v o
write_member (uint16 v) o = write_uint16 v o
write_member (uint32 v) o = write_uint32 v o
write_member (uint64 v) o = write_uint64 v o
write_member (time v) o = write_uint64 v o
write_member (short_text s) o = write_shortstring s o
write_member (long_text s) o = write_longstring s o
write_member (fields t) o = write_table t o

-- The setter of a string validates it.
unfoldable pub read_member : Simple → IStream → Result (Member × IStream)
read_member octet i = do (v, j) ← read_uint8 i; ok (uint8 v, j)
read_member short i = do (v, j) ← read_uint16 i; ok (uint16 v, j)
read_member long i = do (v, j) ← read_uint32 i; ok (uint32 v, j)
read_member longlong i = do (v, j) ← read_uint64 i; ok (uint64 v, j)
read_member timestamp i = do (v, j) ← read_uint64 i; ok (time v, j)
read_member shortstr i = do
  (s, j) ← read_shortstring i
  done ← validate_shortstring s
  ok (short_text s, j)
read_member longstr i = do
  (s, j) ← read_longstring i
  done ← validate_longstring s
  ok (long_text s, j)
read_member table i = do (t, j) ← read_table (length i.rest + 1) i; ok (fields t, j)

-- genWriteBits and genWriteFunction: `number` is the bit's number in its run, and `bits` the local
-- variable of that name, which starts at 0 in a run.
unfoldable pub write_arguments : ℕ → ℕ → List Argument → OStream → Result OStream
unfolding bits_ahead get_bitfield_size write_bits write_member
write_arguments number bits [] o = ok o
write_arguments number bits (member m ∷ rest) o = do
  p ← write_member m o
  write_arguments 0 0 rest p
write_arguments number bits (flag b ∷ rest) o =
    let len = number + bits_ahead (bit ∷ domains rest) in
    let w = get_bitfield_size len in
    let bits' = set_bit w (if number == 0 then 0 else bits) b number in
    let closed = write_bits w bits' o >>= λ p. write_arguments 0 0 rest p in
    let open_run = write_arguments (suc number) bits' rest o in
    if number == len - 1 then closed else open_run

-- genReadBits and genReadFunction.
unfoldable pub read_arguments : ℕ → ℕ → List Domain → IStream → Result (List Argument × IStream)
unfolding bits_ahead get_bitfield_size read_bits read_member
read_arguments number bits [] i = ok ([], i)
read_arguments number bits (simple d ∷ rest) i = do
  (m, j) ← read_member d i
  (xs, k) ← read_arguments 0 0 rest j
  ok (member m ∷ xs, k)
read_arguments number bits (bit ∷ rest) i =
    let len = number + bits_ahead (bit ∷ rest) in
    let w = get_bitfield_size len in
    do
      (bits', j) ← if number == 0 then read_bits w i else ok (bits, i)
      (xs, k) ← read_arguments (if number == len - 1 then 0 else suc number) bits' rest j
      ok (flag (get_bit bits' number) ∷ xs, k)

-- genGetLengthFunction.
unfoldable pub member_size : Member → ℕ
member_size (uint8 v) = 1
member_size (uint16 v) = 2
member_size (uint32 v) = 4
member_size (uint64 v) = 8
member_size (time v) = 8
member_size (short_text s) = u32 (1 + u32 (length s))
member_size (long_text s) = u32 (4 + u32 (length s))
member_size (fields t) = wireformat_size t

unfoldable pub arguments_size : ℕ → ℕ → List Argument → ℕ
unfolding bits_ahead get_bitfield_size member_size
arguments_size number size [] = size
arguments_size number size (member m ∷ rest) = arguments_size 0 (u32 (size + member_size m)) rest
arguments_size number size (flag b ∷ rest) =
    let len = number + bits_ahead (bit ∷ domains rest) in
    let closed = arguments_size 0 (u32 (size + get_bitfield_size len / 8)) rest in
    let open_run = arguments_size (suc number) size rest in
    if number == len - 1 then closed else open_run

-- A method of the specification, and a class with its methods.
pub record MethodSpec : Type 0 where
  pub index : ℕ
  pub arguments : List Domain

pub record ClassSpec : Type 0 where
  pub index : ℕ
  pub methods : List MethodSpec

-- An object of one of the generated classes.
pub record Method : Type 0 where
  pub class_id : ℕ
  pub method_id : ℕ
  pub arguments : List Argument

unfoldable pub get_serialized_size : Method → ℕ
unfolding arguments_size
get_serialized_size m = arguments_size 0 4 m.arguments

unfoldable pub write : Method → OStream → Result OStream
unfolding write_arguments
write m o = do
  p ← write_uint16 (m.class_id % 2 ^ 16) o
  q ← write_uint16 (m.method_id % 2 ^ 16) p
  write_arguments 0 0 m.arguments q

-- What a frame uses of the object.
abbrev pub serializable : Method → Serializable
serializable m = record { get_serialized_size = get_serialized_size m; write = write m }

-- The two switches of method::read: the labels of one are distinct.
unfoldable pub find_method : ℕ → List MethodSpec → Option (List Domain)
find_method n [] = none
find_method n (m ∷ rest) =
    let later = find_method n rest in if n == m.index then some m.arguments else later

unfoldable pub find_class : ℕ → List ClassSpec → Option (List MethodSpec)
find_class n [] = none
find_class n (c ∷ rest) =
    let later = find_class n rest in if n == c.index then some c.methods else later

-- genReadTopLevelFunction.
unfoldable pub arguments_of : List ClassSpec → ℕ → ℕ → Result (List Domain)
unfolding find_method find_class
arguments_of spec class_id method_id = elim (find_class class_id spec) [
  | none ↦ err (runtime_error "Invalid class_id")
  | some methods ↦ elim (find_method method_id methods) [
    | none ↦ err (runtime_error "Invalid method_id")
    | some ds ↦ ok ds
  ]
]

unfoldable pub read : List ClassSpec → IStream → Result (Method × IStream)
unfolding arguments_of read_arguments
read spec i = do
  (class_id, j) ← read_uint16 i
  (method_id, k) ← read_uint16 j
  ds ← arguments_of spec class_id method_id
  (xs, l) ← read_arguments 0 0 ds k
  ok (record { class_id = class_id; method_id = method_id; arguments = xs }, l)

-- method::read of a frame, by adapt_reader: a stream over the bytes of its buffer.
unfoldable pub read_frame_method : List ClassSpec → Frame → Result Method
unfolding read
read_frame_method spec fr =
    if leb fr.buffer.size (length fr.buffer.stored)
    then (do (m, j) ← read spec (istream (take fr.buffer.size fr.buffer.stored)); ok m)
    else undefined
