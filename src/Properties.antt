-- ===== src/Properties.antt =====
-- The content properties of a class, as codegen.py writes them out, and detail/properties.h and .cpp.
-- Nothing in the repository sends or receives them. The specification is a list of the classes with
-- content properties; the index of a field, its bit in m_field_set, is its place among the fields of
-- the class. A number that was never given has no determinate value in the program, and is 0 here.
pub mod Bytes
pub mod Tables
pub mod RoundTrip
use libamqp_cpp.Base.{
  ℕ, zero, suc, ◌+◌, ◌*◌, ◌/◌, ◌%◌, ◌^◌, ◌>>=◌, Bool, true, false, List, [], ◌∷◌, Option, none,
  some, Result, ok, err, undefined, runtime_error, ◌==◌, leb, if◌then◌else◌, length, take,
}
use libamqp_cpp.Stream.{OStream, IStream, istream}
use libamqp_cpp.Wire.{
  write_uint16, read_uint16, write_uint64, read_uint64, read_shortstring, read_longstring,
}
use libamqp_cpp.Table.{Table, no_entries, entry, wireformat_size, wireformat_size_shortstring, u32}
use libamqp_cpp.StringUtils.{validate_shortstring}
use libamqp_cpp.Frame.{Frame}
use libamqp_cpp.Method.{
  Simple, octet, short, long, longlong, shortstr, longstr, table, timestamp, Member, uint8, uint16,
  uint32, uint64, time, short_text, long_text, fields, write_member, read_member,
}
use libamqp_cpp.Method.Bits.{octet_of}

-- A field: its bit in m_field_set, and its member.
pub record Property : Type 0 where
  pub flag : Bool
  pub value_of : Member

pub record Properties : Type 0 where
  pub class_id : ℕ
  pub weight : ℕ
  pub body_size : ℕ
  pub properties : List Property

pub record PropertiesSpec : Type 0 where
  pub index : ℕ
  pub domains : List Simple

-- A member when the object is made.
abbrev pub new_member : Simple → Member
new_member octet = uint8 0
new_member short = uint16 0
new_member long = uint32 0
new_member longlong = uint64 0
new_member timestamp = time 0
new_member shortstr = short_text []
new_member longstr = long_text []
new_member table = fields no_entries

abbrev pub is_empty : Table → Bool
is_empty no_entries = true
is_empty (entry k v t) = false

-- genPropIsSet; for a table it is get_map().empty().
unfoldable pub property_is_set : Bool → Member → Bool
property_is_set flag (fields t) = is_empty t
property_is_set flag m = flag

abbrev pub is_set : Property → Bool
is_set p = property_is_set p.flag p.value_of

-- genPropSetter; a table has no setter, and is assigned through the reference that its getter
-- gives. genPropClearer.
unfoldable pub set_property : Member → Property → Result Property
set_property (short_text s) p = do
  done ← validate_shortstring s
  ok (record { flag = true; value_of = short_text s })
set_property (fields t) p = ok (record p { value_of = fields t })
set_property m p = ok (record { flag = true; value_of = m })

unfoldable pub clear_property : Property → Property
clear_property p = go p.value_of
  where
    go : Member → Property
    go (uint8 v) = record { flag = false; value_of = uint8 0 }
    go (uint16 v) = record { flag = false; value_of = uint16 0 }
    go (uint32 v) = record { flag = false; value_of = uint32 0 }
    go (uint64 v) = record { flag = false; value_of = uint64 0 }
    go (time v) = record { flag = false; value_of = time 0 }
    go (short_text s) = record { flag = false; value_of = short_text [] }
    go (long_text s) = record { flag = false; value_of = long_text [] }
    go (fields t) = record { flag = p.flag; value_of = fields no_entries }

-- genPropWriteFunction: first the bits of the tables are set, then all bits are written.
unfoldable pub sent_flag : Bool → Member → Bool
unfolding property_is_set
sent_flag flag (fields t) = property_is_set flag (fields t)
sent_flag flag m = flag

abbrev pub sent_flags : List Property → List Bool
sent_flags [] = []
sent_flags (p ∷ rest) = sent_flag p.flag p.value_of ∷ sent_flags rest

-- The object as write leaves it: m_field_set is mutable, and the bits of the tables are set in it.
abbrev pub mark_tables : List Property → List Property
mark_tables [] = []
mark_tables (p ∷ rest) =
    record { flag = sent_flag p.flag p.value_of; value_of = p.value_of } ∷ mark_tables rest

abbrev pub after_write : Properties → Properties
after_write p = record p { properties = mark_tables p.properties }

unfoldable pub write_properties : List Property → OStream → Result OStream
unfolding property_is_set write_member
write_properties [] o = ok o
write_properties (p ∷ rest) o = do
  q ← if is_set p then write_member p.value_of o else ok o
  write_properties rest q

unfoldable pub write : Properties → OStream → Result OStream
unfolding write_properties sent_flag octet_of
write p o = do
  o₁ ← write_uint16 (p.class_id % 2 ^ 16) o
  o₂ ← write_uint16 p.weight o₁
  o₃ ← write_uint64 p.body_size o₂
  o₄ ← write_uint16 (octet_of (sent_flags p.properties) % 2 ^ 16) o₃
  write_properties p.properties o₄

-- genPropReadFunction assigns the members, and calls no setter.
unfoldable pub read_property : Simple → IStream → Result (Member × IStream)
unfolding read_member
read_property shortstr i = do (s, j) ← read_shortstring i; ok (short_text s, j)
read_property longstr i = do (s, j) ← read_longstring i; ok (long_text s, j)
read_property d i = read_member d i

-- `bits` are those of m_field_set from the field on.
unfoldable pub read_properties : ℕ → List Simple → IStream → Result (List Property × IStream)
unfolding read_property
read_properties bits [] i = ok ([], i)
read_properties bits (d ∷ rest) i = do
  (m, j) ← if bits % 2 == 1 then read_property d i else ok (new_member d, i)
  (ps, k) ← read_properties (bits / 2) rest j
  ok (record { flag = bits % 2 == 1; value_of = m } ∷ ps, k)

-- genPropReadTopLevelFunction.
unfoldable pub find_properties : ℕ → List PropertiesSpec → Option (List Simple)
find_properties n [] = none
find_properties n (c ∷ rest) =
    let later = find_properties n rest in if n == c.index then some c.domains else later

unfoldable pub read_fields : ℕ → Option (List Simple) → IStream → Result (Properties × IStream)
unfolding read_properties
read_fields class_id none i = err (runtime_error "Invalid method_id")
read_fields class_id (some ds) i = do
  (weight, j) ← read_uint16 i
  (body_size, k) ← read_uint64 j
  (bits, l) ← read_uint16 k
  (ps, r) ← read_properties bits ds l
  ok (record { class_id = class_id; weight = weight; body_size = body_size; properties = ps }, r)

unfoldable pub read : List PropertiesSpec → IStream → Result (Properties × IStream)
unfolding find_properties read_fields
read spec i = do
  (class_id, j) ← read_uint16 i
  read_fields class_id (find_properties class_id spec) j

-- properties::read of a frame, by adapt_reader.
unfoldable pub read_frame_properties : List PropertiesSpec → Frame → Result Properties
unfolding read
read_frame_properties spec fr =
    if leb fr.buffer.size (length fr.buffer.stored)
    then (do (p, j) ← read spec (istream (take fr.buffer.size fr.buffer.stored)); ok p)
    else undefined

-- properties_cast to the properties of a class.
unfoldable pub properties_cast : ℕ → Properties → Result Properties
properties_cast class_id p =
    if p.class_id == class_id then ok p else err (runtime_error "Failure to cast properties")

-- genPropGetLengthFunction; `sizeof_string` is sizeof(std::string).
unfoldable pub property_size : ℕ → Member → ℕ
property_size sizeof_string (uint8 v) = 1
property_size sizeof_string (uint16 v) = 2
property_size sizeof_string (uint32 v) = 4
property_size sizeof_string (uint64 v) = 8
property_size sizeof_string (time v) = 8
property_size sizeof_string (short_text s) = wireformat_size_shortstring s
property_size sizeof_string (long_text s) = sizeof_string
property_size sizeof_string (fields t) = wireformat_size t

unfoldable pub fields_size : ℕ → ℕ → List Property → ℕ
unfolding property_size property_is_set
fields_size sizeof_string result [] = result
fields_size sizeof_string result (p ∷ rest) =
    let added = if is_set p then property_size sizeof_string p.value_of else 0 in
    fields_size sizeof_string (u32 (result + added)) rest

unfoldable pub properties_serialized_size : ℕ → Properties → ℕ
unfolding fields_size
properties_serialized_size sizeof_string p = fields_size sizeof_string 12 p.properties
