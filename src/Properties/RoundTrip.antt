-- ===== src/Properties/RoundTrip.antt =====
-- Content properties that were written are read back.
use native.Mathlib.Nat.{pow-suc}
use libamqp_cpp.Base.{
  ℕ, zero, suc, ◌%◌, ◌^◌, ◌<◌, ◌≤◌, ◌≡◌, refl, sym, ap, Bool, true, false, List, [], ◌∷◌, ◌++◌,
  append_assoc, some, none, ok, if◌then◌else◌, arith, length,
}
use libamqp_cpp.Stream.{istream, ostream}
use libamqp_cpp.Stream.Laws.{Writes}
use libamqp_cpp.Wire.Integers.{read_uint16-be, read_uint64-be}
use libamqp_cpp.Wire.Strings.{read_shortstring-append}
use libamqp_cpp.StringUtils.Laws.{validate_shortstring-lt}
use libamqp_cpp.Method.{
  Simple, Member, uint8, uint16, uint32, uint64, time, short_text, long_text, fields, simple_of,
}
use libamqp_cpp.Method.Bits.{octet_of, octet_of-parity, octet_of-half}
use libamqp_cpp.Method.Layout.{member_bytes}
use libamqp_cpp.Method.RoundTrip.{read_member-bytes}
use libamqp_cpp.Properties.{
  Property, Properties, PropertiesSpec, property_is_set, sent_flag, sent_flags, mark_tables,
  after_write, is_empty, write, new_member, find_properties, read, read_fields, read_properties,
  read_property,
}
use libamqp_cpp.Properties.Bytes.{
  IsPlainProperty, ArePlain, property_bytes, fields_bytes, properties_bytes, write-Writes,
}

-- A field that the format carries, with its bit: a table has no entries, and any other member is as
-- it was made where it is not set.
abbrev pub IsCarried : Bool → Member → Type 0
IsCarried flag (fields t) = is_empty t ≡ true
IsCarried flag m = flag ≡ false → m ≡ new_member (simple_of m)

abbrev pub AreCarried : List Property → Type 0
AreCarried [] = Unit {0}
AreCarried (p ∷ rest) = IsCarried p.flag p.value_of × AreCarried rest

abbrev pub domains_of : List Property → List Simple
domains_of [] = []
domains_of (p ∷ rest) = simple_of p.value_of ∷ domains_of rest

length-sent_flags : (ps : List Property) → length (sent_flags ps) ≡ length ps
length-sent_flags [] = refl
length-sent_flags (p ∷ rest) = ap suc (length-sent_flags rest)

-- The bit that is sent tells whether the field is.
sent_flag-property_is_set : (flag : Bool) (m : Member) → property_is_set flag m ≡ sent_flag flag m
unfolding sent_flag property_is_set
sent_flag-property_is_set flag (uint8 v) = refl
sent_flag-property_is_set flag (uint16 v) = refl
sent_flag-property_is_set flag (uint32 v) = refl
sent_flag-property_is_set flag (uint64 v) = refl
sent_flag-property_is_set flag (time v) = refl
sent_flag-property_is_set flag (short_text s) = refl
sent_flag-property_is_set flag (long_text s) = refl
sent_flag-property_is_set flag (fields t) = refl

-- A field that is not sent is as it was made.
unsent :
    (flag : Bool) (m : Member)
    → IsCarried flag m
    → sent_flag flag m ≡ false
    → m ≡ new_member (simple_of m)
unfolding sent_flag property_is_set
unsent flag (uint8 v) h e = h e
unsent flag (uint16 v) h e = h e
unsent flag (uint32 v) h e = h e
unsent flag (uint64 v) h e = h e
unsent flag (time v) h e = h e
unsent flag (short_text s) h e = h e
unsent flag (long_text s) h e = h e
unsent flag (fields t) h e = cc

octet_of-lt : (bs : List Bool) (n : ℕ) → length bs ≤ n → octet_of bs < 2 ^ n
unfolding octet_of
octet_of-lt [] zero h = omega arith
octet_of-lt [] (suc n) h = omega (arith, octet_of-lt [] n (omega arith), pow-suc 2 n)
octet_of-lt (b ∷ bs) zero h = absurd (omega arith)
octet_of-lt (true ∷ bs) (suc n) h = omega (arith, octet_of-lt bs n (omega arith), pow-suc 2 n)
octet_of-lt (false ∷ bs) (suc n) h = omega (arith, octet_of-lt bs n (omega arith), pow-suc 2 n)

-- A member is read back as it was written, though it is read by no setter.
read_property-bytes :
    (m : Member) (rest : List ℕ)
    → IsPlainProperty m
    → read_property (simple_of m) (istream (member_bytes m ++ rest)) ≡ ok (m, istream rest)
unfolding read_property member_bytes
read_property-bytes (uint8 v) rest h = read_member-bytes (uint8 v) rest h
read_property-bytes (uint16 v) rest h = read_member-bytes (uint16 v) rest h
read_property-bytes (uint32 v) rest h = read_member-bytes (uint32 v) rest h
read_property-bytes (uint64 v) rest h = read_member-bytes (uint64 v) rest h
read_property-bytes (time v) rest h = read_member-bytes (time v) rest h
read_property-bytes (short_text s) rest h =
    rw (read_shortstring-append s rest (validate_shortstring-lt s h))
read_property-bytes (long_text s) rest h = absurd h
read_property-bytes (fields t) rest h = read_member-bytes (fields t) rest h

read_set :
    (flag : Bool) (m : Member) (rest : List ℕ)
    → IsPlainProperty m
    → (flag ≡ false → m ≡ new_member (simple_of m))
    → (if flag
        then read_property (simple_of m) (istream (property_bytes flag m ++ rest))
        else ok (new_member (simple_of m), istream (property_bytes flag m ++ rest)))
      ≡ ok (m, istream rest)
read_set true m rest h k = read_property-bytes m rest h
read_set false m rest h k = let new = sym (k refl) in cc

read_properties-bytes :
    (ps : List Property) (rest : List ℕ)
    → ArePlain ps
    → AreCarried ps
    → read_properties (octet_of (sent_flags ps)) (domains_of ps) (istream (fields_bytes ps ++ rest))
      ≡ ok (mark_tables ps, istream rest)
unfolding read_properties fields_bytes
read_properties-bytes [] rest h c = refl
read_properties-bytes (p ∷ ps) rest h (c, cs) =
    let sent = sent_flag p.flag p.value_of in
    rw (
      octet_of-parity sent (sent_flags ps),
      octet_of-half sent (sent_flags ps),
      sent_flag-property_is_set p.flag p.value_of,
      append_assoc,
      read_set sent p.value_of (fields_bytes ps ++ rest) h.0 (unsent p.flag p.value_of c),
      read_properties-bytes ps rest h.1 cs,
    )

read-bytes :
    (spec : List PropertiesSpec) (p : Properties) (rest : List ℕ)
    → p.class_id < 2 ^ 16
    → p.weight < 2 ^ 16
    → p.body_size < 2 ^ 64
    → find_properties p.class_id spec ≡ some (domains_of p.properties)
    → length p.properties ≤ 16
    → ArePlain p.properties
    → AreCarried p.properties
    → read spec (istream (properties_bytes p ++ rest)) ≡ ok (after_write p, istream rest)
unfolding read read_fields properties_bytes
read-bytes spec p rest c w b known few plain carried =
    let flags_lt =
      octet_of-lt (sent_flags p.properties) 16 (omega (arith, length-sent_flags p.properties)) in
    let whole : octet_of (sent_flags p.properties) % 2 ^ 16 ≡ octet_of (sent_flags p.properties) =
      omega (arith, flags_lt) in
    rw (
      append_assoc,
      append_assoc,
      append_assoc,
      append_assoc,
      read_uint16-be p.class_id _ c,
      known,
      read_uint16-be p.weight _ w,
      read_uint64-be p.body_size _ b,
      whole,
      read_uint16-be (octet_of (sent_flags p.properties)) _ flags_lt,
      read_properties-bytes p.properties rest plain carried,
    )

-- Content properties of a class of the specification, of 16 fields at most, whose class, weight and
-- body size are in range, whose values, none of them a long string, the format carries, whose tables
-- have no entries, and whose other fields, where they are not set, are as they were made: they are
-- written to an unbounded stream as bytes, from which, whatever follows these, they are read back as
-- write leaves them, with the bits of the tables set, and what follows is left.
pub read-write_properties :
    (spec : List PropertiesSpec) (p : Properties) (rest : List ℕ)
    → p.class_id < 2 ^ 16
    → p.weight < 2 ^ 16
    → p.body_size < 2 ^ 64
    → find_properties p.class_id spec ≡ some (domains_of p.properties)
    → length p.properties ≤ 16
    → ArePlain p.properties
    → AreCarried p.properties
    → (bytes : List ℕ) × (write p (ostream none []) ≡ ok (ostream none bytes))
      × (read spec (istream (bytes ++ rest)) ≡ ok (after_write p, istream rest))
unfolding Writes
read-write_properties spec p rest c w b known few plain carried = (
  properties_bytes p,
  write-Writes p c plain none [] tt,
  read-bytes spec p rest c w b known few plain carried,
)
