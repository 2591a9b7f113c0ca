-- ===== src/Properties/Bytes.antt =====
-- The bytes of content properties, and their announced size.
use libamqp_cpp.Base.{
  ℕ, ◌+◌, ◌%◌, ◌^◌, ◌<◌, ◌≡◌, refl, Bool, true, false, List, [], ◌∷◌, ◌++◌, ok, none, ◌>>=◌,
  if◌then◌else◌, length, arith,
}
use libamqp_cpp.Byteswap.Laws.{be_bytes}
use libamqp_cpp.Stream.{ostream}
use libamqp_cpp.Stream.Laws.{Writes, Writes-seq, Writes-nil}
use libamqp_cpp.Wire.{write_uint16, write_uint64}
use libamqp_cpp.Wire.Integers.{write_uint16-Writes, write_uint64-Writes}
use libamqp_cpp.Table.{wireformat_size_shortstring, u32}
use libamqp_cpp.TableFormat.Size.{lengths}
use libamqp_cpp.Method.{
  Member, uint8, uint16, uint32, uint64, time, short_text, long_text, fields, member_size,
  write_member,
}
use libamqp_cpp.Method.Bits.{octet_of}
use libamqp_cpp.Method.Layout.{IsPlainMember, member_bytes, write_member-Writes}
use libamqp_cpp.Method.Size.{member_size-account}
use libamqp_cpp.Properties.{
  Property, Properties, is_set, sent_flags, write_properties, write, property_size, fields_size,
  properties_serialized_size,
}

-- A value that the format carries; no class has long strings among its properties.
abbrev pub IsPlainProperty : Member → Type 0
IsPlainProperty (long_text s) = ⊥
IsPlainProperty m = IsPlainMember m

abbrev pub ArePlain : List Property → Type 0
ArePlain [] = Unit {0}
ArePlain (p ∷ rest) = IsPlainProperty p.value_of × ArePlain rest

pub plain_member : (m : Member) → IsPlainProperty m → IsPlainMember m
plain_member (uint8 v) h = h
plain_member (uint16 v) h = h
plain_member (uint32 v) h = h
plain_member (uint64 v) h = h
plain_member (time v) h = h
plain_member (short_text s) h = h
plain_member (long_text s) h = absurd h
plain_member (fields t) h = h

abbrev pub property_bytes : Bool → Member → List ℕ
property_bytes set m = if set then member_bytes m else []

unfoldable pub fields_bytes : List Property → List ℕ
unfolding member_bytes
fields_bytes [] = []
fields_bytes (p ∷ rest) = property_bytes (is_set p) p.value_of ++ fields_bytes rest

unfoldable pub properties_bytes : Properties → List ℕ
unfolding fields_bytes
properties_bytes p =
    be_bytes 2 p.class_id
    ++ (be_bytes 2 p.weight
        ++ (be_bytes 8 p.body_size
            ++ (be_bytes 2 (octet_of (sent_flags p.properties) % 2 ^ 16)
                ++ fields_bytes p.properties)))

write_property-Writes :
    (set : Bool) (m : Member)
    → IsPlainMember m
    → Writes (λ o. if set then write_member m o else ok o) (property_bytes set m)
write_property-Writes true m h = write_member-Writes m h
write_property-Writes false m h = Writes-nil

write_properties-Writes :
    (ps : List Property) → ArePlain ps → Writes (write_properties ps) (fields_bytes ps)
unfolding write_properties fields_bytes
write_properties-Writes [] h = Writes-nil
write_properties-Writes (p ∷ rest) h =
    Writes-seq _ (write_properties rest) (property_bytes (is_set p) p.value_of) (fields_bytes rest)
      (write_property-Writes (is_set p) p.value_of (plain_member p.value_of h.0))
      (write_properties-Writes rest h.1)

pub write-Writes :
    (p : Properties)
    → p.class_id < 2 ^ 16
    → ArePlain p.properties
    → Writes (write p) (properties_bytes p)
unfolding Writes write properties_bytes
write-Writes p c h l sent r =
    let class_eq : p.class_id % 2 ^ 16 ≡ p.class_id = omega arith in
    let flags = octet_of (sent_flags p.properties) % 2 ^ 16 in
    rw class_eq (
      Writes-seq (write_uint16 p.class_id)
        (λ o. write_uint16 p.weight o >>= λ o₁. write_uint64 p.body_size o₁ >>= λ o₂.
          write_uint16 flags o₂ >>= write_properties p.properties)
        _ _ (write_uint16-Writes p.class_id)
        (Writes-seq (write_uint16 p.weight)
          (λ o. write_uint64 p.body_size o >>= λ o₁.
            write_uint16 flags o₁ >>= write_properties p.properties)
          _ _ (write_uint16-Writes p.weight)
          (Writes-seq (write_uint64 p.body_size)
            (λ o. write_uint16 flags o >>= write_properties p.properties) _ _
            (write_uint64-Writes p.body_size)
            (Writes-seq (write_uint16 flags) (write_properties p.properties) _ _
              (write_uint16-Writes flags) (write_properties-Writes p.properties h))))
        l sent r)

property_size-eq : (n : ℕ) (m : Member) → IsPlainProperty m → property_size n m ≡ member_size m
unfolding property_size member_size wireformat_size_shortstring
property_size-eq n (uint8 v) h = refl
property_size-eq n (uint16 v) h = refl
property_size-eq n (uint32 v) h = refl
property_size-eq n (uint64 v) h = refl
property_size-eq n (time v) h = refl
property_size-eq n (short_text s) h = refl
property_size-eq n (long_text s) h = absurd h
property_size-eq n (fields t) h = refl

added-account :
    (n : ℕ) (set : Bool) (m : Member)
    → IsPlainProperty m
    → (if set then property_size n m else 0) % 2 ^ 32 ≡ length (property_bytes set m) % 2 ^ 32
added-account n true m h = rw (property_size-eq n m h) (member_size-account m (plain_member m h))
added-account n false m h = refl

fields_size-account :
    (n result : ℕ) (ps : List Property)
    → ArePlain ps
    → fields_size n result ps % 2 ^ 32 ≡ (result + length (fields_bytes ps)) % 2 ^ 32
unfolding fields_size fields_bytes
fields_size-account n result [] h = omega arith
fields_size-account n result (p ∷ rest) h =
    let added = if is_set p then property_size n p.value_of else 0 in
    omega (
      lengths,
      added-account n (is_set p) p.value_of h.0,
      fields_size-account n (u32 (result + added)) rest h.1,
    )

fields_size-lt :
    (n : ℕ) (ps : List Property) (result : ℕ) → result < 2 ^ 32 → fields_size n result ps < 2 ^ 32
unfolding fields_size
fields_size-lt n [] result h = h
fields_size-lt n (p ∷ rest) result h = fields_size-lt n rest _ (omega arith)

-- Content properties of a 16-bit class, whose values the format carries and whose bytes are less
-- than 2 ^ 32, are written to an unbounded stream as two bytes more than the size that they announce.
pub properties_serialized_size-short :
    (n : ℕ) (p : Properties)
    → p.class_id < 2 ^ 16
    → ArePlain p.properties
    → length (properties_bytes p) < 2 ^ 32
    → (bytes : List ℕ) × (write p (ostream none []) ≡ ok (ostream none bytes))
      × (properties_serialized_size n p + 2 ≡ length bytes)
unfolding Writes properties_serialized_size properties_bytes
properties_serialized_size-short n p c h l = (
  properties_bytes p,
  write-Writes p c h none [] tt,
  omega (
    lengths,
    fields_size-account n 12 p.properties h,
    fields_size-lt n p.properties 12 (omega arith),
  ),
)
