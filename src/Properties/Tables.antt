-- ===== src/Properties/Tables.antt =====
-- A table among the content properties.
use libamqp_cpp.Base.{
  ℕ, ◌≡◌, refl, ap, Bool, List, [], ◌∷◌, ◌++◌, ok, >>=_cong, ◌%◌, ◌^◌, if◌then◌else◌,
}
use libamqp_cpp.Stream.{OStream}
use libamqp_cpp.Table.{Table, entry, FieldValue}
use libamqp_cpp.Wire.{write_uint16, write_uint64}
use libamqp_cpp.Method.{fields, write_member}
use libamqp_cpp.Method.Bits.{octet_of}
use libamqp_cpp.Properties.{
  Property, Properties, sent_flags, sent_flag, is_set, write_properties, write,
}

-- A field with a table that has entries.
abbrev pub table_property : Bool → List ℕ → FieldValue → Table → Property
table_property flag k v t = record { flag = flag; value_of = fields (entry k v t) }

same_flags :
    (front back : List Property) (flag flag' : Bool) (k k' : List ℕ) (v v' : FieldValue)
    (t t' : Table)
    → sent_flags (front ++ table_property flag k v t ∷ back)
      ≡ sent_flags (front ++ table_property flag' k' v' t' ∷ back)
unfolding sent_flag
same_flags [] back flag flag' k k' v v' t t' = refl
same_flags (p ∷ front) back flag flag' k k' v v' t t' =
    ap (◌∷◌ (sent_flag p.flag p.value_of)) (same_flags front back flag flag' k k' v v' t t')

same_writes :
    (front back : List Property) (flag flag' : Bool) (k k' : List ℕ) (v v' : FieldValue)
    (t t' : Table) (o : OStream)
    → write_properties (front ++ table_property flag k v t ∷ back) o
      ≡ write_properties (front ++ table_property flag' k' v' t' ∷ back) o
unfolding write_properties
same_writes [] back flag flag' k k' v v' t t' o = refl
same_writes (p ∷ front) back flag flag' k k' v v' t t' o =
    >>=_cong (if is_set p then write_member p.value_of o else ok o)
      (λ q. same_writes front back flag flag' k k' v v' t t' q)

-- What a table among the content properties holds is never sent: as long as it has entries, the
-- bytes that are written, or the exception, are the same whatever these are.
pub write-ignores_table :
    (class_id weight body_size : ℕ) (front back : List Property) (flag flag' : Bool) (k k' : List ℕ)
    (v v' : FieldValue) (t t' : Table) (o : OStream)
    → let with_field : Property → Properties = λ p. record {
      class_id = class_id;
      weight = weight;
      body_size = body_size;
      properties = front ++ p ∷ back;
    } in
      write (with_field (table_property flag k v t)) o
      ≡ write (with_field (table_property flag' k' v' t')) o
unfolding write
write-ignores_table class_id weight body_size front back flag flag' k k' v v' t t' o =
    let flags = octet_of (sent_flags (front ++ table_property flag' k' v' t' ∷ back)) % 2 ^ 16 in
    rw (same_flags front back flag flag' k k' v v' t t') (
      >>=_cong (write_uint16 (class_id % 2 ^ 16) o) λ o₁. >>=_cong (write_uint16 weight o₁) λ o₂.
        >>=_cong (write_uint64 body_size o₂) λ o₃.
          >>=_cong (write_uint16 flags o₃)
            λ o₄. same_writes front back flag flag' k k' v v' t t' o₄)
