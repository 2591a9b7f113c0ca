-- ===== src/Examples/Properties.antt =====
-- Content properties: those of a class with a content type, headers and a priority, and the theorems
-- on them.
use libamqp_cpp.Base.{
  ℕ, ◌+◌, ◌≡◌, refl, true, false, List, [], ◌∷◌, ◌++◌, none, ok, arith, ap, length,
}
use libamqp_cpp.Byteswap.Laws.{be_bytes}
use libamqp_cpp.Stream.{ostream, istream}
use libamqp_cpp.StringUtils.{validate_shortstring}
use libamqp_cpp.Table.{no_entries, boolean, wireformat_size}
use libamqp_cpp.TableFormat.Bytes.{content_bytes, table_bytes, entries_bytes}
use libamqp_cpp.Method.{octet, shortstr, table, uint8, short_text, fields}
use libamqp_cpp.Method.Bits.{octet_of}
use libamqp_cpp.Method.Layout.{member_bytes}
use libamqp_cpp.Properties.{
  Properties, PropertiesSpec, property_is_set, sent_flag, find_properties, read, write, after_write,
  properties_serialized_size,
}
use libamqp_cpp.Properties.Bytes.{properties_bytes, fields_bytes, properties_serialized_size-short}
use libamqp_cpp.Properties.Tables.{table_property, write-ignores_table}
use libamqp_cpp.Properties.RoundTrip.{read-write_properties}

abbrev basic : List PropertiesSpec
basic = record { index = 60; domains = shortstr ∷ table ∷ octet ∷ [] } ∷ []

-- A content type and no priority, as the setter leaves them; the empty table counts as set, though
-- its bit is clear until the write.
abbrev plain_text : Properties
plain_text = record {
  class_id = 60;
  weight = 0;
  body_size = 5;
  properties =
      record { flag = true; value_of = short_text (b't' ∷ []) }
      ∷ record { flag = false; value_of = fields no_entries }
      ∷ record { flag = false; value_of = uint8 0 }
      ∷ [];
}

plain_text_bytes :
    properties_bytes plain_text
    ≡ 0 ∷ 60 ∷ 0 ∷ 0 ∷ 0 ∷ 0 ∷ 0 ∷ 0 ∷ 0 ∷ 0 ∷ 0 ∷ 5 ∷ 0 ∷ 3 ∷ 1 ∷ b't' ∷ 0 ∷ 0 ∷ 0 ∷ 0 ∷ []
unfolding properties_bytes fields_bytes member_bytes be_bytes octet_of sent_flag property_is_set
    table_bytes entries_bytes wireformat_size
plain_text_bytes = refl

properties_serialized_size-short_example :
    (bytes : List ℕ) × (write plain_text (ostream none []) ≡ ok (ostream none bytes))
    × (properties_serialized_size 32 plain_text + 2 ≡ length bytes)
unfolding validate_shortstring content_bytes
properties_serialized_size-short_example =
    properties_serialized_size-short 32 plain_text (omega arith)
      (refl, ((tt, omega arith, tt), (omega arith, tt))) (omega (arith, ap length plain_text_bytes))

read-write_properties_example :
    (bytes : List ℕ) × (write plain_text (ostream none []) ≡ ok (ostream none bytes))
    × (read basic (istream (bytes ++ 9 ∷ [])) ≡ ok (after_write plain_text, istream (9 ∷ [])))
unfolding validate_shortstring content_bytes property_is_set find_properties
read-write_properties_example =
    read-write_properties basic plain_text (9 ∷ []) (omega arith) (omega arith) (omega arith) refl
      (omega arith) (refl, ((tt, omega arith, tt), (omega arith, tt)))
      ((λ e. cc), (refl, ((λ e. refl), tt)))

write-ignores_table_example :
    write
      (record {
        class_id = 60;
        weight = 0;
        body_size = 5;
        properties = table_property true (b'a' ∷ []) (boolean true) no_entries ∷ [];
      })
      (ostream none [])
    ≡ write
        (record {
          class_id = 60;
          weight = 0;
          body_size = 5;
          properties = table_property false (b'b' ∷ []) (boolean false) no_entries ∷ [];
        })
        (ostream none [])
write-ignores_table_example =
    write-ignores_table 60 0 5 [] [] true false (b'a' ∷ []) (b'b' ∷ []) (boolean true)
      (boolean false) no_entries no_entries (ostream none [])
