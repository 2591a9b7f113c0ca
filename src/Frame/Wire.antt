-- ===== src/Frame/Wire.antt =====
-- Frames on the wire: the layout that frame_writer sends, and that read_frame reads it back.
use libamqp_cpp.Base.{
  ℕ, ◌%◌, ◌^◌, ◌<◌, ◌≡◌, refl, List, [], ◌∷◌, ◌++◌, some, append_assoc, append-nil, ok, le→leb,
  length, take, take-append, arith, eq→==, ne→==,
}
use libamqp_cpp.Byteswap.Laws.{be_bytes}
use libamqp_cpp.Stream.Laws.{Writes}
use libamqp_cpp.Wire.Integers.{write_uint8-Writes, write_uint16-Writes, write_uint32-Writes}
use libamqp_cpp.TableFormat.Size.{lengths}
use libamqp_cpp.Frame.{
  FrameConstants, IsFrameSpec, FrameType, method_type, header_type, body_type, heartbeat_type,
  Frame, type_value, get_frame_type, get_sequence,
}

pub take_whole : (xs : List ℕ) (n : ℕ) → length xs ≡ n → take n xs ≡ xs
take_whole xs n e = rw (← e) (rw append-nil at (take-append xs []))

module _ (c : FrameConstants) where
  -- The layout of the AMQP specification: type, channel, size, payload, end octet.
  abbrev pub header_bytes : Frame → List ℕ
  header_bytes fr =
      be_bytes 1 (type_value c fr.type_of) ++ (be_bytes 2 fr.channel ++ be_bytes 4 fr.buffer.size)

  abbrev pub frame_bytes : Frame → List ℕ
  frame_bytes fr = header_bytes fr ++ (fr.buffer.stored ++ c.frame_end ∷ [])

  module _ (spec : IsFrameSpec c) where
    pub type_value-lt : (t : FrameType) → type_value c t < 2 ^ 8
    unfolding type_value
    type_value-lt method_type = spec.method_lt
    type_value-lt header_type = spec.header_lt
    type_value-lt body_type = spec.body_lt
    type_value-lt heartbeat_type = spec.heartbeat_lt

    -- A type is found under its value.
    pub get_frame_type-value : (t : FrameType) → get_frame_type c (type_value c t) ≡ ok t
    unfolding type_value get_frame_type
    get_frame_type-value method_type = rw (eq→== c.frame_method c.frame_method refl)
    get_frame_type-value header_type = rw (
      ne→== c.frame_header c.frame_method spec.header_ne,
      eq→== c.frame_header c.frame_header refl,
    )
    get_frame_type-value body_type = rw (
      ne→== c.frame_body c.frame_method spec.body_ne_method,
      ne→== c.frame_body c.frame_header spec.body_ne_header,
      eq→== c.frame_body c.frame_body refl,
    )
    get_frame_type-value heartbeat_type = rw (
      ne→== c.frame_heartbeat c.frame_method spec.heartbeat_ne_method,
      ne→== c.frame_heartbeat c.frame_header spec.heartbeat_ne_header,
      ne→== c.frame_heartbeat c.frame_body spec.heartbeat_ne_body,
      eq→== c.frame_heartbeat c.frame_heartbeat refl,
    )

    -- The header is written in full, in its seven bytes.
    pub get_sequence_lem :
        (fr : Frame)
        → fr.buffer.size < 2 ^ 32
        → length fr.buffer.stored ≡ fr.buffer.size
        → get_sequence c fr ≡ ok (header_bytes fr, fr.buffer.stored, c.frame_end ∷ [])
    unfolding get_sequence Writes
    get_sequence_lem fr h full =
        let value_eq : type_value c fr.type_of % 2 ^ 8 ≡ type_value c fr.type_of =
          omega (arith, type_value-lt fr.type_of) in
        let size_eq : fr.buffer.size % 2 ^ 32 ≡ fr.buffer.size = omega arith in
        rw (
          value_eq,
          size_eq,
          write_uint8-Writes (type_value c fr.type_of) (some 7) [] (omega lengths),
          write_uint16-Writes fr.channel (some 7) (be_bytes 1 (type_value c fr.type_of))
              (omega lengths),
          write_uint32-Writes fr.buffer.size (some 7)
              (be_bytes 1 (type_value c fr.type_of) ++ be_bytes 2 fr.channel) (omega lengths),
          append_assoc,
          le→leb fr.buffer.size (length fr.buffer.stored) (omega (arith, full)),
          take_whole fr.buffer.stored fr.buffer.size full,
        )
