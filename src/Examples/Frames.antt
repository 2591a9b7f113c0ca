-- ===== src/Examples/Frames.antt =====
-- Frames: a connection as the list of the bytes to come, and the theorems at such inputs.
use libamqp_cpp.Base.{
  ℕ, ◌≡◌, refl, sym, ap, ◌∙◌, inl, inr, Bool-cases, ok-injective, List, [], ◌∷◌, ◌++◌, none, some,
  ok, take-append-drop, length-take, err, runtime_error, arith, length, take, drop, leb, le→leb,
  if◌then◌else◌,
}
use libamqp_cpp.Stream.{write_or_throw, read_or_throw}
use libamqp_cpp.Frame.{
  FrameConstants, IsFrameSpec, method_type, Frame, Serializable, FrameBuilder, invalid,
  valid_header, Transport, read_frame, is_body_read_required, validate_header, fill_header, reset,
  parse_header, get_frame_type, accept_header, get_body_buffer, create_frame, validate_body,
  fill_body,
}
use libamqp_cpp.Wire.{read_uint8, read_uint16, read_uint32}
use libamqp_cpp.Byteswap.{of_le_bytes, byteswap16, byteswap32}
use libamqp_cpp.Frame.Wire.{frame_bytes}
use libamqp_cpp.Frame.Builder.{frame_of}
use libamqp_cpp.Frame.Reader.{IsFullFrame, IsFifo, read_frame-frame_bytes}
use libamqp_cpp.Frame.Soundness.{IsExact, read_frame_sound}

-- The constants of AMQP 0-9-1.
abbrev pub constants : FrameConstants
constants = record {
  frame_method = 1;
  frame_header = 2;
  frame_body = 3;
  frame_heartbeat = 8;
  frame_end = 206;
}

pub constants-IsFrameSpec : IsFrameSpec constants
constants-IsFrameSpec = record {
  method_lt = omega arith;
  header_lt = omega arith;
  body_lt = omega arith;
  heartbeat_lt = omega arith;
  end_lt = omega arith;
  header_ne = λ e. omega arith;
  body_ne_method = λ e. omega arith;
  body_ne_header = λ e. omega arith;
  heartbeat_ne_method = λ e. omega arith;
  heartbeat_ne_header = λ e. omega arith;
  heartbeat_ne_body = λ e. omega arith;
}

abbrev pub recorded : Transport
recorded = record {
  Socket = List ℕ;
  read = λ n s.
      if leb n (length s) then ok (take n s, drop n s) else err (runtime_error "End of file");
  write = λ bs s. ok (s ++ bs);
}

abbrev pub to_come : List ℕ → List ℕ
to_come s = s

pub recorded-IsFifo : IsFifo recorded to_come
recorded-IsFifo = record { read_lem = λ n s h. (drop n s, rw (le→leb n (length s) h), refl) }

abbrev pub fresh : FrameBuilder
fresh = record {
  state = invalid;
  header = [];
  frame_type = none;
  channel = 0;
  body = none;
  end_octet = 0;
}

-- A frame of three bytes on channel 1, as a connection.start-ok would be one.
abbrev three : Frame
three = frame_of method_type 1 (10 ∷ 11 ∷ 12 ∷ [])

three_full : IsFullFrame three
three_full = record {
  channel_lt = omega arith;
  size_lt = omega arith;
  full = refl;
  octets = λ x xs e. ground arith;
}

read_frame-frame_bytes_example :
    (b' : FrameBuilder) × (s' : List ℕ) × (read_frame constants recorded fresh
        (frame_bytes constants three ++ 5 ∷ [])
      ≡ ok (three, b', s'))
    × (to_come s' ≡ 5 ∷ [])
read_frame-frame_bytes_example =
    read_frame-frame_bytes constants constants-IsFrameSpec recorded to_come recorded-IsFifo three
      fresh (frame_bytes constants three ++ 5 ∷ []) (5 ∷ []) three_full refl

recorded-IsExact : IsExact recorded to_come
recorded-IsExact = record { taken = λ n s s' bs e. exact n s s' bs e }
  where
    exact :
        (n : ℕ) (s s' bs : List ℕ)
        → recorded.read n s ≡ ok (bs, s')
        → (length bs ≡ n) × (s ≡ bs ++ s')
    exact n s s' bs e = elim (Bool-cases (leb n (length s))) [
      | inl h ↦
          let same = ok-injective (rw h at e) in
          let bs_eq : take n s ≡ bs = ap (λ (x : List ℕ × List ℕ). x.0) same in
          let s_eq : drop n s ≡ s' = ap (λ (x : List ℕ × List ℕ). x.1) same in
          (
            ap length (sym bs_eq) ∙ length-take n s (ground arith),
            sym (take-append-drop n s) ∙ ap (λ xs. xs ++ drop n s) bs_eq ∙ ap (λ ys. bs ++ ys) s_eq,
          )
      | inr h ↦ absurd (cc (rw h at e))
    ]

-- The bytes of that frame, and one byte more.
abbrev three_bytes : List ℕ
three_bytes = 1 ∷ 0 ∷ 1 ∷ 0 ∷ 0 ∷ 0 ∷ 3 ∷ 10 ∷ 11 ∷ 12 ∷ 206 ∷ 5 ∷ []

abbrev three_builder : FrameBuilder
three_builder = record {
  state = valid_header;
  header = 1 ∷ 0 ∷ 1 ∷ 0 ∷ 0 ∷ 0 ∷ 3 ∷ 10 ∷ [];
  frame_type = some method_type;
  channel = 1;
  body = some three.buffer;
  end_octet = 206;
}

three_read : read_frame constants recorded fresh three_bytes ≡ ok (three, three_builder, 5 ∷ [])
unfolding read_frame is_body_read_required validate_header fill_header reset parse_header read_uint8
    read_or_throw get_frame_type of_le_bytes read_uint16 read_uint32 accept_header byteswap16
    byteswap32 get_body_buffer create_frame validate_body fill_body
three_read = refl

read_frame_sound_example : IsFullFrame three × (three_bytes ≡ frame_bytes constants three ++ 5 ∷ [])
read_frame_sound_example =
    read_frame_sound constants constants-IsFrameSpec recorded to_come recorded-IsExact three fresh
      three_builder three_bytes (5 ∷ [])
      (
        omega arith,
        (
          omega arith,
          (
            omega arith,
            (
              omega arith,
              (
                omega arith,
                (
                  omega arith,
                  (
                    omega arith,
                    (omega arith, (omega arith, (omega arith, (omega arith, (omega arith, tt))))),
                  ),
                ),
              ),
            ),
          ),
        ),
      )
      three_read

-- A method of two bytes.
abbrev two_bytes : Serializable
two_bytes = record {
  get_serialized_size = 2;
  write = write_or_throw (10 ∷ 11 ∷ []) "Write failure";
}
