-- ===== src/Frame/Builder.antt =====
-- The frame builder on the header and the body of a frame.
use libamqp_cpp.Base.{
  ℕ, suc, ◌+◌, ◌-◌, ◌%◌, ◌^◌, ◌<◌, ◌≡◌, refl, ap, List, [], ◌∷◌, ◌++◌, some, none, append_assoc,
  true, false, ok, err, runtime_error, arith, length, eq→==, ne→==, take-append, drop-append, ◌≢◌,
}
use libamqp_cpp.Byteswap.Laws.{be_bytes}
use libamqp_cpp.Stream.{istream}
use libamqp_cpp.Wire.{read_uint8}
use libamqp_cpp.Wire.Integers.{read_uint8-be, read_uint16-be, read_uint32-be}
use libamqp_cpp.Frame.{
  FrameConstants, IsFrameSpec, FrameType, Frame, type_value, invalid, valid_header, valid_both,
  FrameBuilder, reset, fill_header, fill_body, parse_header, accept_header, is_body_read_required,
  get_body_buffer, create_frame, validate_header, validate_body,
}
use libamqp_cpp.Frame.Wire.{header_bytes, type_value-lt, get_frame_type-value}

be_bytes-one : (x : ℕ) → x < 2 ^ 8 → be_bytes 1 x ≡ x ∷ []
unfolding be_bytes
be_bytes-one x h = ap (λ (y : ℕ). y ∷ []) (omega arith)

read_last : (x : ℕ) → x < 2 ^ 8 → read_uint8 (istream (x ∷ [])) ≡ ok (x, istream [])
read_last x h = rw (be_bytes-one x h) at (read_uint8-be x [] h)

-- A frame with its buffer filled.
abbrev pub frame_of : FrameType → ℕ → List ℕ → Frame
frame_of t ch xs = record {
  type_of = t;
  channel = ch;
  buffer = record { size = length xs; stored = xs };
}

module _ (c : FrameConstants) (spec : IsFrameSpec c) (t : FrameType) (ch : ℕ)
    (ch_lt : ch < 2 ^ 16) where
  -- The builder between parsing a header and judging its size.
  abbrev pub parsed : List ℕ → ℕ → FrameBuilder
  parsed xs x = record {
    state = invalid;
    header = header_bytes c (frame_of t ch xs) ++ x ∷ [];
    frame_type = some t;
    channel = ch;
    body = none;
    end_octet = 0;
  }

  parse_header-bytes :
      (xs : List ℕ) (x : ℕ) (b : FrameBuilder)
      → length xs < 2 ^ 32
      → x < 2 ^ 8
      → parse_header c (fill_header (header_bytes c (frame_of t ch xs) ++ x ∷ []) (reset b))
        ≡ accept_header c (parsed xs x) (length xs) x
  unfolding parse_header fill_header reset
  parse_header-bytes xs x b l h = rw (
    append_assoc,
    append_assoc,
    read_uint8-be (type_value c t) (be_bytes 2 ch ++ (be_bytes 4 (length xs) ++ x ∷ []))
        (type_value-lt c spec t),
    get_frame_type-value c spec t,
    read_uint16-be ch (be_bytes 4 (length xs) ++ x ∷ []) ch_lt,
    read_uint32-be (length xs) (x ∷ []) l,
    read_last x h,
  )

  validate_reset :
      (bs : List ℕ) (b : FrameBuilder)
      → validate_header c (fill_header bs (reset b)) ≡ parse_header c (fill_header bs (reset b))
  unfolding validate_header fill_header reset
  validate_reset bs b = refl

  -- A frame with no payload: the eighth byte is the end octet, and no body is read.
  abbrev pub empty_builder : FrameBuilder
  empty_builder = record (parsed [] c.frame_end) {
    state = valid_both;
    body = some (record { size = 0; stored = [] });
  }

  pub empty_required :
      (b : FrameBuilder)
      → is_body_read_required c
          (fill_header (header_bytes c (frame_of t ch []) ++ c.frame_end ∷ []) (reset b))
        ≡ ok (false, empty_builder)
  unfolding is_body_read_required accept_header
  empty_required b = rw (
    validate_reset,
    parse_header-bytes [] c.frame_end b (omega arith) spec.end_lt,
    eq→== c.frame_end c.frame_end refl,
  )

  pub empty_refused :
      (y : ℕ) (b : FrameBuilder)
      → y < 2 ^ 8
      → y ≢ c.frame_end
      → is_body_read_required c
          (fill_header (header_bytes c (frame_of t ch []) ++ y ∷ []) (reset b))
        ≡ err (runtime_error "Framing error: bad end octet")
  unfolding is_body_read_required accept_header
  empty_refused y b l ne =
      rw (validate_reset, parse_header-bytes [] y b (omega arith) l, ne→== y c.frame_end ne)

  pub empty_created : create_frame c empty_builder ≡ ok (frame_of t ch [])
  unfolding create_frame validate_body
  empty_created = refl

  -- With a payload the eighth byte is its first, and the rest is read behind it.
  abbrev pub headed_builder : ℕ → List ℕ → FrameBuilder
  headed_builder x xs = record (parsed (x ∷ xs) x) {
    state = valid_header;
    body = some (record { size = suc (length xs); stored = x ∷ [] });
  }

  abbrev pub filled_builder : ℕ → List ℕ → ℕ → FrameBuilder
  filled_builder x xs y = record (headed_builder x xs) {
    body = some (record { size = suc (length xs); stored = x ∷ xs });
    end_octet = y;
  }

  pub headed_required :
      (x : ℕ) (xs : List ℕ) (b : FrameBuilder)
      → suc (length xs) < 2 ^ 32
      → x < 2 ^ 8
      → is_body_read_required c
          (fill_header (header_bytes c (frame_of t ch (x ∷ xs)) ++ x ∷ []) (reset b))
        ≡ ok (true, headed_builder x xs)
  unfolding is_body_read_required accept_header
  headed_required x xs b l h =
      let nonzero = ne→== (suc (length xs)) 0 (omega arith) in
      rw (validate_reset, parse_header-bytes (x ∷ xs) x b l h, nonzero) (rw nonzero)

  pub headed_buffers :
      (x : ℕ) (xs : List ℕ)
      → suc (length xs) < 2 ^ 32
      → get_body_buffer c (headed_builder x xs) ≡ ok ((length xs, 1), headed_builder x xs)
  unfolding get_body_buffer validate_header
  headed_buffers x xs l =
      let n_eq : (suc (length xs) + 2 ^ 64 - 1) % 2 ^ 64 ≡ length xs = omega arith in rw n_eq

  pub headed_filled :
      (x : ℕ) (xs : List ℕ) (y : ℕ)
      → fill_body (length xs) (xs ++ y ∷ []) (headed_builder x xs) ≡ filled_builder x xs y
  unfolding fill_body
  headed_filled x xs y = rw (take-append xs (y ∷ []), drop-append xs (y ∷ []))

  pub filled_created :
      (x : ℕ) (xs : List ℕ)
      → create_frame c (filled_builder x xs c.frame_end) ≡ ok (frame_of t ch (x ∷ xs))
  unfolding create_frame validate_body
  filled_created x xs = rw (eq→== c.frame_end c.frame_end refl)

  pub filled_refused :
      (x : ℕ) (xs : List ℕ) (y : ℕ)
      → y ≢ c.frame_end
      → create_frame c (filled_builder x xs y) ≡ err (runtime_error "Framing error: bad end octet")
  unfolding create_frame validate_body
  filled_refused x xs y ne = rw (ne→== y c.frame_end ne)
