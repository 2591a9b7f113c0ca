-- ===== src/Frame.antt =====
-- detail/frame.h, detail/frame.cpp, detail/frame_writer.*, detail/frame_builder.*.
-- The frame constants come from methods.gen.h, which the build generates from the AMQP
-- specification; they are a parameter, and `IsFrameSpec` says what the code relies on.
-- The buffers of the builder are filled by the socket between its calls.
pub mod Builder
pub mod Reader
pub mod Octets
pub mod Soundness
pub mod Wire
pub mod Writer
use libamqp_cpp.Base.{
  ℕ, ◌+◌, ◌-◌, ◌%◌, ◌^◌, ◌<◌, ◌≡◌, ◌≢◌, Bool, true, false, List, [], ◌∷◌, ◌++◌, Option, none, some,
  ◌>>=◌, leb, Result, ok, err, undefined, runtime_error, logic_error, ◌==◌, if◌then◌else◌, length,
  take, drop, replicate,
}
use libamqp_cpp.Stream.{OStream, ostream, IStream, istream}
use libamqp_cpp.Wire.{write_uint8, read_uint8, write_uint16, read_uint16, write_uint32, read_uint32}

-- FRAME_METHOD, FRAME_HEADER, FRAME_BODY, FRAME_HEARTBEAT and FRAME_END
pub record FrameConstants : Type 0 where
  pub frame_method : ℕ
  pub frame_header : ℕ
  pub frame_body : ℕ
  pub frame_heartbeat : ℕ
  pub frame_end : ℕ

-- The constants are octets, and the types are distinct, as the labels of one switch must be.
pub record IsFrameSpec (c : FrameConstants) : Type 0 where
  pub method_lt : c.frame_method < 256
  pub header_lt : c.frame_header < 256
  pub body_lt : c.frame_body < 256
  pub heartbeat_lt : c.frame_heartbeat < 256
  pub end_lt : c.frame_end < 256
  pub header_ne : c.frame_header ≢ c.frame_method
  pub body_ne_method : c.frame_body ≢ c.frame_method
  pub body_ne_header : c.frame_body ≢ c.frame_header
  pub heartbeat_ne_method : c.frame_heartbeat ≢ c.frame_method
  pub heartbeat_ne_header : c.frame_heartbeat ≢ c.frame_header
  pub heartbeat_ne_body : c.frame_heartbeat ≢ c.frame_body

-- enum frame_type
pub data FrameType : Type 0 where
  method_type header_type body_type heartbeat_type : FrameType

-- A scoped_buffer: its size, and the bytes that have been stored in it from its start on. What
-- follows them is indeterminate.
pub record Buffer : Type 0 where
  pub size : ℕ
  pub stored : List ℕ

pub record Frame : Type 0 where
  pub type_of : FrameType
  pub channel : ℕ
  pub buffer : Buffer

-- What a method object offers here: its serialized size and its writer.
pub record Serializable : Type 0 where
  pub get_serialized_size : ℕ
  pub write : OStream → Result OStream

-- frame::create_from_method: the method writes into a buffer of the size that it announces.
unfoldable pub create_from_method : ℕ → Serializable → Result Frame
create_from_method channel m = do
  let size = m.get_serialized_size
  o ← m.write (ostream (some size) [])
  ok (record {
    type_of = method_type;
    channel = channel;
    buffer = record { size = size; stored = o.sent };
  })

module _ (c : FrameConstants) where
  unfoldable pub type_value : FrameType → ℕ
  type_value method_type = c.frame_method
  type_value header_type = c.frame_header
  type_value body_type = c.frame_body
  type_value heartbeat_type = c.frame_heartbeat

  unfoldable pub get_frame_type : ℕ → Result FrameType
  get_frame_type n =
      if n == c.frame_method
      then ok method_type
      else (if n == c.frame_header
          then ok header_type
          else (if n == c.frame_body
              then ok body_type
              else (if n == c.frame_heartbeat
                  then ok heartbeat_type
                  else err (runtime_error "Invalid frame type."))))

  -- frame_writer::get_sequence: the header of seven bytes, the buffer and the footer. Bytes of the
  -- buffer that nobody has stored are `undefined`.
  unfoldable pub get_sequence : Frame → Result (List ℕ × List ℕ × List ℕ)
  get_sequence fr = do
    o ← write_uint8 (type_value fr.type_of % 2 ^ 8) (ostream (some 7) [])
    p ← write_uint16 fr.channel o
    q ← write_uint32 (fr.buffer.size % 2 ^ 32) p
    if leb fr.buffer.size (length fr.buffer.stored)
        then ok (q.sent, take fr.buffer.size fr.buffer.stored, c.frame_end ∷ [])
        else undefined

-- enum builder_state
pub data BuilderState : Type 0 where
  invalid valid_header valid_both : BuilderState

-- `none` is an m_type that has not been set, and a null m_body.
pub record FrameBuilder : Type 0 where
  pub state : BuilderState
  pub header : List ℕ
  pub frame_type : Option FrameType
  pub channel : ℕ
  pub body : Option Buffer
  pub end_octet : ℕ

unfoldable pub reset : FrameBuilder → FrameBuilder
reset b = record b {
  state = invalid;
  header = replicate 8 0;
  channel = 0;
  body = none;
  end_octet = 0;
}

-- The bytes that a read puts where get_header_buffer points.
unfoldable pub fill_header : List ℕ → FrameBuilder → FrameBuilder
fill_header bs b = record b { header = bs }

-- A read of `n` bytes and one more into the two buffers of get_body_buffer: behind the first
-- byte of the body, and into the end octet.
unfoldable pub fill_body : ℕ → List ℕ → FrameBuilder → FrameBuilder
fill_body n bs b =
    let stores = λ (x : Buffer). record x { stored = take 1 x.stored ++ take n bs } in
    record b {
      body = (elim b.body [ none ↦ none | some x ↦ some (stores x) ]);
      end_octet = (elim (drop n bs) [ [] ↦ b.end_octet | x ∷ xs ↦ x ]);
    }

-- A frame's header in the eight bytes: the type, the channel, the size, and one byte more.
-- When it throws, m_type and m_channel may be set already; no use of the builder but after a
-- reset follows then.
module _ (c : FrameConstants) where
  -- The branch on the size.
  unfoldable pub accept_header : FrameBuilder → ℕ → ℕ → Result FrameBuilder
  accept_header b size last =
      if size == 0
      then (if last == c.frame_end
          then ok (record b { state = valid_both; body = some (record { size = 0; stored = [] }) })
          else err (runtime_error "Framing error: bad end octet"))
      else ok (record b {
        state = valid_header;
        body = some (record { size = size; stored = last ∷ [] });
      })

  unfoldable pub parse_header : FrameBuilder → Result FrameBuilder
  parse_header b = do
    (octet, i) ← read_uint8 (istream b.header)
    type_of ← get_frame_type c octet
    (channel, j) ← read_uint16 i
    (size, k) ← read_uint32 j
    (last, l) ← read_uint8 k
    let sized = record b { frame_type = some type_of; channel = channel }
    accept_header sized size last

  unfoldable pub validate_header : FrameBuilder → Result FrameBuilder
  validate_header b = elim b.state [ invalid ↦ parse_header b | _ ↦ ok b ]

  unfoldable pub is_body_read_required : FrameBuilder → Result (Bool × FrameBuilder)
  is_body_read_required b = do
    b' ← validate_header b
    elim b'.body [ none ↦ undefined | some x ↦ ok ((if x.size == 0 then false else true), b') ]

  -- The lengths of the two buffers, of type size_t.
  unfoldable pub get_body_buffer : FrameBuilder → Result ((ℕ × ℕ) × FrameBuilder)
  get_body_buffer b = do
    b' ← validate_header b
    elim b'.body [ none ↦ undefined | some x ↦ ok (((x.size + 2 ^ 64 - 1) % 2 ^ 64, 1), b') ]

  unfoldable pub validate_body : FrameBuilder → Result FrameBuilder
  validate_body b = elim b.state [
    | invalid ↦ err (logic_error "validate_body called before a valid header existed")
    | valid_header ↦
        if b.end_octet == c.frame_end
        then ok b
        else err (runtime_error "Framing error: bad end octet")
    | valid_both ↦ ok b
  ]

  -- A frame takes the type and the body that validate_header set.
  unfoldable pub create_frame : FrameBuilder → Result Frame
  create_frame b = do
    b' ← validate_body b
    elim b'.frame_type [
      | none ↦ undefined
      | some t ↦ elim b'.body [
        | none ↦ undefined
        | some x ↦ ok (record { type_of = t; channel = b'.channel; buffer = x })
      ]
    ]

-- The socket: boost::asio's read fills its buffers or throws, and its write sends all.
pub record Transport : Type 1 where
  pub Socket : Type 0
  pub read : ℕ → Socket → Result (List ℕ × Socket)
  pub write : List ℕ → Socket → Result Socket

module _ (c : FrameConstants) (net : Transport) where
  -- connection_manager::read_frame
  unfoldable pub read_frame : FrameBuilder → net.Socket → Result (Frame × FrameBuilder × net.Socket)
  read_frame b s = do
    (bs, s₁) ← net.read 8 s
    (required, b₁) ← is_body_read_required c (fill_header bs (reset b))
    (b₂, s₂) ←
        if required
        then (do
          ((n, one), b₃) ← get_body_buffer c b₁
          (body, s₃) ← net.read (n + one) s₁
          ok (fill_body n body b₃, s₃))
        else ok (b₁, s₁)
    fr ← create_frame c b₂
    ok (fr, b₂, s₂)

  -- connection_manager::write_frame
  unfoldable pub write_frame : Frame → net.Socket → Result net.Socket
  write_frame fr s = do
    (header, payload, footer) ← get_sequence c fr
    net.write (header ++ (payload ++ footer)) s
