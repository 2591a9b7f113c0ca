-- ===== src/Method/Transfer.antt =====
-- A method from the writing side of one connection to the reading side of another.
use libamqp_cpp.Base.{
  ℕ, ◌^◌, ◌<◌, ◌≡◌, refl, sym, List, [], ◌∷◌, ◌++◌, append-nil, none, ok, arith, length, le→leb,
}
use libamqp_cpp.Byteswap.Laws.{be_bytes}
use libamqp_cpp.Stream.{ostream, istream}
use libamqp_cpp.Stream.Laws.{Writes}
use libamqp_cpp.Frame.{
  FrameConstants, IsFrameSpec, method_type, Frame, create_from_method, FrameBuilder, Transport,
  read_frame, write_frame,
}
use libamqp_cpp.Frame.Wire.{frame_bytes, take_whole}
use libamqp_cpp.Frame.Builder.{frame_of}
use libamqp_cpp.Frame.Reader.{IsFullFrame, IsFifo, read_frame-frame_bytes}
use libamqp_cpp.Frame.Writer.{create_from_method_lem, write_frame-frame_bytes}
use libamqp_cpp.Method.{
  domains, Method, ClassSpec, arguments_of, serializable, read_frame_method, read, write,
  get_serialized_size,
}
use libamqp_cpp.Method.Layout.{ArePlain, HasShortRuns, method_bytes, write-Writes}
use libamqp_cpp.Method.Size.{get_serialized_size-exact}
use libamqp_cpp.Method.RoundTrip.{read-write_method}

-- A method of the specification whose values the format carries: its identifiers have 16 bits, at
-- most 8 bit arguments stand side by side, its values are plain, and it has less than 2 ^ 32 bytes.
pub record IsSendable (spec : List ClassSpec) (m : Method) : Type 0 where
  pub class_lt : m.class_id < 2 ^ 16
  pub method_lt : m.method_id < 2 ^ 16
  pub known : arguments_of spec m.class_id m.method_id ≡ ok (domains m.arguments)
  pub short_runs : HasShortRuns (domains m.arguments)
  pub plain : ArePlain m.arguments
  pub fits : length (method_bytes m) < 2 ^ 32

-- The frame that carries a method.
abbrev pub method_frame : ℕ → Method → Frame
method_frame channel m = frame_of method_type channel (method_bytes m)

first_octet : (m : Method) (x : ℕ) (xs : List ℕ) → method_bytes m ≡ x ∷ xs → x < 2 ^ 8
unfolding method_bytes be_bytes
first_octet m x xs e = ground arith

pub create_from_method-serializable :
    (spec : List ClassSpec) (m : Method) (channel : ℕ)
    → IsSendable spec m
    → create_from_method channel (serializable m) ≡ ok (method_frame channel m)
create_from_method-serializable spec m channel h =
    create_from_method_lem channel (serializable m) (method_bytes m)
      (write-Writes m h.class_lt h.method_lt h.short_runs h.plain)
      (sym (get_serialized_size-exact m h.short_runs h.plain h.fits))

pub method_frame-IsFullFrame :
    (m : Method) (channel : ℕ)
    → channel < 2 ^ 16
    → length (method_bytes m) < 2 ^ 32
    → IsFullFrame (method_frame channel m)
method_frame-IsFullFrame m channel c l = record {
  channel_lt = c;
  size_lt = l;
  full = refl;
  octets = λ x xs e. first_octet m x xs e;
}

pub read_frame_method-method_frame :
    (spec : List ClassSpec) (m : Method) (channel : ℕ)
    → IsSendable spec m
    → read_frame_method spec (method_frame channel m) ≡ ok m
unfolding read_frame_method
read_frame_method-method_frame spec m channel h =
    let whole : read spec (istream (method_bytes m)) ≡ ok (m, istream []) =
      rw append-nil at
        (read-write_method spec m [] h.class_lt h.method_lt h.known h.short_runs h.plain) in
    rw (
      le→leb (length (method_bytes m)) (length (method_bytes m)) (omega arith),
      take_whole (method_bytes m) (length (method_bytes m)) refl,
      whole,
    )

-- A method of the specification that is sendable is written to an unbounded stream as a number of
-- bytes that is the size it announces; and method::read gives the method back from these bytes,
-- whatever follows them, and leaves this.
pub written_read_back :
    (spec : List ClassSpec) (m : Method) (rest : List ℕ)
    → IsSendable spec m
    → (bytes : List ℕ) × (write m (ostream none []) ≡ ok (ostream none bytes))
      × (get_serialized_size m ≡ length bytes)
      × (read spec (istream (bytes ++ rest)) ≡ ok (m, istream rest))
unfolding Writes
written_read_back spec m rest h = (
  method_bytes m,
  write-Writes m h.class_lt h.method_lt h.short_runs h.plain none [] tt,
  get_serialized_size-exact m h.short_runs h.plain h.fits,
  read-write_method spec m rest h.class_lt h.method_lt h.known h.short_runs h.plain,
)

module _ (c : FrameConstants) (frame_spec : IsFrameSpec c) (sender receiver : Transport)
    (incoming : receiver.Socket → List ℕ) (fifo : IsFifo receiver incoming) where
  -- A method of the specification that is sendable (its identifiers have 16 bits, at most 8 bit
  -- arguments stand side by side, its values are plain, and it has less than 2 ^ 32 bytes) is made
  -- into a frame on a 16-bit channel, and write_frame gives the frame's bytes to the sending socket.
  -- Where these bytes come in, on a connection that delivers them in order, read_frame returns that
  -- frame and takes no more bytes than these; and method::read gives the method that was sent.
  pub method_delivered :
      (spec : List ClassSpec) (m : Method) (channel : ℕ) (b : FrameBuilder) (s : sender.Socket)
      (r : receiver.Socket) (rest : List ℕ)
      → IsSendable spec m
      → channel < 2 ^ 16
      → incoming r ≡ frame_bytes c (method_frame channel m) ++ rest
      → (fr : Frame) × (create_from_method channel (serializable m) ≡ ok fr)
        × (write_frame c sender fr s ≡ sender.write (frame_bytes c (method_frame channel m)) s)
        × (b' : FrameBuilder) × (r' : receiver.Socket) × (read_frame c receiver b r
            ≡ ok (fr, b', r'))
        × (read_frame_method spec fr ≡ ok m)
        × (incoming r' ≡ rest)
  method_delivered spec m channel b s r rest h k e =
      let fr = method_frame channel m in
      let full = method_frame-IsFullFrame m channel k h.fits in
      let (b', r', received, left) =
        read_frame-frame_bytes c frame_spec receiver incoming fifo fr b r rest full e in
      (
        fr,
        create_from_method-serializable spec m channel h,
        write_frame-frame_bytes c frame_spec sender fr s h.fits refl,
        b',
        r',
        received,
        read_frame_method-method_frame spec m channel h,
        left,
      )
