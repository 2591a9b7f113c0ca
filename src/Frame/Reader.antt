-- ===== src/Frame/Reader.antt =====
-- read_frame on the bytes of a frame.
use libamqp_cpp.Base.{
  ℕ, ◌+◌, ◌^◌, ◌<◌, ◌≤◌, ◌≡◌, refl, sym, ap, subst, ◌∙◌, List, [], ◌∷◌, ◌++◌, append_assoc, ok, err,
  runtime_error, arith, length, take, drop, take-append, drop-append, ◌≢◌,
}
use libamqp_cpp.TableFormat.Size.{lengths, length-append_bytes}
use libamqp_cpp.Frame.{
  FrameConstants, IsFrameSpec, FrameType, Frame, FrameBuilder, Transport, read_frame,
}
use libamqp_cpp.Frame.Wire.{header_bytes, frame_bytes}
use libamqp_cpp.Frame.Builder.{
  frame_of, empty_builder, filled_builder, empty_required, empty_created, empty_refused,
  headed_required, headed_buffers, headed_filled, filled_created, filled_refused,
}

-- A frame whose fields are in the range of their types, with its buffer filled.
pub record IsFullFrame (fr : Frame) : Type 0 where
  pub channel_lt : fr.channel < 2 ^ 16
  pub size_lt : fr.buffer.size < 2 ^ 32
  pub full : length fr.buffer.stored ≡ fr.buffer.size
  pub octets : (x : ℕ) (xs : List ℕ) → fr.buffer.stored ≡ x ∷ xs → x < 2 ^ 8

-- The documented behaviour of a read on a connection: it fills its buffers with the next bytes
-- that the peer sent, in their order, once these are there. `incoming` is what the peer sends.
pub record IsFifo (net : Transport) (incoming : net.Socket → List ℕ) : Type 0 where
  pub read_lem :
      (n : ℕ) (s : net.Socket)
      → n ≤ length (incoming s)
      → (s' : net.Socket) × (net.read n s ≡ ok (take n (incoming s), s'))
        × (incoming s' ≡ drop n (incoming s))

-- A read takes exactly the bytes that come first.
module _ {net : Transport} {incoming : net.Socket → List ℕ} (fifo : IsFifo net incoming) where
  read_exact :
      (s : net.Socket) (xs ys : List ℕ) (n : ℕ)
      → incoming s ≡ xs ++ ys
      → length xs ≡ n
      → (s' : net.Socket) × (net.read n s ≡ ok (xs, s')) × (incoming s' ≡ ys)
  read_exact s xs ys n e l =
      let (s', p, q) = fifo.read_lem n s (omega (arith, ap length e, length-append_bytes xs ys)) in
      let taken : take n (incoming s) ≡ xs = rw (e, ← l) (take-append xs ys) in
      let left : drop n (incoming s) ≡ ys = rw (e, ← l) (drop-append xs ys) in
      (s', p ∙ ap (λ (bs : List ℕ). ok (bs, s')) taken, q ∙ left)

pub full_frame_of :
    (fr : Frame)
    → length fr.buffer.stored ≡ fr.buffer.size
    → frame_of fr.type_of fr.channel fr.buffer.stored ≡ fr
full_frame_of fr e =
    ap (λ (n : ℕ). record fr { buffer = record { size = n; stored = fr.buffer.stored } }) e

-- The first byte of the payload comes with the header.
pub split :
    (c : FrameConstants) (t : FrameType) (ch x : ℕ) (xs : List ℕ) (y : ℕ) (rest : List ℕ)
    → (header_bytes c (frame_of t ch (x ∷ xs)) ++ ((x ∷ xs) ++ y ∷ [])) ++ rest
      ≡ (header_bytes c (frame_of t ch (x ∷ xs)) ++ x ∷ []) ++ ((xs ++ y ∷ []) ++ rest)
split c t ch x xs y rest = simp append_assoc

module _ (c : FrameConstants) (spec : IsFrameSpec c) (net : Transport)
    (incoming : net.Socket → List ℕ) (fifo : IsFifo net incoming) where
  -- What read_frame does to a builder and a socket that the frame has come in on.
  abbrev Delivers : FrameBuilder → net.Socket → Frame → List ℕ → Type 0
  Delivers b s fr rest =
      (b' : FrameBuilder) × (s' : net.Socket) × (read_frame c net b s ≡ ok (fr, b', s'))
      × (incoming s' ≡ rest)

  deliver :
      (t : FrameType) (ch : ℕ) (xs : List ℕ) (b : FrameBuilder) (s : net.Socket) (rest : List ℕ)
      → IsFullFrame (frame_of t ch xs)
      → incoming s ≡ frame_bytes c (frame_of t ch xs) ++ rest
      → Delivers b s (frame_of t ch xs) rest
  unfolding read_frame
  deliver t ch [] b s rest v e =
      let (s', p, q) =
        read_exact fifo s (header_bytes c (frame_of t ch []) ++ c.frame_end ∷ []) rest 8 e
          (omega lengths) in
      (
        empty_builder c spec t ch v.channel_lt,
        s',
        rw (p, empty_required c spec t ch v.channel_lt b, empty_created c spec t ch v.channel_lt),
        q,
      )
  deliver t ch (x ∷ xs) b s rest v e =
      let octet = v.octets x xs refl in
      let (s₁, p, q) =
        read_exact fifo s (header_bytes c (frame_of t ch (x ∷ xs)) ++ x ∷ [])
          ((xs ++ c.frame_end ∷ []) ++ rest) 8 (rw e (split c t ch x xs c.frame_end rest))
          (omega lengths) in
      let (s₂, p', q') =
        read_exact fifo s₁ (xs ++ c.frame_end ∷ []) rest (length xs + 1) q (omega lengths) in
      (
        filled_builder c spec t ch v.channel_lt x xs c.frame_end,
        s₂,
        rw (
          p,
          headed_required c spec t ch v.channel_lt x xs b v.size_lt octet,
          headed_buffers c spec t ch v.channel_lt x xs v.size_lt,
          p',
          headed_filled c spec t ch v.channel_lt x xs c.frame_end,
          filled_created c spec t ch v.channel_lt x xs,
        ),
        q',
      )

  -- On a connection that delivers its bytes in order: once the bytes of a frame have come in, whose
  -- fields are in range and whose buffer is filled, read_frame returns that frame, whatever the
  -- builder held before, and takes exactly those bytes off the connection.
  pub read_frame-frame_bytes :
      (fr : Frame) (b : FrameBuilder) (s : net.Socket) (rest : List ℕ)
      → IsFullFrame fr
      → incoming s ≡ frame_bytes c fr ++ rest
      → (b' : FrameBuilder) × (s' : net.Socket) × (read_frame c net b s ≡ ok (fr, b', s'))
        × (incoming s' ≡ rest)
  read_frame-frame_bytes fr b s rest v e =
      let same = full_frame_of fr v.full in
      subst (λ g. Delivers b s g rest) same
        (deliver fr.type_of fr.channel fr.buffer.stored b s rest (subst IsFullFrame (sym same) v)
          (subst (λ (g : Frame). incoming s ≡ frame_bytes c g ++ rest) (sym same) e))

  deliver_bad :
      (t : FrameType) (ch : ℕ) (xs : List ℕ) (y : ℕ) (b : FrameBuilder) (s : net.Socket)
      (rest : List ℕ)
      → IsFullFrame (frame_of t ch xs)
      → y < 2 ^ 8
      → y ≢ c.frame_end
      → incoming s ≡ (header_bytes c (frame_of t ch xs) ++ (xs ++ y ∷ [])) ++ rest
      → read_frame c net b s ≡ err (runtime_error "Framing error: bad end octet")
  unfolding read_frame
  deliver_bad t ch [] y b s rest v l ne e =
      let (s', p, q) =
        read_exact fifo s (header_bytes c (frame_of t ch []) ++ y ∷ []) rest 8 e (omega lengths) in
      rw (p, empty_refused c spec t ch v.channel_lt y b l ne)
  deliver_bad t ch (x ∷ xs) y b s rest v l ne e =
      let octet = v.octets x xs refl in
      let (s₁, p, q) =
        read_exact fifo s (header_bytes c (frame_of t ch (x ∷ xs)) ++ x ∷ [])
          ((xs ++ y ∷ []) ++ rest) 8 (rw e (split c t ch x xs y rest)) (omega lengths) in
      let (s₂, p', q') = read_exact fifo s₁ (xs ++ y ∷ []) rest (length xs + 1) q (omega lengths) in
      rw (
        p,
        headed_required c spec t ch v.channel_lt x xs b v.size_lt octet,
        headed_buffers c spec t ch v.channel_lt x xs v.size_lt,
        p',
        headed_filled c spec t ch v.channel_lt x xs y,
        filled_refused c spec t ch v.channel_lt x xs y ne,
      )

  -- On a connection that delivers its bytes in order: if the octet behind the payload of an
  -- otherwise well-formed frame is another than FRAME_END, read_frame throws.
  read_frame-bad_end :
      (fr : Frame) (y : ℕ) (b : FrameBuilder) (s : net.Socket) (rest : List ℕ)
      → IsFullFrame fr
      → y < 2 ^ 8
      → y ≢ c.frame_end
      → incoming s ≡ (header_bytes c fr ++ (fr.buffer.stored ++ y ∷ [])) ++ rest
      → read_frame c net b s ≡ err (runtime_error "Framing error: bad end octet")
  read_frame-bad_end fr y b s rest v l ne e =
      let same = full_frame_of fr v.full in
      deliver_bad fr.type_of fr.channel fr.buffer.stored y b s rest (subst IsFullFrame (sym same) v)
        l ne
        (subst
          (λ (g : Frame). incoming s ≡ (header_bytes c g ++ (g.buffer.stored ++ y ∷ [])) ++ rest)
          (sym same) e)
