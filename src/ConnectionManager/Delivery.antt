-- ===== src/ConnectionManager/Delivery.antt =====
-- The asynchronous reading loop on the bytes of a frame.
use libamqp_cpp.Base.{
  ℕ, ◌≡◌, refl, sym, subst, ap, ◌∙◌, false, List, [], ◌∷◌, ◌++◌, append_assoc, append-nil, err,
  undefined, out_of_fuel, ◌>>=◌, Result, ok, length, take, drop, take-append, drop-append,
}
use libamqp_cpp.TableFormat.Size.{lengths}
use libamqp_cpp.Frame.{IsFrameSpec, FrameType, Frame, FrameBuilder}
use libamqp_cpp.Frame.Wire.{header_bytes, frame_bytes}
use libamqp_cpp.Frame.Builder.{
  frame_of, empty_builder, filled_builder, empty_required, empty_created, headed_required,
  headed_buffers, headed_filled, filled_created,
}
use libamqp_cpp.Frame.Reader.{IsFullFrame, full_frame_of}
use libamqp_cpp.ConnectionManager.{
  World, Manager, Reading, no_read, header_read, body_read, begin_frame_read,
}
use libamqp_cpp.ConnectionManager.Dispatch.{
  dispatch_frame, receive_frame, on_frame_header_read, on_frame_body_read, header_arrives,
  body_arrives,
}

eight : (hs bs : List ℕ) → length hs ≡ 8 → (take 8 (hs ++ bs) ≡ hs) × (drop 8 (hs ++ bs) ≡ bs)
eight hs bs e = (rw (← e) (take-append hs bs), rw (← e) (drop-append hs bs))

module _ (w : World) where
  -- The handler of a body, if a body is being read.
  abbrev body_arrives_for : Reading → List ℕ → Manager w → Result (Manager w)
  body_arrives_for (body_read n) bytes m = on_frame_body_read w false (body_arrives w n bytes m)
  body_arrives_for no_read bytes m = ok m
  body_arrives_for header_read bytes m = ok m

  -- The handlers that run as the bytes of one frame come in: that of the header with the first
  -- eight, and if it asks for a body, that of the body with the others.
  abbrev pub bytes_arrive : List ℕ → Manager w → Result (Manager w)
  bytes_arrive bytes m = do
    m₁ ← on_frame_header_read w false (header_arrives w (take 8 bytes) m)
    body_arrives_for m₁.reading (drop 8 bytes) m₁

  -- The builder with the frame, while it is dispatched.
  abbrev pub holding : FrameBuilder → Manager w → Manager w
  holding b m = record m { builder = b; reading = no_read }

  abbrev Dispatches : Frame → Manager w → Type 0
  Dispatches fr m =
      (b : FrameBuilder) × (bytes_arrive (frame_bytes w.constants fr) (begin_frame_read w m)
        ≡ (dispatch_frame w fr (holding b m) >>= λ m'. ok (begin_frame_read w m')))

  -- The read that is begun is that of a header.
  read_again :
      (bytes : List ℕ) (r : Result (Manager w))
      → (r >>= (λ m'. ok (begin_frame_read w m')) >>= λ m₁. body_arrives_for m₁.reading bytes m₁)
        ≡ (r >>= λ m'. ok (begin_frame_read w m'))
  unfolding begin_frame_read
  read_again bytes (ok m) = refl
  read_again bytes (err e) = refl
  read_again bytes undefined = refl
  read_again bytes out_of_fuel = refl

  module _ (spec : IsFrameSpec w.constants) where
    dispatches :
        (t : FrameType) (ch : ℕ) (xs : List ℕ) (m : Manager w)
        → IsFullFrame (frame_of t ch xs)
        → Dispatches (frame_of t ch xs) m
    unfolding on_frame_header_read on_frame_body_read receive_frame begin_frame_read
    dispatches t ch [] m v =
        let (head, tail) =
          eight (header_bytes w.constants (frame_of t ch []) ++ w.constants.frame_end ∷ []) []
            (omega lengths) in
        let taken = rw append-nil at head in
        (
          empty_builder w.constants spec t ch v.channel_lt,
          rw
              (
                taken,
                empty_required w.constants spec t ch v.channel_lt m.builder,
                empty_created w.constants spec t ch v.channel_lt,
              )
              (read_again _ _),
        )
    dispatches t ch (x ∷ xs) m v =
        let (head, tail) =
          eight (header_bytes w.constants (frame_of t ch (x ∷ xs)) ++ x ∷ [])
            (xs ++ w.constants.frame_end ∷ []) (omega lengths) in
        let whole = sym (
          append_assoc (header_bytes w.constants (frame_of t ch (x ∷ xs))) (x ∷ [])
            (xs ++ w.constants.frame_end ∷ [])) in
        let head' = ap (take 8) whole ∙ head in
        let tail' = ap (drop 8) whole ∙ tail in
        (
          filled_builder w.constants spec t ch v.channel_lt x xs w.constants.frame_end,
          rw (
            head',
            headed_required w.constants spec t ch v.channel_lt x xs m.builder v.size_lt
                (v.octets x xs refl),
            headed_buffers w.constants spec t ch v.channel_lt x xs v.size_lt,
            tail',
            headed_filled w.constants spec t ch v.channel_lt x xs w.constants.frame_end,
            filled_created w.constants spec t ch v.channel_lt x xs,
          ),
        )

    -- From any state in which a read begins: when the bytes of a frame come in, whose fields are in
    -- range and whose buffer is filled, the handlers of the read give this frame to dispatch_frame,
    -- once, and begin the next read when it returns. What it throws they throw.
    pub bytes_arrive-dispatch_frame :
        (fr : Frame) (m : Manager w)
        → IsFullFrame fr
        → (b : FrameBuilder) × (bytes_arrive (frame_bytes w.constants fr) (begin_frame_read w m)
            ≡ (dispatch_frame w fr (holding b m) >>= λ m'. ok (begin_frame_read w m')))
    bytes_arrive-dispatch_frame fr m v =
        let same = full_frame_of fr v.full in
        subst (λ g. Dispatches g m) same
          (dispatches fr.type_of fr.channel fr.buffer.stored m (subst IsFullFrame (sym same) v))
