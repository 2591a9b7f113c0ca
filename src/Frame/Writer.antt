-- ===== src/Frame/Writer.antt =====
-- What the writing side puts on the connection, and the frames made from methods.
use libamqp_cpp.Base.{ℕ, ◌^◌, ◌<◌, ◌≡◌, List, [], some, ok, arith, length}
use libamqp_cpp.Stream.Laws.{Writes}
use libamqp_cpp.Frame.{
  FrameConstants, IsFrameSpec, method_type, Frame, Serializable, create_from_method, Transport,
  write_frame,
}
use libamqp_cpp.Frame.Wire.{frame_bytes, get_sequence_lem}
use libamqp_cpp.Frame.Builder.{frame_of}

-- For a frame whose buffer is filled and whose size fits 32 bits, write_frame sends the header, the payload and the end octet,
-- in this order.
pub write_frame-frame_bytes :
    (c : FrameConstants) (spec : IsFrameSpec c) (net : Transport) (fr : Frame) (s : net.Socket)
    → fr.buffer.size < 2 ^ 32
    → length fr.buffer.stored ≡ fr.buffer.size
    → write_frame c net fr s ≡ net.write (frame_bytes c fr) s
unfolding write_frame
write_frame-frame_bytes c spec net fr s h full = rw (get_sequence_lem c spec fr h full)

-- A method whose writer sends as many bytes as its announced size becomes a method frame whose
-- buffer they fill.
pub create_from_method_lem :
    (channel : ℕ) (m : Serializable) (bs : List ℕ)
    → Writes m.write bs
    → length bs ≡ m.get_serialized_size
    → create_from_method channel m ≡ ok (frame_of method_type channel bs)
unfolding create_from_method Writes
create_from_method_lem channel m bs w e = rw (← e, w (some (length bs)) [] (omega arith))
