-- ===== src/Examples/Methods.antt =====
-- Methods: a specification of a few classes, and the theorems on a queue.declare.
use libamqp_cpp.Base.{
  ℕ, ◌<◌, ◌^◌, ◌≡◌, refl, ap, true, false, List, [], ◌∷◌, ◌++◌, none, ok, Ensures, arith, length,
}
use libamqp_cpp.Byteswap.{byteswap16, of_le_bytes}
use libamqp_cpp.Byteswap.Laws.{be_bytes}
use libamqp_cpp.Stream.{istream, ostream, read_or_throw}
use libamqp_cpp.Wire.{read_uint16}
use libamqp_cpp.StringUtils.{validate_shortstring}
use libamqp_cpp.Table.{no_entries, wireformat_size}
use libamqp_cpp.TableFormat.Bytes.{content_bytes, table_bytes, entries_bytes}
use libamqp_cpp.Frame.{Frame, FrameBuilder, create_from_method, read_frame, write_frame}
use libamqp_cpp.Frame.Wire.{frame_bytes}
use libamqp_cpp.Method.{
  Domain, bit, simple, short, shortstr, table, uint16, short_text, fields, flag, member, Method,
  ClassSpec, arguments_of, serializable, get_serialized_size, write, read, read_frame_method,
  bits_ahead,
}
use libamqp_cpp.Method.Layout.{method_bytes, arguments_bytes}
use libamqp_cpp.Method.Bits.{octet_of}
use libamqp_cpp.Method.Total.{read_method_total}
use libamqp_cpp.Method.Interface.{ChannelClass}
use libamqp_cpp.Method.Typed.{AreTyped, read-IsOfSpec}
use libamqp_cpp.Wire.Progress.{Leaves}
use libamqp_cpp.Method.Transfer.{IsSendable, method_frame, written_read_back, method_delivered}
use libamqp_cpp.Examples.Frames.{
  constants, constants-IsFrameSpec, recorded, to_come, recorded-IsFifo, fresh,
}

abbrev queue_declare_arguments : List Domain
queue_declare_arguments =
    simple short ∷ simple shortstr ∷ bit ∷ bit ∷ bit ∷ bit ∷ bit ∷ simple table ∷ []

abbrev pub some_classes : List ClassSpec
some_classes =
    (record {
      index = 20;
      methods =
          record { index = 11; arguments = simple short ∷ [] }
          ∷ record {
            index = 40;
            arguments = simple short ∷ simple shortstr ∷ simple short ∷ simple short ∷ [];
          }
          ∷ [];
    })
    ∷ (record {
      index = 50;
      methods = record { index = 10; arguments = queue_declare_arguments } ∷ [];
    })
    ∷ []

-- A durable, auto-deleted queue.
abbrev pub queue_declare : Method
queue_declare = record {
  class_id = 50;
  method_id = 10;
  arguments =
      member (uint16 0)
      ∷ member (short_text (b'q' ∷ []))
      ∷ flag false
      ∷ flag true
      ∷ flag false
      ∷ flag true
      ∷ flag false
      ∷ member (fields no_entries)
      ∷ [];
}

queue_declare_bytes :
    method_bytes queue_declare ≡ 0 ∷ 50 ∷ 0 ∷ 10 ∷ 0 ∷ 0 ∷ 1 ∷ b'q' ∷ 10 ∷ 0 ∷ 0 ∷ 0 ∷ 0 ∷ []
unfolding method_bytes arguments_bytes be_bytes octet_of table_bytes wireformat_size entries_bytes
queue_declare_bytes = refl

pub queue_declare-IsSendable : IsSendable some_classes queue_declare
unfolding arguments_of bits_ahead content_bytes validate_shortstring
queue_declare-IsSendable = record {
  class_lt = omega arith;
  method_lt = omega arith;
  known = refl;
  short_runs = omega arith;
  plain = (omega arith, (refl, ((tt, omega arith, tt), tt)));
  fits = omega (arith, ap length queue_declare_bytes);
}

written_read_back_example :
    (bytes : List ℕ) × (write queue_declare (ostream none []) ≡ ok (ostream none bytes))
    × (get_serialized_size queue_declare ≡ length bytes)
    × (read some_classes (istream (bytes ++ 7 ∷ [])) ≡ ok (queue_declare, istream (7 ∷ [])))
written_read_back_example =
    written_read_back some_classes queue_declare (7 ∷ []) queue_declare-IsSendable

read_method_total_example :
    Ensures
      (λ (m, j). Leaves 4 (0 ∷ 50 ∷ 0 ∷ 10 ∷ 0 ∷ []) j)
      (read some_classes (istream (0 ∷ 50 ∷ 0 ∷ 10 ∷ 0 ∷ [])))
read_method_total_example = read_method_total some_classes (0 ∷ 50 ∷ 0 ∷ 10 ∷ 0 ∷ [])

method_delivered_example :
    (fr : Frame) × (create_from_method 1 (serializable queue_declare) ≡ ok fr)
    × (write_frame constants recorded fr []
        ≡ ok ([] ++ frame_bytes constants (method_frame 1 queue_declare)))
    × (b' : FrameBuilder) × (r' : List ℕ) × (read_frame constants recorded fresh
          (frame_bytes constants (method_frame 1 queue_declare) ++ 5 ∷ [])
        ≡ ok (fr, b', r'))
    × (read_frame_method some_classes fr ≡ ok queue_declare)
    × (to_come r' ≡ 5 ∷ [])
method_delivered_example =
    method_delivered constants constants-IsFrameSpec recorded recorded to_come recorded-IsFifo
      some_classes queue_declare 1 fresh []
      (frame_bytes constants (method_frame 1 queue_declare) ++ 5 ∷ []) (5 ∷ [])
      queue_declare-IsSendable (omega arith) refl

abbrev open_ok : Method
open_ok = record { class_id = 20; method_id = 11; arguments = member (uint16 7) ∷ [] }

open_ok_read : read some_classes (istream (0 ∷ 20 ∷ 0 ∷ 11 ∷ 0 ∷ 7 ∷ [])) ≡ ok (open_ok, istream [])
unfolding read read_uint16 read_or_throw byteswap16 of_le_bytes
open_ok_read = refl

read-IsOfSpec_example :
    (◌<◌ 20 (2 ^ 16))
    × (◌<◌ 11 (2 ^ 16))
    × (arguments_of some_classes 20 11 ≡ ok (simple short ∷ []))
    × AreTyped open_ok.arguments
read-IsOfSpec_example = read-IsOfSpec some_classes _ _ open_ok open_ok_read

-- The channel class of AMQP 0-9-1.
abbrev pub channel_class : ChannelClass
channel_class = record {
  class_id = 20;
  open_id = 10;
  open_ok_id = 11;
  close_id = 40;
  close_ok_id = 41;
  open_arguments = member (short_text []) ∷ [];
  close_arguments = λ code text c m.
      member (uint16 code) ∷ member (short_text text) ∷ member (uint16 c) ∷ member (uint16 m) ∷ [];
  close_ok_arguments = [];
}
