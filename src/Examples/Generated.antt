-- ===== src/Examples/Generated.antt =====
-- A handshake with the methods of the class `connection` of AMQP 0-9-1.
use libamqp_cpp.Base.{ℕ, ◌≡◌, refl, inl, false, List, [], ◌∷◌, ◌++◌, ok, arith, drop}
use libamqp_cpp.Byteswap.Laws.{be_bytes}
use libamqp_cpp.StringUtils.{contains, validate_shortstring, validate_longstring}
use libamqp_cpp.Sasl.{plain_mechanism}
use libamqp_cpp.Table.{no_entries}
use libamqp_cpp.Table.Keys.{key_lt}
use libamqp_cpp.TableFormat.Bytes.{content_bytes, table_bytes, entries_bytes}
use libamqp_cpp.TableFormat.Plain.{IsPlainTable}
use libamqp_cpp.Frame.{FrameBuilder}
use libamqp_cpp.Frame.Wire.{frame_bytes}
use libamqp_cpp.Method.{
  bit, simple, octet, short, long, shortstr, longstr, table, uint8, uint16, uint32, short_text,
  long_text, fields, flag, member, Argument, ClassSpec, arguments_of, bits_ahead,
}
use libamqp_cpp.Method.Layout.{method_bytes, arguments_bytes}
use libamqp_cpp.Method.Bits.{octet_of}
use libamqp_cpp.Method.Interface.{generated}
use libamqp_cpp.Method.Transfer.{IsSendable, method_frame}
use libamqp_cpp.Connection.{shake_hands, protocol_header}
use libamqp_cpp.Connection.Interface.{
  ConnectionClass, method_of, start_ok_of, tune_ok_of, open_of, handshake,
}
use libamqp_cpp.Connection.Generated.{own_properties, answer, request, handshake_ends}
use libamqp_cpp.Examples.Frames.{constants, constants-IsFrameSpec, fresh}
use libamqp_cpp.Examples.Methods.{channel_class}
use libamqp_cpp.Examples.Handshake.{
  Both, local, arriving, departed, local-IsFifo, local-IsDuplex, one_mechanism, guest,
}

abbrev connection_spec : List ClassSpec
connection_spec =
    (record {
      index = 10;
      methods =
          record {
            index = 10;
            arguments =
                simple octet ∷ simple octet ∷ simple table ∷ simple longstr ∷ simple longstr ∷ [];
          }
          ∷ record {
            index = 11;
            arguments = simple table ∷ simple shortstr ∷ simple longstr ∷ simple shortstr ∷ [];
          }
          ∷ record { index = 30; arguments = simple short ∷ simple long ∷ simple short ∷ [] }
          ∷ record { index = 31; arguments = simple short ∷ simple long ∷ simple short ∷ [] }
          ∷ record { index = 40; arguments = simple shortstr ∷ simple shortstr ∷ bit ∷ [] }
          ∷ record { index = 41; arguments = simple shortstr ∷ [] }
          ∷ [];
    })
    ∷ []

-- The first argument, of its type.
abbrev number : List Argument → ℕ
number (member (uint8 v) ∷ rest) = v
number (member (uint16 v) ∷ rest) = v
number (member (uint32 v) ∷ rest) = v
number _ = 0

abbrev text : List Argument → List ℕ
text (member (long_text s) ∷ rest) = s
text _ = []

abbrev connection_class : ConnectionClass
connection_class = record {
  class_id = 10;
  start_id = 10;
  start_ok_id = 11;
  tune_id = 30;
  tune_ok_id = 31;
  open_id = 40;
  open_ok_id = 41;
  version_major = number;
  version_minor = λ xs. number (drop 1 xs);
  mechanisms = λ xs. text (drop 3 xs);
  channel_max = number;
  frame_max = λ xs. number (drop 1 xs);
  heartbeat = λ xs. number (drop 2 xs);
  new_start_ok = record {
    client_properties = no_entries;
    mechanism = plain_mechanism;
    response = [];
    locale = b'e' ∷ b'n' ∷ b'_' ∷ b'U' ∷ b'S' ∷ [];
  };
  new_open = record { virtual_host = b'/' ∷ []; capabilities = []; insist = false };
  start_ok_arguments = λ x.
      member (fields x.client_properties)
      ∷ member (short_text x.mechanism)
      ∷ member (long_text x.response)
      ∷ member (short_text x.locale)
      ∷ [];
  tune_ok_arguments = λ x y z. member (uint16 x) ∷ member (uint32 y) ∷ member (uint16 z) ∷ [];
  open_arguments = λ x.
      member (short_text x.virtual_host) ∷ member (short_text x.capabilities) ∷ flag x.insist ∷ [];
}

-- What the broker sends.
abbrev start : List Argument
start =
    member (uint8 0)
    ∷ member (uint8 9)
    ∷ member (fields no_entries)
    ∷ member (long_text plain_mechanism)
    ∷ member (long_text [])
    ∷ []

abbrev tune : List Argument
tune = member (uint16 0) ∷ member (uint32 131072) ∷ member (uint16 0) ∷ []

abbrev open_ok : List Argument
open_ok = member (short_text []) ∷ []

start-IsSendable : IsSendable connection_spec (method_of connection_class 10 start)
unfolding arguments_of bits_ahead content_bytes validate_shortstring validate_longstring
    method_bytes arguments_bytes be_bytes octet_of table_bytes entries_bytes
start-IsSendable = record {
  class_lt = omega arith;
  method_lt = omega arith;
  known = refl;
  short_runs = omega arith;
  plain = (omega arith, (omega arith, ((tt, omega arith, tt), (refl, (refl, tt)))));
  fits = omega arith;
}

tune-IsSendable : IsSendable connection_spec (method_of connection_class 30 tune)
unfolding arguments_of bits_ahead method_bytes arguments_bytes be_bytes octet_of
tune-IsSendable = record {
  class_lt = omega arith;
  method_lt = omega arith;
  known = refl;
  short_runs = omega arith;
  plain = (omega arith, (omega arith, (omega arith, tt)));
  fits = omega arith;
}

tune_ok-IsSendable : IsSendable connection_spec (tune_ok_of connection_class 0 131072 0)
unfolding arguments_of bits_ahead method_bytes arguments_bytes be_bytes octet_of
tune_ok-IsSendable = record {
  class_lt = omega arith;
  method_lt = omega arith;
  known = refl;
  short_runs = omega arith;
  plain = (omega arith, (omega arith, (omega arith, tt)));
  fits = omega arith;
}

open_ok-IsSendable : IsSendable connection_spec (method_of connection_class 41 open_ok)
unfolding arguments_of bits_ahead validate_shortstring method_bytes arguments_bytes be_bytes
    octet_of
open_ok-IsSendable = record {
  class_lt = omega arith;
  method_lt = omega arith;
  known = refl;
  short_runs = omega arith;
  plain = (refl, tt);
  fits = omega arith;
}

open-IsSendable : IsSendable connection_spec (open_of connection_class (request (b'/' ∷ [])))
unfolding arguments_of bits_ahead validate_shortstring method_bytes arguments_bytes be_bytes
    octet_of
open-IsSendable = record {
  class_lt = omega arith;
  method_lt = omega arith;
  known = refl;
  short_runs = omega arith;
  plain = (refl, (refl, tt));
  fits = omega arith;
}

own_properties-IsPlainTable : IsPlainTable own_properties
unfolding content_bytes key_lt be_bytes entries_bytes validate_shortstring
own_properties-IsPlainTable = (
  ((
    (refl, (refl, (refl, (refl, tt)))),
    ((refl, (refl, (refl, tt))), ((refl, (refl, tt)), ((refl, tt), (tt, tt)))),
  )),
  omega arith,
  (
    omega arith,
    omega arith,
    (
      omega arith,
      omega arith,
      (omega arith, omega arith, (omega arith, omega arith, (omega arith, omega arith, tt))),
    ),
  ),
)

start_ok-IsSendable : IsSendable connection_spec (start_ok_of connection_class (answer guest guest))
unfolding arguments_of bits_ahead validate_shortstring validate_longstring method_bytes
    arguments_bytes be_bytes octet_of table_bytes content_bytes entries_bytes
start_ok-IsSendable = record {
  class_lt = omega arith;
  method_lt = omega arith;
  known = refl;
  short_runs = omega arith;
  plain = (own_properties-IsPlainTable, (refl, (refl, (refl, tt))));
  fits = omega arith;
}

-- What the broker sends, and one byte more.
abbrev talking : Both
talking = (
  frame_bytes constants (method_frame 0 (method_of connection_class 10 start))
      ++ (frame_bytes constants (method_frame 0 (method_of connection_class 30 tune))
          ++ (frame_bytes constants (method_frame 0 (method_of connection_class 41 open_ok))
              ++ 8 ∷ [])),
  [],
)

handshake_ends_example :
    (b' : FrameBuilder) × (s' : Both) × (shake_hands constants local
        (generated connection_spec channel_class)
        (handshake connection_spec channel_class connection_class)
        one_mechanism
        guest
        guest
        (b'/' ∷ [])
        fresh
        talking
      ≡ ok (b', s'))
    × (arriving s' ≡ 8 ∷ [])
    × (departed s'
        ≡ departed talking
          ++ (protocol_header
              ++ (frame_bytes constants
                    (method_frame 0 (start_ok_of connection_class (answer guest guest)))
                  ++ (frame_bytes constants
                        (method_frame 0 (tune_ok_of connection_class 0 131072 0))
                      ++ frame_bytes constants
                          (method_frame 0 (open_of connection_class (request (b'/' ∷ []))))))))
unfolding contains validate_shortstring
handshake_ends_example =
    handshake_ends connection_spec channel_class connection_class constants local one_mechanism
      constants-IsFrameSpec arriving departed local-IsFifo local-IsDuplex guest guest (b'/' ∷ [])
      (8 ∷ []) fresh talking start tune open_ok start-IsSendable tune-IsSendable open_ok-IsSendable
      refl refl refl (inl refl) refl refl (omega arith) refl start_ok-IsSendable tune_ok-IsSendable
      open-IsSendable
