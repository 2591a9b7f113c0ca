-- ===== src/ConnectionManager/Generated.antt =====
-- The connection manager with the generated methods: a response of the broker, from its bytes to the
-- call that waits for it.
use libamqp_cpp.Base.{ℕ, ◌^◌, ◌<◌, ◌≡◌, refl, Bool, List, some, none, inl, ok, get_elem?}
use libamqp_cpp.Promise.{PromiseOf, IsPromise}
use libamqp_cpp.Frame.{FrameConstants, IsFrameSpec, Frame, create_from_method}
use libamqp_cpp.Frame.Wire.{frame_bytes}
use libamqp_cpp.Method.{Method, ClassSpec, serializable}
use libamqp_cpp.Method.Interface.{ChannelClass, generated, method_cast-own}
use libamqp_cpp.Method.Transfer.{
  IsSendable, method_frame, method_frame-IsFullFrame, create_from_method-serializable,
  read_frame_method-method_frame,
}
use libamqp_cpp.Channel.Opening.{Holds}
use libamqp_cpp.ConnectionManager.{World, Manager, channel, header_read, begin_frame_read}
use libamqp_cpp.ConnectionManager.Delivery.{bytes_arrive}
use libamqp_cpp.ConnectionManager.Responses.{waits, call_answered}

module _ (spec : List ClassSpec) (names : ChannelClass) (constants : FrameConstants)
    (opens : PromiseOf Bool) (calls : PromiseOf Method) (closes channels : PromiseOf ℕ) where
  abbrev pub generated_world : World
  generated_world = record {
    constants = constants;
    methods = generated spec names;
    opens = opens;
    calls = calls;
    closes = closes;
    channels = channels;
  }

  module _ (frame_spec : IsFrameSpec constants) (promise : IsPromise calls) where
    -- A channel object is in the table at its identifier, of 16 bits, and waits for the response to
    -- a call, whose promise can be satisfied once and is not satisfied. When the broker makes a
    -- frame for the channel of a response with the two identifiers, that is a method of the
    -- specification whose values the format carries, and the bytes of the frame come in when a
    -- read begins, the handlers throw nothing; the call's promise has exactly this response, the
    -- channel keeps its place, and the next read is under way.
    pub response_arrives :
        (m : Manager generated_world) (response : Method) (n : ℕ) (o : opens.Promise)
        (k : closes.Promise) (p : calls.Promise)
        → IsSendable spec response
        → n < 2 ^ 16
        → get_elem? m.channels n
          ≡ some (channel (waits generated_world n o k response.class_id response.method_id p))
        → calls.outcome p ≡ none
        → (fr : Frame) × (create_from_method n (serializable response) ≡ ok fr)
          × (m' : Manager generated_world) × (p' : calls.Promise) × (bytes_arrive generated_world
                (frame_bytes constants fr)
                (begin_frame_read generated_world m)
              ≡ ok m')
          × (get_elem? m'.channels n
              ≡ some
                  (channel (waits generated_world n o k response.class_id response.method_id p')))
          × (calls.outcome p' ≡ some (inl response))
          × (m'.reading ≡ header_read)
    response_arrives m response n o k p sendable small there new =
        let fr = method_frame n response in
        let holds : Holds (generated spec names) opens calls closes response.class_id
            response.method_id fr response =
          record {
            is_method = refl;
            read_lem = read_frame_method-method_frame spec response n sendable;
            class_eq = refl;
            method_eq = refl;
          } in
        let (m', p', arrived, kept, has, reading) =
          call_answered generated_world frame_spec promise m fr o k response.class_id
            response.method_id p response response there new
            (method_frame-IsFullFrame response n small sendable.fits) holds
            (method_cast-own response) in
        (
          fr,
          create_from_method-serializable spec response n sendable,
          m',
          p',
          arrived,
          kept,
          has,
          reading,
        )
