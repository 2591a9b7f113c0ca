-- ===== src/Examples/Table.antt =====
-- The connection with a channel: it is asked for and opened, and the theorems on the table of
-- channels in the state that is reached.
use libamqp_cpp.Base.{
  ℕ, ◌<◌, ◌^◌, ◌≡◌, refl, Bool, true, List, [], ◌∷◌, some, none, inl, ok, err, logic_error, ◌>>=◌,
  arith, get_elem?,
}
use libamqp_cpp.Stream.{write_or_throw}
use libamqp_cpp.Frame.{heartbeat_type, FrameBuilder, create_from_method}
use libamqp_cpp.Frame.Wire.{frame_bytes}
use libamqp_cpp.Frame.Builder.{frame_of}
use libamqp_cpp.Frame.Reader.{IsFullFrame}
use libamqp_cpp.Channel.{process_frame, continue_with, handle_end}
use libamqp_cpp.ConnectionManager.{
  closed_state, Slot, control, channel, Manager, initial, begin_write_frame, begin_frame_read,
  on_socket_close, create_next_channel,
}
use libamqp_cpp.ConnectionManager.Channels.{fresh_channel}
use libamqp_cpp.ConnectionManager.Dispatch.{dispatch_frame, begin_open_channel, start_open_channel}
use libamqp_cpp.ConnectionManager.Steps.{Reach, Reachable, here, next, request, open_channel}
use libamqp_cpp.ConnectionManager.Table.{
  channel_numbers, AreClosed, on_socket_close-closes, dispatch_frame-channel0,
}
use libamqp_cpp.ConnectionManager.Delivery.{bytes_arrive, holding, bytes_arrive-dispatch_frame}
use libamqp_cpp.ConnectionManager.Responses.{waits}
use libamqp_cpp.Examples.Frames.{constants, constants-IsFrameSpec, fresh}
use libamqp_cpp.Examples.Channels.{promise_of, promise_of-IsPromise, pairs, method_frame}
use libamqp_cpp.Examples.Connection.{world, start}

-- A channel is asked for, and its frame of a channel.open is written.
abbrev asked : Manager world
asked = record start { requests = none ∷ [] }

abbrev pub opening_channel : Manager world
opening_channel =
    begin_write_frame world (method_frame 20 10)
      (record start { channels = control ∷ channel (fresh_channel world 1) ∷ [] })

to_asked : Reach world start asked
unfolding initial begin_open_channel
to_asked = next here (request refl)

pub to_opening : Reach world start opening_channel
unfolding initial start_open_channel create_next_channel create_from_method write_or_throw
to_opening = next to_asked (open_channel [] [] none (some (inl 1)) refl refl)

opening_channel-Reachable : Reachable world opening_channel
opening_channel-Reachable = (fresh, to_opening)

pub second_entry : get_elem? opening_channel.channels 1 ≡ some (channel (fresh_channel world 1))
unfolding initial begin_write_frame
second_entry = refl

channel_numbers_example :
    ((fresh_channel world 1).channel_id ≡ 1)
    × (process_frame pairs
          (promise_of Bool)
          (promise_of (ℕ × ℕ))
          (promise_of ℕ)
          (method_frame 20 11)
          (fresh_channel world 1)
        ≡ handle_end pairs
            (promise_of Bool)
            (promise_of (ℕ × ℕ))
            (promise_of ℕ)
            (continue_with pairs
              (promise_of Bool)
              (promise_of (ℕ × ℕ))
              (promise_of ℕ)
              (method_frame 20 11)
              (fresh_channel world 1)).0
            (continue_with pairs
              (promise_of Bool)
              (promise_of (ℕ × ℕ))
              (promise_of ℕ)
              (method_frame 20 11)
              (fresh_channel world 1)).1)
channel_numbers_example =
    channel_numbers world (promise_of-IsPromise ℕ) 1 (fresh_channel world 1) (method_frame 20 11)
      opening_channel-Reachable second_entry refl

still_open : opening_channel.state ≡ closed_state → ⊥
unfolding initial begin_write_frame
still_open e = cc

on_socket_close-closes_example :
    (cs : List (Slot world)) × (on_socket_close world opening_channel
      ≡ ok (record opening_channel { state = closed_state; channels = cs }))
    × AreClosed world opening_channel.channels cs
on_socket_close-closes_example =
    on_socket_close-closes world (promise_of-IsPromise ℕ) opening_channel-Reachable still_open

-- A heartbeat, on channel 0 as the protocol has it, and one for a channel that is not there.
dispatch_frame-channel0_example :
    dispatch_frame world (frame_of heartbeat_type 0 []) opening_channel
    ≡ err (logic_error "Channel0 process_frame not implemented.")
dispatch_frame-channel0_example =
    dispatch_frame-channel0 world (promise_of-IsPromise ℕ) (frame_of heartbeat_type 0 [])
      opening_channel-Reachable refl

pub short_frame-IsFullFrame : (c i : ℕ) → c < 2 ^ 8 → IsFullFrame (method_frame c i)
short_frame-IsFullFrame c i h = record {
  channel_lt = omega arith;
  size_lt = omega arith;
  full = refl;
  octets = λ x xs e. first_octet x xs e;
}
  where
    first_octet : (x : ℕ) (xs : List ℕ) → c ∷ i ∷ [] ≡ x ∷ xs → x < 2 ^ 8
    first_octet x xs e = ground arith

bytes_arrive-dispatch_frame_example :
    (b : FrameBuilder) × (bytes_arrive world
        (frame_bytes constants (method_frame 20 11))
        (begin_frame_read world opening_channel)
      ≡ (dispatch_frame world (method_frame 20 11) (holding world b opening_channel) >>= λ m'.
          ok (begin_frame_read world m')))
bytes_arrive-dispatch_frame_example =
    bytes_arrive-dispatch_frame world constants-IsFrameSpec (method_frame 20 11) opening_channel
      (short_frame-IsFullFrame 20 11 (omega arith))

-- A channel that waits for an exchange.declare-ok.
abbrev calling_channel : Manager world
calling_channel = record start {
  channels = control ∷ channel (waits world 1 (some (inl true)) none 40 11 none) ∷ [];
}
