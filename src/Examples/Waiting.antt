-- ===== src/Examples/Waiting.antt =====
-- What other threads wait for, on a connection with one channel.
use libamqp_cpp.Base.{
  ℕ, ◌≡◌, refl, ◌⊎◌, inl, inr, Bool, true, false, Option, none, some, [], ◌∷◌, ◌++◌, ok, Exception,
  std_exception, arith, get_elem?,
}
use libamqp_cpp.Frame.{reset, Frame, fill_header, create_from_method}
use libamqp_cpp.Frame.Wire.{frame_bytes}
use libamqp_cpp.Channel.{close_async, new_channel}
use libamqp_cpp.Channel.Opening.{HoldsOther, other_method}
use libamqp_cpp.ConnectionManager.{
  World, closed_state, no_read, header_read, ChannelObject, control, channel, Manager, initial,
  begin_write_frame, begin_frame_read, on_socket_close, close_channels, on_write_frame,
}
use libamqp_cpp.ConnectionManager.Channels.{fresh_channel}
use libamqp_cpp.ConnectionManager.Delivery.{bytes_arrive}
use libamqp_cpp.ConnectionManager.Dispatch.{
  dispatch_frame, start_open_channel, on_frame_header_read,
}
use libamqp_cpp.ConnectionManager.Generated.{generated_world, response_arrives}
use libamqp_cpp.ConnectionManager.Responses.{waits}
use libamqp_cpp.ConnectionManager.Steps.{Reach, Reachable, here, next, complete, header}
use libamqp_cpp.Method.{Method, serializable}
use libamqp_cpp.Waiting.{IsWaitForAny, open_channel, await_declared}
use libamqp_cpp.Waiting.Opening.{
  open_channel-stalled, open_channel-unopened, declare_exchange-answered,
}
use libamqp_cpp.Waiting.Success.{granted, open_channel-succeeds}
use libamqp_cpp.Stream.{write_or_throw}
use libamqp_cpp.Examples.Frames.{constants, constants-IsFrameSpec, fresh}
use libamqp_cpp.Examples.Channels.{
  promise_of, promise_of-IsPromise, method_frame, method_of, with_promise, declared, begin_rpc_run,
}
use libamqp_cpp.Examples.Connection.{world, start, zeros}
use libamqp_cpp.Examples.Methods.{
  some_classes, queue_declare, queue_declare-IsSendable, channel_class,
}
use libamqp_cpp.Examples.Table.{short_frame-IsFullFrame, opening_channel, to_opening, second_entry}

-- Of two futures that are ready it takes the first.
abbrev wait_first : Bool → Bool → Option ℕ
wait_first true b = some 0
wait_first false true = some 1
wait_first false false = none

wait_first-IsWaitForAny : IsWaitForAny wait_first
wait_first-IsWaitForAny = record {
  blocks_lem = refl;
  first_lem = refl;
  second_lem = refl;
  both_lem = inl refl;
}

-- The socket fails before the channel.open-ok comes in.
abbrev unopened : ChannelObject world
unopened = record (fresh_channel world 1) { closed_promise = some (inl 1) }

abbrev failed : Manager world
failed = record opening_channel {
  state = closed_state;
  builder = fill_header zeros opening_channel.builder;
  reading = no_read;
  channels = control ∷ channel unopened ∷ [];
}

to_failed : Reach world start failed
unfolding initial begin_write_frame on_socket_close close_channels on_frame_header_read close_async
    new_channel
to_failed = next to_opening (header true zeros refl refl refl)

-- The write of the channel.open ends.
abbrev silent : Manager world
silent = record failed { current_write_frame = none; outstanding = 0 }

from_failed : Reach world failed silent
unfolding initial begin_write_frame on_write_frame
from_failed = next here (complete false 0 refl refl)

open_channel-stalled_example : open_channel world wait_first (some (inl 1)) silent ≡ none
unfolding new_channel
open_channel-stalled_example =
    open_channel-stalled world wait_first wait_first-IsWaitForAny (some (inl 1)) 1 unopened unopened
      (promise_of-IsPromise Bool) (fresh, to_failed) refl refl refl refl from_failed refl

close_frame-HoldsOther :
    HoldsOther world.methods world.opens world.calls world.closes 20 11 (method_frame 20 40)
close_frame-HoldsOther = other_method (20, 40) refl refl refl (λ e. absurd (omega (arith, e)))

open_channel-unopened_example :
    (m' : Manager world) × (ch : ChannelObject world) × (dispatch_frame world
        (method_frame 20 40)
        opening_channel
      ≡ ok m')
    × (get_elem? m'.channels 1 ≡ some (channel ch))
    × (ch.opened_promise ≡ some (inr std_exception))
    × (open_channel world wait_first (some (inl 1)) m' ≡ some (ok 1))
open_channel-unopened_example =
    open_channel-unopened world wait_first wait_first-IsWaitForAny opening_channel (some (inl 1))
      (method_frame 20 40) (promise_of-IsPromise Bool) refl second_entry close_frame-HoldsOther

open_made : create_from_method 1 (method_of 20 10) ≡ ok (method_frame 20 10)
unfolding create_from_method write_or_throw
open_made = refl

start_again : Reachable world (begin_frame_read world start)
unfolding initial begin_frame_read reset
start_again = (fresh, here)

open_channel-succeeds_example :
    (p : Option (ℕ ⊎ Exception)) × (start_open_channel world none (begin_frame_read world start)
      ≡ ok (p, begin_frame_read world (granted world (method_frame 20 10) start)))
    × ([] ++ method_frame 20 10 ∷ [] ≡ [] ++ method_frame 20 10 ∷ [])
    × (open_channel world wait_first p
          (begin_frame_read world (granted world (method_frame 20 10) start))
        ≡ none)
    × (m' : Manager world) × (ch : ChannelObject world) × (bytes_arrive world
          (frame_bytes constants (method_frame 20 11))
          (begin_frame_read world (granted world (method_frame 20 10) start))
        ≡ ok m')
    × (get_elem? m'.channels 1 ≡ some (channel ch))
    × (ch.opened_promise ≡ some (inl true))
    × (open_channel world wait_first p m' ≡ some (ok 1))
unfolding initial begin_frame_read
open_channel-succeeds_example =
    open_channel-succeeds world wait_first wait_first-IsWaitForAny constants-IsFrameSpec start
      (method_frame 20 10) (method_frame 20 11) (20, 11) (promise_of-IsPromise Bool)
      (promise_of-IsPromise ℕ) start_again refl (omega arith) open_made
      (short_frame-IsFullFrame 20 11 (omega arith)) refl
      (record { is_method = refl; read_lem = refl; class_eq = refl; method_eq = refl })

abbrev declaring : Manager world
declaring = record start { channels = control ∷ channel declared ∷ [] }

declare_exchange-answered_example :
    (await_declared world wait_first none ≡ none)
    × (m' : Manager world) × (p : Option ((ℕ × ℕ) ⊎ Exception)) × (dispatch_frame world
          (method_frame 40 11)
          declaring
        ≡ ok m')
    × (get_elem? m'.channels 1 ≡ some (channel (waits world 1 (some (inl true)) none 40 11 p)))
    × (p ≡ some (inl (40, 11)))
    × (await_declared world wait_first p ≡ some (ok tt))
unfolding initial
declare_exchange-answered_example =
    declare_exchange-answered world wait_first wait_first-IsWaitForAny declaring
      (with_promise (some (inl true))) declared 40 11 (method_of 40 10) (method_frame 40 10)
      (method_frame 40 11) (40, 11) (40, 11) (promise_of-IsPromise (ℕ × ℕ)) refl begin_rpc_run refl
      (record { is_method = refl; read_lem = refl; class_eq = refl; method_eq = refl }) refl

-- The generated methods of a few classes, and a channel that waits for a queue.declare.
abbrev real : World
real =
    generated_world some_classes channel_class constants (promise_of Bool) (promise_of Method)
      (promise_of ℕ) (promise_of ℕ)

abbrev calling_channel : Manager real
calling_channel = record (initial real fresh) {
  channels = control ∷ channel (waits real 1 (some (inl true)) none 50 10 none) ∷ [];
}

response_arrives_example :
    (fr : Frame) × (create_from_method 1 (serializable queue_declare) ≡ ok fr)
    × (m' : Manager real) × (p' : Option (Method ⊎ Exception)) × (bytes_arrive real
          (frame_bytes constants fr)
          (begin_frame_read real calling_channel)
        ≡ ok m')
    × (get_elem? m'.channels 1 ≡ some (channel (waits real 1 (some (inl true)) none 50 10 p')))
    × (p' ≡ some (inl queue_declare))
    × (m'.reading ≡ header_read)
response_arrives_example =
    response_arrives some_classes channel_class constants (promise_of Bool) (promise_of Method)
      (promise_of ℕ) (promise_of ℕ) constants-IsFrameSpec (promise_of-IsPromise Method)
      calling_channel queue_declare 1 (some (inl true)) none none queue_declare-IsSendable
      (omega arith) refl refl
