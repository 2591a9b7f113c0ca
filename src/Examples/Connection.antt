-- ===== src/Examples/Connection.antt =====
-- The connection: generated code and world that are concrete, and the theorems along a short run.
use libamqp_cpp.Base.{
  ℕ, ◌+◌, ◌≡◌, refl, Bool, true, false, List, [], ◌∷◌, ◌++◌, none, some, inl, err, Exception,
}
use libamqp_cpp.Frame.{fill_header, heartbeat_type, method_type, Frame}
use libamqp_cpp.Frame.Builder.{frame_of}
use libamqp_cpp.Channel.{close_async, new_channel}
use libamqp_cpp.ConnectionManager.{
  closed_state, no_read, World, control, channel, Manager, initial, begin_write_frame,
  write_frame_async, close_channels, on_socket_close, on_write_frame,
}
use libamqp_cpp.ConnectionManager.Channels.{fresh_channel, on_socket_close-twice}
use libamqp_cpp.ConnectionManager.Dispatch.{on_frame_header_read}
use libamqp_cpp.ConnectionManager.Steps.{Reach, here, next, submit, run, complete, header}
use libamqp_cpp.ConnectionManager.Writes.{writes_in_order, write_at_once, closed_for_good}
use libamqp_cpp.Examples.Frames.{constants, fresh}
use libamqp_cpp.Examples.Channels.{promise_of, promise_of-IsPromise, pairs}

abbrev pub world : World
world = record {
  constants = constants;
  methods = pairs;
  opens = promise_of Bool;
  calls = promise_of (ℕ × ℕ);
  closes = promise_of ℕ;
  channels = promise_of ℕ;
}

abbrev pub start : Manager world
start = initial world fresh

abbrev pub zeros : List ℕ
zeros = 0 ∷ 0 ∷ 0 ∷ 0 ∷ 0 ∷ 0 ∷ 0 ∷ 0 ∷ []

abbrev beat : Frame
beat = frame_of heartbeat_type 0 []

abbrev call : Frame
call = frame_of method_type 1 (0 ∷ 20 ∷ 0 ∷ 10 ∷ [])

-- The states of a run: a frame is submitted, and its posted call runs.
abbrev submitted : Manager world
submitted = record start { posted = beat ∷ [] }

abbrev writing : Manager world
writing = begin_write_frame world beat start

to_submitted : Reach world start submitted
unfolding initial write_frame_async
to_submitted = next here (submit beat refl)

from_submitted : Reach world submitted writing
unfolding initial write_frame_async
from_submitted = next here (run [] [] beat refl refl)

to_writing : Reach world start writing
unfolding initial write_frame_async
to_writing = next to_submitted (run [] [] beat refl refl)

-- Then the socket fails.
abbrev shut : Manager world
shut = record writing {
  state = closed_state;
  builder = fill_header zeros writing.builder;
  reading = no_read;
}

to_shut : Reach world start shut
unfolding initial begin_write_frame on_socket_close close_channels on_frame_header_read
to_shut = next to_writing (header true zeros refl refl refl)

-- The handler of the write that was under way still runs.
abbrev idle : Manager world
idle = record shut { current_write_frame = none; outstanding = 0 }

from_shut : Reach world shut idle
unfolding initial begin_write_frame on_write_frame
from_shut = next here (complete false 0 refl refl)

-- The write ends, and a second frame is taken.
abbrev written : Manager world
written = record writing { current_write_frame = none; outstanding = 0 }

to_written : Reach world writing written
unfolding initial begin_write_frame on_write_frame
to_written = next here (complete false 0 refl refl)

writes_in_order_example :
    (between : List Frame) × (written.started ≡ submitted.started ++ beat ∷ between)
    × (behind : List Frame) × ((begin_write_frame world call written).started
        ≡ (submitted.started ++ beat ∷ between) ++ call ∷ behind)
unfolding initial begin_write_frame
writes_in_order_example =
    writes_in_order world beat call [] [] (fresh, to_submitted) refl to_written refl here

write_at_once_example :
    let m' = begin_write_frame world call writing in
    (m'.started ≡ writing.started ++ call ∷ []) × (m'.outstanding ≡ writing.outstanding + 1)
unfolding initial begin_write_frame
write_at_once_example = write_at_once world call (fresh, to_writing) refl

closed_for_good_example : (idle.state ≡ closed_state) × (idle.started ≡ shut.started)
closed_for_good_example = closed_for_good world (fresh, to_shut) from_shut refl

-- A table with one open channel.
abbrev one_channel : Manager world
one_channel = record start { channels = control ∷ channel (fresh_channel world 1) ∷ [] }

abbrev channel_closed : Manager world
channel_closed = record start {
  state = closed_state;
  channels =
      control ∷ channel (record (fresh_channel world 1) { closed_promise = some (inl 1) }) ∷ [];
}

on_socket_close-twice_example : (e : Exception) × (on_socket_close world channel_closed ≡ err e)
unfolding initial on_socket_close close_channels close_async new_channel
on_socket_close-twice_example =
    on_socket_close-twice world one_channel channel_closed (promise_of-IsPromise ℕ) tt refl
