-- ===== src/ConnectionManager.antt =====
-- detail/connection_manager.h and .cpp: the writing side, the closing of the socket and the table
-- of channels. The handlers run one after the other on the thread of the io_service; what the
-- io_service and the socket hold between two handlers is part of the state:
-- `posted`, the frames of the posted calls of begin_write_frame; `requests`, the promises of the
-- posted calls of start_open_channel; `reading`, the read that is under way; `started`, the frames
-- given to async_write so far; and `outstanding`, the number of these whose handler has not run.
-- What the handlers do with a frame that came in is in the child Dispatch.
pub mod Dispatch
pub mod Channels
pub mod Outcomes
pub mod Entries
pub mod Steps
pub mod Invariant
pub mod Runs
pub mod Table
pub mod Delivery
pub mod Responses
pub mod Generated
pub mod Extends
pub mod Handlers
pub mod Writes
use libamqp_cpp.Base.{
  ℕ, zero, suc, ◌+◌, ◌-◌, ◌^◌, ◌≡◌, Bool, true, false, List, [], ◌∷◌, ◌++◌, Option, none, some,
  ◌>>=◌, Result, ok, err, undefined, Exception, runtime_error, ltb, if◌then◌else◌, length, ◌==◌,
  ◌&&◌,
}
use libamqp_cpp.Promise.{PromiseOf}
use libamqp_cpp.Channel.{Methods, Channel, new_channel, close_async}
use libamqp_cpp.Frame.{
  Frame, method_type, Serializable, create_from_method, FrameConstants, FrameBuilder, reset,
}

-- enum connection_state
pub data ConnectionState : Type 0 where
  open_state closing_state closed_state : ConnectionState

-- What the connection uses of generated code and of boost: promises that a channel is open, has its
-- response, or has closed, and promises of a new channel, which is the number of its place here.
pub record World : Type 1 where
  pub constants : FrameConstants
  pub methods : Methods
  pub opens : PromiseOf Bool
  pub calls : PromiseOf methods.Method
  pub closes : PromiseOf ℕ
  pub channels : PromiseOf ℕ

-- The read that async_read has under way: none, that of a header, or that of a body's `n` bytes
-- and the end octet.
pub data Reading : Type 0 where
  no_read header_read : Reading
  body_read : ℕ → Reading

-- channel0, whose operations throw.
abbrev pub channel0_process_frame : Frame → Result (Unit {0})
channel0_process_frame fr = err (Exception.logic_error "Channel0 process_frame not implemented.")

abbrev pub channel0_close_async : Result (Unit {0})
channel0_close_async = err (Exception.logic_error "Channel0 close_async not implemented.")

module _ (w : World) where
  abbrev pub ChannelObject : Type 0
  ChannelObject = Channel w.methods w.opens w.calls w.closes

  -- An entry of m_channels, a weak pointer: to nothing, to channel0, or to a channel_impl. As the
  -- objects are shared, what their other owners do to them is done to the entry.
  pub data Slot : Type 0 where
    expired : Slot
    control : Slot
    channel : ChannelObject → Slot

  pub record Manager : Type 0 where
    pub state : ConnectionState
    pub channels : List Slot
    pub write_queue : List Frame
    pub current_write_frame : Option Frame
    pub builder : FrameBuilder
    pub reading : Reading
    pub posted : List Frame
    pub requests : List w.channels.Promise
    pub started : List Frame
    pub outstanding : ℕ
    pub connection_closed_promise : w.opens.Promise

  unfoldable pub begin_frame_read : Manager → Manager
  begin_frame_read m = record m { builder = reset m.builder; reading = header_read }

  -- The state after the constructor and start_async_read_loop, which stores channel0; the builder
  -- is as the handshake left it.
  unfoldable pub initial : FrameBuilder → Manager
  unfolding begin_frame_read
  initial b = begin_frame_read (record {
    state = open_state;
    channels = control ∷ [];
    write_queue = [];
    current_write_frame = none;
    builder = b;
    reading = no_read;
    posted = [];
    requests = [];
    started = [];
    outstanding = 0;
    connection_closed_promise = w.opens.new_promise;
  })

  -- m_current_write_frame = m_write_queue.front(); m_write_queue.pop(); async_write(...)
  unfoldable pub start_write : List Frame → Manager → Manager
  start_write [] m = m
  start_write (fr ∷ queue) m = record m {
    write_queue = queue;
    current_write_frame = some fr;
    started = m.started ++ fr ∷ [];
    outstanding = m.outstanding + 1;
  }

  unfoldable pub begin_write_frame : Frame → Manager → Manager
  unfolding start_write
  begin_write_frame fr m = elim m.state [
    | open_state ↦
        let is_writing = ltb 0 (length m.write_queue) in
        let pushed = record m { write_queue = m.write_queue ++ fr ∷ [] } in
        if is_writing then pushed else start_write pushed.write_queue pushed
    | _ ↦ m
  ]

  unfoldable pub write_frame_async : Frame → Manager → Result Manager
  write_frame_async fr m = elim m.state [
    | open_state ↦ ok (record m { posted = m.posted ++ fr ∷ [] })
    | _ ↦ err (runtime_error "Attempted to use a connection that isn't open")
  ]

  -- The loop of close_channels; a channel's close_async satisfies its promise.
  unfoldable pub close_slots : List Slot → Result (List Slot)
  close_slots [] = ok []
  close_slots (expired ∷ rest) = do rest' ← close_slots rest; ok (expired ∷ rest')
  close_slots (control ∷ rest) = do
    done ← channel0_close_async
    rest' ← close_slots rest
    ok (control ∷ rest')
  close_slots (channel ch ∷ rest) = do
    ch' ← close_async w.methods w.opens w.calls w.closes ch
    rest' ← close_slots rest
    ok (channel ch' ∷ rest')

  -- It starts at m_channels.begin() + 1.
  unfoldable pub close_channels : List Slot → Result (List Slot)
  unfolding close_slots
  close_channels [] = undefined
  close_channels (first ∷ rest) = do rest' ← close_slots rest; ok (first ∷ rest')

  unfoldable pub on_socket_close : Manager → Result Manager
  on_socket_close m = do
    channels ← close_channels m.channels
    ok (record m { state = closed_state; channels = channels })

  -- `failed` is a set error_code.
  unfoldable pub on_write_frame : Bool → Manager → Result Manager
  on_write_frame failed m =
      if failed
      then on_socket_close m
      else (if ltb 0 (length m.write_queue)
          then ok (start_write m.write_queue m)
          else ok (record m { current_write_frame = none }))

  -- The new channel's identifier, and the table with it.
  unfoldable pub create_next_channel : Manager → Result (ℕ × Manager)
  create_next_channel m =
      let next_id = length m.channels in
      if ltb (2 ^ 16 - 1) next_id
      then err (runtime_error "Out of channels!")
      else ok (
        next_id,
        record m {
          channels =
              m.channels ++ channel (new_channel w.methods w.opens w.calls w.closes next_id) ∷ [];
        },
      )

  -- connection_impl::begin_write_method, which does not look at the state.
  unfoldable pub begin_write_method : ℕ → Serializable → Manager → Result Manager
  begin_write_method channel_id method m = do
    fr ← create_from_method channel_id method
    ok (record m { posted = m.posted ++ fr ∷ [] })

  -- The answer to a channel.close; any other method is dropped.
  unfoldable pub answer_close : Frame → Manager → Result Manager
  answer_close fr m = do
    method ← w.methods.read fr
    let is_close =
        (w.methods.class_id method == w.methods.channel_class_id)
        && (w.methods.method_id method == w.methods.close_method_id)
    if is_close
        then (do
          close_frame ← create_from_method fr.channel w.methods.close_ok
          ok (begin_write_frame close_frame m))
        else ok m

  unfoldable pub handle_dead_channel_frame : Frame → Manager → Result Manager
  handle_dead_channel_frame fr m = elim fr.type_of [ method_type ↦ answer_close fr m | _ ↦ ok m ]
