-- ===== src/ConnectionManager/Dispatch.antt =====
-- detail/connection_manager.cpp: the asynchronous reading loop, the dispatch of frames to channels,
-- and the opening and the end of a channel object.
use libamqp_cpp.Base.{
  ℕ, zero, suc, Bool, List, [], ◌∷◌, ◌++◌, Option, none, some, ◌>>=◌, Result, ok, err, undefined,
  out_of_fuel, Exception, runtime_error, logic_error, std_exception, connection_exception,
  channel_exception, leb, if◌then◌else◌, length, get_elem?,
}
use libamqp_cpp.Frame.{
  Frame, create_from_method, fill_header, fill_body, is_body_read_required, get_body_buffer,
  create_frame,
}
use libamqp_cpp.Channel.{Handled, process_frame, close_, new_channel}
use libamqp_cpp.ConnectionManager.{
  World, Slot, expired, control, channel, Manager, no_read, body_read, ChannelObject,
  begin_frame_read, begin_write_frame, create_next_channel, on_socket_close,
  handle_dead_channel_frame, channel0_process_frame,
}

abbrev pub set_elem {ℓ} : {A : Type ℓ} → ℕ → A → List A → List A
set_elem i x [] = []
set_elem zero x (y ∷ ys) = x ∷ ys
set_elem (suc i) x (y ∷ ys) = y ∷ set_elem i x ys

-- What `catch (std::runtime_error& e)` catches, as the copy that copy_exception(e) makes of it.
unfoldable pub as_runtime_error : Exception → Option Exception
as_runtime_error (runtime_error message) = some (runtime_error message)
as_runtime_error connection_exception = some (runtime_error "A connection exception occurred")
as_runtime_error (channel_exception code text class_id method_id) =
    some (runtime_error "A channel exception occurred")
as_runtime_error (logic_error message) = none
as_runtime_error std_exception = none

module _ (w : World) where
  -- The table and the posted calls after a channel's handler.
  unfoldable pub after_handler :
      ℕ → Handled w.methods w.opens w.calls w.closes → Manager w → Manager w
  after_handler n h m = record m {
    channels = set_elem n (channel h.left) m.channels;
    posted = m.posted ++ h.posted;
  }

  -- try { fh->process_frame(fr); } catch (amqpp::connection_exception&) {}
  unfoldable pub catch_connection_exception : Result (Unit {0}) → Manager w → Result (Manager w)
  catch_connection_exception (ok done) m = ok m
  catch_connection_exception (err connection_exception) m = ok m
  catch_connection_exception (err e) m = err e
  catch_connection_exception undefined m = undefined
  catch_connection_exception out_of_fuel m = out_of_fuel

  unfoldable pub deliver : Frame → ChannelObject w → Manager w → Result (Manager w)
  unfolding after_handler catch_connection_exception
  deliver fr ch m =
      let h = process_frame w.methods w.opens w.calls w.closes fr ch in
      catch_connection_exception h.ended (after_handler fr.channel h m)

  -- The entry of m_channels that was looked up; an index out of its bounds is `undefined`.
  unfoldable pub hand_over : Frame → Option (Slot w) → Manager w → Result (Manager w)
  unfolding deliver
  hand_over fr none m = undefined
  hand_over fr (some expired) m = handle_dead_channel_frame w fr m
  hand_over fr (some control) m = catch_connection_exception (channel0_process_frame fr) m
  hand_over fr (some (channel ch)) m = deliver fr ch m

  unfoldable pub dispatch_frame : Frame → Manager w → Result (Manager w)
  unfolding hand_over
  dispatch_frame fr m = do
    m' ← if leb (length m.channels) fr.channel then handle_dead_channel_frame w fr m else ok m
    hand_over fr (get_elem? m'.channels fr.channel) m'

  -- The last three lines of both handlers of a read.
  unfoldable pub receive_frame : Manager w → Result (Manager w)
  receive_frame m = do
    received_frame ← create_frame w.constants m.builder
    m' ← dispatch_frame received_frame m
    ok (begin_frame_read w m')

  -- `failed` is a set error_code.
  unfoldable pub on_frame_header_read : Bool → Manager w → Result (Manager w)
  unfolding receive_frame
  on_frame_header_read failed m = if failed then on_socket_close w m else (do
    (required, b) ← is_body_read_required w.constants m.builder
    if required
        then (do
          ((n, one), b') ← get_body_buffer w.constants b
          ok (record m { builder = b'; reading = body_read n }))
        else receive_frame (record m { builder = b }))

  unfoldable pub on_frame_body_read : Bool → Manager w → Result (Manager w)
  unfolding receive_frame
  on_frame_body_read failed m = if failed then on_socket_close w m else receive_frame m

  -- What async_read does before it calls its handler.
  abbrev pub header_arrives : List ℕ → Manager w → Manager w
  header_arrives bytes m = record m { builder = fill_header bytes m.builder; reading = no_read }

  abbrev pub body_arrives : ℕ → List ℕ → Manager w → Manager w
  body_arrives n bytes m = record m { builder = fill_body n bytes m.builder; reading = no_read }

  -- An exception that leaves a destructor is `undefined`.
  unfoldable pub end_destructor : Result (Unit {0}) → Manager w → Result (Manager w)
  end_destructor (ok done) m = ok m
  end_destructor _ m = undefined

  -- The destructor of a channel object, to which the table's entry points.
  unfoldable pub destroy_channel : ℕ → ChannelObject w → Manager w → Result (Manager w)
  unfolding end_destructor
  destroy_channel n ch m =
      let h = close_ w.methods w.opens w.calls w.closes 200 [] 0 0 ch in
      end_destructor h.ended
        (record m { channels = set_elem n expired m.channels; posted = m.posted ++ h.posted })

  unfoldable pub begin_open_channel : Manager w → Manager w
  begin_open_channel m = record m { requests = m.requests ++ w.channels.new_promise ∷ [] }

  abbrev pub Opened : Type 0
  Opened = w.channels.Promise × Manager w

  -- The catch clause, by what it catches.
  unfoldable pub refuse_channel :
      Option Exception → Exception → w.channels.Promise → Manager w → Result Opened
  refuse_channel none e promise m = err e
  refuse_channel (some caught) e promise m = do
    p ← w.channels.set_exception caught promise
    ok (p, m)

  -- The frame of the channel.open, or what its making threw; the new channel's object ends with
  -- the call then. What set_value throws is a logic_error, which is not caught.
  unfoldable pub announce_channel :
      Result Frame → ℕ → w.channels.Promise → Manager w → Result Opened
  unfolding refuse_channel destroy_channel
  announce_channel (ok fr) n promise m = do
    p ← w.channels.set_value n promise
    ok (p, begin_write_frame w fr m)
  announce_channel (err e) n promise m = do
    (p, m₁) ← refuse_channel (as_runtime_error e) e promise m
    m₂ ← destroy_channel n (new_channel w.methods w.opens w.calls w.closes n) m₁
    ok (p, m₂)
  announce_channel undefined n promise m = undefined
  announce_channel out_of_fuel n promise m = out_of_fuel

  -- What create_next_channel gave or threw.
  unfoldable pub continue_open :
      Result (ℕ × Manager w) → w.channels.Promise → Manager w → Result Opened
  unfolding announce_channel
  continue_open (ok (n, m₁)) promise m =
      announce_channel (create_from_method n w.methods.open_method) n promise m₁
  continue_open (err e) promise m = refuse_channel (as_runtime_error e) e promise m
  continue_open undefined promise m = undefined
  continue_open out_of_fuel promise m = out_of_fuel

  unfoldable pub start_open_channel : w.channels.Promise → Manager w → Result Opened
  unfolding continue_open
  start_open_channel promise m = continue_open (create_next_channel w m) promise m
