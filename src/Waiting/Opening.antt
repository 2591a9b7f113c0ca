-- ===== src/Waiting/Opening.antt =====
-- How open_channel and declare_exchange end, or do not end.
use libamqp_cpp.Base.{
  ℕ, ◌≡◌, inl, inr, Bool, true, false, [], ◌++◌, Option, some, none, ok, std_exception, length,
  get_elem?, lt→leb,
}
use libamqp_cpp.Promise.{IsPromise}
use libamqp_cpp.Frame.{Frame, Serializable}
use libamqp_cpp.Channel.Opening.{
  Holds, HoldsOther, process_frame-open_ok, process_frame-not_open_ok,
}
use libamqp_cpp.Channel.Calls.{waiting, begin_rpc-answered}
use libamqp_cpp.Channel.{new_channel, begin_rpc}
use libamqp_cpp.ConnectionManager.{World, Manager, Slot, channel, ChannelObject, no_read}
use libamqp_cpp.ConnectionManager.Channels.{fresh_channel}
use libamqp_cpp.ConnectionManager.Dispatch.{set_elem, dispatch_frame}
use libamqp_cpp.ConnectionManager.Entries.{get_elem?-lt, get_elem?-set_same}
use libamqp_cpp.ConnectionManager.Steps.{Reach, Reachable}
use libamqp_cpp.Waiting.{IsWaitForAny, unassociated, is_ready, open_channel, await_declared}
use libamqp_cpp.Waiting.Closing.{connection_closed_promise-new}
use libamqp_cpp.Waiting.Stalled.{IsStalled, Reach-IsStalled}

module _ (w : World) (wait_for_any : Bool → Bool → Option ℕ)
    (waits : IsWaitForAny wait_for_any) where
  -- A state that the connection reaches in which no read is under way, as the handler of a read that
  -- fails leaves it. A thread in open_channel has its channel object, whose promise that it is open
  -- is not satisfied. Then, through any sequence of handlers and calls, as long as the object is
  -- there the thread waits. Promises are not satisfied when they are new.
  pub open_channel-stalled :
      {m m' : Manager w} (p : w.channels.Promise) (n : ℕ) (ch ch' : ChannelObject w)
      → IsPromise w.opens
      → Reachable w m
      → m.reading ≡ no_read
      → w.channels.outcome p ≡ some (inl n)
      → get_elem? m.channels n ≡ some (channel ch)
      → w.opens.outcome ch.opened_promise ≡ none
      → Reach w m m'
      → get_elem? m'.channels n ≡ some (channel ch')
      → open_channel w wait_for_any p m' ≡ none
  unfolding open_channel
  open_channel-stalled {m} {m'} p n ch ch' promise reached idle got there unopened r still =
      let stalled : IsStalled w n ch.opened_promise w.opens.new_promise m = record {
        not_reading = idle;
        closing = connection_closed_promise-new w reached;
        within = get_elem?-lt m.channels n _ there;
        opening = λ x e. cc;
      } in
      let after = Reach-IsStalled w n ch.opened_promise w.opens.new_promise r stalled in
      rw (
        got,
        still,
        after.opening ch' still,
        unopened,
        after.closing,
        promise.new_lem,
        waits.blocks_lem,
      )

  wakes : (b : Bool) → (i : ℕ) × (wait_for_any true b ≡ some i)
  wakes false = (0, waits.first_lem)
  wakes true = elim waits.both_lem [ inl e ↦ (0, e) | inr e ↦ (1, e) ]

  -- A thread in open_channel has its channel object, in the table as it was made, and waits, as long
  -- as the promise that the connection has closed is not satisfied. When a frame comes for the
  -- channel that holds the channel.open-ok, given promises that can be satisfied once,
  -- dispatch_frame throws nothing; the object, which keeps its place, has the value true in its
  -- promise that it is open; and open_channel returns it.
  pub open_channel-opened :
      (m : Manager w) (p : w.channels.Promise) (fr : Frame) (method : w.methods.Method)
      → IsPromise w.opens
      → w.opens.outcome m.connection_closed_promise ≡ none
      → w.channels.outcome p ≡ some (inl fr.channel)
      → get_elem? m.channels fr.channel ≡ some (channel (fresh_channel w fr.channel))
      → Holds w.methods w.opens w.calls w.closes w.methods.channel_class_id
          w.methods.open_ok_method_id fr method
      → (open_channel w wait_for_any p m ≡ none)
        × (m' : Manager w) × (ch : ChannelObject w) × (dispatch_frame w fr m ≡ ok m')
        × (get_elem? m'.channels fr.channel ≡ some (channel ch))
        × (w.opens.outcome ch.opened_promise ≡ some (inl true))
        × (open_channel w wait_for_any p m' ≡ some (ok fr.channel))
  unfolding dispatch_frame open_channel new_channel
  open_channel-opened m p fr method promise unclosed got there holds =
      let (q, handled, has) =
        process_frame-open_ok w.methods w.opens w.calls w.closes promise fr method holds in
      let inside = get_elem?-lt m.channels fr.channel _ there in
      let ch : ChannelObject w = record (fresh_channel w fr.channel) { opened_promise = q } in
      let m' : Manager w = record m {
        channels = set_elem fr.channel (channel ch) m.channels;
        posted = m.posted ++ [];
      } in
      let left = get_elem?-set_same m.channels fr.channel (channel ch) _ there in
      (
        rw (got, there, promise.new_lem, unclosed, waits.blocks_lem),
        m',
        ch,
        rw (lt→leb (length m.channels) fr.channel inside, there, handled),
        left,
        has,
        rw (got, left, has, unclosed, waits.first_lem),
      )

  -- A thread in open_channel has its channel object, in the table as it was made. When a frame comes
  -- for the channel that is none of a method, or that holds a method that method::read returns and
  -- that is not the channel.open-ok, given promises that can be satisfied once, dispatch_frame throws
  -- nothing, and open_channel returns the channel, although the promise that it is open has an
  -- exception.
  pub open_channel-unopened :
      (m : Manager w) (p : w.channels.Promise) (fr : Frame)
      → IsPromise w.opens
      → w.channels.outcome p ≡ some (inl fr.channel)
      → get_elem? m.channels fr.channel ≡ some (channel (fresh_channel w fr.channel))
      → HoldsOther w.methods w.opens w.calls w.closes w.methods.channel_class_id
          w.methods.open_ok_method_id fr
      → (m' : Manager w) × (ch : ChannelObject w) × (dispatch_frame w fr m ≡ ok m')
        × (get_elem? m'.channels fr.channel ≡ some (channel ch))
        × (w.opens.outcome ch.opened_promise ≡ some (inr std_exception))
        × (open_channel w wait_for_any p m' ≡ some (ok fr.channel))
  unfolding dispatch_frame open_channel
  open_channel-unopened m p fr promise got there other =
      let (q, handled, has) =
        process_frame-not_open_ok w.methods w.opens w.calls w.closes promise fr other in
      let inside = get_elem?-lt m.channels fr.channel _ there in
      let ch : ChannelObject w = record (fresh_channel w fr.channel) { opened_promise = q } in
      let m' : Manager w = record m {
        channels = set_elem fr.channel (channel ch) m.channels;
        posted = m.posted ++ [];
      } in
      let left = get_elem?-set_same m.channels fr.channel (channel ch) _ there in
      let (i, woken) = wakes (is_ready (w.opens.outcome m.connection_closed_promise)) in
      (
        m',
        ch,
        rw (lt→leb (length m.channels) fr.channel inside, there, handled),
        left,
        has,
        rw (got, left, has, woken),
      )

  -- A thread has begun a call of declare_exchange on a channel object in the table, and waits. When
  -- the frame of the response comes in, given promises that can be satisfied once, dispatch_frame
  -- throws nothing; the object, which keeps its place, has the response in the call's promise; and
  -- declare_exchange returns.
  pub declare_exchange-answered :
      (m : Manager w) (ch ch' : ChannelObject w) (class_id method_id : ℕ) (sent : Serializable)
      (out fr : Frame) (method answer : w.methods.Method)
      → IsPromise w.calls
      → get_elem? m.channels fr.channel ≡ some (channel ch')
      → begin_rpc w.methods w.opens w.calls w.closes unassociated class_id method_id sent ch
        ≡ ok (ch', out)
      → fr.channel ≡ ch.channel_id
      → Holds w.methods w.opens w.calls w.closes class_id method_id fr method
      → w.methods.method_cast class_id method_id method ≡ ok answer
      → (await_declared w wait_for_any w.calls.new_promise ≡ none)
        × (m' : Manager w) × (p : w.calls.Promise) × (dispatch_frame w fr m ≡ ok m')
        × (get_elem? m'.channels fr.channel
            ≡ some (
                channel (
                  waiting w.methods w.opens w.calls w.closes ch.channel_id ch.opened_promise
                    ch.closed_promise class_id method_id p)))
        × (w.calls.outcome p ≡ some (inl answer))
        × (await_declared w wait_for_any p ≡ some (ok tt))
  unfolding dispatch_frame await_declared
  declare_exchange-answered m ch ch' class_id method_id sent out fr method answer promise there
        begun same holds cast =
      let (made, p, handled, has) =
        begin_rpc-answered w.methods w.opens w.calls w.closes promise ch ch' class_id method_id sent
          out fr method answer begun same holds cast in
      let inside = get_elem?-lt m.channels fr.channel _ there in
      let answered : Slot w = channel (
        waiting w.methods w.opens w.calls w.closes ch.channel_id ch.opened_promise ch.closed_promise
          class_id method_id p) in
      let m' : Manager w = record m {
        channels = set_elem fr.channel answered m.channels;
        posted = m.posted ++ [];
      } in
      (
        rw (promise.new_lem, waits.blocks_lem),
        m',
        p,
        rw (lt→leb (length m.channels) fr.channel inside, there, handled),
        get_elem?-set_same m.channels fr.channel answered _ there,
        has,
        rw (has, waits.first_lem),
      )
