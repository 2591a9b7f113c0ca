-- ===== src/Waiting/Success.antt =====
-- A channel from its request to its opening.
use libamqp_cpp.Base.{
  ℕ, ◌+◌, ◌-◌, ◌^◌, ◌<◌, ◌≡◌, refl, sym, ap, ◌∙◌, subst, Bool, true, Option, some, none, inl, List,
  [], ◌∷◌, ◌++◌, Result, ok, err, undefined, out_of_fuel, ◌>>=◌, length, get_elem?, le→ltb, arith,
}
use libamqp_cpp.Promise.{IsPromise}
use libamqp_cpp.Frame.{IsFrameSpec, Frame, create_from_method}
use libamqp_cpp.Frame.Wire.{frame_bytes}
use libamqp_cpp.Frame.Reader.{IsFullFrame}
use libamqp_cpp.Channel.Opening.{Holds}
use libamqp_cpp.ConnectionManager.{
  World, Manager, Slot, expired, control, channel, ChannelObject, open_state, begin_frame_read,
  create_next_channel,
}
use libamqp_cpp.ConnectionManager.Channels.{fresh_channel}
use libamqp_cpp.ConnectionManager.Delivery.{bytes_arrive, holding, bytes_arrive-dispatch_frame}
use libamqp_cpp.ConnectionManager.Dispatch.{start_open_channel}
use libamqp_cpp.ConnectionManager.Entries.{get_elem?-last}
use libamqp_cpp.ConnectionManager.Extends.{begin_write_frame-open}
use libamqp_cpp.ConnectionManager.Steps.{Reachable}
use libamqp_cpp.ConnectionManager.Writes.{write_queue_empty}
use libamqp_cpp.Waiting.Closing.{connection_closed_promise-new}
use libamqp_cpp.Waiting.{IsWaitForAny, after_wait, get, await_opened, await_channel, open_channel}
use libamqp_cpp.Waiting.Opening.{open_channel-opened}

module _ (w : World) where
  -- The state behind a request that was granted: `out` is the frame of the channel.open.
  abbrev pub granted : Frame → Manager w → Manager w
  granted out m = record m {
    channels = m.channels ++ channel (fresh_channel w (length m.channels)) ∷ [];
    write_queue = [];
    current_write_frame = some out;
    started = m.started ++ out ∷ [];
    outstanding = m.outstanding + 1;
  }

  start_open_channel-granted :
      (m : Manager w) (p : w.channels.Promise) (out : Frame)
      → IsPromise w.channels
      → m.state ≡ open_state
      → m.write_queue ≡ []
      → length m.channels < 2 ^ 16
      → w.channels.outcome p ≡ none
      → create_from_method (length m.channels) w.methods.open_method ≡ ok out
      → (p' : w.channels.Promise) × (start_open_channel w p m ≡ ok (p', granted out m))
        × (w.channels.outcome p' ≡ some (inl (length m.channels)))
  unfolding start_open_channel create_next_channel
  start_open_channel-granted m p out promise opened idle room new made =
      let (p', set, has) = promise.set_value_lem (length m.channels) p new in
      let m₁ : Manager w = record m {
        channels = m.channels ++ channel (fresh_channel w (length m.channels)) ∷ [];
      } in
      (
        p',
        rw (
          le→ltb (2 ^ 16 - 1) (length m.channels) (omega arith),
          made,
          set,
          begin_write_frame-open w out m₁ opened idle,
        ),
        has,
      )

after_wait-same {ℓ κ} :
    {A : Type ℓ} {B : Type κ} (x : Option A) (f g : A → Option B)
    → ((a : A) → f a ≡ g a)
    → after_wait x f ≡ after_wait x g
after_wait-same none f g h = refl
after_wait-same (some a) f g h = h a

-- A thread that waits looks at the table and at the connection's promise only.
module _ (w : World) (wait_for_any : Bool → Bool → Option ℕ) (m m' : Manager w)
    (table : m'.channels ≡ m.channels)
    (closing : m'.connection_closed_promise ≡ m.connection_closed_promise) where
  await_opened-same :
      (n : ℕ) (slot : Option (Slot w))
      → await_opened w wait_for_any n slot m' ≡ await_opened w wait_for_any n slot m
  unfolding await_opened
  await_opened-same n none = refl
  await_opened-same n (some expired) = refl
  await_opened-same n (some control) = refl
  await_opened-same n (some (channel ch)) = rw closing refl

  await_channel-same :
      (r : Result ℕ) → await_channel w wait_for_any r m' ≡ await_channel w wait_for_any r m
  unfolding await_channel
  await_channel-same (ok n) =
      await_opened-same n (get_elem? m'.channels n)
      ∙ ap (λ (cs : List (Slot w)). await_opened w wait_for_any n (get_elem? cs n) m) table
  await_channel-same (err e) = refl
  await_channel-same undefined = refl
  await_channel-same out_of_fuel = refl

  open_channel-same :
      (p : w.channels.Promise) → open_channel w wait_for_any p m' ≡ open_channel w wait_for_any p m
  unfolding open_channel
  open_channel-same p =
      after_wait-same (get (w.channels.outcome p)) (λ r. await_channel w wait_for_any r m')
        (λ r. await_channel w wait_for_any r m) await_channel-same

module _ (w : World) (wait_for_any : Bool → Bool → Option ℕ) (waits : IsWaitForAny wait_for_any)
    (spec : IsFrameSpec w.constants) where
  -- From any state that the connection reaches in which a read begins, the connection is open and
  -- the table has fewer than 65536 entries, given promises that can be satisfied once: the handler of
  -- a request for a channel starts the write of the frame of a channel.open, for the next place in
  -- the table, and the thread in open_channel waits. When the bytes come in of a well-formed frame
  -- for that channel that holds the channel.open-ok, the handlers of the read throw nothing, the
  -- object has the value true in its promise that it is open, and open_channel returns it.
  pub open_channel-succeeds :
      (m : Manager w) (out fr : Frame) (method : w.methods.Method)
      → IsPromise w.opens
      → IsPromise w.channels
      → Reachable w (begin_frame_read w m)
      → m.state ≡ open_state
      → length m.channels < 2 ^ 16
      → create_from_method (length m.channels) w.methods.open_method ≡ ok out
      → IsFullFrame fr
      → fr.channel ≡ length m.channels
      → Holds w.methods w.opens w.calls w.closes w.methods.channel_class_id
          w.methods.open_ok_method_id fr method
      → let opening : Manager w = begin_frame_read w (granted w out m) in
        (p : w.channels.Promise) × (start_open_channel w w.channels.new_promise
            (begin_frame_read w m)
          ≡ ok (p, opening))
        × (opening.started ≡ m.started ++ out ∷ [])
        × (open_channel w wait_for_any p opening ≡ none)
        × (m' : Manager w) × (ch : ChannelObject w) × (bytes_arrive w
              (frame_bytes w.constants fr)
              opening
            ≡ ok m')
        × (get_elem? m'.channels fr.channel ≡ some (channel ch))
        × (w.opens.outcome ch.opened_promise ≡ some (inl true))
        × (open_channel w wait_for_any p m' ≡ some (ok fr.channel))
  unfolding begin_frame_read
  open_channel-succeeds m out fr method opens channels reached opened room made full place holds =
      let idle : m.write_queue ≡ [] = write_queue_empty w reached in
      let unclosed : w.opens.outcome m.connection_closed_promise ≡ none =
        ap w.opens.outcome (connection_closed_promise-new w reached) ∙ opens.new_lem in
      let (p, given, has) =
        start_open_channel-granted w (begin_frame_read w m) w.channels.new_promise out channels
          opened idle room channels.new_lem made in
      let (b, arrived) = bytes_arrive-dispatch_frame w spec fr (granted w out m) full in
      let there =
        subst (λ n. get_elem? (granted w out m).channels n ≡ some (channel (fresh_channel w n)))
          (sym place) (get_elem?-last m.channels (channel (fresh_channel w (length m.channels)))) in
      let (waited, m', ch, dispatched, kept, is_open, returned) =
        open_channel-opened w wait_for_any waits (holding w b (granted w out m)) p fr method opens
          unclosed (has ∙ ap (λ n. some (inl n)) (sym place)) there holds in
      (
        p,
        given,
        refl,
        open_channel-same w wait_for_any (holding w b (granted w out m)) _ refl refl p ∙ waited,
        begin_frame_read w m',
        ch,
        arrived
            ∙ ap (λ (r : Result (Manager w)). r >>= λ m'. ok (begin_frame_read w m')) dispatched,
        kept,
        is_open,
        open_channel-same w wait_for_any m' (begin_frame_read w m') refl refl p ∙ returned,
      )
