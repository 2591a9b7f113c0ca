-- ===== src/ConnectionManager/Responses.antt =====
-- From the bytes of a response to the promise of the call that waits for it.
use libamqp_cpp.Base.{
  ℕ, ◌≡◌, refl, ap, ◌∙◌, [], ◌++◌, some, none, inl, Result, ok, ◌>>=◌, length, get_elem?, lt→leb,
}
use libamqp_cpp.Promise.{IsPromise}
use libamqp_cpp.Frame.{IsFrameSpec, Frame}
use libamqp_cpp.Frame.Wire.{frame_bytes}
use libamqp_cpp.Frame.Reader.{IsFullFrame}
use libamqp_cpp.Channel.Opening.{Holds}
use libamqp_cpp.Channel.Calls.{waiting, waiting-answered}
use libamqp_cpp.ConnectionManager.{
  World, Manager, ChannelObject, channel, header_read, begin_frame_read,
}
use libamqp_cpp.ConnectionManager.Dispatch.{set_elem, dispatch_frame}
use libamqp_cpp.ConnectionManager.Entries.{get_elem?-lt, get_elem?-set_same}
use libamqp_cpp.ConnectionManager.Delivery.{bytes_arrive, holding, bytes_arrive-dispatch_frame}

module _ (w : World) where
  -- A channel object at the place `n`, with the identifier `n`, that waits for a response.
  abbrev pub waits :
      ℕ → w.opens.Promise → w.closes.Promise → ℕ → ℕ → w.calls.Promise → ChannelObject w
  waits n o k class_id method_id p =
      waiting w.methods w.opens w.calls w.closes n o k class_id method_id p

module _ (w : World) (spec : IsFrameSpec w.constants) (promise : IsPromise w.calls) where
  -- A channel object is in the table at its identifier, and waits for the response to a call, whose
  -- promise can be satisfied once and is not satisfied. When a read begins, and the bytes come in of
  -- a well-formed frame for the channel that holds the method with the two identifiers, the
  -- handlers of the read throw nothing; the call's promise has that method, the channel keeps its
  -- place, and the next read is under way.
  pub call_answered :
      (m : Manager w) (fr : Frame) (o : w.opens.Promise) (k : w.closes.Promise)
      (class_id method_id : ℕ) (p : w.calls.Promise) (method answer : w.methods.Method)
      → get_elem? m.channels fr.channel
        ≡ some (channel (waits w fr.channel o k class_id method_id p))
      → w.calls.outcome p ≡ none
      → IsFullFrame fr
      → Holds w.methods w.opens w.calls w.closes class_id method_id fr method
      → w.methods.method_cast class_id method_id method ≡ ok answer
      → (m' : Manager w) × (p' : w.calls.Promise) × (bytes_arrive w
            (frame_bytes w.constants fr)
            (begin_frame_read w m)
          ≡ ok m')
        × (get_elem? m'.channels fr.channel
            ≡ some (channel (waits w fr.channel o k class_id method_id p')))
        × (w.calls.outcome p' ≡ some (inl answer))
        × (m'.reading ≡ header_read)
  unfolding dispatch_frame begin_frame_read
  call_answered m fr o k class_id method_id p method answer there new full holds cast =
      let (p', handled, has) =
        waiting-answered w.methods w.opens w.calls w.closes promise o k class_id method_id p fr
          method answer new holds cast in
      let (b, arrived) = bytes_arrive-dispatch_frame w spec fr m full in
      let inside = get_elem?-lt m.channels fr.channel _ there in
      let left : Manager w = record (holding w b m) {
        channels =
            set_elem fr.channel (channel (waits w fr.channel o k class_id method_id p')) m.channels;
        posted = m.posted ++ [];
      } in
      let dispatched : dispatch_frame w fr (holding w b m) ≡ ok left =
        rw (lt→leb (length m.channels) fr.channel inside, there, handled) in
      (
        begin_frame_read w left,
        p',
        arrived
            ∙ ap (λ (r : Result (Manager w)). r >>= λ m'. ok (begin_frame_read w m')) dispatched,
        get_elem?-set_same m.channels fr.channel _ _ there,
        has,
        refl,
      )
