-- ===== src/ConnectionManager/Writes.antt =====
-- The writing side over all sequences of handlers.
use libamqp_cpp.Base.{◌+◌, ◌≡◌, refl, ap, ◌∙◌, List, [], ◌∷◌, ◌++◌, append-nil, append_assoc, arith}
use libamqp_cpp.Frame.{Frame}
use libamqp_cpp.ConnectionManager.{
  open_state, closed_state, World, Manager, initial, begin_write_frame, write_frame_async,
}
use libamqp_cpp.ConnectionManager.Dispatch.{begin_open_channel, header_arrives, body_arrives}
use libamqp_cpp.ConnectionManager.Outcomes.{start_open_channel-Opens}
use libamqp_cpp.ConnectionManager.Steps.{
  Step, submit, post, request, run, open_channel, complete, header, body, call, destroy, Reach,
  Reachable, here, next,
}
use libamqp_cpp.ConnectionManager.Handlers.{
  Opens-Extends, on_frame_header_read-Extends, on_frame_body_read-Extends, destroy_channel-Extends,
}
use libamqp_cpp.ConnectionManager.Extends.{
  Extends, keeps, Extends-twice, Quiet-Extends, begin_write_method-Quiet, begin_write_frame-Extends,
  on_write_frame-Extends, begin_write_frame-open,
}

module _ (w : World) where
  Step-Extends :
      {m m' : Manager w} → m.write_queue ≡ [] → Step w m m' → Extends w m.state m.started m'
  unfolding write_frame_async begin_open_channel
  Step-Extends {m} {m'} q (submit fr e) =
      keeps w m.state m.started m' (ground arith) (ground arith) (λ h. ground arith)
  Step-Extends {m} {m'} q (post channel_id method e) =
      Quiet-Extends w m m' q (begin_write_method-Quiet w channel_id method m m' e)
  Step-Extends {m} {m'} q (request e) = rw e (keeps w m.state m.started _ q refl (λ h. h))
  Step-Extends {m} {m'} q (run before after fr p e) =
      rw e (begin_write_frame-Extends w fr (record m { posted = before ++ after }) q)
  Step-Extends {m} {m'} q (open_channel before after promise promise' p e) =
      Opens-Extends w (record m { requests = before ++ after }) m' q
        (start_open_channel-Opens w _ m' promise promise' e)
  Step-Extends {m} {m'} q (complete failed n p e) =
      on_write_frame-Extends w failed (record m { outstanding = n }) m' q e
  Step-Extends {m} {m'} q (header failed bytes p l e) =
      on_frame_header_read-Extends w failed (header_arrives w bytes m) m' q e
  Step-Extends {m} {m'} q (body failed n bytes p l e) =
      on_frame_body_read-Extends w failed (body_arrives w n bytes m) m' q e
  Step-Extends {m} {m'} q (call n class_id method_id ch ch' is_ready method fr p b e) =
      rw e (keeps w m.state m.started _ q refl (λ h. h))
  Step-Extends {m} {m'} q (destroy n ch p e) = destroy_channel-Extends w n ch m m' q e

  Reach-Extends :
      {m m' : Manager w} → m.write_queue ≡ [] → Reach w m m' → Extends w m.state m.started m'
  Reach-Extends {m} q here = keeps w m.state m.started m q refl (λ h. h)
  Reach-Extends {m} {m'} q (next {m₁} {m₂} r st) =
      let before = Reach-Extends q r in
      Extends-twice w m m₁ m' before (Step-Extends before.queue st)

  -- From the state in which the read loop starts, through any sequence of handlers and calls, the
  -- write queue is empty again after each of them.
  pub write_queue_empty : {m : Manager w} → Reachable w m → m.write_queue ≡ []
  unfolding initial
  write_queue_empty r = (Reach-Extends refl r.1).queue

  -- In any state that the connection reaches and that is open, begin_write_frame gives its frame to
  -- async_write at once, behind the frames before it, however many of their writes are not
  -- finished.
  pub write_at_once :
      {m : Manager w} (fr : Frame)
      → Reachable w m
      → m.state ≡ open_state
      → let m' = begin_write_frame w fr m in
        (m'.started ≡ m.started ++ fr ∷ []) × (m'.outstanding ≡ m.outstanding + 1)
  write_at_once {m} fr r o = rw (begin_write_frame-open w fr m o (write_queue_empty r)) (refl, refl)

  -- What becomes of a frame that begin_write_frame takes in an open state with an empty queue.
  written :
      (m : Manager w) {m' : Manager w} (fr : Frame) (p : List Frame)
      → m.write_queue ≡ []
      → m.state ≡ open_state
      → Reach w (begin_write_frame w fr (record m { posted = p })) m'
      → (behind : List Frame) × (m'.started ≡ m.started ++ fr ∷ behind) × (m'.write_queue ≡ [])
  written m {m'} fr p q o r =
      let mp : Manager w = record m { posted = p } in
      let taken = begin_write_frame-open w fr mp o q in
      let e = Reach-Extends (begin_write_frame-Extends w fr mp q).queue r in
      let first : (begin_write_frame w fr mp).started ≡ m.started ++ fr ∷ [] =
        ap (λ (x : Manager w). x.started) taken in
      (
        e.added,
        e.appended ∙ ap (λ fs. fs ++ e.added) first ∙ append_assoc m.started (fr ∷ []) e.added,
        e.queue,
      )

  -- A state that the connection reaches and that is open, in which begin_write_frame takes a frame,
  -- and a state that is open behind that, through any sequence of handlers and calls, in which it
  -- takes a second one, whatever calls are left posted each time. From then on, through any
  -- sequence of handlers and calls, both frames are among those given to async_write: the first one
  -- next behind those before it, and the second one behind the first.
  pub writes_in_order :
      {m m₁ m₂ : Manager w} (first second : Frame) (p p₁ : List Frame)
      → Reachable w m
      → m.state ≡ open_state
      → Reach w (begin_write_frame w first (record m { posted = p })) m₁
      → m₁.state ≡ open_state
      → Reach w (begin_write_frame w second (record m₁ { posted = p₁ })) m₂
      → (between : List Frame) × (m₁.started ≡ m.started ++ first ∷ between)
        × (behind : List Frame) × (m₂.started ≡ (m.started ++ first ∷ between) ++ second ∷ behind)
  writes_in_order {m} {m₁} first second p p₁ reached o r o₁ r₁ =
      let (between, e, q) = written m first p (write_queue_empty reached) o r in
      let (behind, e₁, q₁) = written m₁ second p₁ q o₁ r₁ in
      (between, e, behind, e₁ ∙ ap (λ fs. fs ++ second ∷ behind) e)

  -- Once the connection is closed it stays closed, and no further write is started, through any
  -- sequence of handlers and calls.
  pub closed_for_good :
      {m m' : Manager w}
      → Reachable w m
      → Reach w m m'
      → m.state ≡ closed_state
      → (m'.state ≡ closed_state) × (m'.started ≡ m.started)
  closed_for_good {m} r r' c =
      let e = Reach-Extends (write_queue_empty r) r' in
      let (c', nothing) = e.closed c in
      (c', e.appended ∙ ap (◌++◌ m.started) nothing ∙ append-nil m.started)
