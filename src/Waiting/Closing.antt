-- ===== src/Waiting/Closing.antt =====
-- m_connection_closed_promise through the handlers and calls.
use libamqp_cpp.Base.{
  ◌≡◌, refl, subst, ◌∙◌, inl, inr, Bool, true, false, ◌++◌, Option, some, none, ok, >>=-eq-ok,
  ok-injective, length, leb, if◌then◌else◌, ◌>>=◌, arith,
}
use libamqp_cpp.Frame.{
  Frame, FrameBuilder, create_from_method, create_frame, is_body_read_required, get_body_buffer,
}
use libamqp_cpp.ConnectionManager.{
  World, Manager, Slot, expired, control, channel, initial, start_write, begin_write_frame,
  begin_frame_read, body_read, write_frame_async, begin_write_method, on_socket_close,
  on_write_frame, handle_dead_channel_frame,
}
use libamqp_cpp.ConnectionManager.Dispatch.{
  after_handler, hand_over, dispatch_frame, receive_frame, on_frame_header_read, on_frame_body_read,
  header_arrives, body_arrives, begin_open_channel,
}
use libamqp_cpp.ConnectionManager.Outcomes.{
  Answers, handle_dead_channel_frame-Answers, deliver-ok, create_next_channel-ok,
  destroy_channel-ok, Opens, opened, dropped, refused, start_open_channel-Opens,
}
use libamqp_cpp.ConnectionManager.Steps.{
  Step, submit, post, request, run, open_channel, complete, header, body, call, destroy, Reach,
  Reachable, here, next,
}

module _ (w : World) where
  -- The promise is left as it was.
  abbrev Untouched : Manager w → Manager w → Type 0
  Untouched m m' = m'.connection_closed_promise ≡ m.connection_closed_promise

  begin_write_frame-Untouched :
      (fr : Frame) (m : Manager w) → Untouched m (begin_write_frame w fr m)
  unfolding begin_write_frame start_write
  begin_write_frame-Untouched fr m = ground arith

  on_socket_close-Untouched : (m m' : Manager w) → on_socket_close w m ≡ ok m' → Untouched m m'
  unfolding on_socket_close
  on_socket_close-Untouched m m' e = ground arith

  Answers-Untouched : (m m' : Manager w) → Answers w m m' → Untouched m m'
  Answers-Untouched m m' (inl same) = rw same refl
  Answers-Untouched m m' (inr (reply, written)) = rw written (begin_write_frame-Untouched reply m)

  hand_over-Untouched :
      (fr : Frame) (found : Option (Slot w)) (m m' : Manager w)
      → hand_over w fr found m ≡ ok m'
      → Untouched m m'
  unfolding hand_over after_handler
  hand_over-Untouched fr none m m' e = cc
  hand_over-Untouched fr (some expired) m m' e =
      Answers-Untouched m m' (handle_dead_channel_frame-Answers w fr m m' e)
  hand_over-Untouched fr (some control) m m' e = cc
  hand_over-Untouched fr (some (channel ch)) m m' e =
      subst (λ x. Untouched m x) (deliver-ok w fr ch m m' e) refl

  receive_frame-Untouched : (m m' : Manager w) → receive_frame w m ≡ ok m' → Untouched m m'
  unfolding receive_frame dispatch_frame begin_frame_read
  receive_frame-Untouched m m' e =
      let (fr, created, e₁) = >>=-eq-ok (create_frame w.constants m.builder) _ e in
      let (m₂, given, e₂) = >>=-eq-ok (dispatch_frame w fr m) _ e₁ in
      let (m₁, dead, e₃) =
        >>=-eq-ok
          (if leb (length m.channels) fr.channel then handle_dead_channel_frame w fr m else ok m) _
          given in
      subst (λ x. Untouched m x) (ok-injective e₂)
        (hand_over-Untouched fr _ m₁ m₂ e₃
          ∙ dead_first fr (leb (length m.channels) fr.channel) m₁ dead)
    where
      dead_first :
          (fr : Frame) (beyond : Bool) (m₁ : Manager w)
          → (if beyond then handle_dead_channel_frame w fr m else ok m) ≡ ok m₁
          → Untouched m m₁
      dead_first fr true m₁ h =
          Answers-Untouched m m₁ (handle_dead_channel_frame-Answers w fr m m₁ h)
      dead_first fr false m₁ h = subst (λ x. Untouched m x) (ok-injective h) refl

  on_frame_header_read-Untouched :
      (failed : Bool) (m m' : Manager w) → on_frame_header_read w failed m ≡ ok m' → Untouched m m'
  unfolding on_frame_header_read
  on_frame_header_read-Untouched true m m' e = on_socket_close-Untouched m m' e
  on_frame_header_read-Untouched false m m' e =
      let ((required, b), judged, e') =
        >>=-eq-ok (is_body_read_required w.constants m.builder) _ e in
      go required b e'
    where
      go :
          (required : Bool) (b : FrameBuilder)
          → (if required
              then (do
                ((n, one), b') ← get_body_buffer w.constants b
                ok (record m { builder = b'; reading = body_read n }))
              else receive_frame w (record m { builder = b }))
            ≡ ok m'
          → Untouched m m'
      go true b h =
          let (((n, one), b'), found, h') = >>=-eq-ok (get_body_buffer w.constants b) _ h in
          subst (λ x. Untouched m x) (ok-injective h') refl
      go false b h = receive_frame-Untouched (record m { builder = b }) m' h

  on_frame_body_read-Untouched :
      (failed : Bool) (m m' : Manager w) → on_frame_body_read w failed m ≡ ok m' → Untouched m m'
  unfolding on_frame_body_read
  on_frame_body_read-Untouched true m m' e = on_socket_close-Untouched m m' e
  on_frame_body_read-Untouched false m m' e = receive_frame-Untouched m m' e

  on_write_frame-Untouched :
      (failed : Bool) (m m' : Manager w) → on_write_frame w failed m ≡ ok m' → Untouched m m'
  unfolding on_write_frame start_write
  on_write_frame-Untouched true m m' e = on_socket_close-Untouched m m' e
  on_write_frame-Untouched false m m' e = ground arith

  Opens-Untouched : (m m' : Manager w) → Opens w m m' → Untouched m m'
  Opens-Untouched m m' (opened m₁ n fr made e) =
      subst (λ x. Untouched m x) e
        (begin_write_frame-Untouched fr m₁
          ∙ subst (λ x. Untouched m x) (create_next_channel-ok w m m₁ n made).1 refl)
  Opens-Untouched m m' (dropped m₁ n made e) =
      subst (λ x. Untouched m₁ x) (destroy_channel-ok w n _ m₁ m' e) refl
      ∙ subst (λ x. Untouched m x) (create_next_channel-ok w m m₁ n made).1 refl
  Opens-Untouched m m' (refused e) = subst (λ x. Untouched m x) e refl

  Step-Untouched : {m m' : Manager w} → Step w m m' → Untouched m m'
  unfolding write_frame_async begin_open_channel begin_write_method
  Step-Untouched {m} {m'} (submit fr e) = ground arith
  Step-Untouched {m} {m'} (post channel_id method e) =
      let (fr, made, e') = >>=-eq-ok (create_from_method channel_id method) _ e in
      subst (λ x. Untouched m x) (ok-injective e') refl
  Step-Untouched {m} {m'} (request e) = rw e refl
  Step-Untouched {m} {m'} (run before after fr p e) = rw e (begin_write_frame-Untouched fr _)
  Step-Untouched {m} {m'} (open_channel before after p p' q e) =
      Opens-Untouched (record m { requests = before ++ after }) m'
        (start_open_channel-Opens w _ m' p p' e)
  Step-Untouched {m} {m'} (complete failed n p e) =
      on_write_frame-Untouched failed (record m { outstanding = n }) m' e
  Step-Untouched {m} {m'} (header failed bytes p l e) =
      on_frame_header_read-Untouched failed (header_arrives w bytes m) m' e
  Step-Untouched {m} {m'} (body failed n bytes p l e) =
      on_frame_body_read-Untouched failed (body_arrives w n bytes m) m' e
  Step-Untouched {m} {m'} (call n class_id method_id ch ch' is_ready method fr p b e) = rw e refl
  Step-Untouched {m} {m'} (destroy n ch p e) =
      subst (λ x. Untouched m x) (destroy_channel-ok w n ch m m' e) refl

  -- In every state that the connection reaches the promise is still new.
  pub connection_closed_promise-new :
      {m : Manager w} → Reachable w m → m.connection_closed_promise ≡ w.opens.new_promise
  unfolding initial begin_frame_read
  connection_closed_promise-new (b, r) = go r
    where
      go :
          {m : Manager w}
          → Reach w (initial w b) m
          → m.connection_closed_promise ≡ w.opens.new_promise
      go here = refl
      go (next r st) = Step-Untouched st ∙ go r
