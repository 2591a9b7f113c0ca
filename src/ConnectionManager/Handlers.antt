-- ===== src/ConnectionManager/Handlers.antt =====
-- What the handlers that take frames, open channels and end them do to the writes.
use libamqp_cpp.Base.{
  ℕ, ◌≡◌, refl, subst, ◌∙◌, Option, none, leb, if◌then◌else◌, length, ◌>>=◌, Bool, true, false, [],
  some, ok, >>=-eq-ok, ok-injective,
}
use libamqp_cpp.Frame.{Frame, FrameBuilder, create_frame, is_body_read_required, get_body_buffer}
use libamqp_cpp.ConnectionManager.{
  World, Manager, Slot, expired, control, channel, ChannelObject, body_read, begin_frame_read,
  handle_dead_channel_frame, create_next_channel,
}
use libamqp_cpp.ConnectionManager.Outcomes.{
  handle_dead_channel_frame-Answers, deliver-ok, destroy_channel-ok, create_next_channel-ok, Opens,
  opened, dropped, refused,
}
use libamqp_cpp.ConnectionManager.Dispatch.{
  after_handler, hand_over, dispatch_frame, receive_frame, on_frame_header_read, on_frame_body_read,
  destroy_channel,
}
use libamqp_cpp.ConnectionManager.Extends.{
  Extends, Quiet, Extends-after, Quiet-Extends, Extends-twice, of_eq, keeps, Answers-Extends,
  begin_write_frame-Extends, on_socket_close-Extends,
}

module _ (w : World) where
  hand_over-Extends :
      (fr : Frame) (found : Option (Slot w)) (m m' : Manager w)
      → m.write_queue ≡ []
      → hand_over w fr found m ≡ ok m'
      → Extends w m.state m.started m'
  unfolding hand_over after_handler
  hand_over-Extends fr none m m' q e = cc
  hand_over-Extends fr (some expired) m m' q e =
      Answers-Extends w m m' q (handle_dead_channel_frame-Answers w fr m m' e)
  hand_over-Extends fr (some control) m m' q e = cc
  hand_over-Extends fr (some (channel ch)) m m' q e =
      let left = deliver-ok w fr ch m m' e in
      of_eq w m' _ left m.state m.started (Quiet-Extends w m _ q (refl, refl, refl))

  dispatch_frame-Extends :
      (fr : Frame) (m m' : Manager w)
      → m.write_queue ≡ []
      → dispatch_frame w fr m ≡ ok m'
      → Extends w m.state m.started m'
  unfolding dispatch_frame
  dispatch_frame-Extends fr m m' q e =
      let (m₁, dead, e') =
        >>=-eq-ok
          (if leb (length m.channels) fr.channel then handle_dead_channel_frame w fr m else ok m) _
          e in
      let first = dead_first (leb (length m.channels) fr.channel) m₁ dead in
      Extends-twice w m m₁ m' first (hand_over-Extends fr _ m₁ m' first.queue e')
    where
      dead_first :
          (beyond : Bool) (m₁ : Manager w)
          → (if beyond then handle_dead_channel_frame w fr m else ok m) ≡ ok m₁
          → Extends w m.state m.started m₁
      dead_first true m₁ h =
          Answers-Extends w m m₁ q (handle_dead_channel_frame-Answers w fr m m₁ h)
      dead_first false m₁ h =
          of_eq w m₁ m (ok-injective h) m.state m.started (Quiet-Extends w m m q (refl, refl, refl))

  receive_frame-Extends :
      (m m' : Manager w)
      → m.write_queue ≡ []
      → receive_frame w m ≡ ok m'
      → Extends w m.state m.started m'
  unfolding receive_frame begin_frame_read
  receive_frame-Extends m m' q e =
      let (fr, created, e') = >>=-eq-ok (create_frame w.constants m.builder) _ e in
      let (m₁, given, e'') = >>=-eq-ok (dispatch_frame w fr m) _ e' in
      let h = dispatch_frame-Extends fr m m₁ q given in
      of_eq w m' _ (ok-injective e'') m.state m.started
        (record { queue = h.queue; added = h.added; appended = h.appended; closed = h.closed })

  pub on_frame_body_read-Extends :
      (failed : Bool) (m m' : Manager w)
      → m.write_queue ≡ []
      → on_frame_body_read w failed m ≡ ok m'
      → Extends w m.state m.started m'
  unfolding on_frame_body_read
  on_frame_body_read-Extends true m m' q e = on_socket_close-Extends w m m' q e
  on_frame_body_read-Extends false m m' q e = receive_frame-Extends m m' q e

  pub on_frame_header_read-Extends :
      (failed : Bool) (m m' : Manager w)
      → m.write_queue ≡ []
      → on_frame_header_read w failed m ≡ ok m'
      → Extends w m.state m.started m'
  unfolding on_frame_header_read
  on_frame_header_read-Extends true m m' q e = on_socket_close-Extends w m m' q e
  on_frame_header_read-Extends false m m' q e =
      let ((required, b), judged, e') =
        >>=-eq-ok (is_body_read_required w.constants m.builder) _ e in
      go required b e'
    where
      go :
          (required : Bool) (b : FrameBuilder)
          → (if required
              then (do
                ((n, one), b') ← get_body_buffer w.constants b
                ok (record m { builder = b'; reading = body_read n }))
              else receive_frame w (record m { builder = b }))
            ≡ ok m'
          → Extends w m.state m.started m'
      go true b h =
          let (((n, one), b'), found, h') = >>=-eq-ok (get_body_buffer w.constants b) _ h in
          of_eq w m' _ (ok-injective h') m.state m.started
            (Quiet-Extends w m _ q (refl, refl, refl))
      go false b h = receive_frame-Extends (record m { builder = b }) m' q h

  create_next_channel-Quiet :
      (m m' : Manager w) (n : ℕ) → create_next_channel w m ≡ ok (n, m') → Quiet w m m'
  create_next_channel-Quiet m m' n e =
      subst (λ x. Quiet w m x) (create_next_channel-ok w m m' n e).1 (refl, refl, refl)

  pub destroy_channel-Extends :
      (n : ℕ) (ch : ChannelObject w) (m m' : Manager w)
      → m.write_queue ≡ []
      → destroy_channel w n ch m ≡ ok m'
      → Extends w m.state m.started m'
  destroy_channel-Extends n ch m m' q e =
      of_eq w m' _ (destroy_channel-ok w n ch m m' e) m.state m.started
        (Quiet-Extends w m _ q (refl, refl, refl))

  pub Opens-Extends :
      (m m' : Manager w) → m.write_queue ≡ [] → Opens w m m' → Extends w m.state m.started m'
  Opens-Extends m m' q (opened m₁ n fr c e) =
      let quiet = create_next_channel-Quiet m m₁ n c in
      of_eq w m' _ e m.state m.started
        (Extends-after w m m₁ _ quiet (begin_write_frame-Extends w fr m₁ (quiet.0 ∙ q)))
  Opens-Extends m m' q (dropped m₁ n c e) =
      let quiet = create_next_channel-Quiet m m₁ n c in
      Extends-after w m m₁ m' quiet (destroy_channel-Extends n _ m₁ m' (quiet.0 ∙ q) e)
  Opens-Extends m m' q (refused e) =
      of_eq w m' m e m.state m.started (keeps w m.state m.started m q refl (λ h. h))
