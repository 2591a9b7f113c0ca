-- ===== src/ConnectionManager/Outcomes.antt =====
-- What the handlers leave behind when they end without an exception.
use libamqp_cpp.Base.{
  ℕ, ◌≡◌, refl, sym, ap, ◌∙◌, ◌⊎◌, inl, inr, [], ◌∷◌, ◌++◌, Option, none, some, Result, ok, err,
  undefined, out_of_fuel, Exception, connection_exception, runtime_error, logic_error,
  std_exception, channel_exception, >>=-eq-ok, ok-injective, Bool-cases, ◌==◌, ◌&&◌, length, ◌^◌,
  ◌-◌, ltb,
}
use libamqp_cpp.Frame.{
  Frame, FrameType, method_type, header_type, body_type, heartbeat_type, create_from_method,
}
use libamqp_cpp.Channel.{process_frame, close_, new_channel}
use libamqp_cpp.ConnectionManager.{
  World, Manager, expired, channel, ChannelObject, begin_write_frame, answer_close,
  handle_dead_channel_frame, create_next_channel,
}
use libamqp_cpp.ConnectionManager.Dispatch.{
  set_elem, after_handler, deliver, destroy_channel, as_runtime_error, refuse_channel,
  announce_channel, continue_open, catch_connection_exception, end_destructor, start_open_channel,
}

module _ (w : World) where
  -- The answer to a frame for a dead channel is nothing, or one frame.
  abbrev pub Answers : Manager w → Manager w → Type 0
  Answers m m' = (m' ≡ m) ⊎ ((reply : Frame) × (m' ≡ begin_write_frame w reply m))

  answer_close-Answers :
      (fr : Frame) (m m' : Manager w) → answer_close w fr m ≡ ok m' → Answers m m'
  unfolding answer_close
  answer_close-Answers fr m m' e =
      let (method, read, e') = >>=-eq-ok (w.methods.read fr) _ e in
      elim (Bool-cases (
        (w.methods.class_id method == w.methods.channel_class_id)
        && (w.methods.method_id method == w.methods.close_method_id))) [
          | inl h ↦
              let (reply, made, q) =
                >>=-eq-ok (create_from_method fr.channel w.methods.close_ok) _ (rw h at e') in
              inr (reply, sym (ok-injective q))
          | inr h ↦ inl (sym (ok-injective (rw h at e')))
        ]

  pub handle_dead_channel_frame-Answers :
      (fr : Frame) (m m' : Manager w) → handle_dead_channel_frame w fr m ≡ ok m' → Answers m m'
  unfolding handle_dead_channel_frame
  handle_dead_channel_frame-Answers fr m m' e = go fr.type_of e
    where
      go :
          (t : FrameType)
          → (elim t [ method_type ↦ answer_close w fr m | _ ↦ ok m ]) ≡ ok m'
          → Answers m m'
      go method_type h = answer_close-Answers fr m m' h
      go header_type h = inl (sym (ok-injective h))
      go body_type h = inl (sym (ok-injective h))
      go heartbeat_type h = inl (sym (ok-injective h))

  caught-ok :
      (r : Result (Unit {0})) (m m' : Manager w) → catch_connection_exception w r m ≡ ok m' → m ≡ m'
  unfolding catch_connection_exception
  caught-ok (ok done) m m' h = ok-injective h
  caught-ok (err connection_exception) m m' h = ok-injective h
  caught-ok (err (runtime_error message)) m m' h = cc
  caught-ok (err (logic_error message)) m m' h = cc
  caught-ok (err std_exception) m m' h = cc
  caught-ok (err (channel_exception code text class_id method_id)) m m' h = cc
  caught-ok undefined m m' h = cc
  caught-ok out_of_fuel m m' h = cc

  -- A handler that a channel ends without an exception, or by a connection_exception.
  pub deliver-ok :
      (fr : Frame) (ch : ChannelObject w) (m m' : Manager w)
      → deliver w fr ch m ≡ ok m'
      → after_handler w fr.channel (process_frame w.methods w.opens w.calls w.closes fr ch) m ≡ m'
  unfolding deliver
  deliver-ok fr ch m m' e =
      caught-ok (process_frame w.methods w.opens w.calls w.closes fr ch).ended _ m' e

  destroyed-ok : (r : Result (Unit {0})) (m m' : Manager w) → end_destructor w r m ≡ ok m' → m ≡ m'
  unfolding end_destructor
  destroyed-ok (ok done) m m' h = ok-injective h
  destroyed-ok (err e) m m' h = cc
  destroyed-ok undefined m m' h = cc
  destroyed-ok out_of_fuel m m' h = cc

  pub destroy_channel-ok :
      (n : ℕ) (ch : ChannelObject w) (m m' : Manager w)
      → destroy_channel w n ch m ≡ ok m'
      → record m {
        channels = set_elem n expired m.channels;
        posted = m.posted ++ (close_ w.methods w.opens w.calls w.closes 200 [] 0 0 ch).posted;
      }
        ≡ m'
  unfolding destroy_channel
  destroy_channel-ok n ch m m' e =
      destroyed-ok (close_ w.methods w.opens w.calls w.closes 200 [] 0 0 ch).ended _ m' e

  pub create_next_channel-ok :
      (m m' : Manager w) (n : ℕ)
      → create_next_channel w m ≡ ok (n, m')
      → (n ≡ length m.channels)
        × (record m {
          channels =
              m.channels
              ++ channel (new_channel w.methods w.opens w.calls w.closes (length m.channels)) ∷ [];
        }
            ≡ m')
  unfolding create_next_channel
  create_next_channel-ok m m' n e = elim (Bool-cases (ltb (2 ^ 16 - 1) (length m.channels))) [
    | inl h ↦ absurd (cc (rw h at e))
    | inr h ↦
        let e' = ok-injective (rw h at e) in
        (ap (λ (x : ℕ × Manager w). x.0) (sym e'), ap (λ (x : ℕ × Manager w). x.1) e')
  ]

  refuse_channel-ok :
      (caught : Option Exception) (x : Exception) (p p' : w.channels.Promise) (m m' : Manager w)
      → refuse_channel w caught x p m ≡ ok (p', m')
      → m ≡ m'
  unfolding refuse_channel
  refuse_channel-ok none x p p' m m' e = cc
  refuse_channel-ok (some c) x p p' m m' e =
      let (q, set, e') = >>=-eq-ok (w.channels.set_exception c p) _ e in
      ap (λ (y : w.channels.Promise × Manager w). y.1) (ok-injective e')

  -- How start_open_channel can end.
  pub data Opens (m m' : Manager w) : Type 0 where
    opened :
        (m₁ : Manager w) (n : ℕ) (fr : Frame)
        → create_next_channel w m ≡ ok (n, m₁)
        → begin_write_frame w fr m₁ ≡ m'
        → Opens m m'
    dropped :
        (m₁ : Manager w) (n : ℕ)
        → create_next_channel w m ≡ ok (n, m₁)
        → destroy_channel w n (new_channel w.methods w.opens w.calls w.closes n) m₁ ≡ ok m'
        → Opens m m'
    refused : m ≡ m' → Opens m m'

  announce_channel-Opens :
      (r : Result Frame) (n : ℕ) (m m₁ m' : Manager w) (p p' : w.channels.Promise)
      → create_next_channel w m ≡ ok (n, m₁)
      → announce_channel w r n p m₁ ≡ ok (p', m')
      → Opens m m'
  unfolding announce_channel
  announce_channel-Opens (ok fr) n m m₁ m' p p' c e =
      let (q, set, e') = >>=-eq-ok (w.channels.set_value n p) _ e in
      opened m₁ n fr c (ap (λ (y : w.channels.Promise × Manager w). y.1) (ok-injective e'))
  announce_channel-Opens (err x) n m m₁ m' p p' c e =
      let ((q, m₂), caught, e') = >>=-eq-ok (refuse_channel w (as_runtime_error x) x p m₁) _ e in
      let (m₃, gone, e'') = >>=-eq-ok (destroy_channel w n _ m₂) _ e' in
      let kept = refuse_channel-ok (as_runtime_error x) x p q m₁ m₂ caught in
      let last : m₃ ≡ m' = ap (λ (y : w.channels.Promise × Manager w). y.1) (ok-injective e'') in
      dropped m₁ n c (rw kept (gone ∙ ap (λ (y : Manager w). ok y) last))
  announce_channel-Opens undefined n m m₁ m' p p' c e = cc
  announce_channel-Opens out_of_fuel n m m₁ m' p p' c e = cc

  continue_open-Opens :
      (r : Result (ℕ × Manager w)) (m m' : Manager w) (p p' : w.channels.Promise)
      → create_next_channel w m ≡ r
      → continue_open w r p m ≡ ok (p', m')
      → Opens m m'
  unfolding continue_open
  continue_open-Opens (ok (n, m₁)) m m' p p' c e = announce_channel-Opens _ n m m₁ m' p p' c e
  continue_open-Opens (err x) m m' p p' c e =
      refused (refuse_channel-ok (as_runtime_error x) x p p' m m' e)
  continue_open-Opens undefined m m' p p' c e = cc
  continue_open-Opens out_of_fuel m m' p p' c e = cc

  pub start_open_channel-Opens :
      (m m' : Manager w) (p p' : w.channels.Promise)
      → start_open_channel w p m ≡ ok (p', m')
      → Opens m m'
  unfolding start_open_channel
  start_open_channel-Opens m m' p p' e =
      continue_open-Opens (create_next_channel w m) m m' p p' refl e
