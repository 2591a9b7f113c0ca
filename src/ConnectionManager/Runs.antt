-- ===== src/ConnectionManager/Runs.antt =====
-- The table of channels over all sequences of handlers.
use libamqp_cpp.Base.{
  ℕ, zero, suc, ◌≡◌, refl, sym, subst, [], ◌∷◌, ◌++◌, some, ok, >>=-eq-ok, ok-injective, length,
  get_elem?, true, false, arith, leb, if◌then◌else◌, Bool, ◌>>=◌,
}
use libamqp_cpp.Promise.{IsPromise}
use libamqp_cpp.Frame.{
  Frame, create_from_method, FrameBuilder, create_frame, is_body_read_required, get_body_buffer,
}
use libamqp_cpp.Channel.{new_channel}
use libamqp_cpp.Channel.Identity.{begin_rpc-Same}
use libamqp_cpp.ConnectionManager.{
  World, open_state, Manager, Slot, control, channel, initial, begin_frame_read, start_write,
  body_read, write_frame_async, begin_write_method, on_write_frame, handle_dead_channel_frame,
}
use libamqp_cpp.ConnectionManager.Dispatch.{
  dispatch_frame, receive_frame, on_frame_header_read, on_frame_body_read, begin_open_channel,
  header_arrives, body_arrives,
}
use libamqp_cpp.ConnectionManager.Outcomes.{
  handle_dead_channel_frame-Answers, create_next_channel-ok, Opens, opened, dropped, refused,
  start_open_channel-Opens,
}
use libamqp_cpp.ConnectionManager.Entries.{get_elem?-last}
use libamqp_cpp.ConnectionManager.Steps.{
  Step, submit, post, request, run, open_channel, complete, header, body, call, destroy, Reach,
  Reachable, here, next,
}
use libamqp_cpp.ConnectionManager.Invariant.{
  IsSound, IsSoundSlot, zeroth, IsSound-Agree, begin_write_frame-Agree, replaced, IsSoundSlot-Same,
  on_socket_close-IsSound, create_next_channel-IsSound, destroy_channel-IsSound, Answers-IsSound,
  hand_over-IsSound,
}

module _ (w : World) (promise : IsPromise w.closes) where
  dispatch_frame-IsSound :
      (fr : Frame) (m m' : Manager w) → dispatch_frame w fr m ≡ ok m' → IsSound w m → IsSound w m'
  unfolding dispatch_frame
  dispatch_frame-IsSound fr m m' e h =
      let (m₁, dead, e') =
        >>=-eq-ok
          (if leb (length m.channels) fr.channel then handle_dead_channel_frame w fr m else ok m) _
          e in
      hand_over-IsSound w promise fr m₁ m' e'
        (dead_first (leb (length m.channels) fr.channel) m₁ dead)
    where
      dead_first :
          (beyond : Bool) (m₁ : Manager w)
          → (if beyond then handle_dead_channel_frame w fr m else ok m) ≡ ok m₁
          → IsSound w m₁
      dead_first true m₁ d =
          Answers-IsSound w promise m m₁ (handle_dead_channel_frame-Answers w fr m m₁ d) h
      dead_first false m₁ d = subst (IsSound w) (ok-injective d) h

  receive_frame-IsSound :
      (m m' : Manager w) → receive_frame w m ≡ ok m' → IsSound w m → IsSound w m'
  unfolding receive_frame begin_frame_read
  receive_frame-IsSound m m' e h =
      let (fr, created, e') = >>=-eq-ok (create_frame w.constants m.builder) _ e in
      let (m₁, given, e'') = >>=-eq-ok (dispatch_frame w fr m) _ e' in
      subst (IsSound w) (ok-injective e'')
        (IsSound-Agree w m₁ _ (refl, refl) (dispatch_frame-IsSound fr m m₁ given h))

  on_frame_body_read-IsSound :
      (failed : Bool) (m m' : Manager w)
      → on_frame_body_read w failed m ≡ ok m'
      → IsSound w m
      → IsSound w m'
  unfolding on_frame_body_read
  on_frame_body_read-IsSound true m m' e h = on_socket_close-IsSound w promise m m' e h
  on_frame_body_read-IsSound false m m' e h = receive_frame-IsSound m m' e h

  on_frame_header_read-IsSound :
      (failed : Bool) (m m' : Manager w)
      → on_frame_header_read w failed m ≡ ok m'
      → IsSound w m
      → IsSound w m'
  unfolding on_frame_header_read
  on_frame_header_read-IsSound true m m' e h = on_socket_close-IsSound w promise m m' e h
  on_frame_header_read-IsSound false m m' e h =
      let ((required, b), judged, e') =
        >>=-eq-ok (is_body_read_required w.constants m.builder) _ e in
      go required b e'
    where
      go :
          (required : Bool) (b : FrameBuilder)
          → (if required
              then (do
                ((n, one), b') ← get_body_buffer w.constants b
                ok (record m { builder = b'; reading = body_read n }))
              else receive_frame w (record m { builder = b }))
            ≡ ok m'
          → IsSound w m'
      go true b d =
          let (((n, one), b'), found, d') = >>=-eq-ok (get_body_buffer w.constants b) _ d in
          subst (IsSound w) (ok-injective d') (IsSound-Agree w m _ (refl, refl) h)
      go false b d =
          receive_frame-IsSound (record m { builder = b }) m' d (IsSound-Agree w m _ (refl, refl) h)

  on_write_frame-IsSound :
      (failed : Bool) (m m' : Manager w)
      → on_write_frame w failed m ≡ ok m'
      → IsSound w m
      → IsSound w m'
  unfolding on_write_frame start_write
  on_write_frame-IsSound true m m' e h = on_socket_close-IsSound w promise m m' e h
  on_write_frame-IsSound false m m' e h = IsSound-Agree w m m' (ground arith, ground arith) h

  Opens-IsSound : (m m' : Manager w) → Opens w m m' → IsSound w m → IsSound w m'
  Opens-IsSound m m' (opened m₁ n fr c e) h = subst (IsSound w) e (
      IsSound-Agree w m₁ _ (begin_write_frame-Agree w fr m₁)
        (create_next_channel-IsSound w promise m m₁ n c h))
  Opens-IsSound m m' (dropped m₁ n c e) h =
      let slot : Slot w = channel (new_channel w.methods w.opens w.calls w.closes n) in
      let (i, made) = create_next_channel-ok w m m₁ n c in
      let there : get_elem? m₁.channels n ≡ some slot =
        subst (λ (x : Manager w). get_elem? x.channels n ≡ some slot) made
          (rw i (get_elem?-last m.channels _)) in
      destroy_channel-IsSound w promise n _ m₁ m' there e
        (create_next_channel-IsSound w promise m m₁ n c h)
  Opens-IsSound m m' (refused e) h = subst (IsSound w) e h

  Step-IsSound : {m m' : Manager w} → Step w m m' → IsSound w m → IsSound w m'
  unfolding write_frame_async begin_open_channel begin_write_method
  Step-IsSound {m} {m'} (submit fr e) h = IsSound-Agree w m m' (ground arith, ground arith) h
  Step-IsSound {m} {m'} (post channel_id method e) h =
      let (fr, made, e') = >>=-eq-ok (create_from_method channel_id method) _ e in
      subst (IsSound w) (ok-injective e') (IsSound-Agree w m _ (refl, refl) h)
  Step-IsSound {m} {m'} (request e) h =
      subst (IsSound w) (sym e) (IsSound-Agree w m _ (refl, refl) h)
  Step-IsSound {m} {m'} (run before after fr p e) h =
      let taken : Manager w = record m { posted = before ++ after } in
      subst (IsSound w) (sym e) (
        IsSound-Agree w taken _ (begin_write_frame-Agree w fr taken)
          (IsSound-Agree w m taken (refl, refl) h))
  Step-IsSound {m} {m'} (open_channel before after p p' q e) h =
      let asked : Manager w = record m { requests = before ++ after } in
      Opens-IsSound asked m' (start_open_channel-Opens w asked m' p p' e)
        (IsSound-Agree w m asked (refl, refl) h)
  Step-IsSound {m} {m'} (complete failed n p e) h =
      on_write_frame-IsSound failed (record m { outstanding = n }) m' e
        (IsSound-Agree w m _ (refl, refl) h)
  Step-IsSound {m} {m'} (header failed bytes p l e) h =
      on_frame_header_read-IsSound failed (header_arrives w bytes m) m' e
        (IsSound-Agree w m _ (refl, refl) h)
  Step-IsSound {m} {m'} (body failed n bytes p l e) h =
      on_frame_body_read-IsSound failed (body_arrives w n bytes m) m' e
        (IsSound-Agree w m _ (refl, refl) h)
  Step-IsSound {m} {m'} (call n class_id method_id ch ch' is_ready method fr p b e) h =
      subst (IsSound w) (sym e) (
        replaced w m _ n ch (channel ch') p
          (IsSoundSlot-Same w m.state n ch ch' (
            begin_rpc-Same w.methods w.opens w.calls w.closes is_ready class_id method_id method ch
              ch' fr b))
          (refl, refl) h)
  Step-IsSound {m} {m'} (destroy n ch p e) h = destroy_channel-IsSound w promise n ch m m' p e h

  Reach-IsSound : {m m' : Manager w} → Reach w m m' → IsSound w m → IsSound w m'
  Reach-IsSound here h = h
  Reach-IsSound (next r st) h = Step-IsSound st (Reach-IsSound r h)

  initial-IsSound : (b : FrameBuilder) → IsSound w (initial w b)
  unfolding initial
  initial-IsSound b = record { first = refl; slots = λ n x e. at n x e }
    where
      at : (n : ℕ) (x : Slot w) → get_elem? (control ∷ []) n ≡ some x → IsSoundSlot w open_state n x
      at zero x e = subst (λ t. IsSoundSlot w open_state 0 t) (cc) (zeroth refl)
      at (suc n) x e = cc

  pub Reachable-IsSound : {m : Manager w} → Reachable w m → IsSound w m
  Reachable-IsSound (b, r) = Reach-IsSound r (initial-IsSound b)
