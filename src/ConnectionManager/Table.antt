-- ===== src/ConnectionManager/Table.antt =====
-- What the table of channels means for the frames of a channel, for closing, and for frames that
-- no channel takes.
use libamqp_cpp.Base.{
  ℕ, suc, ◌≡◌, ◌≢◌, refl, sym, ap, ◌∙◌, inl, inr, List, [], ◌∷◌, subst, >>=-eq-ok, ok-injective,
  some, ok, err, length, ◌≤◌, eq→==, lt→leb, le→leb, logic_error, get_elem?, arith, undefined,
}
use libamqp_cpp.Promise.{IsPromise, set_value_satisfies}
use libamqp_cpp.Frame.{Frame}
use libamqp_cpp.Channel.{process_frame, continue_with, handle_end, close_async}
use libamqp_cpp.Channel.Identity.{close_async-ok}
use libamqp_cpp.ConnectionManager.{
  World, closed_state, Manager, Slot, expired, control, channel, ChannelObject, on_socket_close,
  close_channels, handle_dead_channel_frame,
}
use libamqp_cpp.ConnectionManager.Dispatch.{hand_over, dispatch_frame}
use libamqp_cpp.ConnectionManager.Outcomes.{Answers, handle_dead_channel_frame-Answers}
use libamqp_cpp.ConnectionManager.Entries.{
  get_elem?-nonempty, get_elem?-beyond, close_slots-ok, close_slots-CloseAll, CloseAll, Closes,
  stays_expired, channel_closes,
}
use libamqp_cpp.ConnectionManager.Steps.{Reachable}
use libamqp_cpp.ConnectionManager.Invariant.{
  IsSound, IsSoundSlot, zeroth, nothing, numbered, begin_write_frame-Agree, channel_id_of,
}
use libamqp_cpp.ConnectionManager.Runs.{Reachable-IsSound}

module _ (w : World) where
  -- An entry before the closing and after it: the object of a channel has its promise that it has
  -- closed satisfied, and is otherwise as it was.
  abbrev pub IsClosed : Slot w → Slot w → Type 0
  IsClosed expired y = y ≡ expired
  IsClosed control y = y ≡ control
  IsClosed (channel ch) y =
      (p : w.closes.Promise) × (y ≡ channel (record ch { closed_promise = p }))
      × (w.closes.outcome p ≡ some (inl 1))

  abbrev pub AreClosed : List (Slot w) → List (Slot w) → Type 0
  AreClosed [] [] = Unit
  AreClosed [] (y ∷ ys) = ⊥
  AreClosed (x ∷ xs) [] = ⊥
  AreClosed (x ∷ xs) (y ∷ ys) = IsClosed x y × AreClosed xs ys

module _ (w : World) (promise : IsPromise w.closes) where
  -- In every state that the connection reaches, the entry of m_channels at the place `n`, if it is a
  -- channel object, has the identifier `n`, given promises that can be satisfied once. So the
  -- assertion of process_frame holds for each frame that is dispatched to it: what process_frame does
  -- is what the continuation does, and the closing for a channel_exception.
  pub channel_numbers :
      {m : Manager w} (n : ℕ) (ch : ChannelObject w) (fr : Frame)
      → Reachable w m
      → get_elem? m.channels n ≡ some (channel ch)
      → fr.channel ≡ n
      → (ch.channel_id ≡ n)
        × (process_frame w.methods w.opens w.calls w.closes fr ch
            ≡ handle_end w.methods w.opens w.calls w.closes
                (continue_with w.methods w.opens w.calls w.closes fr ch).0
                (continue_with w.methods w.opens w.calls w.closes fr ch).1)
  unfolding process_frame
  channel_numbers {m} n ch fr r there at =
      let i = channel_id_of w ((Reachable-IsSound w promise r).slots n (channel ch) there) in
      (i, rw (eq→== fr.channel ch.channel_id (at ∙ sym i)))

  closable :
      (m : Manager w)
      → IsSound w m
      → m.state ≢ closed_state
      → (n : ℕ) (x : Slot w) → get_elem? m.channels (suc n) ≡ some x
      → (y : Slot w) × Closes w x y
  closable m h o n x e = go (h.slots (suc n) x e)
    where
      go : {x : Slot w} → IsSoundSlot w m.state (suc n) x → (y : Slot w) × Closes w x y
      go nothing = (expired, stays_expired)
      go (zeroth z) = absurd (omega arith)
      go (numbered ch i q) =
          let (ch', e) = close_async-ok w.methods w.opens w.calls w.closes promise ch (q o) in
          (channel ch', channel_closes ch ch' e)

  Closes-IsClosed : {x y : Slot w} → Closes w x y → IsClosed w x y
  unfolding close_async
  Closes-IsClosed stays_expired = refl
  Closes-IsClosed (channel_closes ch ch' e) =
      let (p, set, e') = >>=-eq-ok (w.closes.set_value 1 ch.closed_promise) _ e in
      let (before, after) = set_value_satisfies w.closes promise 1 ch.closed_promise p set in
      (p, ap (λ (x : ChannelObject w). channel x) (sym (ok-injective e')), after)

  CloseAll-AreClosed : (xs ys : List (Slot w)) → CloseAll w xs ys → AreClosed w xs ys
  CloseAll-AreClosed [] [] c = tt
  CloseAll-AreClosed [] (y ∷ ys) c = c
  CloseAll-AreClosed (x ∷ xs) [] c = c
  CloseAll-AreClosed (x ∷ xs) (y ∷ ys) (c, rest) =
      (Closes-IsClosed c, CloseAll-AreClosed xs ys rest)

  -- channel0 at the first place stays, and the entries behind it are closed.
  close_channels-AreClosed :
      (xs : List (Slot w))
      → get_elem? xs 0 ≡ some control
      → ((n : ℕ) (x : Slot w) → get_elem? xs (suc n) ≡ some x → (y : Slot w) × Closes w x y)
      → (ys : List (Slot w)) × (close_channels w xs ≡ ok ys) × AreClosed w xs ys
  unfolding close_channels
  close_channels-AreClosed [] first h = cc
  close_channels-AreClosed (z ∷ rest) first h =
      let (rest', p) = close_slots-ok w rest h in
      let is_control : control ≡ z = cc in
      (
        z ∷ rest',
        rw p,
        (
          subst (λ x. IsClosed w x x) is_control refl,
          CloseAll-AreClosed rest rest' (close_slots-CloseAll w rest rest' p),
        ),
      )

  -- In every state that the connection reaches and that is not closed, given promises that can be
  -- satisfied once, on_socket_close ends without an exception. Afterwards the connection is closed,
  -- each entry of the table is as it was, but that every channel object that is still there has its
  -- promise that it has closed satisfied, and nothing else of the connection has changed.
  pub on_socket_close-closes :
      {m : Manager w}
      → Reachable w m
      → m.state ≢ closed_state
      → (cs : List (Slot w)) × (on_socket_close w m
          ≡ ok (record m { state = closed_state; channels = cs }))
        × AreClosed w m.channels cs
  unfolding on_socket_close
  on_socket_close-closes {m} r o =
      let h = Reachable-IsSound w promise r in
      let (cs, e, shut) = close_channels-AreClosed m.channels h.first (closable m h o) in
      (cs, rw e, shut)

  -- In every state that the connection reaches, a frame for channel 0, given promises that can be
  -- satisfied once, ends its handler by a logic_error.
  pub dispatch_frame-channel0 :
      {m : Manager w} (fr : Frame)
      → Reachable w m
      → fr.channel ≡ 0
      → dispatch_frame w fr m ≡ err (logic_error "Channel0 process_frame not implemented.")
  unfolding dispatch_frame hand_over
  dispatch_frame-channel0 {m} fr r z =
      let first = (Reachable-IsSound w promise r).first in
      let some_entry = get_elem?-nonempty m.channels control first in
      rw (z, lt→leb (length m.channels) 0 some_entry, first)

Answers-channels : (w : World) (m m' : Manager w) → Answers w m m' → m'.channels ≡ m.channels
Answers-channels w m m' (inl same) = ap (λ (x : Manager w). x.channels) same
Answers-channels w m m' (inr (reply, written)) =
    ap (λ (x : Manager w). x.channels) written ∙ (begin_write_frame-Agree w reply m).0

-- A frame for a channel beyond the table goes to handle_dead_channel_frame; and when this returns,
-- the table is read out of its bounds.
dispatch_frame-beyond :
    (w : World) (fr : Frame) (m m₁ : Manager w)
    → length m.channels ≤ fr.channel
    → handle_dead_channel_frame w fr m ≡ ok m₁
    → dispatch_frame w fr m ≡ undefined
unfolding dispatch_frame hand_over
dispatch_frame-beyond w fr m m₁ l e =
    let kept : m₁.channels ≡ m.channels =
      Answers-channels w m m₁ (handle_dead_channel_frame-Answers w fr m m₁ e) in
    rw (le→leb (length m.channels) fr.channel l, e, kept, get_elem?-beyond m.channels fr.channel l)
