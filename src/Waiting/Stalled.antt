-- ===== src/Waiting/Stalled.antt =====
-- A connection on which no read is under way: who waits for a channel to open goes on waiting.
use libamqp_cpp.Base.{
  ℕ, ◌<◌, ◌≡◌, refl, sym, subst, ap, ◌∙◌, inl, inr, Bool, true, false, [], ◌∷◌, ◌++◌, some, ok,
  >>=-eq-ok, ok-injective, length, length-append, get_elem?, arith,
}
use libamqp_cpp.Frame.{Frame, create_from_method}
use libamqp_cpp.Channel.Identity.{begin_rpc-opened_promise, close_async-opened_promise}
use libamqp_cpp.ConnectionManager.{
  World, Manager, Slot, channel, expired, ChannelObject, no_read, start_write, begin_write_frame,
  write_frame_async, begin_write_method, close_channels, on_socket_close, on_write_frame,
  create_next_channel,
}
use libamqp_cpp.ConnectionManager.Dispatch.{set_elem, destroy_channel, begin_open_channel}
use libamqp_cpp.ConnectionManager.Outcomes.{
  create_next_channel-ok, destroy_channel-ok, Opens, opened, dropped, refused,
  start_open_channel-Opens,
}
use libamqp_cpp.ConnectionManager.Entries.{
  get_elem?-set_elem, get_elem?-appended, close_channels-ok, close_channels-length, length-set_elem,
  Closes, stays_expired, channel_closes,
}
use libamqp_cpp.ConnectionManager.Steps.{
  Step, submit, post, request, run, open_channel, complete, header, body, call, destroy, Reach,
  here, next,
}

module _ (w : World) (n : ℕ) (o c : w.opens.Promise) where
  -- The promises that the thread waits for are `o`, of the channel object at the place `n` of the
  -- table, and `c`, of the connection.
  pub record IsStalled (m : Manager w) : Type 0 where
    pub not_reading : m.reading ≡ no_read
    pub closing : m.connection_closed_promise ≡ c
    pub within : n < length m.channels
    pub opening :
        (ch : ChannelObject w) → get_elem? m.channels n ≡ some (channel ch) → ch.opened_promise ≡ o

  -- Only the table, the read and the connection's promise count.
  abbrev Agrees : Manager w → Manager w → Type 0
  Agrees m m' =
      (m'.reading ≡ m.reading)
      × (m'.connection_closed_promise ≡ m.connection_closed_promise)
      × (m'.channels ≡ m.channels)

  IsStalled-Agrees : (m m' : Manager w) → Agrees m m' → IsStalled m → IsStalled m'
  IsStalled-Agrees m m' (r, k, t) h = record {
    not_reading = r ∙ h.not_reading;
    closing = k ∙ h.closing;
    within = rw t h.within;
    opening = λ ch e. h.opening ch (rw t at e);
  }

  begin_write_frame-Agrees : (fr : Frame) (m : Manager w) → Agrees m (begin_write_frame w fr m)
  unfolding begin_write_frame start_write
  begin_write_frame-Agrees fr m = (ground arith, ground arith, ground arith)

  -- An entry of the table is replaced by one with the same promise of the opening, or by none.
  IsStalled-set :
      (m m' : Manager w) (k : ℕ) (y : Slot w)
      → ((ch : ChannelObject w) → n ≡ k → y ≡ channel ch → ch.opened_promise ≡ o)
      → Agrees (record m { channels = set_elem k y m.channels }) m'
      → IsStalled m
      → IsStalled m'
  IsStalled-set m m' k y same agree h =
      IsStalled-Agrees (record m { channels = set_elem k y m.channels }) m' agree
        (record {
          not_reading = h.not_reading;
          closing = h.closing;
          within = omega (arith, h.within, length-set_elem k y m.channels);
          opening = λ ch e. elim (get_elem?-set_elem m.channels k n y (channel ch) e) [
            | inl (p, q) ↦ same ch p (sym q)
            | inr f ↦ h.opening ch f
          ];
        })

  on_socket_close-IsStalled :
      (m m' : Manager w) → on_socket_close w m ≡ ok m' → IsStalled m → IsStalled m'
  unfolding on_socket_close
  on_socket_close-IsStalled m m' e h =
      let (cs, p, q) = >>=-eq-ok (close_channels w m.channels) _ e in
      subst IsStalled (ok-injective q) (record {
        not_reading = h.not_reading;
        closing = h.closing;
        within = omega (arith, h.within, close_channels-length w m.channels cs p);
        opening = λ ch f. elim (close_channels-ok w m.channels cs n (channel ch) p f) [
          | inl (z, g) ↦
              h.opening ch (subst (λ i. get_elem? m.channels i ≡ some (channel ch)) (sym z) g)
          | inr (x, g, c) ↦ shut x ch (channel ch) refl g c
        ];
      })
    where
      shut :
          (x : Slot w) (ch : ChannelObject w) (y : Slot w)
          → y ≡ channel ch
          → get_elem? m.channels n ≡ some x
          → Closes w x y
          → ch.opened_promise ≡ o
      shut x ch y e g stays_expired = cc
      shut x ch y e g (channel_closes before after closed) =
          let kept =
            close_async-opened_promise w.methods w.opens w.calls w.closes before after closed in
          let same : after ≡ ch = cc in
          ap (λ (d : ChannelObject w). d.opened_promise) (sym same) ∙ kept ∙ h.opening before g

  create_next_channel-IsStalled :
      (m m' : Manager w) (k : ℕ) → create_next_channel w m ≡ ok (k, m') → IsStalled m → IsStalled m'
  create_next_channel-IsStalled m m' k e h =
      subst IsStalled (create_next_channel-ok w m m' k e).1 (record {
        not_reading = h.not_reading;
        closing = h.closing;
        within = omega (arith, h.within, length-append m.channels (_ ∷ []));
        opening = λ ch f. elim (get_elem?-appended m.channels n _ (channel ch) f) [
          | inl (p, q) ↦ absurd (omega (arith, h.within, p))
          | inr g ↦ h.opening ch g
        ];
      })

  destroy_channel-IsStalled :
      (k : ℕ) (ch : ChannelObject w) (m m' : Manager w)
      → destroy_channel w k ch m ≡ ok m'
      → IsStalled m
      → IsStalled m'
  destroy_channel-IsStalled k ch m m' e h =
      subst IsStalled (destroy_channel-ok w k ch m m' e)
        (IsStalled-set m _ k expired (λ ch' p q. cc) (refl, refl, refl) h)

  Opens-IsStalled : (m m' : Manager w) → Opens w m m' → IsStalled m → IsStalled m'
  Opens-IsStalled m m' (opened m₁ k fr made e) h = subst IsStalled e (
      IsStalled-Agrees m₁ _ (begin_write_frame-Agrees fr m₁)
        (create_next_channel-IsStalled m m₁ k made h))
  Opens-IsStalled m m' (dropped m₁ k made e) h =
      destroy_channel-IsStalled k _ m₁ m' e (create_next_channel-IsStalled m m₁ k made h)
  Opens-IsStalled m m' (refused e) h = subst IsStalled e h

  on_write_frame-IsStalled :
      (failed : Bool) (m m' : Manager w)
      → on_write_frame w failed m ≡ ok m'
      → IsStalled m
      → IsStalled m'
  unfolding on_write_frame start_write
  on_write_frame-IsStalled true m m' e h = on_socket_close-IsStalled m m' e h
  on_write_frame-IsStalled false m m' e h =
      IsStalled-Agrees m m' (ground arith, ground arith, ground arith) h

  Step-IsStalled : {m m' : Manager w} → Step w m m' → IsStalled m → IsStalled m'
  unfolding write_frame_async begin_open_channel begin_write_method
  Step-IsStalled {m} {m'} (submit fr e) h =
      IsStalled-Agrees m m' (ground arith, ground arith, ground arith) h
  Step-IsStalled {m} {m'} (post channel_id method e) h =
      let (fr, made, e') = >>=-eq-ok (create_from_method channel_id method) _ e in
      subst IsStalled (ok-injective e') (IsStalled-Agrees m _ (refl, refl, refl) h)
  Step-IsStalled {m} {m'} (request e) h =
      subst IsStalled (sym e) (IsStalled-Agrees m _ (refl, refl, refl) h)
  Step-IsStalled {m} {m'} (run before after fr p e) h =
      let taken : Manager w = record m { posted = before ++ after } in
      subst IsStalled (sym e) (
        IsStalled-Agrees taken _ (begin_write_frame-Agrees fr taken)
          (IsStalled-Agrees m taken (refl, refl, refl) h))
  Step-IsStalled {m} {m'} (open_channel before after p p' q e) h =
      let asked : Manager w = record m { requests = before ++ after } in
      Opens-IsStalled asked m' (start_open_channel-Opens w asked m' p p' e)
        (IsStalled-Agrees m asked (refl, refl, refl) h)
  Step-IsStalled {m} {m'} (complete failed k p e) h =
      on_write_frame-IsStalled failed (record m { outstanding = k }) m' e
        (IsStalled-Agrees m _ (refl, refl, refl) h)
  Step-IsStalled {m} {m'} (header failed bytes p l e) h = let q = h.not_reading in absurd (cc)
  Step-IsStalled {m} {m'} (body failed k bytes p l e) h = let q = h.not_reading in absurd (cc)
  Step-IsStalled {m} {m'} (call k class_id method_id ch ch' is_ready method fr p b e) h =
      let kept =
        begin_rpc-opened_promise w.methods w.opens w.calls w.closes is_ready class_id method_id
          method ch ch' fr b in
      let at_place = λ (j : ℕ). get_elem? m.channels j ≡ some (channel ch) in
      subst IsStalled (sym e) (
        IsStalled-set m _ k (channel ch')
          (λ x i q.
            let same : ch' ≡ x = cc in
            ap (λ (d : ChannelObject w). d.opened_promise) (sym same)
            ∙ kept
            ∙ h.opening ch (subst at_place (sym i) p))
          (refl, refl, refl) h)
  Step-IsStalled {m} {m'} (destroy k ch p e) h = destroy_channel-IsStalled k ch m m' e h

  pub Reach-IsStalled : {m m' : Manager w} → Reach w m m' → IsStalled m → IsStalled m'
  Reach-IsStalled here h = h
  Reach-IsStalled (next r st) h = Step-IsStalled st (Reach-IsStalled r h)
