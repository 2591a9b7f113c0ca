-- ===== src/ConnectionManager/Invariant.antt =====
-- What holds of the table of channels in every state that the connection reaches.
use libamqp_cpp.Base.{
  ℕ, zero, suc, ◌≡◌, ◌≢◌, refl, sym, subst, ap, ◌∙◌, inl, inr, some, none, Option, ok, >>=-eq-ok,
  ok-injective, get_elem?, arith,
}
use libamqp_cpp.Promise.{IsPromise}
use libamqp_cpp.Frame.{Frame}
use libamqp_cpp.Channel.{new_channel}
use libamqp_cpp.Channel.Identity.{Same, process_frame-Same, close_async-satisfies}
use libamqp_cpp.ConnectionManager.{
  World, ConnectionState, closed_state, Manager, Slot, expired, control, channel, ChannelObject,
  start_write, begin_write_frame, on_socket_close, close_channels, create_next_channel,
}
use libamqp_cpp.ConnectionManager.Dispatch.{set_elem, after_handler, hand_over, destroy_channel}
use libamqp_cpp.ConnectionManager.Outcomes.{
  Answers, handle_dead_channel_frame-Answers, deliver-ok, destroy_channel-ok,
  create_next_channel-ok,
}
use libamqp_cpp.ConnectionManager.Entries.{
  get_elem?-set_elem, get_elem?-set_first, get_elem?-appended, get_elem?-append_first,
  close_channels-ok, close_channels-first, Closes, stays_expired, channel_closes,
}

module _ (w : World) where
  -- An entry at the place `n`: channel0 is at the first, a channel object has the number of its
  -- place as its identifier, and its promise that it has closed is open until the socket closes.
  pub data IsSoundSlot (s : ConnectionState) (n : ℕ) : Slot w → Type 0 where
    nothing : IsSoundSlot s n expired
    zeroth : n ≡ 0 → IsSoundSlot s n control
    numbered :
        (ch : ChannelObject w)
        → ch.channel_id ≡ n
        → (s ≢ closed_state → w.closes.outcome ch.closed_promise ≡ none)
        → IsSoundSlot s n (channel ch)

  pub record IsSound (m : Manager w) : Type 0 where
    pub first : get_elem? m.channels 0 ≡ some control
    pub slots : (n : ℕ) (x : Slot w) → get_elem? m.channels n ≡ some x → IsSoundSlot m.state n x

  -- Only the table and the state count.
  abbrev pub Agree : Manager w → Manager w → Type 0
  Agree m m' = (m'.channels ≡ m.channels) × (m'.state ≡ m.state)

  pub IsSound-Agree : (m m' : Manager w) → Agree m m' → IsSound m → IsSound m'
  IsSound-Agree m m' (c, s) h = record {
    first = rw c h.first;
    slots = λ n x e. subst (λ t. IsSoundSlot t n x) (sym s) (h.slots n x (rw c at e));
  }

  pub begin_write_frame-Agree : (fr : Frame) (m : Manager w) → Agree m (begin_write_frame w fr m)
  unfolding begin_write_frame start_write
  begin_write_frame-Agree fr m = (ground arith, ground arith)

  -- An entry of a channel object is replaced by one that is as sound.
  pub replaced :
      (m m' : Manager w) (n : ℕ) (ch : ChannelObject w) (y : Slot w)
      → get_elem? m.channels n ≡ some (channel ch)
      → (IsSoundSlot m.state n (channel ch) → IsSoundSlot m.state n y)
      → Agree (record m { channels = set_elem n y m.channels }) m'
      → IsSound m
      → IsSound m'
  replaced m m' n ch y there keeps agree h =
      IsSound-Agree (record m { channels = set_elem n y m.channels }) m' agree
        (record {
          first = first_kept n there;
          slots = λ i x e. elim (get_elem?-set_elem m.channels n i y x e) [
            | inl (p, q) ↦ rw (p, q) (keeps (h.slots n (channel ch) there))
            | inr f ↦ h.slots i x f
          ];
        })
    where
      first_kept :
          (n : ℕ)
          → get_elem? m.channels n ≡ some (channel ch)
          → get_elem? (set_elem n y m.channels) 0 ≡ some control
      first_kept zero e = let f = h.first in absurd (cc)
      first_kept (suc n) e = get_elem?-set_first m.channels n y ∙ h.first

  pub channel_id_of :
      {s : ConnectionState} {n : ℕ} {ch : ChannelObject w}
      → IsSoundSlot s n (channel ch)
      → ch.channel_id ≡ n
  channel_id_of (numbered ch i o) = i

  pub unsatisfied_of :
      {s : ConnectionState} {n : ℕ} {ch : ChannelObject w}
      → IsSoundSlot s n (channel ch)
      → s ≢ closed_state
      → w.closes.outcome ch.closed_promise ≡ none
  unsatisfied_of (numbered ch i o) = o

  pub IsSoundSlot-Same :
      (s : ConnectionState) (n : ℕ) (ch ch' : ChannelObject w)
      → Same w.methods w.opens w.calls w.closes ch ch'
      → IsSoundSlot s n (channel ch)
      → IsSoundSlot s n (channel ch')
  IsSoundSlot-Same s n ch ch' (i, k) h =
      numbered ch' (i ∙ channel_id_of h) (λ o. ap w.closes.outcome k ∙ unsatisfied_of h o)

  module _ (promise : IsPromise w.closes) where
    pub on_socket_close-IsSound :
        (m m' : Manager w) → on_socket_close w m ≡ ok m' → IsSound m → IsSound m'
    unfolding on_socket_close
    on_socket_close-IsSound m m' e h =
        let (cs, p, q) = >>=-eq-ok (close_channels w m.channels) _ e in
        subst IsSound (ok-injective q) (record {
          first = close_channels-first w m.channels cs control p h.first;
          slots = λ n y f. elim (close_channels-ok w m.channels cs n y p f) [
            | inl (z, g) ↦ at_first n y z (sym h.first ∙ g)
            | inr (x, g, c) ↦ shut n (h.slots n x g) c
          ];
        })
      where
        at_first :
            (n : ℕ) (y : Slot w)
            → n ≡ 0
            → Option.some control ≡ some y
            → IsSoundSlot closed_state n y
        at_first n y z e = subst (λ t. IsSoundSlot closed_state n t) (cc) (zeroth z)

        shut :
            {x y : Slot w} (n : ℕ)
            → IsSoundSlot m.state n x
            → Closes w x y
            → IsSoundSlot closed_state n y
        shut n s stays_expired = nothing
        shut n s (channel_closes ch ch' c) =
            let (kept, has) =
              close_async-satisfies w.methods w.opens w.calls w.closes promise ch ch' c in
            numbered ch' (kept ∙ channel_id_of s) (λ ne. absurd (ne refl))

    pub create_next_channel-IsSound :
        (m m' : Manager w) (n : ℕ) → create_next_channel w m ≡ ok (n, m') → IsSound m → IsSound m'
    unfolding new_channel
    create_next_channel-IsSound m m' n e h =
        subst IsSound (create_next_channel-ok w m m' n e).1 (record {
          first = get_elem?-append_first m.channels _ control h.first;
          slots = λ i x f. elim (get_elem?-appended m.channels i _ x f) [
            | inl (p, q) ↦ rw (p, q) (numbered _ refl (λ s. promise.new_lem))
            | inr g ↦ h.slots i x g
          ];
        })

    pub destroy_channel-IsSound :
        (n : ℕ) (ch : ChannelObject w) (m m' : Manager w)
        → get_elem? m.channels n ≡ some (channel ch)
        → destroy_channel w n ch m ≡ ok m'
        → IsSound m
        → IsSound m'
    destroy_channel-IsSound n ch m m' there e h =
        subst IsSound (destroy_channel-ok w n ch m m' e)
          (replaced m _ n ch expired there (λ s. nothing) (refl, refl) h)

    pub Answers-IsSound : (m m' : Manager w) → Answers w m m' → IsSound m → IsSound m'
    Answers-IsSound m m' (inl same) h = subst IsSound (sym same) h
    Answers-IsSound m m' (inr (reply, written)) h =
        subst IsSound (sym written) (IsSound-Agree m _ (begin_write_frame-Agree reply m) h)

    pub hand_over-IsSound :
        (fr : Frame) (m m' : Manager w)
        → hand_over w fr (get_elem? m.channels fr.channel) m ≡ ok m'
        → IsSound m
        → IsSound m'
    unfolding hand_over after_handler
    hand_over-IsSound fr m m' e h = go (get_elem? m.channels fr.channel) refl e
      where
        go :
            (found : Option (Slot w))
            → get_elem? m.channels fr.channel ≡ found
            → hand_over w fr found m ≡ ok m'
            → IsSound m'
        go none there e = cc
        go (some expired) there e =
            Answers-IsSound m m' (handle_dead_channel_frame-Answers w fr m m' e) h
        go (some control) there e = cc
        go (some (channel ch)) there e = subst IsSound (deliver-ok w fr ch m m' e) (
            replaced m _ fr.channel ch _ there
              (IsSoundSlot-Same m.state fr.channel ch _
                (process_frame-Same w.methods w.opens w.calls w.closes fr ch))
              (refl, refl) h)
