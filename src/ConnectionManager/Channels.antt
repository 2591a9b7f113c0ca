-- ===== src/ConnectionManager/Channels.antt =====
-- The table of channels: identifiers of new channels, and closing twice.
use libamqp_cpp.Base.{
  ℕ, zero, suc, ◌-◌, ◌^◌, ◌<◌, ◌≡◌, ◌≢◌, refl, ap, List, [], ◌∷◌, ◌++◌, some, >>=-eq-ok,
  ok-injective, ok, err, Exception, logic_error, arith, length, get_elem?, le→ltb, subst,
}
use libamqp_cpp.Promise.{IsPromise, set_value_twice}
use libamqp_cpp.Channel.{new_channel, close_async}
use libamqp_cpp.ConnectionManager.Entries.{get_elem?-last}
use libamqp_cpp.ConnectionManager.{
  World, ChannelObject, Slot, expired, control, channel, Manager, create_next_channel, close_slots,
  close_channels, on_socket_close,
}

get_elem?-front {ℓ} :
    {A : Type ℓ} (xs : List A) (x : A) (i : ℕ)
    → i < length xs
    → get_elem? (xs ++ x ∷ []) i ≡ get_elem? xs i
get_elem?-front [] x i h = absurd (omega arith)
get_elem?-front (y ∷ ys) x zero h = refl
get_elem?-front (y ∷ ys) x (suc i) h = get_elem?-front ys x i (omega arith)

module _ (w : World) where
  abbrev pub fresh_channel : ℕ → ChannelObject w
  fresh_channel n = new_channel w.methods w.opens w.calls w.closes n

  -- While the table has fewer than 65536 entries, a new channel can be opened. Its identifier is
  -- its place in the table and that of no entry before it, and every entry before it keeps its
  -- place.
  create_next_channel-fresh :
      (m : Manager w) (i : ℕ)
      → length m.channels < 2 ^ 16
      → i < length m.channels
      → (m' : Manager w) × (create_next_channel w m ≡ ok (length m.channels, m'))
        × (get_elem? m'.channels (length m.channels)
            ≡ some (channel (fresh_channel (length m.channels))))
        × (get_elem? m'.channels i ≡ get_elem? m.channels i)
        × (i ≢ length m.channels)
  unfolding create_next_channel
  create_next_channel-fresh m i h k =
      let slot : Slot w = channel (fresh_channel (length m.channels)) in
      (
        record m { channels = m.channels ++ slot ∷ [] },
        rw (le→ltb (2 ^ 16 - 1) (length m.channels) (omega arith)),
        get_elem?-last m.channels slot,
        get_elem?-front m.channels slot i k,
        omega arith,
      )

  -- A channel object is still there in the list.
  abbrev pub HasChannel : List (Slot w) → Type 0
  HasChannel [] = ⊥
  HasChannel (expired ∷ rest) = HasChannel rest
  HasChannel (control ∷ rest) = HasChannel rest
  HasChannel (channel ch ∷ rest) = Unit {0}

  close_async-twice :
      IsPromise w.closes
      → (ch ch' : ChannelObject w) → close_async w.methods w.opens w.calls w.closes ch ≡ ok ch'
      → (e : Exception) × (close_async w.methods w.opens w.calls w.closes ch' ≡ err e)
  unfolding close_async
  close_async-twice once ch ch' e =
      let (p, set, q) = >>=-eq-ok (w.closes.set_value 1 ch.closed_promise) _ e in
      let (message, refused) = set_value_twice w.closes once 1 1 ch.closed_promise p set in
      let kept : p ≡ ch'.closed_promise =
        ap (λ (c : ChannelObject w). c.closed_promise) (ok-injective q) in
      let refused' = subst (λ x. w.closes.set_value 1 x ≡ err (logic_error message)) kept refused in
      (logic_error message, rw refused')

  close_slots-twice :
      IsPromise w.closes
      → (xs ys : List (Slot w)) → HasChannel xs
      → close_slots w xs ≡ ok ys
      → (e : Exception) × (close_slots w ys ≡ err e)
  unfolding close_slots
  close_slots-twice once [] ys h e = absurd h
  close_slots-twice once (expired ∷ rest) ys h e =
      let (rest', p, q) = >>=-eq-ok (close_slots w rest) _ e in
      let (x, again) = close_slots-twice once rest rest' h p in
      (x, subst (λ zs. close_slots w zs ≡ err x) (ok-injective q) (rw again))
  close_slots-twice once (control ∷ rest) ys h e = cc
  close_slots-twice once (channel ch ∷ rest) ys h e =
      let (ch', set, e') = >>=-eq-ok (close_async w.methods w.opens w.calls w.closes ch) _ e in
      let (rest', closed, q) = >>=-eq-ok (close_slots w rest) _ e' in
      let (x, again) = close_async-twice once ch ch' set in
      (x, subst (λ zs. close_slots w zs ≡ err x) (ok-injective q) (rw again))

  abbrev pub tail_of : List (Slot w) → List (Slot w)
  tail_of [] = []
  tail_of (first ∷ rest) = rest

  close_channels-twice :
      IsPromise w.closes
      → (xs ys : List (Slot w)) → HasChannel (tail_of xs)
      → close_channels w xs ≡ ok ys
      → (e : Exception) × (close_channels w ys ≡ err e)
  unfolding close_channels
  close_channels-twice once [] ys h e = absurd h
  close_channels-twice once (first ∷ rest) ys h e =
      let (rest', p, q) = >>=-eq-ok (close_slots w rest) _ e in
      let (x, again) = close_slots-twice once rest rest' h p in
      (x, subst (λ zs. close_channels w zs ≡ err x) (ok-injective q) (rw again))

  -- Given promises that can be satisfied once only: when the socket's closing has been handled once
  -- without an exception, and a channel object was there, handling it again throws.
  pub on_socket_close-twice :
      (m m' : Manager w)
      → IsPromise w.closes
      → HasChannel (tail_of m.channels)
      → on_socket_close w m ≡ ok m'
      → (e : Exception) × (on_socket_close w m' ≡ err e)
  unfolding on_socket_close
  on_socket_close-twice m m' once h e =
      let (cs, p, q) = >>=-eq-ok (close_channels w m.channels) _ e in
      let (x, again) = close_channels-twice once m.channels cs h p in
      let kept : cs ≡ m'.channels = ap (λ (k : Manager w). k.channels) (ok-injective q) in
      let again' = subst (λ zs. close_channels w zs ≡ err x) kept again in (x, rw again')
