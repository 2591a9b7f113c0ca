-- ===== src/ConnectionManager/Extends.antt =====
-- What each handler does to the writes.
use libamqp_cpp.Base.{
  ℕ, ◌+◌, ◌≡◌, ◌≢◌, ◌⊎◌, inl, inr, refl, sym, subst, ap, ◌∙◌, append_assoc, Bool, true, false, List,
  [], ◌∷◌, ◌++◌, append-nil, some, ok, arith, >>=-eq-ok, ok-injective,
}
use libamqp_cpp.Frame.{Frame, Serializable, create_from_method}
use libamqp_cpp.ConnectionManager.{
  ConnectionState, open_state, closing_state, closed_state, World, Manager, begin_write_frame,
  begin_write_method, on_socket_close, on_write_frame,
}
use libamqp_cpp.ConnectionManager.Outcomes.{Answers}

module _ (w : World) where
  -- What a handler does that finds the state `s` and the writes `ws`, and an empty queue: the queue
  -- is empty again, and writes are added at the end. A closed state stays closed and adds none.
  pub record Extends (s : ConnectionState) (ws : List Frame) (m : Manager w) : Type 0 where
    pub queue : m.write_queue ≡ []
    pub added : List Frame
    pub appended : m.started ≡ ws ++ added
    pub closed : s ≡ closed_state → (m.state ≡ closed_state) × (added ≡ [])

  pub keeps :
      (s : ConnectionState) (ws : List Frame) (m : Manager w)
      → m.write_queue ≡ []
      → m.started ≡ ws
      → (s ≡ closed_state → m.state ≡ closed_state)
      → Extends s ws m
  keeps s ws m q e c = record {
    queue = q;
    added = [];
    appended = e ∙ sym (append-nil ws);
    closed = λ h. (c h, refl);
  }

  -- In an open state with an empty queue the frame is written at once.
  pub begin_write_frame-open :
      (fr : Frame) (m : Manager w)
      → m.state ≡ open_state
      → m.write_queue ≡ []
      → begin_write_frame w fr m ≡ record m {
        write_queue = [];
        current_write_frame = some fr;
        started = m.started ++ fr ∷ [];
        outstanding = m.outstanding + 1;
      }
  unfolding begin_write_frame
  begin_write_frame-open fr m o q = ground arith

  begin_write_frame-shut :
      (fr : Frame) (m : Manager w) → m.state ≢ open_state → begin_write_frame w fr m ≡ m
  unfolding begin_write_frame
  begin_write_frame-shut fr m o = ground arith

  state_cases : (m : Manager w) → (m.state ≡ open_state) ⊎ (m.state ≢ open_state)
  state_cases m = go m.state
    where
      go : (s : ConnectionState) → (s ≡ open_state) ⊎ (s ≢ open_state)
      go open_state = inl refl
      go closing_state = inr (λ e. cc)
      go closed_state = inr (λ e. cc)

  pub begin_write_frame-Extends :
      (fr : Frame) (m : Manager w)
      → m.write_queue ≡ []
      → Extends m.state m.started (begin_write_frame w fr m)
  begin_write_frame-Extends fr m q = elim (state_cases m) [
    | inl o ↦ rw (begin_write_frame-open fr m o q) (record {
      queue = refl;
      added = fr ∷ [];
      appended = refl;
      closed = λ h. absurd (differ (sym o ∙ h));
    })
    | inr o ↦ rw (begin_write_frame-shut fr m o) (keeps m.state m.started m q refl (λ h. h))
  ]
    where
      differ : open_state ≢ closed_state
      differ e = cc

  pub on_socket_close-Extends :
      (m m' : Manager w)
      → m.write_queue ≡ []
      → on_socket_close w m ≡ ok m'
      → Extends m.state m.started m'
  unfolding on_socket_close
  on_socket_close-Extends m m' q e =
      keeps m.state m.started m' (ground arith) (ground arith) (λ h. ground arith)

  pub on_write_frame-Extends :
      (failed : Bool) (m m' : Manager w)
      → m.write_queue ≡ []
      → on_write_frame w failed m ≡ ok m'
      → Extends m.state m.started m'
  unfolding on_write_frame
  on_write_frame-Extends true m m' q e = on_socket_close-Extends m m' q e
  on_write_frame-Extends false m m' q e =
      keeps m.state m.started m' (ground arith) (ground arith) (λ h. ground arith)

  -- Nothing of the writing side has changed.
  abbrev pub Quiet : Manager w → Manager w → Type 0
  Quiet m m' = (m'.write_queue ≡ m.write_queue) × (m'.started ≡ m.started) × (m'.state ≡ m.state)

  -- A handler from a state that an earlier part left.
  pub Extends-after :
      (m m₁ m' : Manager w)
      → Quiet m m₁
      → Extends m₁.state m₁.started m'
      → Extends m.state m.started m'
  Extends-after m m₁ m' (q, s, c) h =
      subst (λ x. Extends x m.started m') c (subst (λ x. Extends m₁.state x m') s h)

  pub Quiet-Extends :
      (m m' : Manager w) → m.write_queue ≡ [] → Quiet m m' → Extends m.state m.started m'
  Quiet-Extends m m' q (k, s, c) = keeps m.state m.started m' (k ∙ q) s (λ h. c ∙ h)

  pub Extends-twice :
      (m m₁ m' : Manager w)
      → Extends m.state m.started m₁
      → Extends m₁.state m₁.started m'
      → Extends m.state m.started m'
  Extends-twice m m₁ m' before after = record {
    queue = after.queue;
    added = before.added ++ after.added;
    appended =
        after.appended
        ∙ ap (λ (x : List Frame). x ++ after.added) before.appended
        ∙ append_assoc m.started before.added after.added;
    closed = λ h.
        let (c, none_before) = before.closed h in
        let (c', none_after) = after.closed c in (c', rw (none_before, none_after));
  }

  pub of_eq :
      (m m₁ : Manager w)
      → m₁ ≡ m
      → (s : ConnectionState) (ws : List Frame) → Extends s ws m₁
      → Extends s ws m
  of_eq m m₁ e s ws h = subst (λ x. Extends s ws x) e h

  pub begin_write_method-Quiet :
      (channel_id : ℕ) (method : Serializable) (m m' : Manager w)
      → begin_write_method w channel_id method m ≡ ok m'
      → Quiet m m'
  unfolding begin_write_method
  begin_write_method-Quiet channel_id method m m' e =
      let (fr, p, q) = >>=-eq-ok (create_from_method channel_id method) _ e in
      let same = ok-injective q in (ground arith, ground arith, ground arith)

  pub Answers-Extends :
      (m m' : Manager w) → m.write_queue ≡ [] → Answers w m m' → Extends m.state m.started m'
  Answers-Extends m m' q (inl same) = rw same (keeps m.state m.started m q refl (λ h. h))
  Answers-Extends m m' q (inr (reply, written)) = rw written (begin_write_frame-Extends reply m q)
