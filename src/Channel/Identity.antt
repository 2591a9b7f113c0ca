-- ===== src/Channel/Identity.antt =====
-- What stays of a channel object through its handlers: its identifier, and its promise that it has
-- closed.
use libamqp_cpp.Base.{
  ℕ, ◌≡◌, refl, sym, ap, ◌∙◌, ◌==◌, none, some, Bool, true, false, List, inl, inr, Bool-cases,
  Result, ok, err, undefined, out_of_fuel, >>=-eq-ok, ok-injective, channel_exception,
  runtime_error, logic_error, std_exception, connection_exception, subst,
}
use libamqp_cpp.Promise.{PromiseOf, IsPromise, set_value_satisfies}
use libamqp_cpp.Frame.{Frame, Serializable, create_from_method}
use libamqp_cpp.Channel.{
  Methods, opening, calling, closed, Continuation, Channel, continue_with, resume, close_, close_by,
  handle_end, post_method, process_frame, begin_rpc, close_async,
}

module _ (gen : Methods) (opens : PromiseOf Bool) (calls : PromiseOf gen.Method)
    (closes : PromiseOf ℕ) where
  abbrev pub Same : Channel gen opens calls closes → Channel gen opens calls closes → Type 0
  Same ch ch' = (ch'.channel_id ≡ ch.channel_id) × (ch'.closed_promise ≡ ch.closed_promise)

  resume-Same :
      (k : Continuation gen opens calls closes) (fr : Frame) (ch : Channel gen opens calls closes)
      → Same ch (resume gen opens calls closes k fr ch).0
  unfolding resume
  resume-Same opening fr ch = (refl, refl)
  resume-Same (calling class_id method_id promise) fr ch = (refl, refl)
  resume-Same closed fr ch = (refl, refl)

  continue_with-Same :
      (fr : Frame) (ch : Channel gen opens calls closes)
      → Same ch (continue_with gen opens calls closes fr ch).0
  unfolding continue_with
  continue_with-Same fr ch = resume-Same ch.continuation fr ch

  post_method-left :
      (r : Result Frame) (ch : Channel gen opens calls closes)
      → (post_method gen opens calls closes r ch).left ≡ ch
  unfolding post_method
  post_method-left (ok fr) ch = refl
  post_method-left (err e) ch = refl
  post_method-left undefined ch = refl
  post_method-left out_of_fuel ch = refl

  close_by-Same :
      (r : Result Serializable) (ch : Channel gen opens calls closes)
      → Same ch (close_by gen opens calls closes r ch).left
  unfolding close_by
  close_by-Same (ok method) ch =
      let shut : Channel gen opens calls closes = record ch { continuation = closed } in
      subst (λ x. Same ch x) (sym (post_method-left _ shut)) (refl, refl)
  close_by-Same (err e) ch = (refl, refl)
  close_by-Same undefined ch = (refl, refl)
  close_by-Same out_of_fuel ch = (refl, refl)

  close_-Same :
      (code : ℕ) (text : List ℕ) (class_id method_id : ℕ) (ch : Channel gen opens calls closes)
      → Same ch (close_ gen opens calls closes code text class_id method_id ch).left
  unfolding close_
  close_-Same code text class_id method_id ch =
      close_by-Same (gen.close code text class_id method_id) ch

  handle_end-Same :
      (ch : Channel gen opens calls closes) (r : Result (Unit {0}))
      → Same ch (handle_end gen opens calls closes ch r).left
  unfolding handle_end
  handle_end-Same ch (ok done) = (refl, refl)
  handle_end-Same ch (err (channel_exception code text class_id method_id)) =
      close_-Same code text class_id method_id ch
  handle_end-Same ch (err (runtime_error message)) = (refl, refl)
  handle_end-Same ch (err (logic_error message)) = (refl, refl)
  handle_end-Same ch (err std_exception) = (refl, refl)
  handle_end-Same ch (err connection_exception) = (refl, refl)
  handle_end-Same ch undefined = (refl, refl)
  handle_end-Same ch out_of_fuel = (refl, refl)

  pub process_frame-Same :
      (fr : Frame) (ch : Channel gen opens calls closes)
      → Same ch (process_frame gen opens calls closes fr ch).left
  unfolding process_frame
  process_frame-Same fr ch =
      let (i, k) = continue_with-Same fr ch in
      let (i', k') =
        handle_end-Same (continue_with gen opens calls closes fr ch).0
          (continue_with gen opens calls closes fr ch).1 in
      elim (Bool-cases (fr.channel == ch.channel_id)) [
        | inl e ↦ rw e (i' ∙ i, k' ∙ k)
        | inr e ↦ rw e (refl, refl)
      ]

  pub begin_rpc-Same :
      (is_ready : Bool) (class_id method_id : ℕ) (method : Serializable)
      (ch ch' : Channel gen opens calls closes) (fr : Frame)
      → begin_rpc gen opens calls closes is_ready class_id method_id method ch ≡ ok (ch', fr)
      → Same ch ch'
  unfolding begin_rpc
  begin_rpc-Same true class_id method_id method ch ch' fr b = cc
  begin_rpc-Same false class_id method_id method ch ch' fr b =
      let (first, made, b₁) = >>=-eq-ok (create_from_method ch.channel_id method) _ b in
      let (out, made', b₂) = >>=-eq-ok (create_from_method ch.channel_id method) _ b₁ in
      let same = ok-injective b₂ in
      (
        ap (λ (x : Channel gen opens calls closes × Frame). x.0.channel_id) (sym same),
        ap (λ (x : Channel gen opens calls closes × Frame). x.0.closed_promise) (sym same),
      )

  -- A call and the closing leave the promise that the channel is open as it is.
  pub begin_rpc-opened_promise :
      (is_ready : Bool) (class_id method_id : ℕ) (method : Serializable)
      (ch ch' : Channel gen opens calls closes) (fr : Frame)
      → begin_rpc gen opens calls closes is_ready class_id method_id method ch ≡ ok (ch', fr)
      → ch'.opened_promise ≡ ch.opened_promise
  unfolding begin_rpc
  begin_rpc-opened_promise true class_id method_id method ch ch' fr b = cc
  begin_rpc-opened_promise false class_id method_id method ch ch' fr b =
      let (first, made, b₁) = >>=-eq-ok (create_from_method ch.channel_id method) _ b in
      let (out, made', b₂) = >>=-eq-ok (create_from_method ch.channel_id method) _ b₁ in
      ap (λ (x : Channel gen opens calls closes × Frame). x.0.opened_promise)
        (sym (ok-injective b₂))

  pub close_async-opened_promise :
      (ch ch' : Channel gen opens calls closes)
      → close_async gen opens calls closes ch ≡ ok ch'
      → ch'.opened_promise ≡ ch.opened_promise
  unfolding close_async
  close_async-opened_promise ch ch' e =
      let (p, set, e') = >>=-eq-ok (closes.set_value 1 ch.closed_promise) _ e in
      ap (λ (x : Channel gen opens calls closes). x.opened_promise) (sym (ok-injective e'))

  -- close_async keeps the identifier, and satisfies the promise, which was not satisfied before.
  pub close_async-satisfies :
      IsPromise closes
      → (ch ch' : Channel gen opens calls closes) → close_async gen opens calls closes ch ≡ ok ch'
      → (ch'.channel_id ≡ ch.channel_id) × (closes.outcome ch'.closed_promise ≡ some (inl 1))
  unfolding close_async
  close_async-satisfies promise ch ch' e =
      let (p, set, e') = >>=-eq-ok (closes.set_value 1 ch.closed_promise) _ e in
      let same = ok-injective e' in
      let (before, after) = set_value_satisfies closes promise 1 ch.closed_promise p set in
      (
        ap (λ (x : Channel gen opens calls closes). x.channel_id) (sym same),
        ap closes.outcome (ap (λ (x : Channel gen opens calls closes). x.closed_promise) (sym same))
            ∙ after,
      )

  -- It succeeds on a promise that is not satisfied.
  pub close_async-ok :
      IsPromise closes
      → (ch : Channel gen opens calls closes) → closes.outcome ch.closed_promise ≡ none
      → (ch' : Channel gen opens calls closes) × (close_async gen opens calls closes ch ≡ ok ch')
  unfolding close_async
  close_async-ok promise ch e =
      let (p, set, has) = promise.set_value_lem 1 ch.closed_promise e in
      (record ch { closed_promise = p }, rw set)
