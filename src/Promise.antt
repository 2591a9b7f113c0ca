-- ===== src/Promise.antt =====
-- The promises of boost's futures, as channel_impl.* and connection_manager.* use them.
use libamqp_cpp.Base.{
  ◌≡◌, sym, subst, ◌∙◌, String, Option, none, some, ◌⊎◌, inl, inr, Result, ok, err, Exception,
  logic_error, Option-cases, ok-injective,
}

-- A promise of boost: a new one, the two ways to satisfy it, and what its future has.
pub record PromiseOf (A : Type 0) : Type 1 where
  pub Promise : Type 0
  pub new_promise : Promise
  pub set_value : A → Promise → Result Promise
  pub set_exception : Exception → Promise → Result Promise
  pub outcome : Promise → Option (A ⊎ Exception)

-- The documented behaviour of a promise: it is satisfied once, and then refuses by a
-- promise_already_satisfied, which is a logic_error.
pub record IsPromise {A : Type 0} (api : PromiseOf A) : Type 0 where
  pub new_lem : api.outcome api.new_promise ≡ none
  pub set_value_lem :
      (a : A) (p : api.Promise)
      → api.outcome p ≡ none
      → (p' : api.Promise) × (api.set_value a p ≡ ok p') × (api.outcome p' ≡ some (inl a))
  pub set_exception_lem :
      (e : Exception) (p : api.Promise)
      → api.outcome p ≡ none
      → (p' : api.Promise) × (api.set_exception e p ≡ ok p') × (api.outcome p' ≡ some (inr e))
  pub value_refused :
      (a : A) (p : api.Promise) (x : A ⊎ Exception)
      → api.outcome p ≡ some x
      → (message : String) × (api.set_value a p ≡ err (logic_error message))
  pub exception_refused :
      (e : Exception) (p : api.Promise) (x : A ⊎ Exception)
      → api.outcome p ≡ some x
      → (message : String) × (api.set_exception e p ≡ err (logic_error message))

-- A value that was set cannot be set again.
module _ {A : Type 0} (api : PromiseOf A) (promise : IsPromise api) where
  pub set_value_satisfies :
      (a : A) (p p' : api.Promise)
      → api.set_value a p ≡ ok p'
      → (api.outcome p ≡ none) × (api.outcome p' ≡ some (inl a))
  set_value_satisfies a p p' h = elim (Option-cases (api.outcome p)) [
    | inl e ↦
        let (q, set, has) = promise.set_value_lem a p e in
        (e, subst (λ x. api.outcome x ≡ some (inl a)) (ok-injective (sym set ∙ h)) has)
    | inr (x, e) ↦
        let (message, refused) = promise.value_refused a p x e in absurd (clash (sym refused ∙ h))
  ]
    where
      clash : {e : Exception} {q : api.Promise} → Result.err e ≡ ok q → ⊥
      clash h = cc

  pub set_value_twice :
      (a b : A) (p p' : api.Promise)
      → api.set_value a p ≡ ok p'
      → (message : String) × (api.set_value b p' ≡ err (logic_error message))
  set_value_twice a b p p' h = promise.value_refused b p' (inl a) (set_value_satisfies a p p' h).1
