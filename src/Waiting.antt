-- ===== src/Waiting.antt =====
-- What other threads wait for: open_channel of detail/connection_impl.cpp and declare_exchange of
-- detail/channel_impl.cpp. Such a thread looks at the state that the handlers leave; the answer
-- `none` is that it still waits.
pub mod Stalled
pub mod Closing
pub mod Opening
pub mod Success
use libamqp_cpp.Base.{
  ℕ, ◌≡◌, ◌⊎◌, inl, inr, ◌==◌, Bool, true, false, Option, none, some, Result, ok, err, undefined,
  Exception, out_of_fuel, get_elem?, ◌>>=◌, runtime_error, if◌then◌else◌,
}
use libamqp_cpp.ConnectionManager.{World, Manager, Slot, channel}

-- The documented behaviour of boost::wait_for_any on two futures, as a function of which of them
-- are ready: the index of one that is, and none while it waits.
pub record IsWaitForAny (wait_for_any : Bool → Bool → Option ℕ) : Type 0 where
  pub blocks_lem : wait_for_any false false ≡ none
  pub first_lem : wait_for_any true false ≡ some 0
  pub second_lem : wait_for_any false true ≡ some 1
  pub both_lem : (wait_for_any true true ≡ some 0) ⊎ (wait_for_any true true ≡ some 1)

-- A future's is_ready and get, from what it has.
module _ {A : Type 0} where
  abbrev pub is_ready : Option (A ⊎ Exception) → Bool
  is_ready none = false
  is_ready (some x) = true

  abbrev pub get : Option (A ⊎ Exception) → Option (Result A)
  get none = none
  get (some (inl a)) = some (ok a)
  get (some (inr e)) = some (err e)

-- The is_ready of a future that is associated with no promise, as m_channel_closed_future is.
abbrev pub unassociated : Bool
unassociated = false

abbrev pub after_wait {ℓ κ} : {A : Type ℓ} {B : Type κ} → Option A → (A → Option B) → Option B
after_wait none f = none
after_wait (some a) f = f a

module _ (w : World) (wait_for_any : Bool → Bool → Option ℕ) where
  -- open_channel from the wait on, for the object at the place `n`; the index is not looked at.
  unfoldable pub await_opened : ℕ → Option (Slot w) → Manager w → Option (Result ℕ)
  await_opened n (some (channel ch)) m =
      after_wait
        (wait_for_any (is_ready (w.opens.outcome ch.opened_promise))
          (is_ready (w.opens.outcome m.connection_closed_promise)))
        (λ res. some (ok n))
  await_opened n _ m = some undefined

  -- With the object, or with what get() threw.
  unfoldable pub await_channel : Result ℕ → Manager w → Option (Result ℕ)
  unfolding await_opened
  await_channel (ok n) m = await_opened n (get_elem? m.channels n) m
  await_channel (err e) m = some (err e)
  await_channel undefined m = some undefined
  await_channel out_of_fuel m = some out_of_fuel

  -- open_channel from new_channel_promise.get() on.
  unfoldable pub open_channel : w.channels.Promise → Manager w → Option (Result ℕ)
  unfolding await_channel
  open_channel new_channel_promise m =
      after_wait (get (w.channels.outcome new_channel_promise))
        λ new_channel. await_channel new_channel m

  -- declare_exchange from its wait on, for the promise that begin_rpc made.
  unfoldable pub await_declared : w.calls.Promise → Option (Result (Unit {0}))
  await_declared rpc_promise =
      after_wait (wait_for_any (is_ready (w.calls.outcome rpc_promise)) unassociated) λ future.
        if future == 0
        then after_wait (get (w.calls.outcome rpc_promise))
            (λ declare_ok. some (declare_ok >>= λ m. ok tt))
        else some (err (runtime_error "Channel is closed"))
