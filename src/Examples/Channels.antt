-- ===== src/Examples/Channels.antt =====
-- Channels: a frame's first two bytes as the identifiers of its method, and the theorems on short
-- exchanges.
use libamqp_cpp.Base.{
  ℕ, ◌≡◌, refl, Bool, true, false, String, List, [], ◌∷◌, Option, none, some, ◌⊎◌, inl, inr, Result,
  ok, err, Exception, logic_error, runtime_error, connection_exception, std_exception, holds,
}
use libamqp_cpp.Stream.{write_or_throw}
use libamqp_cpp.Frame.{Frame, method_type, heartbeat_type, Serializable, create_from_method}
use libamqp_cpp.Frame.Builder.{frame_of}
use libamqp_cpp.Promise.{PromiseOf, IsPromise}
use libamqp_cpp.Channel.{Methods, opening, Channel, process_frame, begin_rpc}
use libamqp_cpp.Channel.Opening.{HoldsOther, no_method, process_frame-open_twice}
use libamqp_cpp.Channel.Calls.{waiting, begin_rpc-refused}

abbrev already : Exception
already = logic_error "promise already satisfied"

-- A promise as what its future has.
abbrev settle_once :
    {A : Type 0} → (A ⊎ Exception) → Option (A ⊎ Exception) → Result (Option (A ⊎ Exception))
settle_once x none = ok (some x)
settle_once x (some y) = err already

abbrev pub promise_of : (A : Type 0) → PromiseOf A
promise_of A = record {
  Promise = Option (A ⊎ Exception);
  new_promise = none;
  set_value = λ a p. settle_once (inl a) p;
  set_exception = λ e p. settle_once (inr e) p;
  outcome = λ p. p;
}

module _ (A : Type 0) where
  settled :
      (x : A ⊎ Exception) (p : Option (A ⊎ Exception))
      → p ≡ none
      → (p' : Option (A ⊎ Exception)) × (settle_once x p ≡ ok p') × (p' ≡ some x)
  settled x none h = (some x, refl, refl)
  settled x (some y) h = cc

  refused :
      (x : A ⊎ Exception) (p : Option (A ⊎ Exception)) (y : A ⊎ Exception)
      → p ≡ some y
      → (message : String) × (settle_once x p ≡ err (logic_error message))
  refused x none y h = cc
  refused x (some z) y h = ("promise already satisfied", refl)

  pub promise_of-IsPromise : IsPromise (promise_of A)
  promise_of-IsPromise = record {
    new_lem = refl;
    set_value_lem = λ a p h. settled (inl a) p h;
    set_exception_lem = λ e p h. settled (inr e) p h;
    value_refused = λ a p x h. refused (inl a) p x h;
    exception_refused = λ e p x h. refused (inr e) p x h;
  }

-- The two identifiers of a method.
abbrev ids_of : List ℕ → Result (ℕ × ℕ)
ids_of [] = err (runtime_error "Failure to read uint16_t")
ids_of (c ∷ []) = err (runtime_error "Unable to read uint8")
ids_of (c ∷ m ∷ rest) = ok (c, m)

abbrev pub method_of : ℕ → ℕ → Serializable
method_of c m = record {
  get_serialized_size = 2;
  write = write_or_throw (c ∷ m ∷ []) "Write failure";
}

abbrev pub pairs : Methods
pairs = record {
  Method = ℕ × ℕ;
  read = λ fr. ids_of fr.buffer.stored;
  class_id = λ m. m.0;
  method_id = λ m. m.1;
  method_cast = λ c i m. ok m;
  channel_class_id = 20;
  open_ok_method_id = 11;
  close_method_id = 40;
  open_method = method_of 20 10;
  close_ok = method_of 20 41;
  close = λ code text c m. ok (method_of 20 40);
}

abbrev pub method_frame : ℕ → ℕ → Frame
method_frame c m = frame_of method_type 1 (c ∷ m ∷ [])

abbrev beat_on_one : Frame
beat_on_one = frame_of heartbeat_type 1 []

abbrev pub with_promise :
    (Option (Bool ⊎ Exception))
    → Channel pairs (promise_of Bool) (promise_of (ℕ × ℕ)) (promise_of ℕ)
with_promise p = record {
  channel_id = 1;
  continuation = opening;
  opened_promise = p;
  closed_promise = none;
}

beat-HoldsOther :
    (c m : ℕ)
    → HoldsOther pairs (promise_of Bool) (promise_of (ℕ × ℕ)) (promise_of ℕ) c m beat_on_one
beat-HoldsOther c m = no_method (λ e. cc)

process_frame-open_twice_example :
    (message : String) × (process_frame pairs
        (promise_of Bool)
        (promise_of (ℕ × ℕ))
        (promise_of ℕ)
        (method_frame 20 40)
        (with_promise (some (inl true)))
      ≡ record {
        left = with_promise (some (inl true));
        posted = [];
        ended = err (logic_error message);
      })
process_frame-open_twice_example =
    process_frame-open_twice pairs (promise_of Bool) (promise_of (ℕ × ℕ)) (promise_of ℕ)
      (promise_of-IsPromise Bool) (method_frame 20 40) (some (inl true)) none (inl true) refl
      (holds tt)

-- An exchange.declare and its response.
abbrev pub declared : Channel pairs (promise_of Bool) (promise_of (ℕ × ℕ)) (promise_of ℕ)
declared =
    waiting pairs (promise_of Bool) (promise_of (ℕ × ℕ)) (promise_of ℕ) 1 (some (inl true)) none 40
      11 none

pub begin_rpc_run :
    begin_rpc pairs
      (promise_of Bool)
      (promise_of (ℕ × ℕ))
      (promise_of ℕ)
      false
      40
      11
      (method_of 40 10)
      (with_promise (some (inl true)))
    ≡ ok (declared, method_frame 40 10)
unfolding begin_rpc create_from_method write_or_throw
begin_rpc_run = refl

begin_rpc-refused_example :
    (p : Option ((ℕ × ℕ) ⊎ Exception)) × (process_frame pairs
        (promise_of Bool)
        (promise_of (ℕ × ℕ))
        (promise_of ℕ)
        beat_on_one
        declared
      ≡ record {
        left =
            waiting pairs
              (promise_of Bool)
              (promise_of (ℕ × ℕ))
              (promise_of ℕ)
              1
              (some (inl true))
              none
              40
              11
              p;
        posted = [];
        ended = err connection_exception;
      })
    × (p ≡ some (inr std_exception))
begin_rpc-refused_example =
    begin_rpc-refused pairs (promise_of Bool) (promise_of (ℕ × ℕ)) (promise_of ℕ)
      (promise_of-IsPromise (ℕ × ℕ)) (with_promise (some (inl true))) declared 40 11
      (method_of 40 10) (method_frame 40 10) beat_on_one begin_rpc_run refl (beat-HoldsOther 40 11)
