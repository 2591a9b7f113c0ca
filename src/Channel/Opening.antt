-- ===== src/Channel/Opening.antt =====
-- The opening of a channel: process_open on the first frame and on those after it.
use libamqp_cpp.Base.{
  ℕ, ◌≡◌, ◌≢◌, refl, ap, ◌∙◌, eq→==, ne→==, Bool, true, String, [], some, ◌⊎◌, inl, inr, ◌>>=◌,
  Result, ok, err, undefined, out_of_fuel, Exception, logic_error, connection_exception,
  std_exception, Ensures, Ensures-any, Ensures-ne-out_of_fuel, Ensures-ne-undefined, arith,
}
use libamqp_cpp.Promise.{PromiseOf, IsPromise}
use libamqp_cpp.Frame.{Frame, method_type}
use libamqp_cpp.Channel.{
  Methods, opening, Channel, new_channel, expect_method, settle, process_frame,
}

module _ (gen : Methods) (opens : PromiseOf Bool) (calls : PromiseOf gen.Method)
    (closes : PromiseOf ℕ) where
  -- The frame holds the method `m`, which has the two identifiers.
  pub record Holds (class_id method_id : ℕ) (fr : Frame) (m : gen.Method) : Type 0 where
    pub is_method : fr.type_of ≡ method_type
    pub read_lem : gen.read fr ≡ ok m
    pub class_eq : gen.class_id m ≡ class_id
    pub method_eq : gen.method_id m ≡ method_id

  -- The frame is none of a method, or it holds a method that can be read and whose identifiers are
  -- others.
  pub data HoldsOther (class_id method_id : ℕ) (fr : Frame) : Type 0 where
    no_method : fr.type_of ≢ method_type → HoldsOther class_id method_id fr
    other_class :
        (m : gen.Method)
        → fr.type_of ≡ method_type
        → gen.read fr ≡ ok m
        → gen.class_id m ≢ class_id
        → HoldsOther class_id method_id fr
    other_method :
        (m : gen.Method)
        → fr.type_of ≡ method_type
        → gen.read fr ≡ ok m
        → gen.class_id m ≡ class_id
        → gen.method_id m ≢ method_id
        → HoldsOther class_id method_id fr

  pub expect_method-Holds :
      (class_id method_id : ℕ) (fr : Frame) (m : gen.Method)
      → Holds class_id method_id fr m
      → expect_method gen opens calls closes class_id method_id fr ≡ ok m
  unfolding expect_method
  expect_method-Holds class_id method_id fr m h = ground (
    arith,
    h.is_method,
    h.read_lem,
    eq→== (gen.class_id m) class_id h.class_eq,
    eq→== (gen.method_id m) method_id h.method_eq,
  )

  pub expect_method-HoldsOther :
      (class_id method_id : ℕ) (fr : Frame)
      → HoldsOther class_id method_id fr
      → expect_method gen opens calls closes class_id method_id fr ≡ err connection_exception
  unfolding expect_method
  expect_method-HoldsOther class_id method_id fr (no_method h) = ground arith
  expect_method-HoldsOther class_id method_id fr (other_class m t r h) =
      ground (arith, t, r, ne→== (gen.class_id m) class_id h)
  expect_method-HoldsOther class_id method_id fr (other_method m t r c h) =
      ground (arith, t, r, eq→== (gen.class_id m) class_id c, ne→== (gen.method_id m) method_id h)

  pub expect_method-Ensures :
      (class_id method_id : ℕ) (fr : Frame)
      → Ensures (λ (m : gen.Method). Unit {0}) (gen.read fr)
      → Ensures
          (λ (m : gen.Method). Unit {0})
          (expect_method gen opens calls closes class_id method_id fr)
  unfolding expect_method
  expect_method-Ensures class_id method_id fr r =
      Ensures-any _ (ground (arith, Ensures-ne-undefined r, Ensures-ne-out_of_fuel r))
        (ground (arith, Ensures-ne-undefined r, Ensures-ne-out_of_fuel r))

  module _ (promise : IsPromise opens) where
    -- A new channel on a channel.open-ok that comes in for it: given a promise that can be
    -- satisfied once, the promise that the channel is open has the value true, nothing is posted
    -- and nothing is thrown.
    pub process_frame-open_ok :
        (fr : Frame) (m : gen.Method)
        → Holds gen.channel_class_id gen.open_ok_method_id fr m
        → (p : opens.Promise) × (process_frame gen opens calls closes fr
              (new_channel gen opens calls closes fr.channel)
            ≡ record {
              left = record (new_channel gen opens calls closes fr.channel) { opened_promise = p };
              posted = [];
              ended = ok tt;
            })
          × (opens.outcome p ≡ some (inl true))
    unfolding process_frame new_channel
    process_frame-open_ok fr m h =
        let (p, e, q) = promise.set_value_lem true opens.new_promise promise.new_lem in
        (p, rw (expect_method-Holds _ _ fr m h, e, eq→== fr.channel fr.channel refl), q)

    -- A new channel on a frame of another type, or with another method, that comes in for it: given
    -- a promise that can be satisfied once, the promise that the channel is open has an exception,
    -- of class std::exception only, and a connection_exception is thrown.
    pub process_frame-not_open_ok :
        (fr : Frame)
        → HoldsOther gen.channel_class_id gen.open_ok_method_id fr
        → (p : opens.Promise) × (process_frame gen opens calls closes fr
              (new_channel gen opens calls closes fr.channel)
            ≡ record {
              left = record (new_channel gen opens calls closes fr.channel) { opened_promise = p };
              posted = [];
              ended = err connection_exception;
            })
          × (opens.outcome p ≡ some (inr std_exception))
    unfolding process_frame new_channel
    process_frame-not_open_ok fr h =
        let (p, e, q) = promise.set_exception_lem std_exception opens.new_promise promise.new_lem in
        (p, rw (expect_method-HoldsOther _ _ fr h, e, eq→== fr.channel fr.channel refl), q)

    settle_refused :
        (answer : Result gen.Method) (p : opens.Promise) (x : Bool ⊎ Exception)
        → Ensures (λ (m : gen.Method). Unit {0}) answer
        → opens.outcome p ≡ some x
        → (message : String) × (settle gen opens calls closes opens.set_exception p
              (answer >>= λ m. opens.set_value true p)
            ≡ (p, err (logic_error message)))
    unfolding settle
    settle_refused (ok m) p x h s =
        let (message, e) = promise.exception_refused std_exception p x s in
        (
          message,
          ap (settle gen opens calls closes opens.set_exception p)
                (promise.value_refused true p x s).1
              ∙ rw (settle, e),
        )
    settle_refused (err e) p x h s =
        let (message, e') = promise.exception_refused std_exception p x s in (message, rw e')
    settle_refused undefined p x h s = absurd (Ensures-ne-undefined h refl)
    settle_refused out_of_fuel p x h s = absurd (Ensures-ne-out_of_fuel h refl)

    -- As long as the continuation is that of the opening, once its promise is satisfied the next
    -- frame for the channel, whatever it is, ends by a logic_error, that of a promise satisfied
    -- already, provided that method::read returns a method or throws. The channel stays as it is,
    -- and nothing is posted.
    pub process_frame-open_twice :
        (fr : Frame) (p : opens.Promise) (k : closes.Promise) (x : Bool ⊎ Exception)
        → opens.outcome p ≡ some x
        → Ensures (λ (m : gen.Method). Unit {0}) (gen.read fr)
        → let ch : Channel gen opens calls closes = record {
          channel_id = fr.channel;
          continuation = opening;
          opened_promise = p;
          closed_promise = k;
        } in
          (message : String) × (process_frame gen opens calls closes fr ch
            ≡ record { left = ch; posted = []; ended = err (logic_error message) })
    unfolding process_frame
    process_frame-open_twice fr p k x s r =
        let answer =
          expect_method gen opens calls closes gen.channel_class_id gen.open_ok_method_id fr in
        let (message, e) = settle_refused answer p x (expect_method-Ensures _ _ fr r) s in
        (message, rw (e, eq→== fr.channel fr.channel refl))
