-- ===== src/Channel/Calls.antt =====
-- Calls and their responses, and a channel that closes.
use libamqp_cpp.Base.{
  ℕ, ◌≡◌, refl, eq→==, Bool, false, [], none, some, inl, inr, ◌⊎◌, subst, Exception, >>=-eq-ok,
  ok-injective, Result, ok, err, connection_exception, std_exception, ap, ◌∙◌,
}
use libamqp_cpp.Promise.{PromiseOf, IsPromise}
use libamqp_cpp.Frame.{Frame, Serializable, create_from_method}
use libamqp_cpp.Channel.{Methods, calling, Channel, process_frame, begin_rpc}
use libamqp_cpp.Channel.Opening.{Holds, HoldsOther, expect_method-Holds, expect_method-HoldsOther}

module _ (gen : Methods) (opens : PromiseOf Bool) (calls : PromiseOf gen.Method)
    (closes : PromiseOf ℕ) where
  -- A channel that waits for the response to a call.
  abbrev pub waiting :
      ℕ → opens.Promise → closes.Promise → ℕ → ℕ → calls.Promise → Channel gen opens calls closes
  waiting n o k class_id method_id p = record {
    channel_id = n;
    continuation = calling class_id method_id p;
    opened_promise = o;
    closed_promise = k;
  }

  begin_rpc-ok :
      (ch ch' : Channel gen opens calls closes) (class_id method_id : ℕ) (sent : Serializable)
      (out : Frame)
      → begin_rpc gen opens calls closes false class_id method_id sent ch ≡ ok (ch', out)
      → (create_from_method ch.channel_id sent ≡ ok out)
        × (waiting ch.channel_id ch.opened_promise ch.closed_promise class_id method_id
              calls.new_promise
            ≡ ch')
  unfolding begin_rpc
  begin_rpc-ok ch ch' class_id method_id sent out b =
      let (first, made, b₁) = >>=-eq-ok (create_from_method ch.channel_id sent) _ b in
      let (fr, made', b₂) = >>=-eq-ok (create_from_method ch.channel_id sent) _ b₁ in
      let same = ok-injective b₂ in
      (
        made' ∙ ap (λ (x : Channel gen opens calls closes × Frame). ok x.1) same,
        ap (λ (x : Channel gen opens calls closes × Frame). x.0) same,
      )

  -- What a frame does to the channel that waits for a call's response.
  abbrev pub Settles :
      Frame
      → Channel gen opens calls closes
      → ℕ
      → opens.Promise
      → closes.Promise
      → ℕ
      → ℕ
      → Result (Unit {0})
      → gen.Method ⊎ Exception
      → Type 0
  Settles fr ch n o k class_id method_id ended x =
      (p : calls.Promise) × (process_frame gen opens calls closes fr ch
        ≡ record { left = waiting n o k class_id method_id p; posted = []; ended = ended })
      × (calls.outcome p ≡ some x)

  -- A frame for the channel's identifier, given to the channel that begin_rpc left.
  begin_rpc-Settles :
      (ch ch' : Channel gen opens calls closes) (class_id method_id : ℕ) (fr : Frame)
      (ended : Result (Unit {0})) (x : gen.Method ⊎ Exception)
      → waiting ch.channel_id ch.opened_promise ch.closed_promise class_id method_id
          calls.new_promise
        ≡ ch'
      → fr.channel ≡ ch.channel_id
      → Settles fr
          (waiting fr.channel ch.opened_promise ch.closed_promise class_id method_id
            calls.new_promise)
          fr.channel
          ch.opened_promise
          ch.closed_promise
          class_id
          method_id
          ended
          x
      → Settles fr ch' ch.channel_id ch.opened_promise ch.closed_promise class_id method_id ended x
  begin_rpc-Settles ch ch' class_id method_id fr ended x e i s =
      subst
        (λ c.
          Settles fr c ch.channel_id ch.opened_promise ch.closed_promise class_id method_id ended x)
        e
        (subst
          (λ n.
            Settles fr
              (waiting n ch.opened_promise ch.closed_promise class_id method_id calls.new_promise) n
              ch.opened_promise ch.closed_promise class_id method_id ended x)
          i s)

  module _ (promise : IsPromise calls) where
    pub waiting-answered :
        (o : opens.Promise) (k : closes.Promise) (class_id method_id : ℕ) (p : calls.Promise)
        (fr : Frame) (m answer : gen.Method)
        → calls.outcome p ≡ none
        → Holds gen opens calls closes class_id method_id fr m
        → gen.method_cast class_id method_id m ≡ ok answer
        → Settles fr
            (waiting fr.channel o k class_id method_id p)
            fr.channel
            o
            k
            class_id
            method_id
            (ok tt)
            (inl answer)
    unfolding process_frame
    waiting-answered o k class_id method_id p fr m answer new h c =
        let (p', e, q) = promise.set_value_lem answer p new in
        (
          p',
          rw (
            expect_method-Holds gen opens calls closes _ _ fr m h,
            c,
            e,
            eq→== fr.channel fr.channel refl,
          ),
          q,
        )

    waiting-refused :
        (o : opens.Promise) (k : closes.Promise) (class_id method_id : ℕ) (fr : Frame)
        → HoldsOther gen opens calls closes class_id method_id fr
        → Settles fr
            (waiting fr.channel o k class_id method_id calls.new_promise)
            fr.channel
            o
            k
            class_id
            method_id
            (err connection_exception)
            (inr std_exception)
    unfolding process_frame
    waiting-refused o k class_id method_id fr h =
        let (p, e, q) = promise.set_exception_lem std_exception calls.new_promise promise.new_lem in
        (
          p,
          rw (
            expect_method-HoldsOther gen opens calls closes _ _ fr h,
            e,
            eq→== fr.channel fr.channel refl,
          ),
          q,
        )

    -- A call that has begun has made its method's frame; and given a promise that can be satisfied
    -- once, when a frame for the channel brings the method with the two identifiers that the call
    -- waits for, the call's promise has that method, nothing is posted and nothing is thrown.
    pub begin_rpc-answered :
        (ch ch' : Channel gen opens calls closes) (class_id method_id : ℕ) (sent : Serializable)
        (out fr : Frame) (m answer : gen.Method)
        → begin_rpc gen opens calls closes false class_id method_id sent ch ≡ ok (ch', out)
        → fr.channel ≡ ch.channel_id
        → Holds gen opens calls closes class_id method_id fr m
        → gen.method_cast class_id method_id m ≡ ok answer
        → (create_from_method ch.channel_id sent ≡ ok out)
          × (p : calls.Promise) × (process_frame gen opens calls closes fr ch' ≡ record {
            left = waiting ch.channel_id ch.opened_promise ch.closed_promise class_id method_id p;
            posted = [];
            ended = ok tt;
          })
          × (calls.outcome p ≡ some (inl answer))
    begin_rpc-answered ch ch' class_id method_id sent out fr m answer b i h c =
        let (made, e) = begin_rpc-ok ch ch' class_id method_id sent out b in
        let (p, q, had) = begin_rpc-Settles ch ch' class_id method_id fr _ _ e i (
          waiting-answered ch.opened_promise ch.closed_promise class_id method_id calls.new_promise
            fr m answer promise.new_lem h c) in
        (made, p, q, had)

    -- When a frame that is none of a method, or one with another method, that can be read, comes in
    -- for a channel on which a call has begun, given a promise that can be satisfied once, the call's promise has an exception,
    -- of class std::exception only, and a connection_exception is thrown.
    pub begin_rpc-refused :
        (ch ch' : Channel gen opens calls closes) (class_id method_id : ℕ) (sent : Serializable)
        (out fr : Frame)
        → begin_rpc gen opens calls closes false class_id method_id sent ch ≡ ok (ch', out)
        → fr.channel ≡ ch.channel_id
        → HoldsOther gen opens calls closes class_id method_id fr
        → (p : calls.Promise) × (process_frame gen opens calls closes fr ch' ≡ record {
          left = waiting ch.channel_id ch.opened_promise ch.closed_promise class_id method_id p;
          posted = [];
          ended = err connection_exception;
        })
          × (calls.outcome p ≡ some (inr std_exception))
    begin_rpc-refused ch ch' class_id method_id sent out fr b i h =
        let (made, e) = begin_rpc-ok ch ch' class_id method_id sent out b in
        begin_rpc-Settles ch ch' class_id method_id fr _ _ e i
          (waiting-refused ch.opened_promise ch.closed_promise class_id method_id fr h)
