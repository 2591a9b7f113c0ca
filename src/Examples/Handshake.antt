-- ===== src/Examples/Handshake.antt =====
-- A handshake: a socket that holds what the broker sends and what the client has sent.
use libamqp_cpp.Base.{
  ℕ, ◌<◌, ◌^◌, ◌≡◌, refl, sym, ap, ok-injective, true, false, List, [], ◌∷◌, ◌++◌, Result, ok, err,
  runtime_error, leb, if◌then◌else◌, le→leb, Bool-cases, inl, inr, length, take, drop, arith,
}
use libamqp_cpp.Frame.{method_type, Frame}
use libamqp_cpp.Frame.Wire.{frame_bytes}
use libamqp_cpp.Frame.Builder.{frame_of}
use libamqp_cpp.Frame.Reader.{IsFifo}
use libamqp_cpp.Sasl.{plain_mechanism}
use libamqp_cpp.Connection.{HandshakeMethods, Network, connect_any, connect, shake_hands}
use libamqp_cpp.Connection.Errors.{shake_hands-wrong_version, connect-unreachable}
use libamqp_cpp.Connection.Handshake.{IsDuplex, Carries}
use libamqp_cpp.Examples.Frames.{constants, constants-IsFrameSpec, fresh}
use libamqp_cpp.Examples.Channels.{pairs, method_of}

abbrev pub Both : Type 0
Both = List ℕ × List ℕ

abbrev take_in : ℕ → Both → Result (List ℕ × Both)
take_in n (to_come, sent) =
    if leb n (length to_come)
    then ok (take n to_come, (drop n to_come, sent))
    else err (runtime_error "End of file")

abbrev pub local : Network
local = record {
  transport = record { Socket = Both; read = take_in; write = λ bytes s. ok (s.0, s.1 ++ bytes) };
  Endpoint = Unit {0};
  resolve = λ host port. ok (tt ∷ []);
  connect = λ e s. (s, true);
  is_open = λ s. true;
}

abbrev pub arriving : Both → List ℕ
arriving s = s.0

abbrev pub departed : Both → List ℕ
departed s = s.1

pub local-IsFifo : IsFifo local.transport arriving
local-IsFifo = record {
  read_lem = λ n s h. ((drop n s.0, s.1), rw (le→leb n (length s.0) h), refl);
}

-- The version that each method announces is that of the protocol.
abbrev shaking : HandshakeMethods pairs
shaking = record {
  Start = ℕ × ℕ;
  Tune = ℕ × ℕ;
  OpenOk = ℕ × ℕ;
  StartOk = Unit {0};
  Open = Unit {0};
  as_start = λ m. ok m;
  as_tune = λ m. ok m;
  as_open_ok = λ m. ok m;
  version_major = λ m. 0;
  version_minor = λ m. 9;
  mechanisms = λ m. plain_mechanism;
  channel_max = λ m. 0;
  frame_max = λ m. 131072;
  heartbeat = λ m. 0;
  new_start_ok = λ t. tt;
  set_mechanism = λ s x. ok x;
  set_response = λ s x. ok x;
  set_locale = λ s x. ok x;
  start_ok_method = λ x. method_of 10 11;
  tune_ok_method = λ a b c. method_of 10 31;
  new_open = tt;
  set_virtual_host = λ s x. ok x;
  set_capabilities = λ s x. ok x;
  set_insist = λ b x. x;
  open_method = λ x. method_of 10 40;
}

pub local-IsDuplex : IsDuplex local arriving departed
local-IsDuplex = record {
  write_lem = λ bytes s. ((s.0, s.1 ++ bytes), refl, refl, refl);
  read_keeps = λ n s s' bytes e. kept n s s' bytes e;
}
  where
    kept :
        (n : ℕ) (s s' : Both) (bytes : List ℕ)
        → take_in n s ≡ ok (bytes, s')
        → departed s' ≡ departed s
    kept n s s' bytes e = elim (Bool-cases (leb n (length s.0))) [
      | inl h ↦ ap (λ (x : List ℕ × Both). x.1.1) (sym (ok-injective (rw h at e)))
      | inr h ↦ absurd (cc (rw h at e))
    ]

abbrev on_zero : ℕ → ℕ → Frame
on_zero c i = frame_of method_type 0 (c ∷ i ∷ [])

on_zero-Carries : (c i : ℕ) → c < 2 ^ 8 → Carries pairs (on_zero c i) (c, i)
on_zero-Carries c i h = record {
  whole = record {
    channel_lt = omega arith;
    size_lt = omega arith;
    full = refl;
    octets = λ x xs e. first_octet x xs e;
  };
  read_lem = refl;
}
  where
    first_octet : (x : ℕ) (xs : List ℕ) → c ∷ i ∷ [] ≡ x ∷ xs → x < 2 ^ 8
    first_octet x xs e = ground arith

abbrev pub one_mechanism : List ℕ → List (List ℕ)
one_mechanism s = s ∷ []

abbrev pub guest : List ℕ
guest = b'g' ∷ b'u' ∷ b'e' ∷ b's' ∷ b't' ∷ []

-- The broker's start, tune and open-ok, and one byte more.
abbrev broker : Both
broker = (
  frame_bytes constants (on_zero 10 10)
      ++ (frame_bytes constants (on_zero 10 30)
          ++ (frame_bytes constants (on_zero 10 41) ++ 8 ∷ [])),
  [],
)

-- A broker whose start announces version 8-0.
abbrev old_broker : HandshakeMethods pairs
old_broker = record shaking { version_major = λ m. 8; version_minor = λ m. 0 }

shake_hands-wrong_version_example :
    shake_hands constants local pairs old_broker one_mechanism guest guest (b'/' ∷ []) fresh broker
    ≡ err (runtime_error "Broker is using the wrong version of AMQP")
shake_hands-wrong_version_example =
    shake_hands-wrong_version constants local pairs old_broker one_mechanism constants-IsFrameSpec
      arriving departed local-IsFifo local-IsDuplex guest guest (b'/' ∷ []) _ fresh broker
      (on_zero 10 10) (10, 10) (10, 10) refl (on_zero-Carries 10 10 (omega arith)) refl
      (inl (λ e. absurd (omega (arith, e))))

-- A network on which nothing answers.
abbrev deserted : Network
deserted = record local { connect = λ e s. (s, false) }

connect-unreachable_example :
    (true ≡ true)
    × (connect constants deserted pairs shaking one_mechanism [] 5672 guest guest
          (b'/' ∷ [])
          fresh
          broker
        ≡ shake_hands constants deserted pairs shaking one_mechanism guest guest
            (b'/' ∷ [])
            fresh
            broker)
unfolding connect_any
connect-unreachable_example =
    connect-unreachable constants deserted pairs shaking one_mechanism [] guest guest (b'/' ∷ [])
      5672 fresh broker tt [] (λ e s refused. refl) refl ((λ s. refl), tt)
