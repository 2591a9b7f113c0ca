-- ===== src/Connection/Errors.antt =====
-- How a connection is refused: by the broker's version, or by the network.
use libamqp_cpp.Base.{
  ℕ, ◌≡◌, ◌≢◌, refl, ◌∙◌, ◌⊎◌, inl, inr, ◌==◌, ne→==, Bool, true, false, List, [], ◌∷◌, ◌++◌, ok,
  err, runtime_error, ◌&&◌, All,
}
use libamqp_cpp.Frame.{FrameConstants, IsFrameSpec, Frame, FrameBuilder}
use libamqp_cpp.Frame.Wire.{frame_bytes}
use libamqp_cpp.Frame.Reader.{IsFifo}
use libamqp_cpp.Channel.{Methods}
use libamqp_cpp.Connection.{
  HandshakeMethods, Network, protocol_header, connect_any, check_version, shake_hands, connect,
}
use libamqp_cpp.Connection.Handshake.{IsDuplex, Carries, receive_method-Carries}

and_false : (a b : Bool) → (a ≡ false) ⊎ (b ≡ false) → (a && b) ≡ false
and_false false b h = refl
and_false true false h = refl
and_false true true (inl e) = cc
and_false true true (inr e) = cc

module _ (c : FrameConstants) (net : Network) (gen : Methods) (h : HandshakeMethods gen)
    (split : List ℕ → List (List ℕ)) where
  module _ (spec : IsFrameSpec c) (incoming outgoing : net.transport.Socket → List ℕ)
      (fifo : IsFifo net.transport incoming) (duplex : IsDuplex net incoming outgoing) where
    -- A broker whose start comes in with another version than 0-9, on a connection that delivers
    -- bytes in order and takes what is written: the handshake throws that the version is wrong.
    pub shake_hands-wrong_version :
        (username password vhost rest : List ℕ) (b : FrameBuilder) (s : net.transport.Socket)
        (start_frame : Frame) (started : gen.Method) (start : h.Start)
        → incoming s ≡ frame_bytes c start_frame ++ rest
        → Carries gen start_frame started
        → h.as_start started ≡ ok start
        → (h.version_major start ≢ 0) ⊎ (h.version_minor start ≢ 9)
        → shake_hands c net gen h split username password vhost b s
          ≡ err (runtime_error "Broker is using the wrong version of AMQP")
    unfolding shake_hands check_version
    shake_hands-wrong_version username password vhost rest b s start_frame started start e carried
          cast differs =
        let (s₁, sent, kept, out) = duplex.write_lem protocol_header s in
        let (b₁, s₂, got, left, same) =
          receive_method-Carries c spec net gen h split incoming outgoing fifo duplex start_frame
            started b s₁ rest carried (kept ∙ e) in
        rw (
          sent,
          got,
          cast,
          and_false (h.version_major start == 0) (h.version_minor start == 9) (elim differs [
            | inl d ↦ inl (ne→== (h.version_major start) 0 d)
            | inr d ↦ inr (ne→== (h.version_minor start) 9 d)
          ]),
        )

  -- The documented behaviour of a socket that fails to connect: it was opened for that, and is not
  -- closed again.
  abbrev pub StaysOpen : Type 0
  StaysOpen =
      (e : net.Endpoint) (s : net.transport.Socket)
      → (net.connect e s).1 ≡ false
      → net.is_open (net.connect e s).0 ≡ true

  -- The endpoint connects no socket.
  abbrev pub Refuses : net.Endpoint → Type 0
  Refuses e = (s : net.transport.Socket) → (net.connect e s).1 ≡ false

  connect_any-open :
      (es : List net.Endpoint) (e : net.Endpoint) (s : net.transport.Socket)
      → StaysOpen
      → All Refuses (e ∷ es)
      → net.is_open (connect_any c net gen h split (e ∷ es) s) ≡ true
  unfolding connect_any
  connect_any-open [] e s stays (refused, none_left) = rw (refused s) (stays e s (refused s))
  connect_any-open (e' ∷ es) e s stays (refused, rest) =
      rw (refused s) (connect_any-open es e' (net.connect e s).0 stays rest)

  -- The resolver gives endpoints, and none of them can be reached: the failure is not noticed, and
  -- connect begins the handshake on the socket that the attempts have left open. A socket that fails
  -- to connect stays open.
  pub connect-unreachable :
      (host username password vhost : List ℕ) (port : ℕ) (b : FrameBuilder)
      (s : net.transport.Socket) (e : net.Endpoint) (es : List net.Endpoint)
      → StaysOpen
      → net.resolve host port ≡ ok (e ∷ es)
      → All Refuses (e ∷ es)
      → let s' = connect_any c net gen h split (e ∷ es) s in
        (net.is_open s' ≡ true)
        × (connect c net gen h split host port username password vhost b s
            ≡ shake_hands c net gen h split username password vhost b s')
  unfolding connect
  connect-unreachable host username password vhost port b s e es stays found refuse =
      let opened = connect_any-open es e s stays refuse in (opened, rw (found, opened))
