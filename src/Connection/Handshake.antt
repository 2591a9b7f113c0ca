-- ===== src/Connection/Handshake.antt =====
-- The handshake with a broker that takes part in it.
use libamqp_cpp.Base.{
  ℕ, ◌^◌, ◌<◌, ◌≡◌, ap, ◌∙◌, sym, List, ◌++◌, append_assoc, ok, ok-injective, >>=-eq-ok, Bool, true,
  false, if◌then◌else◌, ◌+◌, Result, ◌>>=◌, eq→==, length,
}
use libamqp_cpp.Frame.{
  FrameConstants, IsFrameSpec, Frame, FrameBuilder, Serializable, create_from_method,
  is_body_read_required, get_body_buffer, fill_body, create_frame, read_frame,
}
use libamqp_cpp.Frame.Wire.{frame_bytes}
use libamqp_cpp.Frame.Reader.{IsFullFrame, IsFifo, read_frame-frame_bytes}
use libamqp_cpp.Frame.Writer.{write_frame-frame_bytes}
use libamqp_cpp.Channel.{Methods}
use libamqp_cpp.Connection.{
  HandshakeMethods, Network, receive_method, send_method, check_version, make_start_ok, make_open,
  shake_hands, protocol_header,
}

module _ (net : Network) where
  -- The documented behaviour of a socket on a connection that the peer keeps open: a write sends
  -- all and takes nothing of what comes in, and a read sends nothing.
  pub record IsDuplex (incoming outgoing : net.transport.Socket → List ℕ) : Type 0 where
    pub write_lem :
        (bytes : List ℕ) (s : net.transport.Socket)
        → (s' : net.transport.Socket) × (net.transport.write bytes s ≡ ok s')
          × (incoming s' ≡ incoming s)
          × (outgoing s' ≡ outgoing s ++ bytes)
    pub read_keeps :
        (n : ℕ) (s s' : net.transport.Socket) (bytes : List ℕ)
        → net.transport.read n s ≡ ok (bytes, s')
        → outgoing s' ≡ outgoing s

-- A frame of the broker that holds a method.
pub record Carries (gen : Methods) (fr : Frame) (method : gen.Method) : Type 0 where
  pub whole : IsFullFrame fr
  pub read_lem : gen.read fr ≡ ok method

-- A method of the client that can be sent, in its frame.
pub record Fits (method : Serializable) (fr : Frame) : Type 0 where
  pub made : create_from_method 0 method ≡ ok fr
  pub size_lt : fr.buffer.size < 2 ^ 32
  pub full : length fr.buffer.stored ≡ fr.buffer.size

module _ (c : FrameConstants) (spec : IsFrameSpec c) (net : Network) (gen : Methods)
    (h : HandshakeMethods gen) (split : List ℕ → List (List ℕ))
    (incoming outgoing : net.transport.Socket → List ℕ) (fifo : IsFifo net.transport incoming)
    (duplex : IsDuplex net incoming outgoing) where
  -- The part of read_frame that reads a body, where one is required.
  abbrev body_part :
      Bool → FrameBuilder → net.transport.Socket → Result (FrameBuilder × net.transport.Socket)
  body_part required b₁ s₁ =
      if required
      then (do
        ((n, one), b₃) ← get_body_buffer c b₁
        (body, s₃) ← net.transport.read (n + one) s₁
        ok (fill_body n body b₃, s₃))
      else ok (b₁, s₁)

  read_frame-keeps_outgoing :
      (b b' : FrameBuilder) (s s' : net.transport.Socket) (fr : Frame)
      → read_frame c net.transport b s ≡ ok (fr, b', s')
      → outgoing s' ≡ outgoing s
  unfolding read_frame
  read_frame-keeps_outgoing b b' s s' fr e =
      let ((bs, s₁), got, e₁) = >>=-eq-ok (net.transport.read 8 s) _ e in
      let ((required, b₁), judged, e₂) = >>=-eq-ok (is_body_read_required c _) _ e₁ in
      let ((b₂, s₂), filled, e₃) = >>=-eq-ok (body_part required b₁ s₁) _ e₂ in
      let (fr', made, e₄) = >>=-eq-ok (create_frame c b₂) _ e₃ in
      let last : s₂ ≡ s' =
        ap (λ (x : Frame × FrameBuilder × net.transport.Socket). x.2) (ok-injective e₄) in
      ap outgoing (sym last) ∙ in_body required b₁ b₂ s₁ s₂ filled ∙ duplex.read_keeps 8 s s₁ bs got
    where
      in_body :
          (required : Bool) (b₁ b₂ : FrameBuilder) (s₁ s₂ : net.transport.Socket)
          → body_part required b₁ s₁ ≡ ok (b₂, s₂)
          → outgoing s₂ ≡ outgoing s₁
      in_body false b₁ b₂ s₁ s₂ d =
          ap outgoing (sym (ap (λ (x : FrameBuilder × net.transport.Socket). x.1) (ok-injective d)))
      in_body true b₁ b₂ s₁ s₂ d =
          let (((n, one), b₃), buffers, d₁) = >>=-eq-ok (get_body_buffer c b₁) _ d in
          let ((body, s₃), got, d₂) = >>=-eq-ok (net.transport.read (n + one) s₁) _ d₁ in
          ap outgoing
            (sym (ap (λ (x : FrameBuilder × net.transport.Socket). x.1) (ok-injective d₂)))
          ∙ duplex.read_keeps (n + one) s₁ s₃ body got

  pub receive_method-Carries :
      (fr : Frame) (method : gen.Method) (b : FrameBuilder) (s : net.transport.Socket)
      (rest : List ℕ)
      → Carries gen fr method
      → incoming s ≡ frame_bytes c fr ++ rest
      → (b' : FrameBuilder) × (s' : net.transport.Socket) × (receive_method c net gen h split b s
          ≡ ok (method, b', s'))
        × (incoming s' ≡ rest)
        × (outgoing s' ≡ outgoing s)
  unfolding receive_method
  receive_method-Carries fr method b s rest m e =
      let (b', s', got, left) =
        read_frame-frame_bytes c spec net.transport incoming fifo fr b s rest m.whole e in
      (b', s', rw (got, m.read_lem), left, read_frame-keeps_outgoing b b' s s' fr got)

  send_method-Fits :
      (method : Serializable) (fr : Frame) (s : net.transport.Socket)
      → Fits method fr
      → (s' : net.transport.Socket) × (send_method c net gen h split method s ≡ ok s')
        × (incoming s' ≡ incoming s)
        × (outgoing s' ≡ outgoing s ++ frame_bytes c fr)
  unfolding send_method
  send_method-Fits method fr s m =
      let (s', sent, kept, out) = duplex.write_lem (frame_bytes c fr) s in
      (
        s',
        rw (m.made, write_frame-frame_bytes c spec net.transport fr s m.size_lt m.full, sent),
        kept,
        out,
      )

  -- A broker that speaks AMQP 0-9-1 and whose methods start, tune and open-ok come in, in this
  -- order, on a connection that delivers bytes in order and takes what is written; where the
  -- client's answers can be made, the handshake ends without an exception. It has sent the
  -- protocol header and the frames of the start-ok, the tune-ok and the open, in this order, and
  -- leaves to the reading loop what comes in behind the open-ok.
  pub shake_hands-ok :
      (username password vhost rest : List ℕ) (b : FrameBuilder) (s : net.transport.Socket)
      (start_frame tune_frame open_ok_frame start_ok_frame tune_ok_frame open_frame : Frame)
      (started tuned opened : gen.Method) (start : h.Start) (tune : h.Tune) (open_ok : h.OpenOk)
      (start_ok open_method : Serializable)
      → incoming s
        ≡ frame_bytes c start_frame
          ++ (frame_bytes c tune_frame ++ (frame_bytes c open_ok_frame ++ rest))
      → Carries gen start_frame started
      → Carries gen tune_frame tuned
      → Carries gen open_ok_frame opened
      → h.as_start started ≡ ok start
      → h.as_tune tuned ≡ ok tune
      → h.as_open_ok opened ≡ ok open_ok
      → h.version_major start ≡ 0
      → h.version_minor start ≡ 9
      → make_start_ok c net gen h split start username password ≡ ok start_ok
      → make_open c net gen h split vhost ≡ ok open_method
      → Fits start_ok start_ok_frame
      → Fits
          (h.tune_ok_method (h.channel_max tune) (h.frame_max tune) (h.heartbeat tune))
          tune_ok_frame
      → Fits open_method open_frame
      → (b' : FrameBuilder) × (s' : net.transport.Socket) × (shake_hands c net gen h split username
            password vhost b s
          ≡ ok (b', s'))
        × (incoming s' ≡ rest)
        × (outgoing s'
            ≡ outgoing s
              ++ (protocol_header
                  ++ (frame_bytes c start_ok_frame
                      ++ (frame_bytes c tune_ok_frame ++ frame_bytes c open_frame))))
  unfolding shake_hands check_version
  shake_hands-ok username password vhost rest b s start_frame tune_frame open_ok_frame
        start_ok_frame tune_ok_frame open_frame started tuned opened start tune open_ok start_ok
        open_method e c₁ c₂ c₃ is_start is_tune is_open_ok major minor made opens f₁ f₂ f₃ =
      let (s₁, sent₁, k₁, o₁) = duplex.write_lem protocol_header s in
      let (b₁, s₂, got₁, l₁, p₁) = receive_method-Carries start_frame started b s₁ _ c₁ (k₁ ∙ e) in
      let (s₃, sent₂, k₂, o₂) = send_method-Fits start_ok start_ok_frame s₂ f₁ in
      let (b₂, s₄, got₂, l₂, p₂) = receive_method-Carries tune_frame tuned b₁ s₃ _ c₂ (k₂ ∙ l₁) in
      let (s₅, sent₃, k₃, o₃) = send_method-Fits _ tune_ok_frame s₄ f₂ in
      let (s₆, sent₄, k₄, o₄) = send_method-Fits open_method open_frame s₅ f₃ in
      let (b₃, s₇, got₃, l₃, p₃) =
        receive_method-Carries open_ok_frame opened b₂ s₆ rest c₃ (k₄ ∙ k₃ ∙ l₂) in
      (
        b₃,
        s₇,
        rw (
          sent₁,
          got₁,
          is_start,
          eq→== (h.version_major start) 0 major,
          eq→== (h.version_minor start) 9 minor,
          made,
          sent₂,
          got₂,
          is_tune,
          sent₃,
          opens,
          sent₄,
          got₃,
          is_open_ok,
        ),
        l₃,
        rw (p₃, o₄, o₃, p₂, o₂, p₁, o₁) (simp append_assoc),
      )
