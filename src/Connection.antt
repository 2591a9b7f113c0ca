-- ===== src/Connection.antt =====
-- detail/connection_impl.cpp: the connection to a broker, and the handshake on it, before the reading
-- loop starts. The methods of the handshake are generated code, and the resolver and the socket are
-- boost's. An exception ends the constructor, and the connection object with its socket.
pub mod Handshake
pub mod Errors
pub mod Interface
pub mod Generated
use libamqp_cpp.Base.{
  ℕ, ◌==◌, ◌&&◌, Bool, true, false, List, [], ◌∷◌, Result, ok, err, runtime_error, ◌>>=◌,
  if◌then◌else◌,
}
use libamqp_cpp.Table.{Table, no_entries, FieldValue, longstring, table_entry, insert}
use libamqp_cpp.Sasl.{select_sasl_mechanism, get_sasl_response}
use libamqp_cpp.Frame.{
  FrameConstants, FrameBuilder, Serializable, Transport, create_from_method, read_frame,
  write_frame,
}
use libamqp_cpp.Channel.{Methods}

-- The methods of the handshake: method_cast to those of the broker, with their getters, and those
-- of the client, with their setters, which validate strings.
pub record HandshakeMethods (gen : Methods) : Type 1 where
  pub Start : Type 0
  pub Tune : Type 0
  pub OpenOk : Type 0
  pub StartOk : Type 0
  pub Open : Type 0
  pub as_start : gen.Method → Result Start
  pub as_tune : gen.Method → Result Tune
  pub as_open_ok : gen.Method → Result OpenOk
  pub version_major : Start → ℕ
  pub version_minor : Start → ℕ
  pub mechanisms : Start → List ℕ
  pub channel_max : Tune → ℕ
  pub frame_max : Tune → ℕ
  pub heartbeat : Tune → ℕ
  pub new_start_ok : Table → StartOk
  pub set_mechanism : List ℕ → StartOk → Result StartOk
  pub set_response : List ℕ → StartOk → Result StartOk
  pub set_locale : List ℕ → StartOk → Result StartOk
  pub start_ok_method : StartOk → Serializable
  pub tune_ok_method : ℕ → ℕ → ℕ → Serializable
  pub new_open : Open
  pub set_virtual_host : List ℕ → Open → Result Open
  pub set_capabilities : List ℕ → Open → Result Open
  pub set_insist : Bool → Open → Open
  pub open_method : Open → Serializable

-- The resolver, and the socket's connect, which tells whether it connected.
pub record Network : Type 1 where
  pub transport : Transport
  pub Endpoint : Type 0
  pub resolve : List ℕ → ℕ → Result (List Endpoint)
  pub connect : Endpoint → transport.Socket → transport.Socket × Bool
  pub is_open : transport.Socket → Bool

abbrev pub protocol_header : List ℕ
protocol_header = b'A' ∷ b'M' ∷ b'Q' ∷ b'P' ∷ 0 ∷ 0 ∷ 9 ∷ 1 ∷ []

unfoldable pub insert_property : List ℕ → List ℕ → Table → Result Table
insert_property key text t = do e ← table_entry key (longstring text); ok (insert e t)

-- The client's properties of the start-ok.
unfoldable pub client_properties : Result Table
unfolding insert_property
client_properties = do
  t1 ←
      insert_property (b'p' ∷ b'r' ∷ b'o' ∷ b'd' ∷ b'u' ∷ b'c' ∷ b't' ∷ [])
        (b'l' ∷ b'i' ∷ b'b' ∷ b'a' ∷ b'm' ∷ b'q' ∷ b'p' ∷ b'-' ∷ b'c' ∷ b'p' ∷ b'p' ∷ []) no_entries
  t2 ←
      insert_property (b'v' ∷ b'e' ∷ b'r' ∷ b's' ∷ b'i' ∷ b'o' ∷ b'n' ∷ [])
        (b'0' ∷ b'.' ∷ b'1' ∷ b'b' ∷ []) t1
  t3 ←
      insert_property (b'p' ∷ b'l' ∷ b'a' ∷ b't' ∷ b'f' ∷ b'o' ∷ b'r' ∷ b'm' ∷ [])
        (b'c' ∷ b'+' ∷ b'+' ∷ []) t2
  t4 ←
      insert_property (b'c' ∷ b'o' ∷ b'p' ∷ b'y' ∷ b'r' ∷ b'i' ∷ b'g' ∷ b'h' ∷ b't' ∷ [])
        (b'A' ∷ b'l' ∷ b'a' ∷ b'n' ∷ b' ' ∷ b'A' ∷ b'n' ∷ b't' ∷ b'o' ∷ b'n' ∷ b'u' ∷ b'k' ∷ b' '
          ∷ b'(' ∷ b'c' ∷ b')' ∷ b' ' ∷ b'2' ∷ b'0' ∷ b'1' ∷ b'1' ∷ [])
        t3
  t5 ←
      insert_property
        (b'i' ∷ b'n' ∷ b'f' ∷ b'o' ∷ b'r' ∷ b'm' ∷ b'a' ∷ b't' ∷ b'i' ∷ b'o' ∷ b'n' ∷ [])
        (b'h' ∷ b't' ∷ b't' ∷ b'p' ∷ b':' ∷ b'/' ∷ b'/' ∷ b'g' ∷ b'i' ∷ b't' ∷ b'h' ∷ b'u' ∷ b'b'
          ∷ b'.' ∷ b'c' ∷ b'o' ∷ b'm' ∷ b'/' ∷ b'a' ∷ b'l' ∷ b'a' ∷ b'n' ∷ b'x' ∷ b'z' ∷ b'/' ∷ b'l'
          ∷ b'i' ∷ b'b' ∷ b'a' ∷ b'm' ∷ b'q' ∷ b'p' ∷ b'-' ∷ b'c' ∷ b'p' ∷ b'p' ∷ [])
        t4
  ok t5

module _ (c : FrameConstants) (net : Network) (gen : Methods) (h : HandshakeMethods gen)
    (split : List ℕ → List (List ℕ)) where
  -- The loop over the endpoints, up to one that connects.
  unfoldable pub connect_any : List net.Endpoint → net.transport.Socket → net.transport.Socket
  connect_any [] s = s
  connect_any (e ∷ rest) s =
      let (s', connected) = net.connect e s in
      let later = connect_any rest s' in if connected then s' else later

  -- method::read(m_thread.read_frame())
  unfoldable pub receive_method :
      FrameBuilder
      → net.transport.Socket
      → Result (gen.Method × FrameBuilder × net.transport.Socket)
  receive_method b s = do
    (fr, b', s') ← read_frame c net.transport b s
    method ← gen.read fr
    ok (method, b', s')

  -- m_thread.write_frame(frame::create_from_method(0, method))
  unfoldable pub send_method : Serializable → net.transport.Socket → Result net.transport.Socket
  send_method method s = do fr ← create_from_method 0 method; write_frame c net.transport fr s

  -- The socket is closed before the throw, and ends with the connection object.
  unfoldable pub check_version : h.Start → Result (Unit {0})
  check_version start =
      if (h.version_major start == 0) && (h.version_minor start == 9)
      then ok tt
      else err (runtime_error "Broker is using the wrong version of AMQP")

  unfoldable pub make_start_ok : h.Start → List ℕ → List ℕ → Result Serializable
  unfolding client_properties
  make_start_ok start username password = do
    properties ← client_properties
    mechanism ← select_sasl_mechanism split (h.mechanisms start)
    named ← h.set_mechanism mechanism (h.new_start_ok properties)
    response ← get_sasl_response mechanism username password
    signed ← h.set_response response named
    start_ok ← h.set_locale (b'e' ∷ b'n' ∷ b'_' ∷ b'U' ∷ b'S' ∷ []) signed
    ok (h.start_ok_method start_ok)

  unfoldable pub make_open : List ℕ → Result Serializable
  make_open vhost = do
    hosted ← h.set_virtual_host vhost h.new_open
    capable ← h.set_capabilities [] hosted
    ok (h.open_method (h.set_insist false capable))

  -- connect, on a socket that is open: the builder and the socket that it leaves to the reading
  -- loop.
  unfoldable pub shake_hands :
      List ℕ
      → List ℕ
      → List ℕ
      → FrameBuilder
      → net.transport.Socket
      → Result (FrameBuilder × net.transport.Socket)
  unfolding receive_method send_method check_version make_start_ok make_open
  shake_hands username password vhost b s = do
    s₁ ← net.transport.write protocol_header s
    (started, b₁, s₂) ← receive_method b s₁
    start ← h.as_start started
    agreed ← check_version start
    start_ok ← make_start_ok start username password
    s₃ ← send_method start_ok s₂
    (tuned, b₂, s₄) ← receive_method b₁ s₃
    tune ← h.as_tune tuned
    s₅ ←
        send_method (h.tune_ok_method (h.channel_max tune) (h.frame_max tune) (h.heartbeat tune)) s₄
    open_vhost ← make_open vhost
    s₆ ← send_method open_vhost s₅
    (opened, b₃, s₇) ← receive_method b₂ s₆
    open_ok ← h.as_open_ok opened
    ok (b₃, s₇)

  unfoldable pub connect :
      List ℕ
      → ℕ
      → List ℕ
      → List ℕ
      → List ℕ
      → FrameBuilder
      → net.transport.Socket
      → Result (FrameBuilder × net.transport.Socket)
  unfolding connect_any shake_hands
  connect host port username password vhost b s = do
    endpoints ← net.resolve host port
    let s' = connect_any endpoints s
    if net.is_open s'
        then shake_hands username password vhost b s'
        else err (runtime_error "Failed to connect to remote peer")
