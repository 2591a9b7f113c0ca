-- ===== src/Connection/Generated.antt =====
-- The handshake with the generated methods of the class `connection`.
use libamqp_cpp.Base.{ℕ, ◌^◌, ◌<◌, ◌≡◌, refl, false, List, [], ◌∷◌, ◌++◌, ok, arith, length}
use libamqp_cpp.StringUtils.{contains, validate_shortstring, validate_longstring}
use libamqp_cpp.Sasl.{plain_mechanism, get_sasl_response, get_plain_response, same_string}
use libamqp_cpp.Sasl.Laws.{Offers, select_sasl_mechanism-offered}
use libamqp_cpp.Table.{Table, no_entries, entry, longstring, table_entry, insert}
use libamqp_cpp.Table.Keys.{key_lt}
use libamqp_cpp.Frame.{FrameConstants, IsFrameSpec, FrameBuilder}
use libamqp_cpp.Frame.Wire.{frame_bytes}
use libamqp_cpp.Frame.Reader.{IsFifo}
use libamqp_cpp.Method.{Argument, Method, ClassSpec, serializable}
use libamqp_cpp.Method.Interface.{ChannelClass, generated, method_cast-own}
use libamqp_cpp.Method.Transfer.{
  IsSendable, method_frame, method_frame-IsFullFrame, create_from_method-serializable,
  read_frame_method-method_frame,
}
use libamqp_cpp.Connection.{
  Network, client_properties, make_start_ok, make_open, shake_hands, protocol_header,
}
use libamqp_cpp.Connection.Handshake.{IsDuplex, Carries, Fits, shake_hands-ok}
use libamqp_cpp.Connection.Interface.{
  ConnectionClass, StartOk, Open, set_mechanism, set_response, set_locale, set_virtual_host,
  set_capabilities, method_of, start_ok_of, tune_ok_of, open_of, handshake,
}

-- What the client says of itself, in the order of the keys.
abbrev pub own_properties : Table
own_properties =
    entry (b'c' ∷ b'o' ∷ b'p' ∷ b'y' ∷ b'r' ∷ b'i' ∷ b'g' ∷ b'h' ∷ b't' ∷ [])
      (longstring (
        b'A' ∷ b'l' ∷ b'a' ∷ b'n' ∷ b' ' ∷ b'A' ∷ b'n' ∷ b't' ∷ b'o' ∷ b'n' ∷ b'u' ∷ b'k' ∷ b' '
        ∷ b'(' ∷ b'c' ∷ b')' ∷ b' ' ∷ b'2' ∷ b'0' ∷ b'1' ∷ b'1' ∷ []))
      (entry (b'i' ∷ b'n' ∷ b'f' ∷ b'o' ∷ b'r' ∷ b'm' ∷ b'a' ∷ b't' ∷ b'i' ∷ b'o' ∷ b'n' ∷ [])
        (longstring (
          b'h' ∷ b't' ∷ b't' ∷ b'p' ∷ b':' ∷ b'/' ∷ b'/' ∷ b'g' ∷ b'i' ∷ b't' ∷ b'h' ∷ b'u' ∷ b'b'
          ∷ b'.' ∷ b'c' ∷ b'o' ∷ b'm' ∷ b'/' ∷ b'a' ∷ b'l' ∷ b'a' ∷ b'n' ∷ b'x' ∷ b'z' ∷ b'/' ∷ b'l'
          ∷ b'i' ∷ b'b' ∷ b'a' ∷ b'm' ∷ b'q' ∷ b'p' ∷ b'-' ∷ b'c' ∷ b'p' ∷ b'p' ∷ []))
        (entry (b'p' ∷ b'l' ∷ b'a' ∷ b't' ∷ b'f' ∷ b'o' ∷ b'r' ∷ b'm' ∷ [])
          (longstring (b'c' ∷ b'+' ∷ b'+' ∷ []))
          (entry (b'p' ∷ b'r' ∷ b'o' ∷ b'd' ∷ b'u' ∷ b'c' ∷ b't' ∷ [])
            (longstring
              (b'l' ∷ b'i' ∷ b'b' ∷ b'a' ∷ b'm' ∷ b'q' ∷ b'p' ∷ b'-' ∷ b'c' ∷ b'p' ∷ b'p' ∷ []))
            (entry (b'v' ∷ b'e' ∷ b'r' ∷ b's' ∷ b'i' ∷ b'o' ∷ b'n' ∷ [])
              (longstring (b'0' ∷ b'.' ∷ b'1' ∷ b'b' ∷ [])) no_entries))))

client_properties-own : client_properties ≡ ok own_properties
unfolding client_properties table_entry insert key_lt
client_properties-own = refl

-- The response of PLAIN.
abbrev pub plain_response : List ℕ → List ℕ → List ℕ
plain_response username password = 0 ∷ (username ++ (0 ∷ password))

get_sasl_response-plain :
    (u p : List ℕ)
    → contains 0 u ≡ false
    → contains 0 p ≡ false
    → get_sasl_response plain_mechanism u p ≡ ok (plain_response u p)
unfolding get_sasl_response get_plain_response same_string
get_sasl_response-plain u p h k = rw (h, k) refl

validate_longstring-short : (s : List ℕ) → length s < 2 ^ 32 → validate_longstring s ≡ ok tt
unfolding validate_longstring
validate_longstring-short s h = ground arith

abbrev pub answer : List ℕ → List ℕ → StartOk
answer username password = record {
  client_properties = own_properties;
  mechanism = plain_mechanism;
  response = plain_response username password;
  locale = b'e' ∷ b'n' ∷ b'_' ∷ b'U' ∷ b'S' ∷ [];
}

abbrev pub request : List ℕ → Open
request vhost = record { virtual_host = vhost; capabilities = []; insist = false }

module _ (spec : List ClassSpec) (n : ChannelClass) (names : ConnectionClass) (c : FrameConstants)
    (net : Network) (split : List ℕ → List (List ℕ)) where
  make_start_ok-plain :
      (start : Method) (u p : List ℕ)
      → Offers plain_mechanism (split (names.mechanisms start.arguments))
      → contains 0 u ≡ false
      → contains 0 p ≡ false
      → length (plain_response u p) < 2 ^ 32
      → make_start_ok c net (generated spec n) (handshake spec n names) split start u p
        ≡ ok (serializable (start_ok_of names (answer u p)))
  unfolding make_start_ok set_mechanism set_response set_locale validate_shortstring
  make_start_ok-plain start u p offered h k small =
      rw
        (
          client_properties-own,
          select_sasl_mechanism-offered split (names.mechanisms start.arguments) offered,
          get_sasl_response-plain u p h k,
          validate_longstring-short (plain_response u p) small,
        )
        refl

  make_open-valid :
      (vhost : List ℕ)
      → validate_shortstring vhost ≡ ok tt
      → make_open c net (generated spec n) (handshake spec n names) split vhost
        ≡ ok (serializable (open_of names (request vhost)))
  unfolding make_open set_virtual_host set_capabilities validate_shortstring
  make_open-valid vhost valid = rw valid refl

  method_frame-Carries :
      (m : Method) → IsSendable spec m → Carries (generated spec n) (method_frame 0 m) m
  method_frame-Carries m h = record {
    whole = method_frame-IsFullFrame m 0 (omega arith) h.fits;
    read_lem = read_frame_method-method_frame spec m 0 h;
  }

  method_frame-Fits : (m : Method) → IsSendable spec m → Fits (serializable m) (method_frame 0 m)
  method_frame-Fits m h = record {
    made = create_from_method-serializable spec m 0 h;
    size_lt = h.fits;
    full = refl;
  }

  module _ (frame_spec : IsFrameSpec c) (incoming outgoing : net.transport.Socket → List ℕ)
      (fifo : IsFifo net.transport incoming) (duplex : IsDuplex net incoming outgoing) where
    -- The connection delivers bytes in order and takes what is written. The broker sends, in this
    -- order, a start of version 0-9 that offers PLAIN, a tune and an open-ok, that are methods of
    -- the specification whose values the format carries. The user name and the password hold no
    -- NUL, their response has less than 2 ^ 32 bytes, the virtual host is a valid short string, and
    -- the format carries the start-ok, the tune-ok and the open that are named below. Then the
    -- handshake ends without an exception and leaves what comes in behind the open-ok. It has sent
    -- the protocol header, a start-ok with the client's properties, PLAIN, its response and the
    -- locale en_US, a tune-ok with the broker's own three values, and an open of the virtual host.
    pub handshake_ends :
        (username password vhost rest : List ℕ) (b : FrameBuilder) (s : net.transport.Socket)
        (start tune open_ok : List Argument)
        → IsSendable spec (method_of names names.start_id start)
        → IsSendable spec (method_of names names.tune_id tune)
        → IsSendable spec (method_of names names.open_ok_id open_ok)
        → incoming s
          ≡ frame_bytes c (method_frame 0 (method_of names names.start_id start))
            ++ (frame_bytes c (method_frame 0 (method_of names names.tune_id tune))
                ++ (frame_bytes c (method_frame 0 (method_of names names.open_ok_id open_ok))
                    ++ rest))
        → names.version_major start ≡ 0
        → names.version_minor start ≡ 9
        → Offers plain_mechanism (split (names.mechanisms start))
        → contains 0 username ≡ false
        → contains 0 password ≡ false
        → length (plain_response username password) < 2 ^ 32
        → validate_shortstring vhost ≡ ok tt
        → IsSendable spec (start_ok_of names (answer username password))
        → IsSendable spec (
            tune_ok_of names (names.channel_max tune) (names.frame_max tune) (names.heartbeat tune))
        → IsSendable spec (open_of names (request vhost))
        → (b' : FrameBuilder) × (s' : net.transport.Socket) × (shake_hands c net
              (generated spec n)
              (handshake spec n names)
              split
              username
              password
              vhost
              b
              s
            ≡ ok (b', s'))
          × (incoming s' ≡ rest)
          × (outgoing s'
              ≡ outgoing s
                ++ (protocol_header
                    ++ (frame_bytes c
                          (method_frame 0 (start_ok_of names (answer username password)))
                        ++ (frame_bytes c (
                              method_frame 0 (
                                tune_ok_of names
                                  (names.channel_max tune)
                                  (names.frame_max tune)
                                  (names.heartbeat tune)))
                            ++ frame_bytes c (method_frame 0 (open_of names (request vhost)))))))
    handshake_ends username password vhost rest b s start tune open_ok h₁ h₂ h₃ e major minor
          offered u p small valid f₁ f₂ f₃ =
        let started = method_of names names.start_id start in
        let tuned = method_of names names.tune_id tune in
        let opened = method_of names names.open_ok_id open_ok in
        shake_hands-ok c frame_spec net (generated spec n) (handshake spec n names) split incoming
          outgoing fifo duplex username password vhost rest b s (method_frame 0 started)
          (method_frame 0 tuned) (method_frame 0 opened) _ _ _ started tuned opened started tuned
          opened _ _ e (method_frame-Carries started h₁) (method_frame-Carries tuned h₂)
          (method_frame-Carries opened h₃) (method_cast-own started) (method_cast-own tuned)
          (method_cast-own opened) major minor
          (make_start_ok-plain started username password offered u p small)
          (make_open-valid vhost valid) (method_frame-Fits _ f₁) (method_frame-Fits _ f₂)
          (method_frame-Fits _ f₃)
