-- ===== src/Connection/Interface.antt =====
-- The generated methods of the class `connection`, as what the handshake uses of them.
use libamqp_cpp.Base.{ℕ, Bool, List, Result, ok, ◌>>=◌}
use libamqp_cpp.StringUtils.{validate_shortstring, validate_longstring}
use libamqp_cpp.Table.{Table}
use libamqp_cpp.Method.{Argument, Method, ClassSpec, serializable}
use libamqp_cpp.Method.Interface.{ChannelClass, generated, method_cast}
use libamqp_cpp.Connection.{HandshakeMethods}

-- The members of the classes start_ok and open.
pub record StartOk : Type 0 where
  pub client_properties : Table
  pub mechanism : List ℕ
  pub response : List ℕ
  pub locale : List ℕ

pub record Open : Type 0 where
  pub virtual_host : List ℕ
  pub capabilities : List ℕ
  pub insist : Bool

-- What the specification says of the class `connection`: the identifiers, the arguments that the
-- getters return, the objects as they are made, and the arguments of the client's methods.
pub record ConnectionClass : Type 0 where
  pub class_id : ℕ
  pub start_id : ℕ
  pub start_ok_id : ℕ
  pub tune_id : ℕ
  pub tune_ok_id : ℕ
  pub open_id : ℕ
  pub open_ok_id : ℕ
  pub version_major : List Argument → ℕ
  pub version_minor : List Argument → ℕ
  pub mechanisms : List Argument → List ℕ
  pub channel_max : List Argument → ℕ
  pub frame_max : List Argument → ℕ
  pub heartbeat : List Argument → ℕ
  pub new_start_ok : StartOk
  pub new_open : Open
  pub start_ok_arguments : StartOk → List Argument
  pub tune_ok_arguments : ℕ → ℕ → ℕ → List Argument
  pub open_arguments : Open → List Argument

-- The setters of strings validate them.
unfoldable pub set_mechanism : List ℕ → StartOk → Result StartOk
set_mechanism s x = do done ← validate_shortstring s; ok (record x { mechanism = s })

unfoldable pub set_response : List ℕ → StartOk → Result StartOk
set_response s x = do done ← validate_longstring s; ok (record x { response = s })

unfoldable pub set_locale : List ℕ → StartOk → Result StartOk
set_locale s x = do done ← validate_shortstring s; ok (record x { locale = s })

unfoldable pub set_virtual_host : List ℕ → Open → Result Open
set_virtual_host s x = do done ← validate_shortstring s; ok (record x { virtual_host = s })

unfoldable pub set_capabilities : List ℕ → Open → Result Open
set_capabilities s x = do done ← validate_shortstring s; ok (record x { capabilities = s })

abbrev pub method_of : ConnectionClass → ℕ → List Argument → Method
method_of c method_id arguments = record {
  class_id = c.class_id;
  method_id = method_id;
  arguments = arguments;
}

abbrev pub start_ok_of : ConnectionClass → StartOk → Method
start_ok_of c x = method_of c c.start_ok_id (c.start_ok_arguments x)

abbrev pub tune_ok_of : ConnectionClass → ℕ → ℕ → ℕ → Method
tune_ok_of c channels size beat = method_of c c.tune_ok_id (c.tune_ok_arguments channels size beat)

abbrev pub open_of : ConnectionClass → Open → Method
open_of c x = method_of c c.open_id (c.open_arguments x)

abbrev pub handshake :
    (spec : List ClassSpec) (n : ChannelClass)
    → ConnectionClass
    → HandshakeMethods (generated spec n)
handshake spec n c = record {
  Start = Method;
  Tune = Method;
  OpenOk = Method;
  StartOk = StartOk;
  Open = Open;
  as_start = method_cast c.class_id c.start_id;
  as_tune = method_cast c.class_id c.tune_id;
  as_open_ok = method_cast c.class_id c.open_ok_id;
  version_major = λ m. c.version_major m.arguments;
  version_minor = λ m. c.version_minor m.arguments;
  mechanisms = λ m. c.mechanisms m.arguments;
  channel_max = λ m. c.channel_max m.arguments;
  frame_max = λ m. c.frame_max m.arguments;
  heartbeat = λ m. c.heartbeat m.arguments;
  new_start_ok = λ t. record c.new_start_ok { client_properties = t };
  set_mechanism = set_mechanism;
  set_response = set_response;
  set_locale = set_locale;
  start_ok_method = λ x. serializable (start_ok_of c x);
  tune_ok_method = λ x y z. serializable (tune_ok_of c x y z);
  new_open = c.new_open;
  set_virtual_host = set_virtual_host;
  set_capabilities = set_capabilities;
  set_insist = λ b x. record x { insist = b };
  open_method = λ x. serializable (open_of c x);
}
