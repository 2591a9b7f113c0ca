-- ===== src/Method/Interface.antt =====
-- detail/methods.h and the generated classes, as what the channels use of them.
use libamqp_cpp.Base.{
  ℕ, ◌≡◌, refl, ◌==◌, ◌&&◌, List, eq→==, Result, ok, err, ◌>>=◌, runtime_error, if◌then◌else◌,
}
use libamqp_cpp.StringUtils.{validate_shortstring}
use libamqp_cpp.Frame.{Serializable}
use libamqp_cpp.Method.{Argument, ClassSpec, Method, serializable, read_frame_method}
use libamqp_cpp.Channel.{Methods}

-- What the specification says of the class `channel`: the identifiers of the class and its methods,
-- the arguments that an open and a close-ok have when they are made, and those of a close with its
-- four fields set.
pub record ChannelClass : Type 0 where
  pub class_id : ℕ
  pub open_id : ℕ
  pub open_ok_id : ℕ
  pub close_id : ℕ
  pub close_ok_id : ℕ
  pub open_arguments : List Argument
  pub close_arguments : ℕ → List ℕ → ℕ → ℕ → List Argument
  pub close_ok_arguments : List Argument

-- The cast to the generated class with two identifiers, which no other class has.
unfoldable pub method_cast : ℕ → ℕ → Method → Result Method
method_cast class_id method_id m =
    if (m.class_id == class_id) && (m.method_id == method_id)
    then ok m
    else err (runtime_error "Failure to cast method")

-- channel::close::create() and its setters, of which that of the text validates it.
unfoldable pub make_close : ChannelClass → ℕ → List ℕ → ℕ → ℕ → Result Serializable
make_close c code text class_id method_id = do
  done ← validate_shortstring text
  ok (
      serializable (record {
        class_id = c.class_id;
        method_id = c.close_id;
        arguments = c.close_arguments code text class_id method_id;
      }))

abbrev pub generated : List ClassSpec → ChannelClass → Methods
generated spec c = record {
  Method = Method;
  read = λ fr. read_frame_method spec fr;
  class_id = λ m. m.class_id;
  method_id = λ m. m.method_id;
  method_cast = method_cast;
  channel_class_id = c.class_id;
  open_ok_method_id = c.open_ok_id;
  close_method_id = c.close_id;
  open_method =
      serializable
        (record { class_id = c.class_id; method_id = c.open_id; arguments = c.open_arguments });
  close_ok = serializable (record {
    class_id = c.class_id;
    method_id = c.close_ok_id;
    arguments = c.close_ok_arguments;
  });
  close = make_close c;
}

pub method_cast-own : (m : Method) → method_cast m.class_id m.method_id m ≡ ok m
unfolding method_cast
method_cast-own m = rw (eq→== m.class_id m.class_id refl, eq→== m.method_id m.method_id refl)
