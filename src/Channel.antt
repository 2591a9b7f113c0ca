-- ===== src/Channel.antt =====
-- detail/channel_impl.h and .cpp: a channel's continuation, which takes the frames that come in for
-- it, its calls and its closing. An operation that can throw gives the channel that it leaves
-- behind next to the way it ended. `catch (std::exception& e)` with copy_exception(e) stores an
-- object of that base class, whatever was thrown.
pub mod Identity
pub mod Opening
pub mod Calls
use libamqp_cpp.Base.{
  ℕ, ◌≡◌, ◌==◌, ◌&&◌, Bool, true, false, String, List, [], ◌∷◌, Option, none, some, ◌⊎◌, inl, inr,
  ◌>>=◌, Result, ok, err, undefined, out_of_fuel, Exception, logic_error, runtime_error,
  connection_exception, channel_exception, std_exception, if◌then◌else◌,
}
use libamqp_cpp.Promise.{PromiseOf}
use libamqp_cpp.Frame.{Frame, method_type, Serializable, create_from_method}

-- What the code that the build generates gives: the methods, method::read and method_cast to the
-- method with two identifiers; those of channel.open-ok and channel.close; a channel.open, a
-- channel.close-ok, and a channel.close with its fields, whose setters may throw.
pub record Methods : Type 1 where
  pub Method : Type 0
  pub read : Frame → Result Method
  pub class_id : Method → ℕ
  pub method_id : Method → ℕ
  pub method_cast : ℕ → ℕ → Method → Result Method
  pub channel_class_id : ℕ
  pub open_ok_method_id : ℕ
  pub close_method_id : ℕ
  pub open_method : Serializable
  pub close_ok : Serializable
  pub close : ℕ → List ℕ → ℕ → ℕ → Result Serializable

module _ (gen : Methods) (opens : PromiseOf Bool) (calls : PromiseOf gen.Method)
    (closes : PromiseOf ℕ) where
  -- m_continuation, which is bound to process_open, to rpc_handler with the identifiers of the
  -- response and the promise, or to closed_handler.
  pub data Continuation : Type 0 where
    opening : Continuation
    calling : ℕ → ℕ → calls.Promise → Continuation
    closed : Continuation

  pub record Channel : Type 0 where
    pub channel_id : ℕ
    pub continuation : Continuation
    pub opened_promise : opens.Promise
    pub closed_promise : closes.Promise

  -- The channel after a handler, the frames that the handler posted, and how it ended.
  pub record Handled : Type 0 where
    pub left : Channel
    pub posted : List Frame
    pub ended : Result (Unit {0})

  -- The constructor.
  unfoldable pub new_channel : ℕ → Channel
  new_channel n = record {
    channel_id = n;
    continuation = opening;
    opened_promise = opens.new_promise;
    closed_promise = closes.new_promise;
  }

  -- The method in a frame that is to be the one with two identifiers.
  unfoldable pub expect_method : ℕ → ℕ → Frame → Result gen.Method
  expect_method class_id method_id fr = elim fr.type_of [
    | method_type ↦ do
      m ← gen.read fr
      if (gen.class_id m == class_id) && (gen.method_id m == method_id)
          then ok m
          else err connection_exception
    | _ ↦ err connection_exception
  ]

  -- catch (std::exception& e) { promise.set_exception(boost::copy_exception(e)); throw; }
  unfoldable pub settle :
      {P : Type 0} → (Exception → P → Result P) → P → Result P → P × Result (Unit {0})
  settle set_exception p (ok p') = (p', ok tt)
  settle set_exception p (err e) = elim (set_exception std_exception p) [
    | ok p' ↦ (p', err e)
    | err e' ↦ (p, err e')
    | undefined ↦ (p, undefined)
    | out_of_fuel ↦ (p, out_of_fuel)
  ]
  settle set_exception p undefined = (p, undefined)
  settle set_exception p out_of_fuel = (p, out_of_fuel)

  unfoldable pub process_open : Frame → Channel → Channel × Result (Unit {0})
  unfolding expect_method settle
  process_open fr ch =
      let opened = expect_method gen.channel_class_id gen.open_ok_method_id fr >>= λ m.
      opens.set_value true ch.opened_promise in
      let (p, ended) = settle opens.set_exception ch.opened_promise opened in
      (record ch { opened_promise = p }, ended)

  -- The promise is shared by the continuation and the caller's future.
  unfoldable pub rpc_handler : ℕ → ℕ → calls.Promise → Frame → Channel → Channel × Result (Unit {0})
  unfolding expect_method settle
  rpc_handler class_id method_id promise fr ch =
      let answered = expect_method class_id method_id fr >>= λ m.
      gen.method_cast class_id method_id m >>= λ answer. calls.set_value answer promise in
      let (p, ended) = settle calls.set_exception promise answered in
      (record ch { continuation = calling class_id method_id p }, ended)

  -- The function that is bound; closed_handler does nothing.
  unfoldable pub resume : Continuation → Frame → Channel → Channel × Result (Unit {0})
  unfolding process_open rpc_handler
  resume opening fr ch = process_open fr ch
  resume (calling class_id method_id promise) fr ch = rpc_handler class_id method_id promise fr ch
  resume closed fr ch = (ch, ok tt)

  -- m_continuation(frame)
  unfoldable pub continue_with : Frame → Channel → Channel × Result (Unit {0})
  unfolding resume
  continue_with fr ch = resume ch.continuation fr ch

  -- m_connection->begin_write_method: the frame is posted, or its making throws.
  unfoldable pub post_method : Result Frame → Channel → Handled
  post_method (ok fr) ch = record { left = ch; posted = fr ∷ []; ended = ok tt }
  post_method (err e) ch = record { left = ch; posted = []; ended = err e }
  post_method undefined ch = record { left = ch; posted = []; ended = undefined }
  post_method out_of_fuel ch = record { left = ch; posted = []; ended = out_of_fuel }

  -- The channel.close with its fields set, or what a setter threw.
  unfoldable pub close_by : Result Serializable → Channel → Handled
  unfolding post_method
  close_by (ok close) ch =
      post_method (create_from_method ch.channel_id close) (record ch { continuation = closed })
  close_by (err e) ch = record { left = ch; posted = []; ended = err e }
  close_by undefined ch = record { left = ch; posted = []; ended = undefined }
  close_by out_of_fuel ch = record { left = ch; posted = []; ended = out_of_fuel }

  unfoldable pub close_ : ℕ → List ℕ → ℕ → ℕ → Channel → Handled
  unfolding close_by
  close_ code text class_id method_id ch = close_by (gen.close code text class_id method_id) ch

  -- try { m_continuation(frame); } catch (amqpp::channel_exception& e) { close_(e); }
  unfoldable pub handle_end : Channel → Result (Unit {0}) → Handled
  unfolding close_
  handle_end ch (err (channel_exception code text class_id method_id)) =
      close_ code text class_id method_id ch
  handle_end ch r = record { left = ch; posted = []; ended = r }

  -- A failed assertion is `undefined`.
  unfoldable pub process_frame : Frame → Channel → Handled
  unfolding continue_with handle_end
  process_frame fr ch =
      let (ch', ended) = continue_with fr ch in
      if fr.channel == ch.channel_id
      then handle_end ch' ended
      else record { left = ch; posted = []; ended = undefined }

  -- begin_rpc for a response with two identifiers; `is_ready` is that of
  -- m_channel_closed_future. The channel, with the call's promise in its continuation, and the posted frame.
  unfoldable pub begin_rpc : Bool → ℕ → ℕ → Serializable → Channel → Result (Channel × Frame)
  begin_rpc is_ready class_id method_id method ch =
      if is_ready then err (runtime_error "Channel closed") else (do
        out_frame ← create_from_method ch.channel_id method
        fr ← create_from_method ch.channel_id method
        ok (record ch { continuation = calling class_id method_id calls.new_promise }, fr))

  unfoldable pub close_async : Channel → Result Channel
  close_async ch = do
    p ← closes.set_value 1 ch.closed_promise
    ok (record ch { closed_promise = p })
