-- ===== src/ConnectionManager/Steps.antt =====
-- The handlers as a step relation.
use libamqp_cpp.Base.{ℕ, suc, ◌+◌, ◌≡◌, Bool, List, [], ◌∷◌, ◌++◌, some, ok, length, get_elem?}
use libamqp_cpp.Frame.{Frame, FrameBuilder, Serializable}
use libamqp_cpp.Channel.{begin_rpc}
use libamqp_cpp.ConnectionManager.{
  World, Manager, initial, ChannelObject, channel, header_read, body_read, begin_write_frame,
  write_frame_async, begin_write_method, on_write_frame,
}
use libamqp_cpp.ConnectionManager.Dispatch.{
  set_elem, on_frame_header_read, on_frame_body_read, header_arrives, body_arrives, destroy_channel,
  begin_open_channel, start_open_channel,
}

module _ (w : World) where
  -- A handler of the io_service runs, or another thread calls the connection or a channel. `submit`
  -- is a call of write_frame_async, `post` one of begin_write_method and `request` one of
  -- begin_open_channel. `run` and `open_channel` take any of the posted calls, `complete` ends a
  -- write, `header` and `body` end a read; a read that fails may have filled its buffers or not.
  -- `call` is a call of begin_rpc on a channel, and `destroy` is the end of a channel object, whose
  -- last owner lets go of it.
  pub data Step (m : Manager w) : Manager w → Type 0 where
    submit : {m' : Manager w} (fr : Frame) → write_frame_async w fr m ≡ ok m' → Step m m'
    post :
        {m' : Manager w} (channel_id : ℕ) (method : Serializable)
        → begin_write_method w channel_id method m ≡ ok m'
        → Step m m'
    request : {m' : Manager w} → m' ≡ begin_open_channel w m → Step m m'
    run :
        {m' : Manager w} (before after : List Frame) (fr : Frame)
        → m.posted ≡ before ++ fr ∷ after
        → m' ≡ begin_write_frame w fr (record m { posted = before ++ after })
        → Step m m'
    open_channel :
        {m' : Manager w} (before after : List w.channels.Promise)
        (promise promise' : w.channels.Promise)
        → m.requests ≡ before ++ promise ∷ after
        → start_open_channel w promise (record m { requests = before ++ after }) ≡ ok (promise', m')
        → Step m m'
    complete :
        {m' : Manager w} (failed : Bool) (n : ℕ)
        → m.outstanding ≡ suc n
        → on_write_frame w failed (record m { outstanding = n }) ≡ ok m'
        → Step m m'
    header :
        {m' : Manager w} (failed : Bool) (bytes : List ℕ)
        → m.reading ≡ header_read
        → length bytes ≡ 8
        → on_frame_header_read w failed (header_arrives w bytes m) ≡ ok m'
        → Step m m'
    body :
        {m' : Manager w} (failed : Bool) (n : ℕ) (bytes : List ℕ)
        → m.reading ≡ body_read n
        → length bytes ≡ n + 1
        → on_frame_body_read w failed (body_arrives w n bytes m) ≡ ok m'
        → Step m m'
    call :
        {m' : Manager w} (n class_id method_id : ℕ) (ch ch' : ChannelObject w) (is_ready : Bool)
        (method : Serializable) (fr : Frame)
        → get_elem? m.channels n ≡ some (channel ch)
        → begin_rpc w.methods w.opens w.calls w.closes is_ready class_id method_id method ch
          ≡ ok (ch', fr)
        → m' ≡ record m {
          channels = set_elem n (channel ch') m.channels;
          posted = m.posted ++ fr ∷ [];
        }
        → Step m m'
    destroy :
        {m' : Manager w} (n : ℕ) (ch : ChannelObject w)
        → get_elem? m.channels n ≡ some (channel ch)
        → destroy_channel w n ch m ≡ ok m'
        → Step m m'

  pub data Reach (m : Manager w) : Manager w → Type 0 where
    here : Reach m m
    next : {m₁ m₂ : Manager w} → Reach m m₁ → Step m₁ m₂ → Reach m m₂

  -- The states that are reached from the one in which the reading loop starts, whatever the
  -- builder holds then.
  abbrev pub Reachable : Manager w → Type 0
  Reachable m = (b : FrameBuilder) × Reach (initial w b) m
