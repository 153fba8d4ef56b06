-- ===== src/Connection/Defs.antt =====
-- connection.cpp. A callback is a handle; what the user's code does when it is called is the
-- parameter `user`. `none` is a fault: a copy past the end of a buffer.
use pqnet.Common.{
  ℕ, ◌-◌, Bool, true, false, not, ◌&&◌, Option, none, some, List, ◌∷◌, length, drop, ltb, ◌==◌,
  if◌then◌else◌, ◌>>=◌,
}
use pqnet.Kernel.{
  WriteResult, accepted, write_failed, Slot, on_connect, on_close, on_remove, on_message,
  on_written, Level, debug, warn, error, closed, shut, called, queued, log, History, Kernel,
  sys_write,
}
use pqnet.Buffer
use pqnet.Buffer.{
  Buffer, Ssize, count, sys_error, buffer_size_maximum, readable_bytes, append, read_from, write_to,
}
use pqnet.Trigger
use pqnet.Trigger.{
  Trigger, Handlers, add_to_loop, remove_from_loop, like_reading, like_writing, omit_writing,
  is_like_writing, set_read_handler, set_write_handler, set_error_handler, no_handlers,
}

pub data Status : Type 0 where
  disconnected connecting connected disconnecting : Status

pub record Conn : Type 0 where
  pub conncb : Option ℕ
  pub closecb : Option ℕ
  pub rmcb : Option ℕ
  pub macb : Option ℕ
  pub wccb : Option ℕ
  pub input : Buffer
  pub output : Buffer
  pub status : Status
  -- the epoll descriptor of the event loop
  pub looper : ℕ
  pub tg : Trigger

pub record World : Type 0 where
  pub conn : Conn
  pub history : History

abbrev pub User : Type 0
User = ℕ → World → Option World

-- The constructor; its handlers are `handlers` below.
unfoldable pub new : ℕ → ℕ → Conn
new looper fd = record {
  conncb = none;
  closecb = none;
  rmcb = none;
  macb = none;
  wccb = none;
  input = Buffer.init 1024;
  output = Buffer.init 1024;
  status = connecting;
  looper = looper;
  tg = Trigger.new looper fd;
}

unfoldable pub set_connect_callback : Option ℕ → Conn → Conn
set_connect_callback cb c = record c { conncb = cb }

unfoldable pub set_close_callback : Option ℕ → Conn → Conn
set_close_callback cb c = record c { closecb = cb }

unfoldable pub set_remove_conn_callback : Option ℕ → Conn → Conn
set_remove_conn_callback cb c = record c { rmcb = cb }

unfoldable pub set_message_arrived_callback : Option ℕ → Conn → Conn
set_message_arrived_callback cb c = record c { macb = cb }

unfoldable pub set_write_completed_callback : Option ℕ → Conn → Conn
set_write_completed_callback cb c = record c { wccb = cb }

abbrev pub log_at : Level → World → World
log_at l s = record s { history = log l ∷ s.history }

abbrev pub set_status : Status → World → World
set_status st s = record s { conn = record (s.conn) { status = st } }

abbrev pub set_trigger : World → Trigger × History → World
set_trigger s (t, h) = record { conn = record (s.conn) { tg = t }; history = h }

abbrev pub is_connected : Status → Bool
is_connected connected = true
is_connected _ = false

abbrev pub with_input : World → Buffer → History → World
with_input s b h = record { conn = record (s.conn) { input = b }; history = h }

abbrev pub with_output : World → Buffer → History → World
with_output s b h = record { conn = record (s.conn) { output = b }; history = h }

-- `looper->pushFunctor(shutdownInLoop)`
unfoldable pub shutdown : World → World
shutdown s =
    if is_connected s.conn.status
    then record s { history = queued s.conn.looper s.conn.tg.fd ∷ s.history }
    else s

unfoldable pub shutdown_in_loop : World → World
shutdown_in_loop s =
    if not (is_like_writing s.conn.tg)
    then record s { history = shut s.conn.tg.fd ∷ s.history }
    else s

module _ (k : Kernel) where
  abbrev pub release : World → World
  release s =
      let h = remove_from_loop k s.conn.tg s.history in
      let h' = closed s.conn.tg.fd ∷ h in
      record s { history = if k.permits h s.conn.tg.fd then h' else log error ∷ h' }

  -- `outputBuffer.append(data + n, remain); if (!isLikeWriting()) likeWriting();` if `remain > 0`
  abbrev pub arm : World → Buffer → World
  arm s out =
      let s1 = record s { conn = record (s.conn) { output = out } } in
      if is_like_writing s1.conn.tg
      then s1
      else set_trigger s1 (like_writing k s1.conn.tg s1.history)

  unfoldable pub queue_rest : List ℕ → World → Option World
  queue_rest rest s =
      let queued = append s.conn.output rest >>= λ out. some (arm s out) in
      if ltb 0 (length rest) then queued else some s

module _ (k : Kernel) (user : User) where
  -- `if (cb) { cb(shared_from_this()); }`
  abbrev pub call : Slot → Option ℕ → World → Option World
  call slot none s = some s
  call slot (some cb) s = user cb (record s { history = called slot s.conn.tg.fd ∷ s.history })

  unfoldable pub connect_established : World → Option World
  connect_established s =
      let s1 = set_status connected (log_at debug s) in
      let s2 = record s1 { history = add_to_loop k s1.conn.tg s1.history } in
      let s3 = set_trigger s2 (like_reading k s2.conn.tg s2.history) in
      call on_connect s3.conn.conncb s3

  -- `if (status == CONNECTED && closecb) { closecb(shared_from_this()); }`
  abbrev pub announce_close : World → Option World
  announce_close s = if is_connected s.conn.status then call on_close s.conn.closecb s else some s

  unfoldable pub connect_destroyed : World → Option World
  connect_destroyed s = do
    s1 ← announce_close (log_at debug s)
    some (set_status disconnected (release k s1))

  -- After the direct write(2).
  abbrev pub after_write : List ℕ → World → WriteResult × History → Option World
  after_write bytes s (write_failed, h) = some (record s { history = log error ∷ h })
  after_write bytes s (accepted n, h) =
      let s1 = record s { history = h } in
      let completed =
        if (length bytes - n) == 0 then call on_written s1.conn.wccb s1 else some s1 in
      let done = completed >>= λ s2. queue_rest k (drop n bytes) s2 in
      if ltb 0 n then done else some (log_at error s1)

  -- `send(data, len)`, the list being `data[0 .. len)`
  unfoldable pub send : List ℕ → World → Option World
  send bytes s =
      if not (is_like_writing s.conn.tg) && (readable_bytes s.conn.output == 0)
      then after_write bytes s (sys_write k s.conn.tg.fd bytes s.history)
      else queue_rest k bytes s

  unfoldable pub handle_close : World → Option World
  handle_close s = do
    s1 ← announce_close (log_at debug s)
    let s2 = set_status disconnecting s1
    call on_remove s2.conn.rmcb s2

  abbrev pub after_read_from : World → Ssize × Buffer × History → Option World
  after_read_from s (count m, b, h) =
      let s1 = with_input s b h in
      if ltb 0 m then call on_message s1.conn.macb s1 else handle_close s1
  after_read_from s (buffer_size_maximum, b, h) = some (log_at warn (with_input s b h))
  after_read_from s (sys_error, b, h) = some (log_at error (with_input s b h))

  unfoldable pub handle_read : World → Option World
  handle_read s = do
    r ← read_from k s.conn.tg.fd s.conn.input (log debug ∷ s.history)
    after_read_from s r

  -- `tg->omitWriting(); if (wccb) { wccb(shared_from_this()); }`
  abbrev pub drained : World → Option World
  drained s =
      let s1 = set_trigger s (omit_writing k s.conn.tg s.history) in call on_written s1.conn.wccb s1

  abbrev pub after_write_to : World → Ssize × Buffer × History → Option World
  after_write_to s (count m, b, h) =
      let s1 = with_output s b h in
      if ltb 0 m
      then if readable_bytes b == 0 then drained s1 else some s1
      else some (log_at error s1)
  after_write_to s (buffer_size_maximum, b, h) = some (log_at error (with_output s b h))
  after_write_to s (sys_error, b, h) = some (log_at error (with_output s b h))

  unfoldable pub handle_write : World → Option World
  handle_write s =
      after_write_to s
        (write_to k s.conn.tg.fd s.conn.output (readable_bytes s.conn.output) s.history)

  unfoldable pub handle_error : World → Option World
  handle_error s = some (log_at error (log_at debug s))

  unfoldable pub handlers : Handlers World
  handlers =
      set_error_handler handle_error
        (set_write_handler handle_write (set_read_handler handle_read (no_handlers World)))
