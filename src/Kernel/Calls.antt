-- ===== src/Kernel/Calls.antt =====
-- read(2), write(2), epoll_ctl(2), close(2), shutdown(2) on file descriptors, as seen by the code.
use pqnet.Common.{ℕ, ◌≤◌, ◌≡◌, Bool, List, [], ◌∷◌, ◌++◌, ◌==◌, if◌then◌else◌, length, take}

-- `got []` is the end of the stream, read(2) returning 0.
pub data ReadResult : Type 0 where
  got : List ℕ → ReadResult
  read_failed : ReadResult

pub data WriteResult : Type 0 where
  accepted : ℕ → WriteResult
  write_failed : WriteResult

-- `Logger::LogLevel`
pub data Level : Type 0 where
  debug info warn error fatal : Level

-- The interest set of an epoll registration: EPOLLET is always in it.
pub record Poll : Type 0 where
  pub reading : Bool
  pub writing : Bool

-- The callbacks of a connection: conncb, closecb, rmcb, macb, wccb.
pub data Slot : Type 0 where
  on_connect on_close on_remove on_message on_written : Slot

pub data Event : Type 0 where
  -- read(2) on a descriptor, with the count asked for
  received : ℕ → ℕ → List ℕ → Event
  read_error : ℕ → ℕ → Event
  -- write(2) on a descriptor, with the bytes offered and how many were taken
  sent : ℕ → List ℕ → ℕ → Event
  write_error : ℕ → List ℕ → Event
  -- epoll_ctl(2): the epoll descriptor, the descriptor, the events
  poll_add poll_mod : ℕ → ℕ → Poll → Event
  poll_del : ℕ → ℕ → Event
  -- close(2), and shutdown(2) with SHUT_WR
  closed shut : ℕ → Event
  -- a callback run for the connection on a descriptor
  called : Slot → ℕ → Event
  -- a functor handed to the event loop of an epoll descriptor, for the connection on a descriptor
  queued : ℕ → ℕ → Event
  log : Level → Event

abbrev pub History : Type 0
History = List Event

-- read(2) gives at most the count asked for, and write(2) takes at most what is offered.
pub record Kernel : Type 0 where
  pub read : History → ℕ → ℕ → ReadResult
  pub read-le : (h : History) (fd n : ℕ) (bs : List ℕ) → read h fd n ≡ got bs → length bs ≤ n
  pub write : History → ℕ → List ℕ → WriteResult
  pub write-le : (h : History) (fd n : ℕ) (bs : List ℕ) → write h fd bs ≡ accepted n → n ≤ length bs
  -- whether epoll_ctl(2), close(2), fcntl(2) or setsockopt(2) succeeds
  pub permits : History → ℕ → Bool

-- read(fd, buffer, n)
unfoldable pub sys_read : Kernel → ℕ → ℕ → History → ReadResult × History
sys_read k fd n h = elim (k.read h fd n) [
  | got bs ↦ (got bs, received fd n bs ∷ h)
  | read_failed ↦ (read_failed, read_error fd n ∷ h)
]

-- write(fd, data, len)
unfoldable pub sys_write : Kernel → ℕ → List ℕ → History → WriteResult × History
sys_write k fd bs h = elim (k.write h fd bs) [
  | accepted n ↦ (accepted n, sent fd bs n ∷ h)
  | write_failed ↦ (write_failed, write_error fd bs ∷ h)
]

-- All that came in on a descriptor, oldest first.
unfoldable pub received_on : ℕ → History → List ℕ
received_on fd [] = []
received_on fd (received e n bs ∷ h) = if e == fd then received_on fd h ++ bs else received_on fd h
received_on fd (_ ∷ h) = received_on fd h

-- All that the kernel took for a descriptor, oldest first.
unfoldable pub sent_on : ℕ → History → List ℕ
sent_on fd [] = []
sent_on fd (sent e bs n ∷ h) = if e == fd then sent_on fd h ++ take n bs else sent_on fd h
sent_on fd (_ ∷ h) = sent_on fd h
