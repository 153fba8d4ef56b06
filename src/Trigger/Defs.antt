-- ===== src/Trigger/Defs.antt =====
-- trigger.h and trigger.cpp.
use pqnet.Common.{ℕ, Bool, true, false, Option, none, some, ◌∷◌, if◌then◌else◌, ◌>>=◌}
use pqnet.Kernel.{Poll, Event, poll_add, poll_mod, poll_del, log, error, History, Kernel}

-- The bits EPOLLERR, EPOLLIN and EPOLLOUT of `revents`.
pub record Revents : Type 0 where
  pub err : Bool
  pub readable : Bool
  pub writable : Bool

-- `events` always has the bit EPOLLET; EPOLLIN and EPOLLOUT are the fields of `Poll`.
pub record Trigger : Type 0 where
  pub epfd : ℕ
  pub fd : ℕ
  pub events : Poll
  pub revents : Revents

abbrev quiet : Revents
quiet = record { err = false; readable = false; writable = false }

unfoldable pub new : ℕ → ℕ → Trigger
new epfd fd = record {
  epfd = epfd;
  fd = fd;
  events = record { reading = false; writing = false };
  revents = quiet;
}

unfoldable pub set_epfd : ℕ → Trigger → Trigger
set_epfd epfd t = record t { epfd = epfd }

unfoldable pub set_fd : ℕ → Trigger → Trigger
set_fd fd t = record t { fd = fd }

unfoldable pub set_revents : Revents → Trigger → Trigger
set_revents r t = record t { revents = r }

-- `updateEvents(op)`: the call, and the log line if it fails.
module _ (k : Kernel) where
  abbrev pub update_events : (ℕ → ℕ → Poll → Event) → Trigger → History → History
  update_events op t h =
      let h' = op t.epfd t.fd t.events ∷ h in if k.permits h t.fd then h' else log error ∷ h'

  unfoldable pub add_to_loop : Trigger → History → History
  add_to_loop t h = update_events poll_add t h

  unfoldable pub remove_from_loop : Trigger → History → History
  remove_from_loop t h = update_events (λ epfd fd _. poll_del epfd fd) t h

  abbrev modified : Trigger → History → Trigger × History
  modified t h = (t, update_events poll_mod t h)

  unfoldable pub like_reading : Trigger → History → Trigger × History
  like_reading t h = modified (record t { events = record (t.events) { reading = true } }) h

  unfoldable pub like_writing : Trigger → History → Trigger × History
  like_writing t h = modified (record t { events = record (t.events) { writing = true } }) h

  unfoldable pub omit_reading : Trigger → History → Trigger × History
  omit_reading t h = modified (record t { events = record (t.events) { reading = false } }) h

  unfoldable pub omit_writing : Trigger → History → Trigger × History
  omit_writing t h = modified (record t { events = record (t.events) { writing = false } }) h

unfoldable pub is_like_reading : Trigger → Bool
is_like_reading t = t.events.reading

unfoldable pub is_like_writing : Trigger → Bool
is_like_writing t = t.events.writing

pub record Handlers (S : Type 0) : Type 0 where
  pub readhd : Option (S → Option S)
  pub writehd : Option (S → Option S)
  pub errorhd : Option (S → Option S)

module _ {S : Type 0} where
  unfoldable pub set_read_handler : (S → Option S) → Handlers S → Handlers S
  set_read_handler f hd = record hd { readhd = some f }

  unfoldable pub set_write_handler : (S → Option S) → Handlers S → Handlers S
  set_write_handler f hd = record hd { writehd = some f }

  unfoldable pub set_error_handler : (S → Option S) → Handlers S → Handlers S
  set_error_handler f hd = record hd { errorhd = some f }

  -- `if (bit) { if (handler) handler(); }`
  abbrev pub fire : Bool → Option (S → Option S) → S → Option S
  fire false f s = some s
  fire true none s = some s
  fire true (some f) s = f s

  -- Errors first, then reads, then writes; `revents` is read again before each.
  unfoldable pub handle_event : (S → Revents) → Handlers S → S → Option S
  handle_event revents hd s = do
    s1 ← fire (revents s).err hd.errorhd s
    s2 ← fire (revents s1).readable hd.readhd s1
    fire (revents s2).writable hd.writehd s2

abbrev pub no_handlers : (S : Type 0) → Handlers S
no_handlers S = record { readhd = none; writehd = none; errorhd = none }
