-- ===== src/Connection/Tests.antt =====
-- The connection's theorems at one connection.
use pqnet.Common.{ℕ, ◌≤◌, ◌≡◌, refl, true, false, none, some, List, [], ◌∷◌, arith, replicate}
use pqnet.Kernel.{sys_write}
use pqnet.Kernel.Sample.{sample_kernel, blocked_kernel}
use pqnet.Buffer.{Buffer, unread}
use pqnet.Connection.Defs.{World, User, connected, send}
use pqnet.Connection.Sound.{IsSound, IsPolite, Extends, Extends-refl, stream}
use pqnet.Connection.Stream.{Sends, send_lem, send_drops}
use pqnet.Connection.Steps.{closes, step}
use pqnet.Connection.Invariant.{step-IsSound}
use pqnet.Connection.Closing.{IsReserved, close_credit, close_credit-step}
use pqnet.Connection.Runs.{Run, start, next, Run-close_once}

abbrev blank : Buffer
blank = record { buf = replicate 8 0; capacity = 8; reader_index = 0; writer_index = 0 }

-- Connected on descriptor 5, with a close callback, and nothing pending.
abbrev idle : World
idle = record {
  conn = record {
    conncb = none;
    closecb = some 1;
    rmcb = some 2;
    macb = some 3;
    wccb = none;
    input = blank;
    output = blank;
    status = connected;
    looper = 3;
    tg = record {
      epfd = 3;
      fd = 5;
      events = record { reading = true; writing = false };
      revents = record { err = false; readable = false; writable = false };
    };
  };
  history = [];
}

idle-IsSound : IsSound idle
unfolding unread
idle-IsSound = record { input = omega arith; output = omega arith; armed = refl }

-- A user who does nothing.
abbrev passive : User
passive cb s = some s

passive-IsPolite : IsPolite passive
passive-IsPolite cb s v = (s, refl, Extends-refl s v)

passive-IsReserved : IsReserved passive
passive-IsReserved cb s s' e = (ground arith, ground arith)

hello : List ℕ
hello = 104 ∷ 101 ∷ 121 ∷ []

send_lem_example : Sends sample_kernel passive idle hello
unfolding unread hello
send_lem_example =
    send_lem sample_kernel passive idle hello passive-IsPolite idle-IsSound (omega arith)

send_drops_example :
    (s' : World) × (send blocked_kernel passive hello idle ≡ some s')
    × (stream s' ≡ stream idle)
    × (s'.conn.tg.events.writing ≡ false)
unfolding sys_write
send_drops_example = send_drops blocked_kernel passive idle hello idle-IsSound (refl, refl)

step-IsSound_example :
    (s' : World) × (step sample_kernel passive closes idle ≡ some s') × Extends idle [] s'
step-IsSound_example =
    step-IsSound sample_kernel passive closes idle passive-IsPolite idle-IsSound tt

closed_idle : (s' : World) × (step sample_kernel passive closes idle ≡ some s') × Extends idle [] s'
closed_idle = step-IsSound sample_kernel passive closes idle passive-IsPolite idle-IsSound tt

close_credit-step_example : close_credit closed_idle.0 ≤ close_credit idle
close_credit-step_example =
    close_credit-step sample_kernel passive passive-IsReserved closes idle closed_idle.0 (λ z. cc)
      idle-IsSound.input closed_idle.1

closed_Run : Run sample_kernel passive idle closed_idle.0
closed_Run = next closes start (λ z. cc) tt closed_idle.1

Run-close_once_example : close_credit closed_idle.0 ≤ close_credit idle
Run-close_once_example =
    Run-close_once sample_kernel passive passive-IsPolite passive-IsReserved idle-IsSound closed_Run
