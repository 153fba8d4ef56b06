-- ===== src/Logging/Logger.antt =====
-- logger.cpp. An ERROR of the logger itself is logged by the same logger, so that the functions are
-- recursive, on fuel.
use pqnet.Common.{ℕ, zero, suc, Bool, true, false, not, ◌&&◌, [], ltb, ◌==◌, if◌then◌else◌}
use pqnet.Kernel.{Level, debug, info, warn, error, fatal}
use pqnet.Logging.Files.{
  Target, to_file, console, out, Result, ok, spent, ◌>>=◌, Files, Sink, fclose, fopen, fprintf,
}

-- The order of `LogLevel`.
abbrev pub rank : Level → ℕ
rank debug = 0
rank info = 1
rank warn = 2
rank error = 3
rank fatal = 4

abbrev pub is_file : Target → Bool
is_file to_file = true
is_file console = false

-- The constructor, where the directory is there or can be made.
unfoldable pub new : ℕ → Sink
new date = record { level = info; target = console; currdate = date; lf = out; trail = [] }

unfoldable pub set_log_level : Level → Sink → Sink
set_log_level l g = record g { level = l }

-- The handle of the text of an ERROR about the stream.
abbrev pub strerror : ℕ
strerror = 0

-- fclose(3), and an ERROR where it fails; `report` is the call of `log`.
unfoldable pub close_file : (Sink → Result Sink) → Files → Sink → Result Sink
close_file report f g = do (closed, g1) ← fclose f g g.lf; if closed then ok g1 else report g1

unfoldable pub check_date : (Sink → Result Sink) → Files → ℕ → Sink → Result Sink
check_date report f date g =
    let opened =
      close_file report f g >>= λ g1. ok (fopen f (record g1 { currdate = date }) date) in
    if is_file g.target && not (g.currdate == date) then opened else ok g

unfoldable pub log : ℕ → Files → Level → ℕ → Sink → Result Sink
log zero f l msg g = spent
log (suc fuel) f l msg g =
    let date = f.today g.trail in
    let printed =
      check_date (log fuel f error strerror) f date g >>= λ g1. fprintf l msg g1.lf g1 in
    if ltb (rank l) (rank g.level) then ok g else printed

abbrev pub to_console : Sink → Sink
to_console g = record g { lf = out; target = console }

unfoldable pub set_target : ℕ → Files → Target → Sink → Result Sink
set_target fuel f to_file g =
    if is_file g.target then ok g else ok (record (fopen f g g.currdate) { target = to_file })
set_target fuel f console g =
    let closed = close_file (log fuel f error strerror) f g >>= λ g1. ok (to_console g1) in
    if is_file g.target then closed else ok g
