-- ===== src/Signals.antt =====
-- signal/task1.c to task3.c: a handler for SIGUSR1, SIGINT blocked, and SIGUSR1 blocked and waited
-- for. The signal sets and the structure that are filled before a call go with the call as the
-- signal's name. The `while (1)` loops take a bound on their rounds.
pub mod Notices
mod Tests
use hw.Prelude.{ℕ, zero, suc, Bool, true, false, List, [], ◌∷◌}
use hw.Unix.Calls.{Call, Io, pure, cut_off, ◌>>=◌, ◌>>◌, perform, require}

-- signal/task1.c. The system runs the handler while the program sleeps: `arrivals` says in which
-- rounds a signal comes.
abbrev pub handle_sigusr1 : Io (Unit {0})
handle_sigusr1 = perform (Call.say "Got SIGUSR1\n" [])

unfoldable pub sleep_loop : List Bool → Io ℕ
sleep_loop [] = cut_off
sleep_loop (came ∷ arrivals) = do
  perform (Call.sleep 1)
  elim came [ true ↦ handle_sigusr1 | false ↦ pure tt ]
  sleep_loop arrivals

unfoldable pub handling : List Bool → Io ℕ
unfolding sleep_loop
handling arrivals = do
  ok ← perform (Call.sigaction "SIGUSR1")
  require ok "sigaction failed"
  sleep_loop arrivals

-- signal/task2.c
unfoldable pub idle : ℕ → Io ℕ
idle zero = cut_off
idle (suc rounds) = do perform (Call.sleep 1); idle rounds

unfoldable pub blocking : ℕ → Io ℕ
unfolding idle
blocking rounds = do
  ok ← perform (Call.sigprocmask "SIGINT")
  require ok "sigprocmask failed"
  perform (Call.say "SIGINT blocked.\n" [])
  idle rounds

-- signal/task3.c
unfoldable pub wait_loop : ℕ → Io ℕ
wait_loop zero = cut_off
wait_loop (suc rounds) = do
  got ← perform Call.sigwait
  elim got [
    | true ↦ perform (Call.say "Got SIGUSR1\n" [])
    | false ↦ perform (Call.perror "error while waiting for signal")
  ]
  wait_loop rounds

unfoldable pub waiting : ℕ → Io ℕ
unfolding wait_loop
waiting rounds = do
  ok ← perform (Call.sigprocmask "SIGUSR1")
  require ok "sigprocmask failed"
  perform (Call.say "SIGUSR1 blocked\n" [])
  wait_loop rounds
