-- ===== src/Processes.antt =====
-- processes/task1.c and task2.c, which start children and wait for them, and pipes/task1.c, task2server.c
-- and task2client.c, which pass one message. A process's own number and its parent's, which the
-- programs print, are left out.
pub mod Children
pub mod Messages
mod Tests
use hw.Prelude.{ℕ, List, [], ◌∷◌, ◌++◌, Option, none, some}
use hw.Stdio.{codes}
use hw.Unix.{show, read_into}
use hw.Unix.Calls.{Fd, Forked, Call, Io, pure, exit, ◌>>=◌, ◌>>◌, perform, fail}
use hw.Unix.Buffers.{Chars, unset}

-- processes/task1.c
abbrev pub report_exit : Option ℕ → Io (Unit {0})
report_exit none = perform (Call.say "Child did not exit successfully\n" [])
report_exit (some status) = perform (Call.say "Child exited with status = %d\n" (status ∷ []))

unfoldable pub one_child_after : Forked → Io ℕ
one_child_after Forked.failed = fail "fork failed"
one_child_after Forked.child = do
  perform (Call.say "Child Process: PID = %d, PPID = %d\n" [])
  exit 0
one_child_after (Forked.parent pid) = do
  perform (Call.say "Parent Process: PID = %d, Child PID = %d\n" (pid ∷ []))
  status ← perform (Call.wait_for pid)
  report_exit status
  pure 0

unfoldable pub one_child : Io ℕ
unfolding one_child_after
one_child = do pid ← perform Call.fork; one_child_after pid

-- processes/task2.c
abbrev pub report_child : ℕ → Option ℕ → Io (Unit {0})
report_child pid none = perform (Call.say "Child PID = %d did not exit successfully\n" (pid ∷ []))
report_child pid (some status) =
    perform (Call.say "Child PID = %d exited with status = %d\n" (pid ∷ status ∷ []))

unfoldable pub created : Forked → Io (Unit {0})
created Forked.failed = fail "fork failed"
created Forked.child = do perform (Call.say "Child Process: PID = %d, PPID = %d\n" []); exit 0
created (Forked.parent pid) = do status ← perform (Call.wait_for pid); report_child pid status

unfoldable pub create_child_process : Io (Unit {0})
unfolding created
create_child_process = do pid ← perform Call.fork; created pid

-- `main` behind its second `fork` and behind its first.
unfoldable pub second_started : ℕ → Forked → Io ℕ
unfolding create_child_process
second_started pid1 Forked.failed = fail "fork failed"
second_started pid1 Forked.child = do
  perform (Call.say "Process2: PID = %d, PPID = %d\n" [])
  create_child_process
  exit 0
second_started pid1 (Forked.parent pid2) = do
  perform (Call.wait_for pid1)
  perform (Call.wait_for pid2)
  perform (Call.say "Parent Process: PID = %d\n" [])
  pure 0

unfoldable pub first_started : Forked → Io ℕ
unfolding create_child_process second_started
first_started Forked.failed = fail "fork failed"
first_started Forked.child = do
  perform (Call.say "Process1: PID = %d, PPID = %d\n" [])
  create_child_process
  create_child_process
  exit 0
first_started (Forked.parent pid1) = do pid2 ← perform Call.fork; second_started pid1 pid2

unfoldable pub five_children : Io ℕ
unfolding first_started
five_children = do pid1 ← perform Call.fork; first_started pid1

abbrev pub message : List ℕ
message = codes "Hi!" ++ 0 ∷ []

-- pipes/task1.c
unfoldable pub pipe_started : ℕ → ℕ → Forked → Io ℕ
unfolding read_into
pipe_started from to Forked.failed = fail "fork"
pipe_started from to Forked.child = do
  perform (Call.close (some to))
  (buf, n) ← read_into (some from) (unset 1024) 1024
  show "Child received: %s\n" buf
  perform (Call.close (some from))
  exit 0
pipe_started from to (Forked.parent pid) = do
  perform (Call.close (some from))
  perform (Call.write (some to) message)
  perform (Call.close (some to))
  perform Call.wait
  pure 0

unfoldable pub pipe_pair : Io ℕ
unfolding pipe_started
pipe_pair = do
  made ← perform Call.pipe
  elim made [
    | none ↦ fail "pipe"
    | some (from, to) ↦ (do pid ← perform Call.fork; pipe_started from to pid)
  ]

-- pipes/task2server.c and task2client.c: neither looks at the results of its calls.
unfoldable pub fifo_server : Io ℕ
fifo_server = do
  perform (Call.mkfifo "/tmp/myfifo")
  fd ← perform (Call.open_file "/tmp/myfifo")
  perform (Call.write fd message)
  perform (Call.close fd)
  pure 0

unfoldable pub fifo_client : Io ℕ
unfolding read_into
fifo_client = do
  fd ← perform (Call.open_file "/tmp/myfifo")
  (buf, n) ← read_into fd (unset 1024) 1024
  show "Client received: %s\n" buf
  perform (Call.close fd)
  perform (Call.unlink "/tmp/myfifo")
  pure 0
