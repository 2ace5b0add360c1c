-- ===== src/Processes/Messages.antt =====
-- The message of the programs with a pipe or a FIFO.
use hw.Prelude.{ℕ, ◌≡◌, refl, List, [], ◌∷◌, some, arith}
use hw.Stdio.{codes}
use hw.Unix.Calls.{Fd, Forked, Call}
use hw.Unix.Buffers.{unset, fill, c_text, c_text-fill}
use hw.Unix.Runs.{Kernel, returned, exited, run, sent, outcome}
use hw.Unix.{read_into}
use hw.Processes.{message, pipe_pair, pipe_started, fifo_server, fifo_client}

held : c_text (fill (unset 1024) message) ≡ some (codes "Hi!")
held = c_text-fill (unset 1024) (codes "Hi!") [] (omega arith)

-- Where the pipe is made and the child's read brings what the parent wrote, the parent writes one
-- message and returns 0, and the child prints its text and exits with 0, whatever the calls
-- besides answer.
pub pipe_pair_passes :
    (kp kc : Kernel) {from to pid : ℕ} {bytes : List ℕ}
    → kp 0 Call.pipe ≡ some (from, to)
    → kp 1 Call.fork ≡ Forked.parent pid
    → kc 0 Call.pipe ≡ some (from, to)
    → kc 1 Call.fork ≡ Forked.child
    → kc 3 (Call.read (some from) 1024) ≡ some bytes
    → sent (run kp 0 pipe_pair).1 ≡ bytes ∷ []
    → (outcome (run kp 0 pipe_pair) ≡ (returned 0, message ∷ [], []))
      × (outcome (run kc 0 pipe_pair) ≡ (exited 0, [], codes "Hi!" ∷ []))
unfolding run pipe_pair pipe_started read_into
pipe_pair_passes kp kc {bytes} made parent same child came wrote =
    let written : sent (run kp 0 pipe_pair).1 ≡ message ∷ [] = rw (run, made, parent) refl in
    let bytes-message : bytes ≡ message = cc (wrote, written) in
    (rw (run, made, parent) refl, rw (run, same, child, came, bytes-message, held) refl)

-- The server of the FIFO sends its message whatever its calls answer, and a client whose read
-- brings it prints its text and returns 0.
pub fifo_passes :
    (ks kc : Kernel) {fd : Fd} {bytes : List ℕ}
    → kc 0 (Call.open_file "/tmp/myfifo") ≡ fd
    → kc 1 (Call.read fd 1024) ≡ some bytes
    → sent (run ks 0 fifo_server).1 ≡ bytes ∷ []
    → (outcome (run ks 0 fifo_server) ≡ (returned 0, message ∷ [], []))
      × (outcome (run kc 0 fifo_client) ≡ (returned 0, [], codes "Hi!" ∷ []))
unfolding run fifo_server fifo_client read_into
fifo_passes ks kc {fd} {bytes} opened came wrote =
    let bytes-message : bytes ≡ message = cc wrote in
    (refl, rw (run, opened, came, bytes-message, held) refl)
