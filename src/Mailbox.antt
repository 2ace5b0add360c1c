-- ===== src/Mailbox.antt =====
-- mq: a server and a client that exchange two messages through a queue, in mq/posix by its name and
-- in mq/system v with a type for each direction. A message is the whole array of 1024 bytes. The
-- key of the System V queue, by `ftok`, is its name here.
pub mod Texts
pub mod Queue
pub mod Interleaved
pub mod TakenBack
pub mod Posix
pub mod Progress
pub mod ServerTurns
pub mod ClientTurns
pub mod Orders
mod Tests
use Prim.Native.String.{String}
use hw.Prelude.{ℕ, List, [], ◌∷◌, ◌++◌, Option, none, some, drop, length}
use hw.Stdio.{codes}
use hw.Unix.{show}
use hw.Unix.Calls.{Call, Io, pure, ◌>>=◌, ◌>>◌, perform, from_option, fail, require}
use hw.Unix.Buffers.{Chars, unset, strcpy}

-- A message received into an array.
abbrev pub into : Chars → Chars → Chars
into message buffer = message ++ drop (length message) buffer

abbrev pub receive : ℕ → Chars → String → Io Chars
receive type buffer failure = do
  came ← perform (Call.queue_receive type)
  elim came [ none ↦ fail failure | some message ↦ pure (into message buffer) ]

unfoldable pub posix_server : Io ℕ
posix_server = do
  created ← perform (Call.queue_open "/my_queue")
  require created "Server: mq_open"
  buffer ← from_option (strcpy (unset 1024) (codes "Hi!"))
  sent ← perform (Call.queue_send 0 buffer)
  require sent "Server: Not able to send message"
  show "Server: Sent message: %s\n" buffer
  perform (Call.sleep 5)
  perform Call.queue_close
  opened ← perform (Call.queue_open "/my_queue")
  require opened "Server: mq_open for reading"
  answer ← receive 0 buffer "Server: mq_receive"
  show "Server: Received message: %s\n" answer
  perform Call.queue_close
  perform Call.queue_remove
  pure 0

unfoldable pub posix_client : Io ℕ
posix_client = do
  opened ← perform (Call.queue_open "/my_queue")
  require opened "Client: mq_open"
  buffer ← receive 0 (unset 1024) "Client: mq_receive"
  show "Client: Received message: %s\n" buffer
  perform Call.queue_close
  again ← perform (Call.queue_open "/my_queue")
  require again "Client: mq_open for sending"
  answer ← from_option (strcpy buffer (codes "Hello!"))
  sent ← perform (Call.queue_send 0 answer)
  require sent "Client: mq_send"
  show "Client: Sent message: %s\n" answer
  perform Call.queue_close
  pure 0

unfoldable pub system_v_server : Io ℕ
system_v_server = do
  opened ← perform (Call.queue_open "server")
  require opened "Server: msgget"
  text ← from_option (strcpy (unset 1024) (codes "Hi!"))
  sent ← perform (Call.queue_send 1 text)
  require sent "Server: msgsnd"
  show "Server: Sent message: %s\n" text
  answer ← receive 2 text "Server: msgrcv"
  show "Server: Received message: %s\n" answer
  removed ← perform Call.queue_remove
  require removed "Server: msgctl"
  pure 0

unfoldable pub system_v_client : Io ℕ
system_v_client = do
  opened ← perform (Call.queue_open "server")
  require opened "Client: msgget"
  text ← receive 1 (unset 1024) "Client: msgrcv"
  show "Client: Received message: %s\n" text
  answer ← from_option (strcpy text (codes "Hello!"))
  sent ← perform (Call.queue_send 2 answer)
  require sent "Client: msgsnd"
  show "Client: Sent message: %s\n" answer
  pure 0
