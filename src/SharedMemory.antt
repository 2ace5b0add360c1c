-- ===== src/SharedMemory.antt =====
-- shm: a server writes into shared memory and polls it until something else stands there, a client
-- reads it and writes its answer; shm/posix by a name, shm/system v by a key, which is a name here.
-- Each access reads what the memory holds then. The result of the attachment is not looked at, and
-- an access without it is undefined. The polling takes a bound on its rounds.
pub mod Polling
mod Tests
use Prim.Native.String.{String}
use hw.Prelude.{ℕ, zero, suc, Bool, true, false, List, [], ◌∷◌, ◌++◌, some, none}
use hw.Stdio.{codes, same_string}
use hw.Unix.Calls.{Call, Io, pure, fault, cut_off, ◌>>=◌, ◌>>◌, perform, from_option}
use hw.Unix.Buffers.{c_text}

abbrev pub attach : String → Io (Unit {0})
attach name = do
  attached ← perform (Call.memory_attach name)
  elim attached [ true ↦ pure tt | false ↦ fault ]

-- The string in the memory, as an access finds it.
abbrev pub read_text : Io (List ℕ)
read_text = do memory ← perform Call.memory_peek; from_option (c_text memory)

-- `while (strcmp(ptr, "Hi!") == 0);`
unfoldable pub poll : ℕ → Io (Unit {0})
poll zero = cut_off
poll (suc rounds) = do
  text ← read_text
  elim (same_string text (codes "Hi!")) [ true ↦ poll rounds | false ↦ pure tt ]

unfoldable pub posix_server : ℕ → Io ℕ
unfolding poll
posix_server rounds = do
  attach "/my_shm"
  perform (Call.memory_poke (codes "Hi!" ++ 0 ∷ []))
  perform (Call.say "Waiting for client...\n" [])
  poll rounds
  text ← read_text
  perform (Call.say "Received from client: %s\n" text)
  perform Call.memory_remove
  pure 0

unfoldable pub system_v_server : ℕ → Io ℕ
unfolding poll
system_v_server rounds = do
  attach "my_shm"
  perform (Call.memory_poke (codes "Hi!" ++ 0 ∷ []))
  perform (Call.say "Waiting for client...\n" [])
  poll rounds
  text ← read_text
  perform (Call.say "Received from client: %s\n" text)
  perform Call.memory_detach
  perform Call.memory_remove
  pure 0

unfoldable pub posix_client : Io ℕ
posix_client = do
  attach "/my_shm"
  text ← read_text
  perform (Call.say "Received from server: %s\n" text)
  perform (Call.memory_poke (codes "Hello!" ++ 0 ∷ []))
  pure 0

unfoldable pub system_v_client : Io ℕ
system_v_client = do
  attach "my_shm"
  text ← read_text
  perform (Call.say "Received from server: %s\n" text)
  perform (Call.memory_poke (codes "Hello!" ++ 0 ∷ []))
  perform Call.memory_detach
  pure 0
