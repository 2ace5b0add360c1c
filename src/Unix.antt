-- ===== src/Unix.antt =====
-- Programs that call the operating system: a program is a tree of the calls that it makes, with a
-- branch for each answer. What the system does is not modelled: an answer is any value of its
-- type, or comes from a `Kernel`, an argument of `run`.
pub mod Calls
pub mod Buffers
pub mod Runs
pub mod Always
pub mod Sample
pub mod Joint
pub mod Fair
use Prim.Native.String.{String}
use hw.Prelude.{ℕ, List, Option, none, some, length, take}
use hw.Unix.Calls.{Fd, Call, Io, pure, ◌>>=◌, perform, from_option}
use hw.Unix.Buffers.{Chars, fill, c_text}

-- `printf(format, b)` for an array: what %s prints is the C string there.
abbrev pub show : String → Chars → Io (Unit {0})
show format b = do t ← from_option (c_text b); perform (Call.say format t)

-- `read(fd, b, size)`: at most `size` of the bytes that come are stored. With it the count, `none`
-- for -1.
unfoldable pub read_into : Fd → Chars → ℕ → Io (Chars × Option ℕ)
read_into fd b size = do
  came ← perform (Call.read fd size)
  elim came [
    | none ↦ pure (b, none)
    | some bytes ↦ pure (fill b (take size bytes), some (length (take size bytes)))
  ]

-- `recvfrom(fd, b, size, …)`, with the address of the sender, `none` where that was not stored.
unfoldable pub recv_into : Fd → Chars → ℕ → Io (Chars × Option ℕ × Option ℕ)
recv_into fd b size = do
  came ← perform (Call.recvfrom fd size)
  elim came [
    | none ↦ pure (b, none, none)
    | some (bytes, from) ↦
        pure (fill b (take size bytes), some (length (take size bytes)), some from)
  ]
