-- ===== src/Unix/Calls.antt =====
-- The calls, their answers, and programs made of them.
use Prim.Native.String.{String}
use hw.Prelude.{ℕ, Bool, true, false, List, Option, none, some}

-- A descriptor: `none` is -1.
abbrev pub Fd : Type 0
Fd = Option ℕ

pub data Family : Type 0 where
  inet local packet : Family

pub data Kind : Type 0 where
  stream dgram raw : Kind

-- The addresses that the programs name; `peer` is one that the system stored in a variable.
pub data Address : Type 0 where
  any_port : ℕ → Address
  ip_port : String → ℕ → Address
  path : String → Address
  peer : ℕ → Address

pub data Forked : Type 0 where
  failed : Forked
  child : Forked
  parent : ℕ → Forked

-- What the programs call. A message of a queue goes with its type, and is received by its type.
-- Shared memory may change at any time, so that what it holds at each access is an answer. `say` is printf with a format of one %s or none and its argument.
pub data Call : Type 0 where
  socket : Family → Kind → Call
  set_option : Fd → String → Call
  bind : Fd → Address → Call
  listen : Fd → ℕ → Call
  accept : Fd → Call
  inet_pton : String → Call
  connect : Fd → Address → Call
  read : Fd → ℕ → Call
  write : Fd → List ℕ → Call
  recvfrom : Fd → ℕ → Call
  sendto : Fd → List ℕ → Address → Call
  close : Fd → Call
  unlink : String → Call
  select : Fd → Fd → Call
  thread : Fd → Call
  fork : Call
  exec : List ℕ → List (Option (List ℕ)) → Call
  wait : Call
  wait_for : ℕ → Call
  open_file : String → Call
  mkfifo : String → Call
  queue_open : String → Call
  queue_send : ℕ → List (Option ℕ) → Call
  queue_receive : ℕ → Call
  queue_close : Call
  queue_remove : Call
  memory_attach : String → Call
  memory_peek : Call
  memory_poke : List ℕ → Call
  memory_detach : Call
  memory_remove : Call
  pipe : Call
  dup2 : Fd → ℕ → Call
  get_line : ℕ → Call
  say : String → List ℕ → Call
  say_address : String → Address → Call
  perror : String → Call
  sleep : ℕ → Call
  sigaction : String → Call
  sigprocmask : String → Call
  sigwait : Call

-- What each answers; `none` and `false` are failure. `read` and `recvfrom` give the bytes that
-- came, `recvfrom` and `accept` the address of the other side too; `select` says which of its two
-- sockets is ready; `get_line` is `fgets` on the standard input, `none` at its end. `exec` answers
-- only when it fails. `wait_for` gives the status of a child that exited, `none` of one that did not.
abbrev pub Answer : Call → Type 0
Answer (socket f k) = Fd
Answer (set_option fd o) = Bool
Answer (bind fd a) = Bool
Answer (listen fd n) = Bool
Answer (accept fd) = Option (ℕ × ℕ)
Answer (inet_pton s) = Bool
Answer (connect fd a) = Bool
Answer (read fd n) = Option (List ℕ)
Answer (write fd bytes) = Bool
Answer (recvfrom fd n) = Option (List ℕ × ℕ)
Answer (sendto fd bytes a) = Bool
Answer (close fd) = Unit {0}
Answer (unlink p) = Unit {0}
Answer (select a b) = Option (Bool × Bool)
Answer (thread fd) = Bool
Answer fork = Forked
Answer (exec f args) = Unit {0}
Answer wait = Unit {0}
Answer (wait_for pid) = Option ℕ
Answer (open_file p) = Fd
Answer (mkfifo p) = Bool
Answer (queue_open q) = Bool
Answer (queue_send t m) = Bool
Answer (queue_receive t) = Option (List (Option ℕ))
Answer queue_close = Unit {0}
Answer queue_remove = Bool
Answer (memory_attach p) = Bool
Answer memory_peek = List (Option ℕ)
Answer (memory_poke s) = Unit {0}
Answer memory_detach = Unit {0}
Answer memory_remove = Unit {0}
Answer pipe = Option (ℕ × ℕ)
Answer (dup2 fd n) = Unit {0}
Answer (get_line n) = Option (List ℕ)
Answer (say f s) = Unit {0}
Answer (say_address f a) = Unit {0}
Answer (perror s) = Unit {0}
Answer (sleep n) = Unit {0}
Answer (sigaction s) = Bool
Answer (sigprocmask s) = Bool
Answer sigwait = Bool

-- A program: it returns a value, exits with a status, does something that the language leaves
-- undefined, is cut off in a loop that has used up the rounds it was given, or makes a call.
pub data Io (A : Type 0) : Type 0 where
  pure : A → Io A
  exit : ℕ → Io A
  fault : Io A
  cut_off : Io A
  call : (c : Call) → (Answer c → Io A) → Io A

infixl 5 ◌>>=◌ ◌>>◌
abbrev pub ◌>>=◌ : {A B : Type 0} → Io A → (A → Io B) → Io B
pure a >>= f = f a
exit n >>= f = exit n
fault >>= f = fault
cut_off >>= f = cut_off
call c k >>= f = call c (λ a. k a >>= f)

abbrev pub ◌>>◌ : {A B : Type 0} → Io A → Io B → Io B
m >> k = m >>= λ _. k

abbrev pub perform : (c : Call) → Io (Answer c)
perform c = call c (λ a. pure a)

abbrev pub from_option : {A : Type 0} → Option A → Io A
from_option none = fault
from_option (some a) = pure a

-- `perror(message); exit(EXIT_FAILURE);`, and its guarded form.
abbrev pub fail : {A : Type 0} → String → Io A
fail message = call (perror message) (λ _. exit 1)

abbrev pub require : Bool → String → Io (Unit {0})
require true message = pure tt
require false message = fail message

-- The same with the descriptor closed in between.
abbrev pub require_or_close : Bool → String → Fd → Io (Unit {0})
require_or_close true message fd = pure tt
require_or_close false message fd = call (perror message) (λ _. call (close fd) (λ _. exit 1))

-- `fd >= 0`
abbrev pub is_open : Fd → Bool
is_open none = false
is_open (some n) = true
