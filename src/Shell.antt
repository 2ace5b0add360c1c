-- ===== src/Shell.antt =====
-- processes/task3.c and pipes/task3.c: shells that read a line, cut it into words with `strtok`
-- and run it in a child process; the second runs two commands with a pipe between them. The
-- `while (1)` loops take a bound on their rounds. A line's bytes are those that `fgets` stored.
pub mod Tokens
pub mod Commands
pub mod Ends
pub mod Arguments
pub mod EndOfInput
pub mod Typing
pub mod RoundTrip
mod Tests
use hw.Prelude.{
  ℕ, zero, suc, ◌-◌, Bool, true, false, List, [], ◌∷◌, ◌++◌, Option, none, some, ◌==◌, take, length,
}
use hw.Stdio.{codes, c_string, same_string}
use hw.Unix.Calls.{
  Fd, Forked, Call, Io, pure, exit, fault, cut_off, ◌>>=◌, ◌>>◌, perform, from_option, fail,
}

abbrev pub max_args : ℕ
max_args = 10

abbrev pub max_line : ℕ
max_line = 1024

abbrev pub space : ℕ
space = 32

abbrev pub bar : ℕ
bar = b'|'

-- `strtok` with one delimiter: the string without the delimiters in front of it, the token up to
-- the next one, and what stands behind that.
unfoldable pub skip : ℕ → List ℕ → List ℕ
skip d [] = []
skip d (c ∷ s) = elim (c == d) [ true ↦ skip d s | false ↦ c ∷ s ]

unfoldable pub token : ℕ → List ℕ → List ℕ
token d [] = []
token d (c ∷ s) = elim (c == d) [ true ↦ [] | false ↦ c ∷ token d s ]

unfoldable pub behind : ℕ → List ℕ → List ℕ
behind d [] = []
behind d (c ∷ s) = elim (c == d) [ true ↦ s | false ↦ behind d s ]

-- A call: the token, if there is one, and the string where the next call with NULL goes on.
unfoldable pub strtok : ℕ → List ℕ → Option (List ℕ) × List ℕ
unfolding skip token behind
strtok d s = elim (skip d s) [
  | [] ↦ (none, [])
  | c ∷ t ↦ (some (token d (c ∷ t)), behind d (c ∷ t))
]

-- The string in the array after the first call: its delimiters in front stay, and the first one
-- behind the token is a NUL now.
unfoldable pub cut : ℕ → List ℕ → List ℕ
unfolding token
cut d [] = []
cut d (c ∷ s) = elim (c == d) [ true ↦ c ∷ cut d s | false ↦ token d (c ∷ s) ]

-- `line[strlen(line) - 1] = '\0'`: `none` for an empty string, where it stores before the array.
unfoldable pub chop : List ℕ → Option (List ℕ)
chop [] = none
chop (c ∷ s) = some (take (length s) (c ∷ s))

-- An array of arguments: NULL is `none`.
abbrev pub Args : Type 0
Args = List (Option (List ℕ))

-- The loop that stores tokens until one is NULL, in an array with so much room left: `none` where
-- it leaves the array.
unfoldable pub store_args : ℕ → List ℕ → Option Args
unfolding strtok
store_args zero s = none
store_args (suc room) s =
    let (t, rest) = strtok space s in
    elim t [
      | none ↦ some (none ∷ [])
      | some w ↦ (elim (store_args room rest) [ none ↦ none | some args ↦ some (some w ∷ args) ])
    ]

-- The loop with the test `i < MAX_ARGS - 1`, and the NULL stored behind it: the last place is
-- NULL whatever was stored there.
unfoldable pub store_bounded : ℕ → List ℕ → Args
unfolding strtok
store_bounded zero s = none ∷ []
store_bounded (suc room) s =
    let (t, rest) = strtok space s in
    elim t [ none ↦ none ∷ [] | some w ↦ some w ∷ store_bounded room rest ]

abbrev pub first : Args → Option (List ℕ)
first [] = none
first (a ∷ args) = a

-- `execvp(args[0], args); perror("execvp"); exit(EXIT_FAILURE);`. A NULL program is undefined.
unfoldable pub exec_or_fail : Option (List ℕ) → Args → Io ℕ
exec_or_fail program args = do
  cmd ← from_option program
  perform (Call.exec cmd args)
  fail "execvp"

-- Two commands: what follows the second `fork`, the first, and the whole branch. `next` is the rest
-- of the loop. A failed `fork` goes on as the parent does.
unfoldable pub after_right : ℕ → ℕ → Args → Io ℕ → Forked → Io ℕ
unfolding exec_or_fail
after_right from to args2 next Forked.child = do
  perform (Call.close (some to))
  perform (Call.dup2 (some from) 0)
  perform (Call.close (some from))
  exec_or_fail (first args2) args2
after_right from to args2 next _ = do
  perform (Call.close (some from))
  perform (Call.close (some to))
  perform Call.wait
  perform Call.wait
  next

unfoldable pub after_left : ℕ → ℕ → Args → Args → Io ℕ → Forked → Io ℕ
unfolding exec_or_fail after_right
after_left from to args1 args2 next Forked.child = do
  perform (Call.close (some from))
  perform (Call.dup2 (some to) 1)
  perform (Call.close (some to))
  exec_or_fail (first args1) args1
after_left from to args1 args2 next _ = do
  right ← perform Call.fork
  after_right from to args2 next right

unfoldable pub after_pipe : Args → Args → Io ℕ → Option (ℕ × ℕ) → Io ℕ
unfolding after_left
after_pipe args1 args2 next none = fail "pipe"
after_pipe args1 args2 next (some (from, to)) = do
  left ← perform Call.fork
  after_left from to args1 args2 next left

unfoldable pub run_piped : List ℕ → List ℕ → Io ℕ → Io ℕ
unfolding store_bounded after_pipe
run_piped cmd1 cmd2 next = do
  let args1 = store_bounded (max_args - 1) cmd1
  let args2 = store_bounded (max_args - 1) cmd2
  made ← perform Call.pipe
  after_pipe args1 args2 next made

-- One command. A NULL command, of an empty line, is compared all the same.
unfoldable pub after_fork : List ℕ → Args → Io ℕ → Forked → Io ℕ
unfolding exec_or_fail
after_fork cmd args next Forked.child = exec_or_fail (some cmd) args
after_fork cmd args next _ = do perform Call.wait; next

unfoldable pub run_single : List ℕ → Io ℕ → Io ℕ
unfolding store_args after_fork strtok
run_single line next = do
  args ← from_option (store_args max_args line)
  cmd ← from_option (strtok space line).0
  elim (same_string cmd (codes "exit")) [
    | true ↦ exit 0
    | false ↦ (do pid ← perform Call.fork; after_fork cmd args next pid)
  ]

-- pipes/task3.c: what one line does.
unfoldable pub run_line : List ℕ → Io ℕ → Io ℕ
unfolding run_piped run_single strtok cut
run_line line next =
    let (cmd1, rest) = strtok bar line in
    let (cmd2, _) = strtok bar rest in
    elim cmd2 [
      | none ↦ run_single (cut bar line) next
      | some right ↦ from_option cmd1 >>= λ left. run_piped left right next
    ]

-- What follows `fgets`: at the end of the input the loop ends.
unfoldable pub after_line : Option (List ℕ) → Io ℕ → Io ℕ
unfolding chop run_line
after_line none next = pure 0
after_line (some bytes) next = do line ← from_option (chop (c_string bytes)); run_line line next

unfoldable pub pipe_shell : ℕ → Io ℕ
unfolding after_line
pipe_shell zero = cut_off
pipe_shell (suc rounds) = do
  perform (Call.say "mybash> " [])
  came ← perform (Call.get_line max_line)
  after_line came (pipe_shell rounds)

-- processes/task3.c: the array of the line keeps its content where `fgets` stores nothing, and
-- `none` is an array never stored to. A child whose `execvp` fails goes on with the loop.
unfoldable pub after_simple : List ℕ → Args → Io ℕ → Forked → Io ℕ
after_simple cmd args next Forked.child = do perform (Call.exec cmd args); next
after_simple cmd args next _ = do perform Call.wait; next

unfoldable pub simple_line : List ℕ → Io ℕ → Io ℕ
unfolding strtok store_args after_simple
simple_line line next = do
  args ← from_option (store_args max_args (strtok space line).1)
  cmd ← from_option (strtok space line).0
  elim (same_string cmd (codes "exit")) [
    | true ↦ exit 0
    | false ↦ (do pid ← perform Call.fork; after_simple cmd args next pid)
  ]

-- The string in the array behind `fgets`.
abbrev pub in_array : Option (List ℕ) → Option (List ℕ) → Option (List ℕ)
in_array held none = held
in_array held (some bytes) = some (c_string bytes)

unfoldable pub simple_shell : ℕ → Option (List ℕ) → Io ℕ
unfolding chop cut simple_line
simple_shell zero held = cut_off
simple_shell (suc rounds) held = do
  perform (Call.say "mybash> " [])
  came ← perform (Call.get_line max_line)
  text ← from_option (in_array held came)
  line ← from_option (chop text)
  simple_line line (simple_shell rounds (some (cut space line)))
