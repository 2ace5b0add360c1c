-- ===== src/Shell/Tests.antt =====
-- The shells at concrete lines.
use hw.Prelude.{ℕ, ◌==◌, ◌≡◌, refl, arith, ltb, if◌then◌else◌, length, List, [], ◌∷◌, none, some}
use hw.Stdio.{codes, same_string}
use hw.Unix.Calls.{Forked, Call, Answer}
use hw.Unix.Runs.{Kernel, exited, run}
use hw.Unix.Sample.{delivering}
use hw.Unix.Always.{AllCalls, ends_open}
use hw.Shell.Tokens.{words, arguments, store_args-words}
use hw.Shell.Commands.{effects}
use hw.Shell.Typing.{typed}
use hw.Shell.RoundTrip.{pipe_shell-typed, pipe_shell-typed_pair}
use hw.Shell.Ends.{ends_open-pipe_shell}
use hw.Shell.Arguments.{IsCommand, pipe_shell-IsCommand}
use hw.Shell.EndOfInput.{Stops, simple_shell-Stops}
use hw.Shell.{skip, token, behind, cut, strtok, store_args, space, pipe_shell, simple_shell}

words_of :
    store_args 4 (codes " ls  -l ") ≡ some (some (codes "ls") ∷ some (codes "-l") ∷ none ∷ [])
unfolding store_args strtok skip token behind
words_of = refl

full : store_args 2 (codes "a b") ≡ none
unfolding store_args strtok skip token behind
full = refl

bars : cut space (codes "  ls -l") ≡ codes "  ls"
unfolding cut token
bars = refl

store_args-words_example : store_args 4 (codes " ls  -l ") ≡ (
    if ltb (length (words space (codes " ls  -l "))) 4
    then some (arguments (words space (codes " ls  -l ")))
    else none)
store_args-words_example = store_args-words 4 (codes " ls  -l ")

-- Every line is `bytes`, and `fork` answers `pid` at the call `at`.
abbrev typing : List ℕ → (ℕ → Forked) → Kernel
typing bytes pid n c = elim c as (λ d. Answer d) [
  | Call.fork ↦ pid n
  | other ↦ delivering bytes n other
]

abbrev as_child : ℕ → Forked
as_child n = Forked.child

-- A line of ten words.
abbrev ten : List ℕ
ten = codes "a b c d e f g h i j\n"

-- The first `fork` answers as in the parent, the second as in the child.
abbrev second_child : ℕ → Forked
second_child n = if n == 3 then Forked.parent 7 else Forked.child

abbrev piped : List ℕ
piped = codes "ls | wc -l\n"

ends_open-pipe_shell_example :
    ends_open [] (run (typing piped second_child) 0 (pipe_shell 2)).1 ≡ some []
ends_open-pipe_shell_example = ends_open-pipe_shell (typing piped second_child) 2

pipe_shell-IsCommand_example :
    AllCalls IsCommand (run (typing piped second_child) 0 (pipe_shell 2)).1
pipe_shell-IsCommand_example = pipe_shell-IsCommand (typing piped second_child) 2

-- No line is typed any more.
abbrev silent : Kernel
silent n c = elim c as (λ d. Answer d) [ Call.get_line m ↦ none | other ↦ delivering [] n other ]

simple_shell-Stops_example : Stops (run silent 0 (simple_shell 4 (some (codes "ls\n")))).0
simple_shell-Stops_example = simple_shell-Stops silent (λ n. refl) 4 0 (codes "ls\n") (omega arith)

pipe_shell-typed_example :
    effects (run (typing (codes " ls   -l \n") as_child) 0 (pipe_shell 1))
    ≡ (exited 1, [], (codes "ls", arguments (codes "ls" ∷ codes "-l" ∷ [])) ∷ [])
unfolding same_string typed
pipe_shell-typed_example =
    pipe_shell-typed (typing (codes " ls   -l \n") as_child) 0 1 (codes "ls") ((2, codes "-l") ∷ [])
      1 (omega arith, (refl, refl, refl, (refl, refl, refl, tt)))
      ((omega arith, (refl, refl, refl, (refl, refl, refl, tt))), tt) (omega arith) refl refl refl

-- `ls | wc -l`, in the first child and in the second.
pipe_shell-typed_pair_example :
    (effects (run (typing (codes "ls | wc -l\n") as_child) 0 (pipe_shell 1))
      ≡ (exited 1, (some 6, 1) ∷ [], (codes "ls", arguments (codes "ls" ∷ [])) ∷ []))
    × (effects (run (typing (codes "ls | wc -l\n") second_child) 0 (pipe_shell 1))
        ≡ (exited 1, (some 5, 0) ∷ [], (codes "wc", arguments (codes "wc" ∷ codes "-l" ∷ [])) ∷ []))
unfolding typed
pipe_shell-typed_pair_example =
    pipe_shell-typed_pair (0, codes "ls", [], 1) (1, codes "wc", (0, codes "-l") ∷ [], 0)
      (typing (codes "ls | wc -l\n") as_child) (typing (codes "ls | wc -l\n") second_child) 0 5 6 7
      ((omega arith, (refl, refl, refl, (refl, refl, refl, tt))), tt, omega arith)
      (
        (omega arith, (refl, refl, refl, (refl, refl, refl, tt))),
        ((omega arith, (refl, refl, refl, (refl, refl, refl, tt))), tt),
        omega arith,
      )
      refl refl refl refl refl refl refl
