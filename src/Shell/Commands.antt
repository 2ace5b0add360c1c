-- ===== src/Shell/Commands.antt =====
-- What the shells make of one line that was typed.
use hw.Prelude.{
  ℕ, suc, ◌≤◌, ◌<◌, ◌≡◌, refl, ap, true, false, ◌⊎◌, inl, inr, List, [], ◌∷◌, none, some, arith,
  ltb, length, take,
}
use hw.Stdio.{codes, c_string, same_string}
use hw.Unix.Calls.{Fd, Forked, Call}
use hw.Unix.Runs.{Kernel, End, exited, undefined, Entry, run}
use hw.Shell.{
  Args, space, bar, strtok, cut, chop, store_args, exec_or_fail, after_line, after_right,
  after_left, after_pipe, after_fork, run_piped, run_single, run_line, pipe_shell,
}
use hw.Shell.Tokens.{words, arguments, strtok_cases, store_args-words, store_bounded-words}

-- The programs executed, and the descriptors put in place of others, oldest first.
abbrev pub executed : List Entry → List (List ℕ × Args)
executed [] = []
executed ((Call.exec program args, a) ∷ calls) = (program, args) ∷ executed calls
executed ((_, a) ∷ calls) = executed calls

abbrev pub redirected : List Entry → List (Fd × ℕ)
redirected [] = []
redirected ((Call.dup2 fd n, a) ∷ calls) = (fd, n) ∷ redirected calls
redirected ((_, a) ∷ calls) = redirected calls

abbrev pub effects :
    {A : Type 0} → End A × List Entry → End A × List (Fd × ℕ) × List (List ℕ × Args)
effects (end, calls) = (end, redirected calls, executed calls)

-- At the first prompt this line is typed, and the string left of it is `line`.
abbrev pub Typed : Kernel → List ℕ → Type 0
Typed k line =
    (bytes : List ℕ) × (k 1 (Call.get_line 1024) ≡ some bytes) × (chop (c_string bytes) ≡ some line)

-- `strtok` by the words.
strtok-none : (d : ℕ) (s : List ℕ) → words d s ≡ [] → (strtok d s).0 ≡ none
strtok-none d s e = elim (strtok_cases d s) [
  | inl (f, z, _) ↦ f
  | inr (w, f, z) ↦ ground (arith, z, e)
]

strtok-some :
    (d : ℕ) (s w : List ℕ) (ws : List (List ℕ))
    → words d s ≡ w ∷ ws
    → ((strtok d s).0 ≡ some w) × (words d (strtok d s).1 ≡ ws)
strtok-some d s w ws e = elim (strtok_cases d s) [
  | inl (f, z, _) ↦ ground (arith, z, e)
  | inr (v, f, z) ↦ (cc (f, e, z), cc (e, z))
]

-- No second command.
one_command :
    (line : List ℕ) → length (words bar line) < 2 → (strtok bar (strtok bar line).1).0 ≡ none
one_command line h = elim (strtok_cases bar line) [
  | inl (f, z, left) ↦ strtok-none bar (strtok bar line).1 left
  | inr (w, f, z) ↦ elim (strtok_cases bar (strtok bar line).1) [
    | inl (g, y, _) ↦ g
    | inr (v, g, y) ↦ ground (arith, h, ap length z, ap length y)
  ]
]

no_word : (s : List ℕ) → length (words space s) ≡ 0 → words space s ≡ []
no_word s e = elim (strtok_cases space s) [
  | inl (f, z, _) ↦ z
  | inr (w, f, z) ↦ ground (arith, e, ap length z)
]

stored :
    (room : ℕ) (s : List ℕ)
    → length (words space s) < room
    → store_args room s ≡ some (arguments (words space s))
stored room s h =
    let fits : ltb (length (words space s)) room ≡ true = ground (arith, h) in
    rw (store_args-words room s, fits) refl

not_stored : (room : ℕ) (s : List ℕ) → room ≤ length (words space s) → store_args room s ≡ none
not_stored room s h =
    let over : ltb (length (words space s)) room ≡ false = ground (arith, h) in
    rw (store_args-words room s, over) refl

module _ (k : Kernel) (rounds : ℕ) (line : List ℕ) (typed : Typed k line) where
  -- A line with at most one command of one to nine words, that is not `exit`, makes the child
  -- execute these words, and exit with 1 where that fails.
  pub pipe_shell_executes :
      (w : List ℕ) (ws : List (List ℕ))
      → length (words bar line) < 2
      → words space (cut bar line) ≡ w ∷ ws
      → length ws < 9
      → same_string w (codes "exit") ≡ false
      → k 2 Call.fork ≡ Forked.child
      → effects (run k 0 (pipe_shell (suc rounds))) ≡ (exited 1, [], (w, arguments (w ∷ ws)) ∷ [])
  unfolding run pipe_shell after_line run_line run_single after_fork exec_or_fail
  pipe_shell_executes w ws single split short other child =
      let held = stored 10 (cut bar line) (rw split (omega (arith, short))) in
      let args : store_args 10 (cut bar line) ≡ some (arguments (w ∷ ws)) =
        rw held (rw split refl) in
      let (found, others) = strtok-some space (cut bar line) w ws split in
      rw (run, typed.1, typed.2, one_command line single, args, found, other, child)

  -- A line with at most one command, of no word or of more than nine, is undefined before any
  -- child is made.
  pub pipe_shell_overflows :
      length (words bar line) < 2
      → (length (words space (cut bar line)) ≡ 0) ⊎ (10 ≤ length (words space (cut bar line)))
      → effects (run k 0 (pipe_shell (suc rounds))) ≡ (undefined, [], [])
  unfolding run pipe_shell after_line run_line run_single
  pipe_shell_overflows single (inl empty) =
      let held = stored 10 (cut bar line) (omega (arith, empty)) in
      let absent = strtok-none space (cut bar line) (no_word (cut bar line) empty) in
      rw (run, typed.1, typed.2, one_command line single, held, absent)
  pipe_shell_overflows single (inr long) =
      rw (run, typed.1, typed.2, one_command line single, not_stored 10 (cut bar line) long)

  -- A line with two commands or more, where no call fails: the child of the first command has the
  -- pipe's end for writing as its standard output, that of the second the end for reading as its
  -- standard input, and each executes the first nine words of its command; a third command is
  -- dropped.
  module _ (left right : List ℕ) (more : List (List ℕ))
      (split : words bar line ≡ left ∷ right ∷ more) (from to : ℕ)
      (piped : k 2 Call.pipe ≡ some (from, to)) where
    pub pipe_shell_left :
        (w : List ℕ) (ws : List (List ℕ))
        → words space left ≡ w ∷ ws
        → k 3 Call.fork ≡ Forked.child
        → effects (run k 0 (pipe_shell (suc rounds)))
          ≡ (exited 1, (some to, 1) ∷ [], (w, arguments (w ∷ take 8 ws)) ∷ [])
    unfolding run pipe_shell after_line run_line run_piped after_pipe after_left exec_or_fail
    pipe_shell_left w ws cmd child =
        let (one, rest) = strtok-some bar line left (right ∷ more) split in
        let (two, rest') = strtok-some bar (strtok bar line).1 right more rest in
        rw (run, typed.1, typed.2, two, one, piped, child, store_bounded-words 9 left, cmd)

    pub pipe_shell_right :
        (w : List ℕ) (ws : List (List ℕ)) (pid : ℕ)
        → words space right ≡ w ∷ ws
        → k 3 Call.fork ≡ Forked.parent pid
        → k 4 Call.fork ≡ Forked.child
        → effects (run k 0 (pipe_shell (suc rounds)))
          ≡ (exited 1, (some from, 0) ∷ [], (w, arguments (w ∷ take 8 ws)) ∷ [])
    unfolding run pipe_shell after_line run_line run_piped after_pipe after_left after_right
        exec_or_fail
    pipe_shell_right w ws pid cmd parent child =
        let (one, rest) = strtok-some bar line left (right ∷ more) split in
        let (two, rest') = strtok-some bar (strtok bar line).1 right more rest in
        rw (run, typed.1, typed.2, two, one, piped, parent, child, store_bounded-words 9 right, cmd)
