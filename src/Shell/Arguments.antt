-- ===== src/Shell/Arguments.antt =====
-- What the shells hand to `execvp`, whatever is typed and whatever the system answers.
use hw.Prelude.{
  ℕ, zero, suc, ◌<◌, ◌≡◌, refl, ap, inl, inr, Bool-cases, Option-cases, List, [], ◌∷◌, Option, none,
  some, arith, ltb, length, take, length-take,
}
use hw.Stdio.{codes, c_string, same_string}
use hw.Unix.Calls.{Forked, Call, Io}
use hw.Unix.Runs.{Kernel, run}
use hw.Unix.Always.{Always, AllCalls, run-AllCalls, Always-from_option}
use hw.Shell.{
  Args, max_args, space, bar, strtok, cut, chop, store_args, store_bounded, first, exec_or_fail,
  after_line, after_right, after_left, after_pipe, after_fork, simple_line, after_simple, run_piped,
  run_single, run_line, pipe_shell, simple_shell, in_array,
}
use hw.Shell.Tokens.{words, arguments, strtok_cases, store_args-words, store_bounded-words}

-- A call is no `exec`, or one of a program with its name and at most eight words behind it, and
-- NULL: at most ten places of the array.
abbrev pub IsCommand : Call → Type 0
IsCommand (Call.exec program args) =
    (ws : List (List ℕ)) × (args ≡ arguments (program ∷ ws)) × (length ws < 9)
IsCommand c = Unit {0}

-- The same without the program's name.
abbrev pub IsNameless : Call → Type 0
IsNameless (Call.exec program args) =
    (ws : List (List ℕ)) × (args ≡ arguments ws) × (length ws < 10)
IsNameless c = Unit {0}

exec-Always :
    (program : Option (List ℕ)) (args : Args)
    → ((p : List ℕ) → program ≡ some p → IsCommand (Call.exec p args))
    → Always IsCommand (exec_or_fail program args)
unfolding exec_or_fail
exec-Always none args h = tt
exec-Always (some p) args h = (h p refl, λ a. (tt, λ b. tt))

-- The first of the stored words is the program.
take_first :
    (ws : List (List ℕ)) (p : List ℕ) (args : Args)
    → args ≡ arguments (take 9 ws)
    → first args ≡ some p
    → IsCommand (Call.exec p args)
take_first [] p args a h = ground (arith, a, h)
take_first (w ∷ ws) p args a h =
    let same : w ≡ p = ground (arith, a, h) in
    (take 8 ws, rw (a, same) refl, omega (arith, length-take 8 ws))

stored_words :
    (s : List ℕ) (args : Args)
    → store_args 10 s ≡ some args
    → (args ≡ arguments (words space s)) × (length (words space s) < 10)
stored_words s args h = elim (Bool-cases (ltb (length (words space s)) 10)) [
  | inl fits ↦
      let e : store_args 10 s ≡ some (arguments (words space s)) =
        rw (store_args-words 10 s, fits) refl in
      (cc (h, e), ground (arith, fits))
  | inr over ↦
      let e : store_args 10 s ≡ none = rw (store_args-words 10 s, over) refl in ground (arith, h, e)
]

stored_first :
    (s : List ℕ) (args : Args) (p : List ℕ)
    → store_args 10 s ≡ some args
    → (strtok space s).0 ≡ some p
    → IsCommand (Call.exec p args)
stored_first s args p h e =
    let (a, short) = stored_words s args h in
    elim (strtok_cases space s) [
      | inl (nothing, z, _) ↦ ground (arith, nothing, e)
      | inr (w, hit, z) ↦
          let same : w ≡ p = cc (hit, e) in
          (words space (strtok space s).1, rw (a, z, same) refl, omega (arith, short, ap length z))
    ]

right-Always :
    (from to : ℕ) (args : Args) (next : Io ℕ) (pid : Forked)
    → ((p : List ℕ) → first args ≡ some p → IsCommand (Call.exec p args))
    → Always IsCommand next
    → Always IsCommand (after_right from to args next pid)
unfolding after_right
right-Always from to args next Forked.child c h =
    (tt, λ x. (tt, λ y. (tt, λ z. exec-Always (first args) args c)))
right-Always from to args next Forked.failed c h = (tt, λ x. (tt, λ y. (tt, λ z. (tt, λ w. h))))
right-Always from to args next (Forked.parent n) c h = (tt, λ x. (tt, λ y. (tt, λ z. (tt, λ w. h))))

left-Always :
    (from to : ℕ) (args args' : Args) (next : Io ℕ) (pid : Forked)
    → ((p : List ℕ) → first args ≡ some p → IsCommand (Call.exec p args))
    → ((p : List ℕ) → first args' ≡ some p → IsCommand (Call.exec p args'))
    → Always IsCommand next
    → Always IsCommand (after_left from to args args' next pid)
unfolding after_left
left-Always from to args args' next Forked.child c d h =
    (tt, λ x. (tt, λ y. (tt, λ z. exec-Always (first args) args c)))
left-Always from to args args' next Forked.failed c d h =
    (tt, λ pid. right-Always from to args' next pid d h)
left-Always from to args args' next (Forked.parent n) c d h =
    (tt, λ pid. right-Always from to args' next pid d h)

bounded_first :
    (s : List ℕ) (p : List ℕ)
    → first (store_bounded 9 s) ≡ some p
    → IsCommand (Call.exec p (store_bounded 9 s))
bounded_first s p = take_first (words space s) p (store_bounded 9 s) (store_bounded-words 9 s)

made-Always :
    (args args' : Args) (next : Io ℕ) (made : Option (ℕ × ℕ))
    → ((p : List ℕ) → first args ≡ some p → IsCommand (Call.exec p args))
    → ((p : List ℕ) → first args' ≡ some p → IsCommand (Call.exec p args'))
    → Always IsCommand next
    → Always IsCommand (after_pipe args args' next made)
unfolding after_pipe
made-Always args args' next none c d h = (tt, λ x. tt)
made-Always args args' next (some (from, to)) c d h =
    (tt, λ pid. left-Always from to args args' next pid c d h)

piped-Always :
    (left right : List ℕ) (next : Io ℕ)
    → Always IsCommand next
    → Always IsCommand (run_piped left right next)
unfolding run_piped
piped-Always left right next h = (
  tt,
  λ made.
      made-Always (store_bounded 9 left) (store_bounded 9 right) next made (bounded_first left)
        (bounded_first right) h,
)

fork-Always :
    (cmd : List ℕ) (args : Args) (next : Io ℕ) (pid : Forked)
    → IsCommand (Call.exec cmd args)
    → Always IsCommand next
    → Always IsCommand (after_fork cmd args next pid)
unfolding after_fork exec_or_fail
fork-Always cmd args next Forked.child c h = (c, λ a. (tt, λ b. tt))
fork-Always cmd args next Forked.failed c h = (tt, λ a. h)
fork-Always cmd args next (Forked.parent n) c h = (tt, λ a. h)

single-Always :
    (line : List ℕ) (next : Io ℕ) → Always IsCommand next → Always IsCommand (run_single line next)
unfolding run_single
single-Always line next h =
    Always-from_option IsCommand (store_args max_args line) _ (λ args stored.
      Always-from_option IsCommand (strtok space line).0 _ (λ cmd found.
        elim (Bool-cases (same_string cmd (codes "exit"))) [
          | inl e ↦ rw e tt
          | inr e ↦
              rw e (
                tt,
                λ pid. fork-Always cmd args next pid (stored_first line args cmd stored found) h,
              )
        ]))

line-Always :
    (line : List ℕ) (next : Io ℕ) → Always IsCommand next → Always IsCommand (run_line line next)
unfolding run_line
line-Always line next h = elim (Option-cases (strtok bar (strtok bar line).1).0) [
  | inl e ↦ rw (run_line, e) (single-Always (cut bar line) next h)
  | inr (right, e) ↦
      rw (run_line, e)
        (Always-from_option IsCommand (strtok bar line).0 _
          (λ left found. piped-Always left right next h))
]

came-Always :
    (came : Option (List ℕ)) (next : Io ℕ)
    → Always IsCommand next
    → Always IsCommand (after_line came next)
unfolding after_line
came-Always none next h = tt
came-Always (some bytes) next h =
    Always-from_option IsCommand (chop (c_string bytes)) _ (λ line e. line-Always line next h)

shell-Always : (rounds : ℕ) → Always IsCommand (pipe_shell rounds)
unfolding pipe_shell
shell-Always zero = tt
shell-Always (suc rounds) =
    (tt, λ shown. (tt, λ came. came-Always came (pipe_shell rounds) (shell-Always rounds)))

-- In every run of the shell with pipes, as the parent or as any of its children, each call of
-- `execvp` is of a program with its own name first, at most eight words behind it, and NULL, in
-- an array of ten.
pub pipe_shell-IsCommand :
    (k : Kernel) (rounds : ℕ) → AllCalls IsCommand (run k 0 (pipe_shell rounds)).1
pipe_shell-IsCommand k rounds = run-AllCalls IsCommand k 0 (pipe_shell rounds) (shell-Always rounds)

after_simple-Always :
    (cmd : List ℕ) (args : Args) (next : Io ℕ) (pid : Forked)
    → IsNameless (Call.exec cmd args)
    → Always IsNameless next
    → Always IsNameless (after_simple cmd args next pid)
unfolding after_simple
after_simple-Always cmd args next Forked.child c h = (c, λ a. h)
after_simple-Always cmd args next Forked.failed c h = (tt, λ a. h)
after_simple-Always cmd args next (Forked.parent n) c h = (tt, λ a. h)

simple_line-Always :
    (line : List ℕ) (next : Io ℕ)
    → Always IsNameless next
    → Always IsNameless (simple_line line next)
unfolding simple_line
simple_line-Always line next h =
    Always-from_option IsNameless (store_args max_args (strtok space line).1) _ (λ args stored.
      Always-from_option IsNameless (strtok space line).0 _ (λ cmd found.
        elim (Bool-cases (same_string cmd (codes "exit"))) [
          | inl e ↦ rw e tt
          | inr e ↦
              let (a, short) = stored_words (strtok space line).1 args stored in
              rw e (
                tt,
                λ pid.
                    after_simple-Always cmd args next pid
                      (words space (strtok space line).1, a, short) h,
              )
        ]))

simple-Always : (rounds : ℕ) (held : Option (List ℕ)) → Always IsNameless (simple_shell rounds held)
unfolding simple_shell
simple-Always zero held = tt
simple-Always (suc rounds) held = (
  tt,
  λ shown. (
    tt,
    λ came. Always-from_option IsNameless (in_array held came) _ (λ text e.
        Always-from_option IsNameless (chop text) _ (λ line f.
          simple_line-Always line (simple_shell rounds (some (cut space line)))
            (simple-Always rounds (some (cut space line))))),
  ),
)

-- In every run of the simple shell each call of `execvp` is of an array of ten with at most nine
-- words, those behind the program's name, and NULL: the name is not among them.
pub simple_shell-IsNameless :
    (k : Kernel) (rounds : ℕ) (held : Option (List ℕ))
    → AllCalls IsNameless (run k 0 (simple_shell rounds held)).1
simple_shell-IsNameless k rounds held =
    run-AllCalls IsNameless k 0 (simple_shell rounds held) (simple-Always rounds held)
