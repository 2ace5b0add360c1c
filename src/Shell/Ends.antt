-- ===== src/Shell/Ends.antt =====
-- The ends of the pipes that the second shell makes.
use hw.Prelude.{
  ℕ, zero, suc, ◌-◌, ◌≡◌, refl, inl, inr, Bool-cases, Option-cases, List, [], ◌∷◌, Option, none,
  some, arith,
}
use hw.Stdio.{codes, c_string, same_string}
use hw.Unix.Calls.{Forked, Io}
use hw.Unix.Runs.{Kernel, run}
use hw.Unix.Always.{Owes, without, ends_open, Owes-ends_open, Owes-from_option}
use hw.Shell.{
  Args, max_args, space, bar, strtok, cut, chop, store_args, store_bounded, first, exec_or_fail,
  after_line, after_right, after_left, after_pipe, after_fork, run_piped, run_single, run_line,
  pipe_shell,
}

first_end : (from to : ℕ) → without (some from) (from ∷ to ∷ []) ≡ some (to ∷ [])
first_end from to = ground arith

second_end : (from to : ℕ) → without (some to) (from ∷ to ∷ []) ≡ some (from ∷ [])
second_end from to = ground arith

only_end : (d : ℕ) → without (some d) (d ∷ []) ≡ some []
only_end d = ground arith

exec-Owes : (program : Option (List ℕ)) (args : Args) → Owes [] (exec_or_fail program args)
unfolding exec_or_fail
exec-Owes none args = refl
exec-Owes (some p) args = (refl, λ a b. refl)

right-Owes :
    (from to : ℕ) (args : Args) (next : Io ℕ) (pid : Forked)
    → Owes [] next
    → Owes (from ∷ to ∷ []) (after_right from to args next pid)
unfolding after_right
right-Owes from to args next Forked.child h =
    (from ∷ [], second_end from to, λ a b. ([], only_end from, λ c. exec-Owes (first args) args))
right-Owes from to args next Forked.failed h =
    (to ∷ [], first_end from to, λ a. ([], only_end to, λ b. (refl, λ c. (refl, λ d. h))))
right-Owes from to args next (Forked.parent n) h =
    (to ∷ [], first_end from to, λ a. ([], only_end to, λ b. (refl, λ c. (refl, λ d. h))))

left-Owes :
    (from to : ℕ) (args args' : Args) (next : Io ℕ) (pid : Forked)
    → Owes [] next
    → Owes (from ∷ to ∷ []) (after_left from to args args' next pid)
unfolding after_left
left-Owes from to args args' next Forked.child h =
    (to ∷ [], first_end from to, λ a b. ([], only_end to, λ c. exec-Owes (first args) args))
left-Owes from to args args' next Forked.failed h = λ pid. right-Owes from to args' next pid h
left-Owes from to args args' next (Forked.parent n) h = λ pid. right-Owes from to args' next pid h

piped-Owes :
    (left right : List ℕ) (next : Io ℕ) → Owes [] next → Owes [] (run_piped left right next)
unfolding run_piped after_pipe
piped-Owes left right next h = (
  λ a. refl,
  λ (p : ℕ × ℕ) pid.
      left-Owes p.0 p.1 (store_bounded (max_args - 1) left) (store_bounded (max_args - 1) right)
        next pid h,
)

fork-Owes :
    (cmd : List ℕ) (args : Args) (next : Io ℕ) (pid : Forked)
    → Owes [] next
    → Owes [] (after_fork cmd args next pid)
unfolding after_fork
fork-Owes cmd args next Forked.child h = exec-Owes (some cmd) args
fork-Owes cmd args next Forked.failed h = (refl, λ a. h)
fork-Owes cmd args next (Forked.parent n) h = (refl, λ a. h)

single-Owes : (line : List ℕ) (next : Io ℕ) → Owes [] next → Owes [] (run_single line next)
unfolding run_single
single-Owes line next h = Owes-from_option (store_args max_args line) _ (λ args stored.
    Owes-from_option (strtok space line).0 _ (λ cmd found.
      elim (Bool-cases (same_string cmd (codes "exit"))) [
        | inl e ↦ rw e refl
        | inr e ↦ rw e (λ pid. fork-Owes cmd args next pid h)
      ]))

line-Owes : (line : List ℕ) (next : Io ℕ) → Owes [] next → Owes [] (run_line line next)
unfolding run_line
line-Owes line next h = elim (Option-cases (strtok bar (strtok bar line).1).0) [
  | inl e ↦ rw (run_line, e) (single-Owes (cut bar line) next h)
  | inr (right, e) ↦
      rw (run_line, e)
        (Owes-from_option (strtok bar line).0 _ (λ left found. piped-Owes left right next h))
]

came-Owes : (came : Option (List ℕ)) (next : Io ℕ) → Owes [] next → Owes [] (after_line came next)
unfolding after_line
came-Owes none next h = refl
came-Owes (some bytes) next h =
    Owes-from_option (chop (c_string bytes)) _ (λ line e. line-Owes line next h)

shell-Owes : (rounds : ℕ) → Owes [] (pipe_shell rounds)
unfolding pipe_shell
shell-Owes zero = refl
shell-Owes (suc rounds) = λ shown came. came-Owes came (pipe_shell rounds) (shell-Owes rounds)

-- In every run of the shell with pipes, as the parent or as any of its children, and however it
-- ends, each `close` is of an end of a pipe that is open, no end is open where the process waits
-- or another program takes its place, and none is left open.
pub ends_open-pipe_shell :
    (k : Kernel) (rounds : ℕ) → ends_open [] (run k 0 (pipe_shell rounds)).1 ≡ some []
ends_open-pipe_shell k rounds = Owes-ends_open [] k 0 (pipe_shell rounds) (shell-Owes rounds)
