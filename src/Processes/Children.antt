-- ===== src/Processes/Children.antt =====
-- Every child that is started is waited for.
use hw.Prelude.{ℕ, suc, ◌≡◌, refl, ◌⊎◌, inl, inr, List, [], ◌∷◌, ◌++◌, Option-cases}
use hw.Unix.Calls.{Forked, Call, Io, exit, ◌>>=◌}
use hw.Unix.Runs.{Kernel, End, exited, Entry, run}
use hw.Processes.{created, create_child_process, second_started, first_started, five_children}

-- The children that a process started, and those that it waited for, oldest first, behind those
-- given. Where a `fork` answers as in the child, a new process begins with none.
abbrev pub started : List ℕ → List Entry → List ℕ
started pids [] = pids
started pids ((Call.fork, Forked.parent pid) ∷ calls) = started (pids ++ pid ∷ []) calls
started pids ((Call.fork, Forked.child) ∷ calls) = started [] calls
started pids ((_, a) ∷ calls) = started pids calls

abbrev pub awaited : List ℕ → List Entry → List ℕ
awaited pids [] = pids
awaited pids ((Call.wait_for pid, a) ∷ calls) = awaited (pids ++ pid ∷ []) calls
awaited pids ((Call.fork, Forked.child) ∷ calls) = awaited [] calls
awaited pids ((_, a) ∷ calls) = awaited pids calls

-- The process has waited for each child that it started, in their order, or it has exited with a
-- failure.
abbrev pub Awaited : List ℕ → End ℕ × List Entry → Type 0
Awaited pids (end, calls) = (started pids calls ≡ awaited pids calls) ⊎ (end ≡ exited 1)

Forked-cases :
    (f : Forked)
    → (f ≡ Forked.failed) ⊎ ((f ≡ Forked.child) ⊎ ((pid : ℕ) × (f ≡ Forked.parent pid)))
Forked-cases Forked.failed = inl refl
Forked-cases Forked.child = inr (inl refl)
Forked-cases (Forked.parent pid) = inr (inr (pid, refl))

create-Awaited :
    (k : Kernel) (f : Unit {0} → Io ℕ)
    → ((pids : List ℕ) (n : ℕ) → Awaited pids (run k n (f tt)))
    → (pids : List ℕ) (n : ℕ) → Awaited pids (run k n (create_child_process >>= f))
unfolding run create_child_process created
create-Awaited k f h pids n = elim (Forked-cases (k n Call.fork)) [
  | inl e ↦ rw (run, e) (inr refl)
  | inr rest ↦ elim rest [
    | inl e ↦ rw (run, e) (inl refl)
    | inr (pid, e) ↦ elim (Option-cases (k (suc n) (Call.wait_for pid))) [
      | inl x ↦ rw (run, e) (rw x (h (pids ++ pid ∷ []) (suc (suc (suc n)))))
      | inr (status, x) ↦ rw (run, e) (rw x (h (pids ++ pid ∷ []) (suc (suc (suc n)))))
    ]
  ]
]

-- In every run of processes/task2.c, as the first process or as any of its descendants, each child
-- that the process started is waited for, in the order in which they were started, but where it
-- exits since a `fork` failed.
pub five_children-Awaited : (k : Kernel) → Awaited [] (run k 0 five_children)
unfolding run five_children first_started second_started
five_children-Awaited k = elim (Forked-cases (k 0 Call.fork)) [
  | inl e ↦ rw (run, e) (inr refl)
  | inr rest ↦ elim rest [
    | inl e ↦
        rw (run, e) (create-Awaited k _ (create-Awaited k (λ u. exit 0) (λ pids n. inl refl)) [] 2)
    | inr (pid1, e) ↦ elim (Forked-cases (k 1 Call.fork)) [
      | inl f ↦ rw (run, e) (rw f (inr refl))
      | inr others ↦ elim others [
        | inl f ↦ rw (run, e) (rw f (create-Awaited k (λ u. exit 0) (λ pids n. inl refl) [] 3))
        | inr (pid2, f) ↦ rw (run, e) (rw f (inl refl))
      ]
    ]
  ]
]
