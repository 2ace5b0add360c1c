-- ===== src/Counter/Tests.antt =====
-- A run of two threads, and the theorems there.
use hw.Prelude.{◌+◌, ◌*◌, ◌≤◌, ◌⊎◌, refl, true, false, arith, ℕ_discrete}
use hw.Counter.{
  num_threads, num_increments, looping, holding, loaded, stored, Process, goes, Step, start, Reach,
  creating, Program, Run, begun,
}
use hw.Counter.Ends.{Steps, Ended, main_ends}
use hw.Prelude.Family.{update_other}

abbrev origin : Process
origin = record { counter = 0; locked = false; threads = λ t. record { i = 0; pc = looping } }

abbrev locked : Process
locked = record origin { locked = true; threads = goes origin 3 holding }

abbrev read : Process
read = record locked { threads = goes locked 3 (loaded 0) }

abbrev written : Process
written = record read { counter = 1; threads = goes read 3 stored }

read-Reach : Reach read
unfolding start ℕ_discrete
read-Reach =
    Reach.next (Reach.next Reach.begin (Step.lock 3 (omega arith) refl (omega arith) refl))
      (Step.load 3 (omega arith) refl)

written-Reach : Reach written
unfolding start ℕ_discrete
written-Reach = Reach.next read-Reach (Step.store 3 0 (omega arith) refl)

-- The first thread, created and inside its critical section.
abbrev entered : Program
entered = record begun {
  process = record start { locked = true; threads = goes start 0 holding };
  main = creating 1;
  created = 1;
}

entered-Steps : Steps 2 entered
unfolding begun start
entered-Steps = Steps.onward (Steps.onward Steps.still (Run.create 0 refl (omega arith))) (
    Run.thread _ (Step.lock 0 (omega arith) refl (omega arith) refl) (λ t out.
      update_other begun.process.threads 0 t (record { i = 0; pc = holding })
        (λ same. omega (arith, out, same))))

main_ends_example :
    (2 ≤ num_threads * (4 * num_increments + 2) + 9)
    × (((v : Program) × Run entered v) ⊎ Ended entered)
main_ends_example = main_ends entered-Steps
