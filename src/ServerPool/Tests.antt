-- ===== src/ServerPool/Tests.antt =====
-- Runs of the pool, and its theorems there.
use hw.Prelude.{ℕ, suc, ◌+◌, ◌≤◌, refl, [], ◌∷◌}
use hw.ServerPool.{
  take_thread, PoolPc, accepting, taking, starting, awaiting, returning, Pool, Step, start, Reach,
}
use hw.ServerPool.Accounts.{one_at_a_time, failures_block}

-- The pool after `n` ids were taken and lost.
abbrev lost : ℕ → ℕ → PoolPc → Pool
lost left failed pc = record {
  available_threads = 0 ∷ 1 ∷ 2 ∷ 3 ∷ 4 ∷ [];
  thread_count = left;
  main = pc;
  workers = [];
  pipe = [];
  failures = failed;
}

-- Five clients whose threads could not be created, and a sixth.
lost-Reach : Reach (lost 0 5 (taking 9))
unfolding start take_thread
lost-Reach =
    Reach.next
      (fails
        (fails
          (fails (fails (fails Reach.begin (Step.take 9 4 4 refl refl)) (Step.take 9 3 3 refl refl))
            (Step.take 9 2 2 refl refl))
          (Step.take 9 1 1 refl refl))
        (Step.take 9 0 0 refl refl))
      (Step.accept 9 refl)
  where
    fails :
        {left failed id : ℕ}
        → Reach (lost (suc left) failed accepting)
        → Step (lost (suc left) failed (taking 9)) (lost left failed (starting 9 id))
        → Reach (lost left (suc failed) accepting)
    fails {id} r took =
        Reach.next (Reach.next (Reach.next r (Step.accept 9 refl)) took)
          (Step.create_fails 9 id refl)

abbrev working : Pool
working = record (lost 4 0 awaiting) { workers = record { client_socket = 9; id = 4 } ∷ [] }

working-Reach : Reach working
unfolding start take_thread
working-Reach =
    Reach.next
      (Reach.next (Reach.next Reach.begin (Step.accept 9 refl)) (Step.take 9 4 4 refl refl))
      (Step.create 9 4 refl)

finished-Reach : Reach (lost 4 0 (returning 4))
finished-Reach =
    Reach.next
      (Reach.next working-Reach (Step.finish [] [] (record { client_socket = 9; id = 4 }) refl))
      (Step.read_pipe 4 [] refl refl)

one_at_a_time_example : 1 + 0 ≤ 1
one_at_a_time_example = one_at_a_time working-Reach

failures_block_example : ¬ Step (lost 0 5 (taking 9)) (lost 0 5 (taking 9))
failures_block_example = failures_block 9 lost-Reach refl refl
