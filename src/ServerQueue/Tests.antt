-- ===== src/ServerQueue/Tests.antt =====
-- Runs of the queue server, and its theorems at states that these runs reach.
use hw.Prelude.{
  ℕ, ◌+◌, ◌*◌, ◌≤◌, ◌<◌, ◌≡◌, ◌⊎◌, inl, refl, true, ℕ_discrete, [], ◌∷◌, ◌++◌, some, arith,
}
use hw.ServerQueue.{
  max_threads, ClientQueue, init_queue, client_queue, add_to_queue, remove_from_queue,
}
use hw.ServerQueue.System.{
  MainPc, leaving_add, draining, fetching, System, Step, Reach, start, idle,
}
use hw.ServerQueue.Ring.{contents, window, IsRing}
use hw.ServerQueue.Invariant.{main_holds}
use hw.ServerQueue.Safety.{service_order, mutual_exclusion}
use hw.ServerQueue.Progress.{no_lost_wakeup, is_awake, Moves}
use hw.ServerQueue.Quiet.{OwnRun, Settled, own_steps_settle}
use hw.Prelude.Family.{update}

abbrev one_client : ClientQueue
one_client = record client_queue {
  queue = 7 ∷ 0 ∷ 0 ∷ 0 ∷ 0 ∷ 0 ∷ 0 ∷ 0 ∷ 0 ∷ 0 ∷ [];
  rear = 1;
  count = 1;
}

-- A client on socket 7 has come and been put into the queue; the mutex is still locked.
abbrev filled : System
filled = record {
  clients = one_client;
  locked = true;
  main = leaving_add;
  workers = λ _. fetching;
  accepted = 7 ∷ [];
  taken = [];
}

filled-Reach : Reach max_threads filled
unfolding start init_queue add_to_queue
filled-Reach =
    Reach.next
      (Reach.next (Reach.next Reach.begin (Step.accept 7 refl)) (Step.lock_add 7 refl refl))
      (Step.add 7 one_client (λ _. fetching) refl (omega arith) refl (idle (λ j lt e. cc) refl))

-- Then worker 2 has locked the mutex.
abbrev taking : System
taking = record filled { main = MainPc.accepting; workers = update (λ _. fetching) 2 draining }

taking-Reach : Reach max_threads taking
taking-Reach =
    Reach.next (Reach.next filled-Reach (Step.unlock_add refl))
      (Step.lock_remove 2 (omega arith) refl refl)

add_then_remove :
    (remove_from_queue one_client) ≡ some (7, record one_client { front = 1; count = 0 })
unfolding remove_from_queue
add_then_remove = refl

full_wraps :
    contents (record {
      queue = 1 ∷ 2 ∷ 3 ∷ 4 ∷ 5 ∷ 6 ∷ 7 ∷ 8 ∷ 9 ∷ 10 ∷ [];
      front = 8;
      rear = 1;
      count = 3;
    })
    ≡ 9 ∷ 10 ∷ 1 ∷ []
unfolding contents window
full_wraps = refl

one_client-IsRing : IsRing one_client
one_client-IsRing = omega arith

service_order_example : [] ++ (contents one_client ++ []) ≡ 7 ∷ []
service_order_example = service_order filled-Reach

mutual_exclusion_example : (◌≡◌ {A = ℕ} 2 2) × (main_holds taking.main ≡ 0)
unfolding ℕ_discrete
mutual_exclusion_example = mutual_exclusion taking-Reach 2 2 (omega arith) (omega arith) refl refl

no_lost_wakeup_example : (i : ℕ) × (i < max_threads) × (is_awake (filled.workers i) ≡ true)
no_lost_wakeup_example = no_lost_wakeup filled-Reach (omega arith) (inl (omega arith))

filled-OwnRun : OwnRun max_threads filled 2 taking
filled-OwnRun =
    OwnRun.onward (OwnRun.onward OwnRun.still (Step.unlock_add refl) tt)
      (Step.lock_remove 2 (omega arith) refl refl) tt

own_steps_settle_example :
    (2 ≤ 2 * max_threads + 38) × (Moves max_threads taking ⊎ Settled max_threads taking)
own_steps_settle_example = own_steps_settle filled-Reach filled-OwnRun
