-- ===== src/ServerPool/Accounts.antt =====
-- Where the ids of the pool are, and how many clients are served at a time.
use hw.Prelude.{
  ℕ, zero, suc, ◌+◌, ◌≤◌, ◌≡◌, refl, ap, ◌∙◌, List, [], ◌∷◌, ◌++◌, some, true, arith, ltb, length,
  length-append, length-set, get_elem?, Option-cases, inl, inr, set,
}
use hw.ServerPool.{
  pool_size, take_thread, give_back, Worker, PoolPc, accepting, taking, starting, awaiting,
  returning, Pool, Step, start, Reach,
}

-- The ids that `main` and the thread that it waits for hold.
abbrev out : PoolPc → ℕ
out accepting = 0
out (taking fd) = 0
out (starting fd id) = 1
out awaiting = 1
out (returning id) = 1

abbrev waits : PoolPc → ℕ
waits awaiting = 1
waits _ = 0

record Inv (s : Pool) : Type 0 where
  size : length s.available_threads ≡ pool_size
  counted : s.thread_count + out s.main + s.failures ≡ pool_size
  flow : length s.workers + length s.pipe ≡ waits s.main

take_thread-count :
    (available : List ℕ) (count : ℕ) {id n : ℕ}
    → take_thread available count ≡ some (id, n)
    → count ≡ suc n
unfolding take_thread
take_thread-count available zero h = cc
take_thread-count available (suc m) h = elim (Option-cases (get_elem? available m)) [
  | inl nothing ↦ absurd (ground (arith, nothing))
  | inr (i, at) ↦ ground (arith, at)
]

give_back-count :
    (available : List ℕ) (count id : ℕ) {a : List ℕ} {n : ℕ}
    → give_back available count id ≡ some (a, n)
    → (n ≡ suc count) × (length a ≡ length available)
unfolding give_back
give_back-count available count id h = ground (arith, length-set available count id)

Step-Inv : {s t : Pool} → Step s t → Inv s → Inv t
Step-Inv {s} (Step.accept fd here) inv = record {
  size = inv.size;
  counted = omega (arith, inv.counted, ap out here);
  flow = omega (arith, inv.flow, ap waits here);
}
Step-Inv (Step.accept_fails here) inv = inv
Step-Inv {s} (Step.take fd id n here took) inv = record {
  size = inv.size;
  counted = omega (
    arith,
    inv.counted,
    ap out here,
    take_thread-count s.available_threads s.thread_count {id = id} took,
  );
  flow = omega (arith, inv.flow, ap waits here);
}
Step-Inv {s} (Step.create fd id here) inv = record {
  size = inv.size;
  counted = omega (arith, inv.counted, ap out here);
  flow = omega (
    arith,
    inv.flow,
    ap waits here,
    length-append s.workers (record { client_socket = fd; id = id } ∷ []),
  );
}
Step-Inv {s} (Step.create_fails fd id here) inv = record {
  size = inv.size;
  counted = omega (arith, inv.counted, ap out here);
  flow = omega (arith, inv.flow, ap waits here);
}
Step-Inv (Step.echo before after w at) inv = inv
Step-Inv {s} (Step.finish before after w at) inv = record {
  size = inv.size;
  counted = inv.counted;
  flow = omega (
    arith,
    inv.flow,
    ap length at,
    length-append before (w ∷ after),
    length-append before after,
    length-append s.pipe (w.id ∷ []),
  );
}
Step-Inv {s} (Step.read_pipe id rest here came) inv = record {
  size = inv.size;
  counted = omega (arith, inv.counted, ap out here);
  flow = omega (arith, inv.flow, ap waits here, ap length came);
}
Step-Inv {s} (Step.give id n available here stored) inv =
    let (more, same) = give_back-count s.available_threads s.thread_count id stored in
    record {
      size = same ∙ inv.size;
      counted = omega (arith, inv.counted, ap out here, more);
      flow = omega (arith, inv.flow, ap waits here);
    }

Reach-Inv : {s : Pool} → Reach s → Inv s
unfolding start
Reach-Inv Reach.begin = record { size = refl; counted = omega arith; flow = omega arith }
Reach-Inv (Reach.next r step) = Step-Inv step (Reach-Inv r)

-- In every reachable state at most one client is being served: the accepting thread waits for the
-- thread that it started.
pub one_at_a_time : {s : Pool} → Reach s → length s.workers + length s.pipe ≤ 1
one_at_a_time {s} r = omega (arith, (Reach-Inv r).flow, at_most_one s.main)
  where
    at_most_one : (pc : PoolPc) → waits pc ≤ 1
    at_most_one accepting = omega arith
    at_most_one (taking fd) = omega arith
    at_most_one (starting fd id) = omega arith
    at_most_one awaiting = omega arith
    at_most_one (returning id) = omega arith

-- In every reachable state in which the accepting thread has read a finished id, there is room for
-- it in the array.
pub give_back_fits :
    {s : Pool} (id : ℕ)
    → Reach s
    → s.main ≡ returning id
    → (available : List ℕ) × (n : ℕ) × (give_back s.available_threads s.thread_count id
        ≡ some (available, n))
give_back_fits {s} id r here =
    let room : ltb s.thread_count (length s.available_threads) ≡ true =
      ground (arith, (Reach-Inv r).size, (Reach-Inv r).counted, ap out here) in
    (set s.available_threads s.thread_count id, suc s.thread_count, unfold give_back in rw room)

no_worker :
    {s : Pool} (before after : List Worker) (w : Worker) {fd : ℕ}
    → Inv s
    → s.main ≡ taking fd
    → s.workers ≡ before ++ (w ∷ after)
    → ⊥
no_worker before after w inv here at =
    omega (arith, inv.flow, ap waits here, ap length at, length-append before (w ∷ after))

-- Each failure of `pthread_create` costs an id: after as many as there are ids, a client that was
-- accepted waits for ever, since the process can take no step.
pub failures_block :
    {s t : Pool} (fd : ℕ) → Reach s → s.failures ≡ pool_size → s.main ≡ taking fd → ¬ Step s t
failures_block fd r many here (Step.accept fd' at) = cc
failures_block fd r many here (Step.accept_fails at) = cc
failures_block {s} fd r many here (Step.take fd' id n at took) = omega (
  arith,
  many,
  (Reach-Inv r).counted,
  take_thread-count s.available_threads s.thread_count {id = id} took,
)
failures_block fd r many here (Step.create fd' id at) = cc
failures_block fd r many here (Step.create_fails fd' id at) = cc
failures_block fd r many here (Step.echo before after w at) =
    no_worker before after w (Reach-Inv r) here at
failures_block fd r many here (Step.finish before after w at) =
    no_worker before after w (Reach-Inv r) here at
failures_block fd r many here (Step.read_pipe id rest at came) = cc
failures_block fd r many here (Step.give id n available at stored) = cc
