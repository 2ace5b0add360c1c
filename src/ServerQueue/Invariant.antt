-- ===== src/ServerQueue/Invariant.antt =====
-- What holds in every state that the threads of the queue server reach.
use mathlib.Core.List.{append_assoc, append-nil}
use hw.Prelude.{
  ◌⊎◌, inl, inr, ℕ, zero, suc, ◌+◌, ◌≤◌, ◌<◌, ◌≡◌, ◌≢◌, refl, Bool, true, false, List, [], ◌∷◌,
  ◌++◌, some, arith,
}
use hw.Prelude.Family.{update, total, total-update, total_const, total_single}
use hw.ServerQueue.{ClientQueue, queue_size, client_queue, add_to_queue, remove_from_queue}
use hw.ServerQueue.System.{
  MainPc, accepting, arriving, filling, asleep_full, woken_full, leaving_add, WorkerPc, fetching,
  draining, asleep_empty, woken_empty, leaving_remove, serving, System, signal_full, SignalEmpty,
  wakes, idle, Step, Reach, start,
}
use hw.ServerQueue.Ring.{contents, IsRing, add_result, remove_result, contents-init, init-IsRing}

-- The socket that `main` has accepted and not yet put into the queue.
abbrev pub in_hand : MainPc → List ℕ
in_hand (arriving s) = s ∷ []
in_hand (filling s) = s ∷ []
in_hand (asleep_full s) = s ∷ []
in_hand (woken_full s) = s ∷ []
in_hand accepting = []
in_hand leaving_add = []

-- 1 for a thread that holds the mutex.
abbrev pub main_holds : MainPc → ℕ
main_holds (filling s) = 1
main_holds leaving_add = 1
main_holds accepting = 0
main_holds (arriving s) = 0
main_holds (asleep_full s) = 0
main_holds (woken_full s) = 0

abbrev pub holds : WorkerPc → ℕ
holds draining = 1
holds (leaving_remove s) = 1
holds fetching = 0
holds asleep_empty = 0
holds woken_empty = 0
holds (serving s) = 0

-- 1 for a worker that sleeps on `not_empty`.
abbrev pub sleeps : WorkerPc → ℕ
sleeps asleep_empty = 1
sleeps fetching = 0
sleeps draining = 0
sleeps woken_empty = 0
sleeps (leaving_remove s) = 0
sleeps (serving s) = 0

-- 1 for a worker that is about to test the count again, or for the first time with the mutex.
abbrev pub about_to_test : WorkerPc → ℕ
about_to_test draining = 1
about_to_test woken_empty = 1
about_to_test fetching = 0
about_to_test asleep_empty = 0
about_to_test (leaving_remove s) = 0
about_to_test (serving s) = 0

abbrev pub owners : Bool → ℕ
owners true = 1
owners false = 0

abbrev pub FullWhileAsleep : ClientQueue → MainPc → Type 0
FullWhileAsleep q (asleep_full s) = q.count ≡ queue_size
FullWhileAsleep q accepting = Unit
FullWhileAsleep q (arriving s) = Unit
FullWhileAsleep q (filling s) = Unit
FullWhileAsleep q (woken_full s) = Unit
FullWhileAsleep q leaving_add = Unit

pub record Inv (n : ℕ) (s : System) : Type 0 where
  -- The array and its indices are well formed.
  pub ring : IsRing s.clients
  -- The mutex has one owner while it is locked, and none while it is not.
  pub owned : main_holds s.main + total holds n s.workers ≡ owners s.locked
  -- Sockets leave in the order in which they came, none lost and none twice.
  pub fifo : s.taken ++ (contents s.clients ++ in_hand s.main) ≡ s.accepted
  -- `main` sleeps only before a full queue.
  pub full : FullWhileAsleep s.clients s.main
  -- While a worker sleeps, each client in the queue has a worker that is about to test the count.
  pub woken : (total sleeps n s.workers ≡ 0) ⊎ (s.clients.count ≤ total about_to_test n s.workers)

Inv-start : (n : ℕ) → Inv n start
unfolding start
Inv-start n = record {
  ring = init-IsRing;
  owned = omega (arith, total_const holds n fetching refl);
  fifo = rw (contents-init client_queue);
  full = tt;
  woken = inl (total_const sleeps n fetching refl);
}

-- `main` moves and touches neither the queue nor a worker.
main_moves :
    {n : ℕ} {s : System} (pc : MainPc) (l : Bool) (acc : List ℕ)
    → Inv n s
    → main_holds pc + owners s.locked ≡ owners l + main_holds s.main
    → s.taken ++ (contents s.clients ++ in_hand pc) ≡ acc
    → FullWhileAsleep s.clients pc
    → Inv n (record s { main = pc; locked = l; accepted = acc })
main_moves pc l acc inv lock order asleep = record {
  ring = inv.ring;
  owned = omega (arith, inv.owned);
  fifo = order;
  full = asleep;
  woken = inv.woken;
}

-- Worker `i` moves from `p` to `p'` and does not touch the queue.
worker_moves :
    {n : ℕ} {s : System} (i : ℕ) (p p' : WorkerPc) (l : Bool)
    → Inv n s
    → i < n
    → s.workers i ≡ p
    → holds p' + owners s.locked ≡ owners l + holds p
    → (sleeps p' ≤ sleeps p) × (about_to_test p ≤ about_to_test p') ⊎ (s.clients.count ≡ 0)
    → Inv n (record s { workers = update s.workers i p'; locked = l })
worker_moves {n} {s} i p p' l inv lt at lock tests = record {
  ring = inv.ring;
  owned = omega (arith, inv.owned, moved holds);
  fifo = inv.fifo;
  full = inv.full;
  woken = grind (arith, inv.woken, moved sleeps, moved about_to_test, tests);
}
  where
    moved :
        (w : WorkerPc → ℕ) → total w n (update s.workers i p') + w p ≡ total w n s.workers + w p'
    moved w = rw (← at) (total-update w n s.workers i p' lt)

fifo_accept :
    (taken waiting acc : List ℕ) (fd : ℕ)
    → taken ++ (waiting ++ []) ≡ acc
    → taken ++ (waiting ++ (fd ∷ [])) ≡ acc ++ (fd ∷ [])
fifo_accept taken waiting acc fd h = rw (← h) (simp (append-nil, append_assoc))

signal_full-in_hand : (pc : MainPc) → in_hand (signal_full pc) ≡ in_hand pc
signal_full-in_hand (asleep_full s) = refl
signal_full-in_hand _ = refl

signal_full-main_holds : (pc : MainPc) → main_holds (signal_full pc) ≡ main_holds pc
signal_full-main_holds (asleep_full s) = refl
signal_full-main_holds _ = refl

signal_full-FullWhileAsleep : (q : ClientQueue) (pc : MainPc) → FullWhileAsleep q (signal_full pc)
signal_full-FullWhileAsleep q (asleep_full s) = tt
signal_full-FullWhileAsleep q accepting = tt
signal_full-FullWhileAsleep q (arriving s) = tt
signal_full-FullWhileAsleep q (filling s) = tt
signal_full-FullWhileAsleep q (woken_full s) = tt
signal_full-FullWhileAsleep q leaving_add = tt

-- A signal wakes a sleeper if there is one, and moves no owner of the mutex.
record Signalled (n : ℕ) (ws ws' : ℕ → WorkerPc) : Type 0 where
  holders : total holds n ws' ≡ total holds n ws
  testers : (total sleeps n ws' ≡ 0) ⊎ (total about_to_test n ws' ≡ total about_to_test n ws + 1)
  nobody_falls_asleep : total sleeps n ws' ≤ total sleeps n ws

total-eq-zero :
    (n : ℕ) (ws : ℕ → WorkerPc) → ((j : ℕ) → j < n → ws j ≢ asleep_empty) → total sleeps n ws ≡ 0
unfolding total
total-eq-zero zero ws h = refl
total-eq-zero (suc n) ws h =
    let rest = total-eq-zero n ws (λ j lt. h j (omega arith)) in
    ground (arith, rest, h n (omega arith))

signalled : {n : ℕ} {ws ws' : ℕ → WorkerPc} → SignalEmpty n ws ws' → Signalled n ws ws'
signalled {n} {ws} (wakes j lt at e) = rw e (record {
  holders = omega (arith, moved holds);
  testers = inr (omega (arith, moved about_to_test));
  nobody_falls_asleep = omega (arith, moved sleeps);
})
  where
    moved :
        (w : WorkerPc → ℕ)
        → total w n (update ws j woken_empty) + w asleep_empty ≡ total w n ws + w woken_empty
    moved w = rw (← at) (total-update w n ws j woken_empty lt)
signalled {n} {ws} (idle none_asleep e) = rw e (record {
  holders = refl;
  testers = inl (total-eq-zero n ws none_asleep);
  nobody_falls_asleep = omega arith;
})

add-Inv :
    {n : ℕ} {s : System} (fd : ℕ) (q : ClientQueue) (ws : ℕ → WorkerPc)
    → s.main ≡ filling fd
    → s.clients.count ≢ queue_size
    → add_to_queue s.clients fd ≡ some q
    → Signalled n s.workers ws
    → Inv n s
    → Inv n (record s { main = leaving_add; clients = q; workers = ws })
add-Inv {n} {s} fd q ws at room e sig inv =
    let (ok, order, k) = add_result s.clients fd inv.ring room e in
    let before : s.taken ++ (contents s.clients ++ (fd ∷ [])) ≡ s.accepted =
      ground (arith, inv.fifo) in
    record {
      ring = ok;
      owned = ground (arith, inv.owned, sig.holders);
      fifo = simp (order, append-nil, before);
      full = tt;
      woken = ground (arith, inv.woken, sig.testers, sig.nobody_falls_asleep, k);
    }

remove-Inv :
    {n : ℕ} {s : System} (i fd : ℕ) (q : ClientQueue)
    → i < n
    → s.workers i ≡ draining
    → s.clients.count ≢ 0
    → remove_from_queue s.clients ≡ some (fd, q)
    → Inv n s
    → Inv n (record s {
      clients = q;
      main = signal_full s.main;
      workers = update s.workers i (leaving_remove fd);
      taken = s.taken ++ (fd ∷ []);
    })
remove-Inv {n} {s} i fd q lt at waits e inv = record {
  ring = result.0;
  owned = omega (arith, inv.owned, moved holds, signal_full-main_holds s.main);
  fifo = simp (signal_full-in_hand, append_assoc) (simp (result.1) at inv.fifo);
  full = signal_full-FullWhileAsleep q s.main;
  woken = grind (arith, inv.woken, moved sleeps, moved about_to_test, result.2);
}
  where
    result : IsRing q × (contents s.clients ≡ fd ∷ contents q) × (q.count + 1 ≡ s.clients.count)
    result = remove_result s.clients inv.ring waits e

    moved :
        (w : WorkerPc → ℕ)
        → total w n (update s.workers i (leaving_remove fd)) + w draining
          ≡ total w n s.workers + w (leaving_remove fd)
    moved w = rw (← at) (total-update w n s.workers i (leaving_remove fd) lt)

pub Step-Inv : {n : ℕ} {s t : System} → Step n s t → Inv n s → Inv n t
Step-Inv {s} (Step.accept fd at) inv =
    main_moves (arriving fd) s.locked (s.accepted ++ (fd ∷ [])) inv (ground arith)
      (fifo_accept s.taken (contents s.clients) s.accepted fd (ground (arith, inv.fifo))) tt
Step-Inv (Step.accept_fails at) inv = inv
Step-Inv {s} (Step.lock_add fd at free) inv =
    main_moves (filling fd) true s.accepted inv (ground arith) (ground (arith, inv.fifo)) tt
Step-Inv {s} (Step.wait_full fd at is_full) inv =
    main_moves (asleep_full fd) false s.accepted inv (ground (arith, inv.owned))
      (ground (arith, inv.fifo)) is_full
Step-Inv (Step.add fd q ws at room e sig) inv = add-Inv fd q ws at room e (signalled sig) inv
Step-Inv {s} (Step.unlock_add at) inv =
    main_moves accepting false s.accepted inv (ground (arith, inv.owned)) (ground (arith, inv.fifo))
      tt
Step-Inv {s} (Step.spurious_full fd at) inv =
    main_moves (woken_full fd) s.locked s.accepted inv (ground arith) (ground (arith, inv.fifo)) tt
Step-Inv {s} (Step.relock_full fd at free) inv =
    main_moves (filling fd) true s.accepted inv (ground arith) (ground (arith, inv.fifo)) tt
Step-Inv (Step.lock_remove i lt at free) inv =
    worker_moves i fetching draining true inv lt at (ground arith) (inl (omega arith))
Step-Inv {n} {s} (Step.wait_empty i lt at empty) inv =
    worker_moves i draining asleep_empty false inv lt at (ground (arith, held)) (inr empty)
  where
    held : 1 ≤ total holds n s.workers
    held = ground (arith, total_single holds n s.workers i lt)
Step-Inv (Step.remove i fd q lt at waits e) inv = remove-Inv i fd q lt at waits e inv
Step-Inv {n} {s} (Step.unlock_remove i fd lt at) inv =
    worker_moves i (leaving_remove fd) (serving fd) false inv lt at
      (ground (arith, inv.owned, held)) (inl (omega arith))
  where
    held : 1 ≤ total holds n s.workers
    held = ground (arith, total_single holds n s.workers i lt)
Step-Inv {s} (Step.spurious_empty i lt at) inv =
    worker_moves i asleep_empty woken_empty s.locked inv lt at (omega arith) (inl (omega arith))
Step-Inv (Step.relock_empty i lt at free) inv =
    worker_moves i woken_empty draining true inv lt at (ground arith) (inl (omega arith))
Step-Inv (Step.echo i fd lt at) inv = inv
Step-Inv {s} (Step.hang_up i fd lt at) inv =
    worker_moves i (serving fd) fetching s.locked inv lt at (omega arith) (inl (omega arith))

-- The invariant holds in every state that is reached.
pub Reach-Inv : {n : ℕ} {s : System} → Reach n s → Inv n s
Reach-Inv {n} Reach.begin = Inv-start n
Reach-Inv (Reach.next r st) = Step-Inv st (Reach-Inv r)
