-- ===== src/ServerQueue/Quiet.antt =====
-- How long the threads of the queue server go on by themselves, without the network and without
-- wakeups that no thread signalled, and where they come to rest.
use hw.Prelude.{
  ℕ, zero, suc, ◌+◌, ◌*◌, ◌≤◌, ◌<◌, ◌≡◌, ◌⊎◌, inl, inr, refl, Bool, true, false, [], ◌++◌, arith,
  Bool-cases, ℕ_discrete,
}
use hw.Prelude.Family.{total, update, total-update, find_index}
use hw.ServerQueue.System.{
  MainPc, accepting, arriving, filling, asleep_full, woken_full, leaving_add, WorkerPc, fetching,
  draining, asleep_empty, woken_empty, leaving_remove, serving, System, SignalEmpty, wakes, idle,
  signal_full, Step, Reach,
}
use hw.ServerQueue.Ring.{contents, contents_empty, IsRing, add_result, remove_result}
use hw.ServerQueue.Invariant.{Inv, Reach-Inv, Step-Inv, in_hand, sleeps, about_to_test}
use hw.ServerQueue.Progress.{IsOwn, Moves, test_count, workers_can, filling_can}

-- How many steps a thread may still take before it sleeps or waits for the network, and what a
-- client in the queue may still cause.
abbrev main_energy : MainPc → ℕ
main_energy accepting = 0
main_energy leaving_add = 1
main_energy (asleep_full s) = 6
main_energy (filling s) = 7
main_energy (arriving s) = 8
main_energy (woken_full s) = 8

abbrev worker_energy : WorkerPc → ℕ
worker_energy (serving s) = 0
worker_energy asleep_empty = 0
worker_energy (leaving_remove s) = 1
worker_energy draining = 1
worker_energy fetching = 2
worker_energy woken_empty = 2

abbrev energy : ℕ → System → ℕ
energy n s = main_energy s.main + total worker_energy n s.workers + 3 * s.clients.count

worker_spends :
    (n : ℕ) (ws : ℕ → WorkerPc) (i : ℕ) (p p' : WorkerPc)
    → i < n
    → ws i ≡ p
    → total worker_energy n (update ws i p') + worker_energy p
      ≡ total worker_energy n ws + worker_energy p'
worker_spends n ws i p p' lt at = rw (← at) (total-update worker_energy n ws i p' lt)

signal_costs :
    {n : ℕ} {ws ws' : ℕ → WorkerPc}
    → SignalEmpty n ws ws'
    → total worker_energy n ws' ≤ total worker_energy n ws + 2
signal_costs {n} {ws} (wakes j lt at e) =
    rw e (omega (arith, worker_spends n ws j asleep_empty woken_empty lt at))
signal_costs (idle none_asleep e) = rw e (omega arith)

signal_full_costs : (pc : MainPc) → main_energy (signal_full pc) ≤ main_energy pc + 2
signal_full_costs accepting = omega arith
signal_full_costs leaving_add = omega arith
signal_full_costs (asleep_full s) = omega arith
signal_full_costs (filling s) = omega arith
signal_full_costs (arriving s) = omega arith
signal_full_costs (woken_full s) = omega arith

-- Every step of its own costs the process energy.
Step-spends :
    {n : ℕ} {s t : System} (st : Step n s t) → IsOwn st → Inv n s → energy n t < energy n s
Step-spends (Step.accept fd at) own inv = absurd own
Step-spends (Step.accept_fails at) own inv = absurd own
Step-spends (Step.lock_add fd at free) own inv = ground (arith, at)
Step-spends (Step.wait_full fd at is_full) own inv = ground (arith, at)
Step-spends {s} (Step.add fd q ws at room e sig) own inv =
    ground (arith, at, signal_costs sig, (add_result s.clients fd inv.ring room e).2)
Step-spends (Step.unlock_add at) own inv = ground (arith, at)
Step-spends (Step.spurious_full fd at) own inv = absurd own
Step-spends (Step.relock_full fd at free) own inv = ground (arith, at)
Step-spends {n} {s} (Step.lock_remove i lt at free) own inv =
    omega (arith, worker_spends n s.workers i fetching draining lt at)
Step-spends {n} {s} (Step.wait_empty i lt at empty) own inv =
    omega (arith, worker_spends n s.workers i draining asleep_empty lt at)
Step-spends {n} {s} (Step.remove i fd q lt at waits e) own inv = omega (
  arith,
  worker_spends n s.workers i draining (leaving_remove fd) lt at,
  (remove_result s.clients inv.ring waits e).2,
  signal_full_costs s.main,
)
Step-spends {n} {s} (Step.unlock_remove i fd lt at) own inv =
    omega (arith, worker_spends n s.workers i (leaving_remove fd) (serving fd) lt at)
Step-spends (Step.spurious_empty i lt at) own inv = absurd own
Step-spends {n} {s} (Step.relock_empty i lt at free) own inv =
    omega (arith, worker_spends n s.workers i woken_empty draining lt at)
Step-spends (Step.echo i fd lt at) own inv = absurd own
Step-spends (Step.hang_up i fd lt at) own inv = absurd own

-- `k` steps that the process takes on its own, one after the other.
pub data OwnRun (n : ℕ) (s : System) : ℕ → System → Type 0 where
  still : OwnRun n s 0 s
  onward :
      {k : ℕ} {t u : System} → OwnRun n s k t → (st : Step n t u) → IsOwn st → OwnRun n s (suc k) u

OwnRun-spends :
    {n : ℕ} {s : System} {k : ℕ} {t : System}
    → OwnRun n s k t
    → Inv n s
    → Inv n t × (k + energy n t ≤ energy n s)
OwnRun-spends OwnRun.still inv = (inv, omega arith)
OwnRun-spends (OwnRun.onward run st own) inv =
    let (here, spent) = OwnRun-spends run inv in
    (Step-Inv st here, omega (arith, spent, Step-spends st own here))

worker_energy_small : (p : WorkerPc) → worker_energy p ≤ 2
worker_energy_small (serving s) = omega arith
worker_energy_small asleep_empty = omega arith
worker_energy_small (leaving_remove s) = omega arith
worker_energy_small draining = omega arith
worker_energy_small fetching = omega arith
worker_energy_small woken_empty = omega arith

total-energy : (n : ℕ) (ws : ℕ → WorkerPc) → total worker_energy n ws ≤ 2 * n
unfolding total
total-energy zero ws = omega arith
total-energy (suc n) ws = omega (arith, total-energy n ws, worker_energy_small (ws n))

main_energy_small : (pc : MainPc) → main_energy pc ≤ 8
main_energy_small accepting = omega arith
main_energy_small leaving_add = omega arith
main_energy_small (asleep_full s) = omega arith
main_energy_small (filling s) = omega arith
main_energy_small (arriving s) = omega arith
main_energy_small (woken_full s) = omega arith

-- 1 for a worker that is busy with a client.
abbrev pub serves : WorkerPc → ℕ
serves (serving s) = 1
serves asleep_empty = 0
serves (leaving_remove s) = 0
serves draining = 0
serves fetching = 0
serves woken_empty = 0

abbrev is_ready : WorkerPc → Bool
is_ready (serving s) = false
is_ready asleep_empty = false
is_ready (leaving_remove s) = true
is_ready draining = true
is_ready fetching = true
is_ready woken_empty = true

ready_can :
    {n : ℕ} {s : System} (i : ℕ) (p : WorkerPc)
    → IsRing s.clients
    → i < n
    → s.workers i ≡ p
    → is_ready p ≡ true
    → s.locked ≡ false
    → Moves n s
ready_can i fetching ring lt at ready free = (_, Step.lock_remove i lt at free, tt)
ready_can i draining ring lt at ready free = test_count i ring lt at
ready_can i woken_empty ring lt at ready free = (_, Step.relock_empty i lt at free, tt)
ready_can i (leaving_remove fd) ring lt at ready free = (_, Step.unlock_remove i fd lt at, tt)
ready_can i asleep_empty ring lt at ready free = cc
ready_can i (serving fd) ring lt at ready free = cc

none_ready :
    (n : ℕ) (ws : ℕ → WorkerPc)
    → ((j : ℕ) → j < n → is_ready (ws j) ≡ false)
    → (total about_to_test n ws ≡ 0) × (total sleeps n ws + total serves n ws ≡ n)
unfolding total
none_ready zero ws h = omega arith
none_ready (suc n) ws h =
    let rest = none_ready n ws (λ j lt. h j (omega arith)) in
    ground (arith, rest, h n (omega arith))

-- Every accepted client was taken by a worker, or all `n` workers are busy with clients.
abbrev pub Settled : ℕ → System → Type 0
Settled n s = (contents s.clients ++ in_hand s.main ≡ []) ⊎ (total serves n s.workers ≡ n)

module _ {n : ℕ} {s : System} (inv : Inv n s) where
  workers_settle :
      s.locked ≡ false → Moves n s ⊎ ((s.clients.count ≡ 0) ⊎ (total serves n s.workers ≡ n))
  workers_settle free = elim (find_index is_ready n s.workers) [
    | inl (i, lt, ready) ↦ inl (ready_can i (s.workers i) inv.ring lt refl ready free)
    | inr rest ↦ elim (ℕ_discrete s.clients.count 0) [
      | yes empty ↦ inr (inl empty)
      | no waits ↦ inr (inr (ground (arith, inv.woken, none_ready n s.workers rest)))
    ]
  ]

  main_settles : (pc : MainPc) → s.main ≡ pc → Moves n s ⊎ Settled n s
  main_settles (filling fd) at = inl (filling_can fd inv at)
  main_settles leaving_add at = inl (_, Step.unlock_add at, tt)
  main_settles accepting at = elim (Bool-cases s.locked) [
    | inl lk ↦ inl (workers_can inv lk (ground arith))
    | inr free ↦ elim (workers_settle free) [
      | inl moves ↦ inl moves
      | inr (inl empty) ↦ inr (inl (rw (at, contents_empty s.clients empty) refl))
      | inr (inr busy) ↦ inr (inr busy)
    ]
  ]
  main_settles (arriving fd) at = elim (Bool-cases s.locked) [
    | inl lk ↦ inl (workers_can inv lk (ground arith))
    | inr free ↦ inl (_, Step.lock_add fd at free, tt)
  ]
  main_settles (woken_full fd) at = elim (Bool-cases s.locked) [
    | inl lk ↦ inl (workers_can inv lk (ground arith))
    | inr free ↦ inl (_, Step.relock_full fd at free, tt)
  ]
  main_settles (asleep_full fd) at = elim (Bool-cases s.locked) [
    | inl lk ↦ inl (workers_can inv lk (ground arith))
    | inr free ↦ elim (workers_settle free) [
      | inl moves ↦ inl moves
      | inr (inl empty) ↦ absurd (ground (arith, inv.full))
      | inr (inr busy) ↦ inr (inr busy)
    ]
  ]

-- From every reachable state, whatever the order of the threads: the process takes at most
-- 2 n + 38 steps on its own, one after the other, where a step of its own is neither the kernel's
-- reply to `accept` or `read` nor a wakeup that no thread signalled; and where it can take no
-- further one, every accepted client was taken by a worker, or all `n` workers are busy with clients.
pub own_steps_settle :
    {n : ℕ} {s : System} {k : ℕ} {t : System}
    → Reach n s
    → OwnRun n s k t
    → (k ≤ 2 * n + 38) × (Moves n t ⊎ Settled n t)
own_steps_settle {n} {s} {k} {t} r run =
    let (there, spent) = OwnRun-spends run (Reach-Inv r) in
    (
      omega (
        arith,
        spent,
        main_energy_small s.main,
        total-energy n s.workers,
        (Reach-Inv r).ring.count_in,
      ),
      main_settles there t.main refl,
    )
