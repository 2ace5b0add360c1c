-- ===== src/ServerQueue/Progress.antt =====
-- No wakeup is lost and no deadlock arises in the queue server.
use hw.Prelude.{
  ℕ, zero, suc, ◌<◌, ◌≡◌, ◌≢◌, ◌⊎◌, inl, inr, refl, Bool, true, false, not, [], ◌++◌, arith,
  Bool-cases, ℕ_discrete,
}
use hw.Prelude.Family.{total, update, find_index}
use hw.ServerQueue.{queue_size}
use hw.ServerQueue.System.{
  MainPc, accepting, arriving, filling, asleep_full, woken_full, leaving_add, WorkerPc, fetching,
  draining, asleep_empty, woken_empty, leaving_remove, serving, System, SignalEmpty, wakes, idle,
  Step, Reach,
}
use hw.ServerQueue.Ring.{contents, contents_empty, IsRing, contents-add, contents-remove}
use hw.ServerQueue.Invariant.{Inv, Reach-Inv, in_hand, main_holds, holds, sleeps, about_to_test}

abbrev pub is_awake : WorkerPc → Bool
is_awake asleep_empty = false
is_awake fetching = true
is_awake draining = true
is_awake woken_empty = true
is_awake (leaving_remove s) = true
is_awake (serving s) = true

abbrev owns : WorkerPc → Bool
owns draining = true
owns (leaving_remove s) = true
owns fetching = false
owns asleep_empty = false
owns woken_empty = false
owns (serving s) = false

-- With all of `n` workers asleep, `n` sleep and none is about to test the count.
all_asleep :
    (n : ℕ) (ws : ℕ → WorkerPc)
    → ((j : ℕ) → j < n → is_awake (ws j) ≡ false)
    → (total sleeps n ws ≡ n) × (total about_to_test n ws ≡ 0)
unfolding total
all_asleep zero ws h = omega arith
all_asleep (suc n) ws h =
    let rest = all_asleep n ws (λ j lt. h j (omega arith)) in
    ground (arith, rest, h n (omega arith))

no_owner :
    (n : ℕ) (ws : ℕ → WorkerPc) → ((j : ℕ) → j < n → owns (ws j) ≡ false) → total holds n ws ≡ 0
unfolding total
no_owner zero ws h = refl
no_owner (suc n) ws h =
    let rest = no_owner n ws (λ j lt. h j (omega arith)) in ground (arith, rest, h n (omega arith))

awake_worker :
    {n : ℕ} {s : System}
    → Inv n s
    → 0 < n
    → s.clients.count ≢ 0
    → (i : ℕ) × (i < n) × (is_awake (s.workers i) ≡ true)
awake_worker {n} {s} inv pos waits = elim (find_index is_awake n s.workers) [
  | inl found ↦ found
  | inr asleep ↦ absurd (omega (arith, inv.woken, all_asleep n s.workers asleep))
]

-- No wakeup is lost: in every reachable state with a client in the queue, some worker is not
-- asleep on `not_empty`; and while the accepting thread is asleep on `not_full`, too.
pub no_lost_wakeup :
    {n : ℕ} {s : System}
    → Reach n s
    → 0 < n
    → (s.clients.count ≢ 0) ⊎ ((fd : ℕ) × (s.main ≡ asleep_full fd))
    → (i : ℕ) × (i < n) × (is_awake (s.workers i) ≡ true)
no_lost_wakeup r pos (inl waits) = awake_worker (Reach-Inv r) pos waits
no_lost_wakeup r pos (inr (fd, at)) =
    awake_worker (Reach-Inv r) pos (ground (arith, (Reach-Inv r).full))

-- A step that the process takes on its own: neither the kernel's reply to `accept` or `read`, nor
-- a wakeup that no thread signalled.
abbrev pub IsOwn : {n : ℕ} {s t : System} → Step n s t → Type 0
IsOwn (Step.accept _ _) = ⊥
IsOwn (Step.accept_fails _) = ⊥
IsOwn (Step.lock_add _ _ _) = Unit
IsOwn (Step.wait_full _ _ _) = Unit
IsOwn (Step.add _ _ _ _ _ _ _) = Unit
IsOwn (Step.unlock_add _) = Unit
IsOwn (Step.spurious_full _ _) = ⊥
IsOwn (Step.relock_full _ _ _) = Unit
IsOwn (Step.lock_remove _ _ _ _) = Unit
IsOwn (Step.wait_empty _ _ _ _) = Unit
IsOwn (Step.remove _ _ _ _ _ _ _) = Unit
IsOwn (Step.unlock_remove _ _ _ _) = Unit
IsOwn (Step.spurious_empty _ _ _) = ⊥
IsOwn (Step.relock_empty _ _ _ _) = Unit
IsOwn (Step.echo _ _ _ _) = ⊥
IsOwn (Step.hang_up _ _ _ _) = ⊥

abbrev pub Moves : ℕ → System → Type 0
Moves n s = (t : System) × (st : Step n s t) × IsOwn st

-- Some worker is busy with a client, and waits for what that client sends.
abbrev pub Busy : ℕ → System → Type 0
Busy n s = (i : ℕ) × (i < n) × (fd : ℕ) × (s.workers i ≡ serving fd)

signal : (n : ℕ) (ws : ℕ → WorkerPc) → (ws' : ℕ → WorkerPc) × SignalEmpty n ws ws'
signal n ws = elim (find_index (λ p. not (is_awake p)) n ws) [
  | inl (j, lt, e) ↦ (update ws j woken_empty, wakes j lt (ground arith) refl)
  | inr none_asleep ↦ (ws, idle (λ j lt e. ground (arith, none_asleep j lt)) refl)
]

-- A worker at the test of its `while` sleeps or takes a client.
pub test_count :
    {n : ℕ} {s : System} (i : ℕ) → IsRing s.clients → i < n → s.workers i ≡ draining → Moves n s
test_count {n} {s} i ring lt at = elim (ℕ_discrete s.clients.count 0) [
  | yes empty ↦ (_, Step.wait_empty i lt at empty, tt)
  | no waits ↦
      (let (fd, q, e, _, _, _) = contents-remove s.clients ring waits in
        (_, Step.remove i fd q lt at waits e, tt))
]

worker_can :
    {n : ℕ} {s : System} (i : ℕ) (p : WorkerPc)
    → IsRing s.clients
    → i < n
    → s.workers i ≡ p
    → is_awake p ≡ true
    → s.locked ≡ false
    → Moves n s ⊎ Busy n s
worker_can i fetching ring lt at awake free = inl (_, Step.lock_remove i lt at free, tt)
worker_can i draining ring lt at awake free = inl (test_count i ring lt at)
worker_can i asleep_empty ring lt at awake free = absurd (cc)
worker_can i woken_empty ring lt at awake free = inl (_, Step.relock_empty i lt at free, tt)
worker_can i (leaving_remove fd) ring lt at awake free = inl (_, Step.unlock_remove i fd lt at, tt)
worker_can i (serving fd) ring lt at awake free = inr (i, lt, fd, at)

owner_can :
    {n : ℕ} {s : System} (i : ℕ) (p : WorkerPc)
    → IsRing s.clients
    → i < n
    → s.workers i ≡ p
    → owns p ≡ true
    → Moves n s
owner_can i draining ring lt at own = test_count i ring lt at
owner_can i (leaving_remove fd) ring lt at own = (_, Step.unlock_remove i fd lt at, tt)
owner_can i fetching ring lt at own = absurd (cc)
owner_can i asleep_empty ring lt at own = absurd (cc)
owner_can i woken_empty ring lt at own = absurd (cc)
owner_can i (serving fd) ring lt at own = absurd (cc)

-- With `main` outside its critical sections, a locked mutex is held by a worker, who can go on.
pub workers_can :
    {n : ℕ} {s : System} → Inv n s → s.locked ≡ true → main_holds s.main ≡ 0 → Moves n s
workers_can {n} {s} inv lk out = elim (find_index owns n s.workers) [
  | inl (i, lt, own) ↦ owner_can i (s.workers i) inv.ring lt refl own
  | inr nobody ↦ absurd (ground (arith, inv.owned, no_owner n s.workers nobody))
]

queue_can :
    {n : ℕ} {s : System}
    → Inv n s
    → 0 < n
    → s.clients.count ≢ 0
    → s.locked ≡ false
    → Moves n s ⊎ Busy n s
queue_can {s} inv pos waits free =
    let (i, lt, awake) = awake_worker inv pos waits in
    worker_can i (s.workers i) inv.ring lt refl awake free

pub filling_can : {n : ℕ} {s : System} (fd : ℕ) → Inv n s → s.main ≡ filling fd → Moves n s
filling_can {n} {s} fd inv at = elim (ℕ_discrete s.clients.count queue_size) [
  | yes is_full ↦ (_, Step.wait_full fd at is_full, tt)
  | no room ↦
      (let (q, e, _, _, _) = contents-add s.clients fd inv.ring room in
        let (ws, sig) = signal n s.workers in (_, Step.add fd q ws at room e sig, tt))
]

count_ne_zero : (s : System) → contents s.clients ++ [] ≢ [] → s.clients.count ≢ 0
count_ne_zero s h e = h (rw (contents_empty s.clients e))

module _ {n : ℕ} {s : System} (inv : Inv n s) (pos : 0 < n) where
  main_can :
      (pc : MainPc) → s.main ≡ pc → contents s.clients ++ in_hand pc ≢ [] → Moves n s ⊎ Busy n s
  main_can (filling fd) at h = inl (filling_can fd inv at)
  main_can leaving_add at h = inl (_, Step.unlock_add at, tt)
  main_can accepting at h = elim (Bool-cases s.locked) [
    | inl lk ↦ inl (workers_can inv lk (ground arith))
    | inr free ↦ queue_can inv pos (count_ne_zero s h) free
  ]
  main_can (arriving fd) at h = elim (Bool-cases s.locked) [
    | inl lk ↦ inl (workers_can inv lk (ground arith))
    | inr free ↦ inl (_, Step.lock_add fd at free, tt)
  ]
  main_can (woken_full fd) at h = elim (Bool-cases s.locked) [
    | inl lk ↦ inl (workers_can inv lk (ground arith))
    | inr free ↦ inl (_, Step.relock_full fd at free, tt)
  ]
  main_can (asleep_full fd) at h = elim (Bool-cases s.locked) [
    | inl lk ↦ inl (workers_can inv lk (ground arith))
    | inr free ↦ queue_can inv pos (ground (arith, inv.full)) free
  ]

-- No deadlock: in every reachable state in which a client has been accepted and not yet taken by
-- a worker, either some thread can take a step that needs neither the network nor a spurious
-- wakeup, or some worker is busy with another client.
pub no_deadlock :
    {n : ℕ} {s : System}
    → Reach n s
    → 0 < n
    → contents s.clients ++ in_hand s.main ≢ []
    → Moves n s ⊎ Busy n s
no_deadlock {s} r pos h = main_can (Reach-Inv r) pos s.main refl h
