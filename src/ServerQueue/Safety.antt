-- ===== src/ServerQueue/Safety.antt =====
-- What the queue server promises in every state: the order of service, the bounds of the array
-- and of the count, and the mutex.
use native.Mathlib.Decide.{dec_lt}
use hw.Prelude.{ℕ, ◌≤◌, ◌<◌, ◌≡◌, ◌++◌, arith, length}
use hw.Prelude.Family.{total_single, total_pair}
use hw.ServerQueue.{queue_size}
use hw.ServerQueue.System.{System, Reach}
use hw.ServerQueue.Ring.{contents}
use hw.ServerQueue.Invariant.{Reach-Inv, in_hand, main_holds, holds, owners}

-- In every reachable state the sockets that workers have taken, then those in the queue, then
-- the one that the accepting thread still holds are the accepted sockets in the order of their
-- arrival: none is lost, served twice or overtaken.
pub service_order :
    {n : ℕ} {s : System}
    → Reach n s
    → s.taken ++ (contents s.clients ++ in_hand s.main) ≡ s.accepted
service_order r = (Reach-Inv r).fifo

-- In every reachable state the array has its ten places, both indices lie inside it, and the
-- count is at most ten.
pub queue_in_bounds :
    {n : ℕ} {s : System}
    → Reach n s
    → (length s.clients.queue ≡ queue_size)
      × (s.clients.front < queue_size)
      × (s.clients.rear < queue_size)
      × (s.clients.count ≤ queue_size)
queue_in_bounds r = (size, front_in, omega (arith, rear_at), count_in)
  where
    open (Reach-Inv r) use {ring}
    open ring use {size, front_in, count_in, rear_at}

-- In every reachable state at most one thread is inside a critical section: no two workers, and
-- no worker while the accepting thread is.
pub mutual_exclusion :
    {n : ℕ} {s : System}
    → Reach n s
    → (i j : ℕ) → i < n
    → j < n
    → holds (s.workers i) ≡ 1
    → holds (s.workers j) ≡ 1
    → (i ≡ j) × (main_holds s.main ≡ 0)
mutual_exclusion {n} {s} r i j hi hj ei ej = (
  elim (dec_lt i j) [
    | yes below ↦ absurd (omega (arith, owned, one, total_pair holds n s.workers i j below hj))
    | no above ↦ elim (dec_lt j i) [
      | yes under ↦ absurd (omega (arith, owned, one, total_pair holds n s.workers j i under hi))
      | no same ↦ omega arith
    ]
  ],
  omega (arith, owned, one, total_single holds n s.workers i hi),
)
  where
    open (Reach-Inv r) use {owned}

    one : owners s.locked ≤ 1
    one = ground arith
