-- ===== src/ServerQueue/System.antt =====
-- The threads of sockets/hw2/server queue/server.c: the accepting thread, in `main`, and the
-- workers, in `handle_client`, interleaved in any order. A step is one call of a synchronisation
-- or socket function, or one critical section's body, which no other thread can see half done.
use hw.Prelude.{ℕ, ◌<◌, ◌≡◌, ◌≢◌, Bool, true, false, List, [], ◌∷◌, ◌++◌, some}
use hw.Prelude.Family.{update}
use hw.ServerQueue.{
  ClientQueue, client_queue, init_queue, add_to_queue, remove_from_queue, queue_size,
}

-- Where `main` stands in its accept loop, with the socket that it has in hand.
pub data MainPc : Type 0 where
  accepting : MainPc  -- before `accept`
  arriving : ℕ → MainPc  -- in `add_to_queue`, before the mutex is locked
  filling : ℕ → MainPc  -- the test of the `while`, mutex held
  asleep_full : ℕ → MainPc  -- in `pthread_cond_wait(&q->not_full)`
  woken_full : ℕ → MainPc  -- woken there, the mutex not yet locked again
  leaving_add : MainPc  -- before the mutex is unlocked

-- Where a worker stands.
pub data WorkerPc : Type 0 where
  fetching : WorkerPc  -- in `remove_from_queue`, before the mutex is locked
  draining : WorkerPc  -- the test of the `while`, mutex held
  asleep_empty : WorkerPc  -- in `pthread_cond_wait(&q->not_empty)`
  woken_empty : WorkerPc  -- woken there, the mutex not yet locked again
  leaving_remove : ℕ → WorkerPc  -- before the mutex is unlocked
  serving : ℕ → WorkerPc  -- the `read` loop of `handle_client`

-- `accepted` and `taken` record, oldest first, the sockets that `accept` returned and those that
-- workers took off the queue. The code does not store them.
pub record System : Type 0 where
  pub clients : ClientQueue
  pub locked : Bool
  pub main : MainPc
  pub workers : ℕ → WorkerPc
  pub accepted : List ℕ
  pub taken : List ℕ

-- `pthread_cond_signal(&q->not_full)`: only `main` waits there.
abbrev pub signal_full : MainPc → MainPc
signal_full (asleep_full s) = woken_full s
signal_full pc = pc

-- `pthread_cond_signal(&q->not_empty)` with `n` workers: one of those asleep wakes, any one, and
-- with none asleep nothing happens.
pub data SignalEmpty (n : ℕ) (ws : ℕ → WorkerPc) (ws' : ℕ → WorkerPc) : Type 0 where
  wakes :
      (j : ℕ) → j < n → ws j ≡ asleep_empty → ws' ≡ update ws j woken_empty → SignalEmpty n ws ws'
  idle : ((j : ℕ) → j < n → ws j ≢ asleep_empty) → ws' ≡ ws → SignalEmpty n ws ws'

-- One step of the process with `n` workers.
pub data Step (n : ℕ) (s : System) : System → Type 0 where
  -- `accept` returns a socket, or fails and the loop goes on.
  accept :
      (fd : ℕ)
      → s.main ≡ accepting
      → Step n s (record s { main = arriving fd; accepted = s.accepted ++ (fd ∷ []) })
  accept_fails : s.main ≡ accepting → Step n s s
  lock_add :
      (fd : ℕ)
      → s.main ≡ arriving fd
      → s.locked ≡ false
      → Step n s (record s { main = filling fd; locked = true })
  wait_full :
      (fd : ℕ)
      → s.main ≡ filling fd
      → s.clients.count ≡ queue_size
      → Step n s (record s { main = asleep_full fd; locked = false })
  add :
      (fd : ℕ) (q : ClientQueue) (ws : ℕ → WorkerPc)
      → s.main ≡ filling fd
      → s.clients.count ≢ queue_size
      → add_to_queue s.clients fd ≡ some q
      → SignalEmpty n s.workers ws
      → Step n s (record s { main = leaving_add; clients = q; workers = ws })
  unlock_add : s.main ≡ leaving_add → Step n s (record s { main = accepting; locked = false })
  -- POSIX lets a wait return without a signal.
  spurious_full : (fd : ℕ) → s.main ≡ asleep_full fd → Step n s (record s { main = woken_full fd })
  relock_full :
      (fd : ℕ)
      → s.main ≡ woken_full fd
      → s.locked ≡ false
      → Step n s (record s { main = filling fd; locked = true })
  lock_remove :
      (i : ℕ)
      → i < n
      → s.workers i ≡ fetching
      → s.locked ≡ false
      → Step n s (record s { workers = update s.workers i draining; locked = true })
  wait_empty :
      (i : ℕ)
      → i < n
      → s.workers i ≡ draining
      → s.clients.count ≡ 0
      → Step n s (record s { workers = update s.workers i asleep_empty; locked = false })
  remove :
      (i fd : ℕ) (q : ClientQueue)
      → i < n
      → s.workers i ≡ draining
      → s.clients.count ≢ 0
      → remove_from_queue s.clients ≡ some (fd, q)
      → Step n s (record s {
        clients = q;
        main = signal_full s.main;
        workers = update s.workers i (leaving_remove fd);
        taken = s.taken ++ (fd ∷ []);
      })
  unlock_remove :
      (i fd : ℕ)
      → i < n
      → s.workers i ≡ leaving_remove fd
      → Step n s (record s { workers = update s.workers i (serving fd); locked = false })
  spurious_empty :
      (i : ℕ)
      → i < n
      → s.workers i ≡ asleep_empty
      → Step n s (record s { workers = update s.workers i woken_empty })
  relock_empty :
      (i : ℕ)
      → i < n
      → s.workers i ≡ woken_empty
      → s.locked ≡ false
      → Step n s (record s { workers = update s.workers i draining; locked = true })
  -- `read` returns data, which is sent back, and the loop goes on.
  echo : (i fd : ℕ) → i < n → s.workers i ≡ serving fd → Step n s s
  -- `read` returns 0 or fails: the socket is closed and the worker asks for the next client.
  hang_up :
      (i fd : ℕ)
      → i < n
      → s.workers i ≡ serving fd
      → Step n s (record s { workers = update s.workers i fetching })

-- `main` after `init_queue` and the calls of `pthread_create`.
unfoldable pub start : System
unfolding init_queue
start = record {
  clients = init_queue client_queue;
  locked = false;
  main = accepting;
  workers = λ _. fetching;
  accepted = [];
  taken = [];
}

pub data Reach (n : ℕ) : System → Type 0 where
  begin : Reach n start
  next : {s t : System} → Reach n s → Step n s t → Reach n t
