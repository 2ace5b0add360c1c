-- ===== src/ServerPool.antt =====
-- sockets/hw2/pserver pool/server.c: an accepting thread that starts a thread for each client,
-- under one of MAX_THREADS ids, and reads the ids of the finished threads from a pipe.
pub mod Accounts
mod Tests
use hw.Prelude.{
  ℕ, zero, suc, ◌+◌, ◌≡◌, List, [], ◌∷◌, ◌++◌, Option, none, some, ltb, if◌then◌else◌, length,
  get_elem?, set,
}

abbrev pub pool_size : ℕ
pool_size = 5

-- `available_threads[--thread_count]`, once the count is not 0: the id and the count left. With the
-- count 0 the thread waits, and that is `none`.
unfoldable pub take_thread : List ℕ → ℕ → Option (ℕ × ℕ)
take_thread available zero = none
take_thread available (suc n) = elim (get_elem? available n) [
  | none ↦ none
  | some thread_id ↦ some (thread_id, n)
]

-- `available_threads[thread_count++] = finished_thread_id`. `none` is a store outside the array.
unfoldable pub give_back : List ℕ → ℕ → ℕ → Option (List ℕ × ℕ)
give_back available thread_count id =
    if ltb thread_count (length available)
    then some (set available thread_count id, suc thread_count)
    else none

-- `thread_arg`, for a thread that runs `handle_client`.
pub record Worker : Type 0 where
  pub client_socket : ℕ
  pub id : ℕ

-- Where `main` stands in its loop.
pub data PoolPc : Type 0 where
  accepting : PoolPc  -- before `accept`
  taking : ℕ → PoolPc  -- with a socket, before an id is taken
  starting : ℕ → ℕ → PoolPc  -- with a socket and an id, before `pthread_create`
  awaiting : PoolPc  -- in the `read` of the pipe
  returning : ℕ → PoolPc  -- with a finished id, before it is stored

-- `failures` records how often `pthread_create` failed. The code does not store it.
pub record Pool : Type 0 where
  pub available_threads : List ℕ
  pub thread_count : ℕ
  pub main : PoolPc
  pub workers : List Worker
  pub pipe : List ℕ
  pub failures : ℕ

-- One step of the process: a call of the kernel, or a critical section's body.
pub data Step (s : Pool) : Pool → Type 0 where
  accept : (fd : ℕ) → s.main ≡ accepting → Step s (record s { main = taking fd })
  accept_fails : s.main ≡ accepting → Step s s
  take :
      (fd id n : ℕ)
      → s.main ≡ taking fd
      → take_thread s.available_threads s.thread_count ≡ some (id, n)
      → Step s (record s { main = starting fd id; thread_count = n })
  create :
      (fd id : ℕ)
      → s.main ≡ starting fd id
      → Step s (record s {
        main = awaiting;
        workers = s.workers ++ (record { client_socket = fd; id = id } ∷ []);
      })
  -- `pthread_create` fails: the socket is closed and the loop goes on.
  create_fails :
      (fd id : ℕ)
      → s.main ≡ starting fd id
      → Step s (record s { main = accepting; failures = suc s.failures })
  -- `read` returns data, which is sent back.
  echo : (before after : List Worker) (w : Worker) → s.workers ≡ before ++ (w ∷ after) → Step s s
  -- `read` returns 0 or fails: the socket is closed, the id written to the pipe.
  finish :
      (before after : List Worker) (w : Worker)
      → s.workers ≡ before ++ (w ∷ after)
      → Step s (record s { workers = before ++ after; pipe = s.pipe ++ (w.id ∷ []) })
  read_pipe :
      (id : ℕ) (rest : List ℕ)
      → s.main ≡ awaiting
      → s.pipe ≡ id ∷ rest
      → Step s (record s { main = returning id; pipe = rest })
  give :
      (id n : ℕ) (available : List ℕ)
      → s.main ≡ returning id
      → give_back s.available_threads s.thread_count id ≡ some (available, n)
      → Step s (record s { main = accepting; available_threads = available; thread_count = n })

-- `main` behind its initialisation.
unfoldable pub start : Pool
start = record {
  available_threads = 0 ∷ 1 ∷ 2 ∷ 3 ∷ 4 ∷ [];
  thread_count = pool_size;
  main = accepting;
  workers = [];
  pipe = [];
  failures = 0;
}

pub data Reach : Pool → Type 0 where
  begin : Reach start
  next : {s t : Pool} → Reach s → Step s t → Reach t
