-- ===== src/ServerQueue.antt =====
-- sockets/hw2/server queue/server.c: the bounded queue of client sockets that the accepting
-- thread fills and the worker threads empty. This file has the queue itself, `client_queue_t`
-- without its mutex and condition variables, and the bodies of the two critical sections.
-- The threads, the mutex and the waiting are in `System`.
pub mod System
pub mod Ring
pub mod Invariant
pub mod Safety
pub mod Progress
pub mod Quiet
mod Tests
use hw.Prelude.{
  ℕ, ◌+◌, ◌-◌, ◌%◌, List, Option, none, some, ltb, length, get_elem?, set, replicate, if◌then◌else◌,
}

-- QUEUE_SIZE and MAX_THREADS
abbrev pub queue_size : ℕ
queue_size = 10

abbrev pub max_threads : ℕ
max_threads = 5

-- `client_info_t` holds a client socket and nothing else, so the array is one of sockets.
pub record ClientQueue : Type 0 where
  pub queue : List ℕ
  pub front : ℕ
  pub rear : ℕ
  pub count : ℕ

-- The global queue before `init_queue`: static storage is zero.
abbrev pub client_queue : ClientQueue
client_queue = record { queue = replicate queue_size 0; front = 0; rear = 0; count = 0 }

pub init_queue : ClientQueue → ClientQueue
init_queue q = record q { front = 0; rear = 0; count = 0 }

-- The body of `add_to_queue` behind its wait. `none` is a store outside the array.
pub add_to_queue : ClientQueue → ℕ → Option ClientQueue
add_to_queue q client_socket =
    if ltb q.rear (length q.queue)
    then some (record q {
      queue = set q.queue q.rear client_socket;
      rear = (q.rear + 1) % queue_size;
      count = q.count + 1;
    })
    else none

-- The body of `remove_from_queue` behind its wait: the socket and the queue left. `none` is a
-- load outside the array.
pub remove_from_queue : ClientQueue → Option (ℕ × ClientQueue)
remove_from_queue q = elim (get_elem? q.queue q.front) [
  | none ↦ none
  | some client_socket ↦
      some (client_socket, record q { front = (q.front + 1) % queue_size; count = q.count - 1 })
]
