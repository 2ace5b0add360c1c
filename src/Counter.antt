-- ===== src/Counter.antt =====
-- pthread/task2.c: threads that increment one counter under a mutex. `counter++` is a load and a
-- store, with steps of other threads between them.
pub mod Final
pub mod Main
pub mod Ends
mod Tests
use hw.Prelude.{ℕ, suc, Option, none, some, ◌≤◌, ◌<◌, ◌≡◌, Bool, true, false}
use hw.Prelude.Family.{update}

abbrev pub num_threads : ℕ
num_threads = 5

abbrev pub num_increments : ℕ
num_increments = 1000000

-- Where a thread stands in `increment`.
pub data ThreadPc : Type 0 where
  looping : ThreadPc  -- the test of the `for`
  holding : ThreadPc  -- the mutex held
  loaded : ℕ → ThreadPc  -- the counter's value in hand
  stored : ThreadPc  -- before the mutex is unlocked
  ended : ThreadPc  -- returned

pub record Thread : Type 0 where
  pub i : ℕ
  pub pc : ThreadPc

pub record Process : Type 0 where
  pub counter : ℕ
  pub locked : Bool
  pub threads : ℕ → Thread

-- Thread `t` goes on to `pc` with its index unchanged.
abbrev pub goes : Process → ℕ → ThreadPc → ℕ → Thread
goes s t pc = update s.threads t (record { i = (s.threads t).i; pc = pc })

pub data Step (s : Process) : Process → Type 0 where
  lock :
      (t : ℕ)
      → t < num_threads
      → (s.threads t).pc ≡ looping
      → (s.threads t).i < num_increments
      → s.locked ≡ false
      → Step s (record s { locked = true; threads = goes s t holding })
  end :
      (t : ℕ)
      → t < num_threads
      → (s.threads t).pc ≡ looping
      → num_increments ≤ (s.threads t).i
      → Step s (record s { threads = goes s t ended })
  load :
      (t : ℕ)
      → t < num_threads
      → (s.threads t).pc ≡ holding
      → Step s (record s { threads = goes s t (loaded s.counter) })
  store :
      (t v : ℕ)
      → t < num_threads
      → (s.threads t).pc ≡ loaded v
      → Step s (record s { counter = suc v; threads = goes s t stored })
  unlock :
      (t : ℕ)
      → t < num_threads
      → (s.threads t).pc ≡ stored
      → Step s (record s {
        locked = false;
        threads = update s.threads t (record { i = suc (s.threads t).i; pc = looping });
      })

unfoldable pub start : Process
start = record { counter = 0; locked = false; threads = λ t. record { i = 0; pc = looping } }

pub data Reach : Process → Type 0 where
  begin : Reach start
  next : {s t : Process} → Reach s → Step s t → Reach t

-- Where `main` stands, with the `i` of its loops. Every `pthread_create` succeeds.
pub data MainPc : Type 0 where
  creating : ℕ → MainPc  -- the test of the first `for`
  joining : ℕ → MainPc  -- the test of the second
  destroying : MainPc  -- before the mutex is destroyed
  printing : MainPc  -- before the value is printed
  returned : MainPc

-- The program: its threads, how many of them are created, whether the mutex is destroyed, and the
-- value printed.
pub record Program : Type 0 where
  pub process : Process
  pub main : MainPc
  pub created : ℕ
  pub destroyed : Bool
  pub printed : Option ℕ

pub data Run (w : Program) : Program → Type 0 where
  -- A step of a thread: one that is created, as the others stay.
  thread :
      (p : Process)
      → Step w.process p
      → ((t : ℕ) → w.created ≤ t → p.threads t ≡ w.process.threads t)
      → Run w (record w { process = p })
  create :
      (i : ℕ)
      → w.main ≡ creating i
      → i < num_threads
      → Run w (record w { created = suc i; main = creating (suc i) })
  all_created :
      (i : ℕ) → w.main ≡ creating i → num_threads ≤ i → Run w (record w { main = joining 0 })
  -- `pthread_join` waits for the thread's end.
  join :
      (i : ℕ)
      → w.main ≡ joining i
      → i < num_threads
      → (w.process.threads i).pc ≡ ended
      → Run w (record w { main = joining (suc i) })
  all_joined :
      (i : ℕ) → w.main ≡ joining i → num_threads ≤ i → Run w (record w { main = destroying })
  destroy : w.main ≡ destroying → Run w (record w { main = printing; destroyed = true })
  print : w.main ≡ printing → Run w (record w { main = returned; printed = some w.process.counter })

-- `main` behind `pthread_mutex_init`.
unfoldable pub begun : Program
unfolding start
begun = record {
  process = start;
  main = creating 0;
  created = 0;
  destroyed = false;
  printed = none;
}

pub data Runs : Program → Type 0 where
  first : Runs begun
  more : {w v : Program} → Runs w → Run w v → Runs v
