-- ===== src/Indices.antt =====
-- pthread/task1.c: threads that each print the index that `main` stored for them. Every
-- `pthread_create` succeeds.
pub mod Once
pub mod Ends
mod Tests
use hw.Prelude.{ℕ, zero, suc, ◌≤◌, ◌<◌, ◌≡◌, Option, none, some, List, [], ◌∷◌}
use hw.Prelude.Family.{update}

abbrev pub num_indices : ℕ
num_indices = 5

-- Where a thread stands in `print_index`.
pub data IndexPc : Type 0 where
  absent : IndexPc  -- not created
  created : IndexPc  -- before it reads its argument
  holding : ℕ → IndexPc  -- the index in hand
  printed : IndexPc  -- returned

-- Where `main` stands, with the `i` of its loops.
pub data MainPc : Type 0 where
  storing : ℕ → MainPc  -- the test of the first `for`
  creating : ℕ → MainPc  -- the index stored
  joining : ℕ → MainPc  -- the test of the second
  returned : MainPc

-- `t_id` is `none` where nothing was stored. `lines` are the indices printed, the last one first.
pub record Printing : Type 0 where
  pub t_id : ℕ → Option ℕ
  pub threads : ℕ → IndexPc
  pub main : MainPc
  pub lines : List ℕ

pub data Step (s : Printing) : Printing → Type 0 where
  store :
      (i : ℕ)
      → s.main ≡ storing i
      → i < num_indices
      → Step s (record s { t_id = update s.t_id i (some i); main = creating i })
  create :
      (i : ℕ)
      → s.main ≡ creating i
      → Step s (record s { threads = update s.threads i created; main = storing (suc i) })
  all_created :
      (i : ℕ) → s.main ≡ storing i → num_indices ≤ i → Step s (record s { main = joining 0 })
  -- `int index = *((int *)arg);`, of the array's member that the thread was given
  read :
      (t v : ℕ)
      → s.threads t ≡ created
      → s.t_id t ≡ some v
      → Step s (record s { threads = update s.threads t (holding v) })
  print :
      (t v : ℕ)
      → s.threads t ≡ holding v
      → Step s (record s { threads = update s.threads t printed; lines = v ∷ s.lines })
  -- `pthread_join` waits for the thread's end.
  join :
      (i : ℕ)
      → s.main ≡ joining i
      → i < num_indices
      → s.threads i ≡ printed
      → Step s (record s { main = joining (suc i) })
  return : (i : ℕ) → s.main ≡ joining i → num_indices ≤ i → Step s (record s { main = returned })

abbrev pub start : Printing
start = record { t_id = λ i. none; threads = λ t. absent; main = storing 0; lines = [] }

pub data Reach : Printing → Type 0 where
  begin : Reach start
  next : {s t : Printing} → Reach s → Step s t → Reach t
