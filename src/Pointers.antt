-- ===== src/Pointers.antt =====
-- pointers/task2.c and task3.c: two pointers to one variable, and an array read through a pointer.
mod Tests
pub mod Numbers
use hw.Prelude.{ℕ, zero, suc, List, [], ◌∷◌, Option, none, some, replicate}
use hw.Prelude.Outcome.{Outcome, done, fault, ◌>>=◌}
use hw.Arrays.{load, store}

abbrev pub n_elements : ℕ
n_elements = 10

-- The loop that stores `i + 1` at each place, with `left` places to go.
unfoldable pub number_loop : ℕ → ℕ → List (Option ℕ) → Outcome (List (Option ℕ))
number_loop zero i arr = done arr
number_loop (suc left) i arr = do arr' ← store arr i (some (suc i)); number_loop left (suc i) arr'

-- The loop that prints `*(ptr + i)`.
unfoldable pub pointer_loop : ℕ → ℕ → List (Option ℕ) → Outcome (List ℕ)
pointer_loop zero i arr = done []
pointer_loop (suc left) i arr = do
  a ← load arr i
  v ← (elim a [ none ↦ fault | some v ↦ done v ])
  rest ← pointer_loop left (suc i) arr
  done (v ∷ rest)

-- What `main` of task3.c prints, for an array of `n` places.
unfoldable pub numbers_main : ℕ → Outcome (List ℕ)
unfolding number_loop pointer_loop
numbers_main n = do arr ← number_loop n 0 (replicate n none); pointer_loop n 0 arr

-- task2.c. A pointer is the variable that it points to; the numbers of type `float`, and their sum,
-- are parameters.
pub data Variable : Type 0 where
  var_x var_y : Variable

abbrev pub value_at {ℓ} : {F : Type ℓ} → F → F → Variable → F
value_at five six var_x = five
value_at five six var_y = six

-- What `main` prints where `x` is 5.0 and `y` 6.0: the two variables, and the sum.
unfoldable pub sum_main {ℓ} : {F : Type ℓ} → (F → F → F) → F → F → List F
sum_main plus five six =
    let xp = var_y in
    let yp = var_y in five ∷ six ∷ plus (value_at five six xp) (value_at five six yp) ∷ []
