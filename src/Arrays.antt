-- ===== src/Arrays.antt =====
-- arrays/task1.c to arrays/task4.c: a numbered square, a reversal in place, a square split along
-- its second diagonal and a spiral. An array is a list; the elements of one declared without an
-- initialiser are `none` until they are stored to.
pub mod Numbered
mod Tests
use hw.Prelude.{
  ℕ, zero, suc, ◌+◌, ◌-◌, ◌*◌, ◌/◌, ◌≤◌, Bool, true, false, List, [], ◌∷◌, Option, none, some, ltb,
  leb, if◌then◌else◌, length, get_elem?, set, replicate,
}
use hw.Prelude.Int.{ℤ, pos, negsuc}
use hw.Prelude.Outcome.{Outcome, done, fault, out_of_fuel, ◌>>=◌, ◌>>◌}
use hw.Stdio.{scan_int, int_max}

-- The inner loop of `print_matrix`: what it prints, and `value` behind it.
unfoldable pub print_row : ℕ → ℕ → List ℕ × ℕ
print_row zero value = ([], value)
print_row (suc left) value = let (row, last) = print_row left (suc value) in (value ∷ row, last)

-- The outer loop, with `left` rows of `n` to go.
unfoldable pub print_rows : ℕ → ℕ → ℕ → List (List ℕ)
print_rows zero n value = []
print_rows (suc left) n value = let (row, last) = print_row n value in row ∷ print_rows left n last

-- `value` ends one above the last number printed, and must fit `int`.
unfoldable pub print_matrix : ℕ → Outcome (List (List ℕ))
print_matrix n = if ltb int_max (n * n + 1) then fault else done (print_rows n n 1)

-- `main` of arrays/task1.c: a negative size runs no loop, and without a number in the input the
-- size was never set.
unfoldable pub numbered_main : List ℕ → Outcome (List (List ℕ))
unfolding scan_int print_matrix print_rows print_row
numbered_main input = do
  (read, rest) ← scan_int input
  elim read [ none ↦ fault | some n ↦ elim n [ pos m ↦ print_matrix m | negsuc m ↦ done [] ] ]

abbrev pub load {ℓ} : {A : Type ℓ} → List A → ℕ → Outcome A
load xs i = elim (get_elem? xs i) [ none ↦ fault | some a ↦ done a ]

abbrev pub store {ℓ} : {A : Type ℓ} → List A → ℕ → A → Outcome (List A)
store xs i a = if ltb i (length xs) then done (set xs i a) else fault

-- arrays/task2.c: the first loop, and the swaps with `left` of them to go, in an array of `n`.
unfoldable pub count_up : ℕ → ℕ → List ℕ
count_up zero i = []
count_up (suc left) i = suc i ∷ count_up left (suc i)

unfoldable pub swap_loop : ℕ → ℕ → ℕ → List ℕ → Outcome (List ℕ)
swap_loop zero i n arr = done arr
swap_loop (suc left) i n arr = do
  temp ← load arr (n - 1 - i)
  front ← load arr i
  arr' ← store arr (n - 1 - i) front
  arr'' ← store arr' i temp
  swap_loop left (suc i) n arr''

unfoldable pub reverse_main : Outcome (List ℕ)
unfolding swap_loop count_up
reverse_main = swap_loop (8 / 2) 0 8 (count_up 8 0)

abbrev pub Matrix : Type 0
Matrix = List (List (Option ℕ))

abbrev pub unset : ℕ → Matrix
unset n = replicate n (replicate n none)

-- `matrix[i][j] = v`
abbrev pub put : Matrix → ℕ → ℕ → ℕ → Outcome Matrix
put m i j v = load m i >>= λ row. store row j (some v) >>= λ row'. store m i row'

-- arrays/task3.c: both loops, row `i` from column `j` on, with `left` columns or rows to go.
unfoldable pub split_row : ℕ → ℕ → ℕ → ℕ → Matrix → Outcome Matrix
split_row zero n i j m = done m
split_row (suc left) n i j m = do
  m' ← put m i j 0
  m'' ← put m' (n - j - 1) (n - i - 1) 1
  split_row left n i (suc j) m''

unfoldable pub split_rows : ℕ → ℕ → ℕ → Matrix → Outcome Matrix
split_rows zero n i m = done m
split_rows (suc left) n i m = do m' ← split_row (n - i) n i 0 m; split_rows left n (suc i) m'

unfoldable pub split_main : Outcome Matrix
unfolding split_rows split_row
split_main = split_rows 3 3 0 (unset 3)

-- arrays/task4.c: a side of the spiral, of `left` cells from `i` on, along a row or down a column,
-- upwards or downwards, with the next value.
unfoldable pub side : Bool → Bool → ℕ → ℕ → ℕ → ℕ → Matrix → Outcome (Matrix × ℕ)
side along up zero line i value m = done (m, value)
side along up (suc left) line i value m = do
  m' ← if along then put m line i value else put m i line value
  side along up left line (if up then suc i else i - 1) (suc value) m'

-- The `while`: `bottom` and `right` stand for the C variables plus one, which start at `n` and may
-- come down to 0.
unfoldable pub spiral : ℕ → ℕ → ℕ → ℕ → ℕ → ℕ → ℕ → Matrix → Outcome Matrix
spiral zero n top bottom left right value m = out_of_fuel
spiral (suc fuel) n top bottom left right value m = elim (leb value (n * n)) [
  | false ↦ done m
  | true ↦ (do
    (m₁, v₁) ← side true true (right - left) top left value m
    (m₂, v₂) ← side false true (bottom - suc top) (right - 1) (suc top) v₁ m₁
    (m₃, v₃) ← side true false (right - 1 - left) (bottom - 1) (right - 1 - 1) v₂ m₂
    (m₄, v₄) ← side false false (bottom - 1 - suc top) left (bottom - 1 - 1) v₃ m₃
    spiral fuel n (suc top) (bottom - 1) (suc left) (right - 1) v₄ m₄)
]

unfoldable pub spiral_main : Outcome Matrix
unfolding spiral side
spiral_main = spiral 6 5 0 5 0 5 1 (unset 5)
