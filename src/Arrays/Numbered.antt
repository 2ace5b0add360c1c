-- ===== src/Arrays/Numbered.antt =====
-- The numbers of the square in arrays/task1.c.
use hw.Prelude.{
  ℕ, zero, suc, ◌+◌, ◌*◌, ◌≤◌, ◌<◌, ◌≡◌, refl, ap, ◌∙◌, false, List, some, arith, ltb, get_elem?,
}
use hw.Prelude.Outcome.{done}
use hw.Stdio.{int_max}
use hw.Arrays.{print_row, print_rows, print_matrix}

print_row_last : (left value : ℕ) → (print_row left value).1 ≡ value + left
unfolding print_row
print_row_last zero value = omega arith
print_row_last (suc left) value = omega (arith, print_row_last left (suc value))

print_row_elem :
    (left value j : ℕ) → j < left → get_elem? (print_row left value).0 j ≡ some (value + j)
unfolding print_row
print_row_elem zero value j h = absurd (omega arith)
print_row_elem (suc left) value zero h = ap some (omega arith)
print_row_elem (suc left) value (suc j) h =
    print_row_elem left (suc value) j (omega arith) ∙ ap some (omega arith)

print_rows_elem :
    (left n value i : ℕ)
    → i < left
    → get_elem? (print_rows left n value) i ≡ some (print_row n (value + i * n)).0
unfolding print_rows
print_rows_elem zero n value i h = absurd (omega arith)
print_rows_elem (suc left) n value zero h = ap (λ t. some (print_row n t).0) (omega arith)
print_rows_elem (suc left) n value (suc i) h =
    print_rows_elem left n (print_row n value).1 i (omega arith)
    ∙ ap (λ t. some (print_row n t).0) (omega (arith, print_row_last n value))

-- For a size whose square and one fit `int`, the number in row `i` and column `j` of the square
-- printed is `i * n + j + 1`.
pub print_matrix_lem :
    (n i j : ℕ)
    → n * n + 1 ≤ int_max
    → i < n
    → j < n
    → (rows : List (List ℕ)) × (print_matrix n ≡ done rows)
      × (row : List ℕ) × (get_elem? rows i ≡ some row)
      × (get_elem? row j ≡ some (i * n + j + 1))
unfolding print_matrix
print_matrix_lem n i j fits hi hj =
    let small : ltb int_max (n * n + 1) ≡ false = ground (arith, fits) in
    (
      print_rows n n 1,
      rw small refl,
      (print_row n (1 + i * n)).0,
      print_rows_elem n n 1 i hi,
      print_row_elem n (1 + i * n) j hj ∙ ap some (omega arith),
    )
