-- ===== src/Password.antt =====
-- functions/task.c: a password is read by `gets` into twelve bytes and compared.
pub mod Laws
mod Tests
use hw.Prelude.{
  ℕ, Bool, true, false, List, [], ◌∷◌, Option, none, some, ltb, ◌==◌, if◌then◌else◌, length,
}
use hw.Prelude.Outcome.{Outcome, done, fault, ◌>>=◌}
use hw.Stdio.{codes, c_string, same_string}

-- The line that `gets` reads: the bytes before a newline or the end of the input; `none` where the
-- input has ended.
unfoldable pub line_of : List ℕ → List ℕ
line_of [] = []
line_of (c ∷ input) = elim (c == 10) [ true ↦ [] | false ↦ c ∷ line_of input ]

unfoldable pub gets : List ℕ → Option (List ℕ)
unfolding line_of
gets [] = none
gets (c ∷ input) = some (line_of (c ∷ input))

-- At the end of the input the array is compared as it was, never stored to; a line that leaves no
-- room for its NUL is stored outside the array.
unfoldable pub is_pass_ok : List ℕ → Outcome Bool
unfolding gets same_string c_string
is_pass_ok input = elim (gets input) [
  | none ↦ fault
  | some line ↦
      if ltb (length line) 12 then done (same_string (c_string line) (codes "test")) else fault
]

-- The status, and the lines printed.
unfoldable pub main : List ℕ → Outcome (ℕ × List (List ℕ))
unfolding is_pass_ok
main input = do
  ok ← is_pass_ok input
  elim ok [
    | false ↦ done (1, codes "Enter password:" ∷ codes "Bad password!" ∷ [])
    | true ↦ done (0, codes "Enter password:" ∷ codes "Access granted!" ∷ [])
  ]
