-- ===== src/Substring.antt =====
-- pointers/task4.c: the first occurrence of a string in another, and the program that asks for
-- both. Strings are the bytes before their NUL.
pub mod Laws
mod Tests
use hw.Prelude.{
  ℕ, zero, suc, ◌+◌, ◌-◌, Bool, true, false, List, [], ◌∷◌, ◌++◌, Option, none, some, ◌==◌,
  if◌then◌else◌, length,
}
use hw.Prelude.Outcome.{Outcome, done, fault, ◌>>=◌}
use hw.Stdio.{c_string}

-- The inner `while`, from a position in the string and one in the pattern: what of the pattern is
-- left where it stops.
unfoldable pub match_loop : List ℕ → List ℕ → List ℕ
match_loop [] pattern = pattern
match_loop (c ∷ str) [] = []
match_loop (c ∷ str) (d ∷ pattern) = elim (c == d) [
  | true ↦ match_loop str pattern
  | false ↦ d ∷ pattern
]

abbrev pub is_empty : List ℕ → Bool
is_empty [] = true
is_empty (c ∷ s) = false

-- The string from the place that is returned on, or `none` for NULL.
unfoldable pub find_substring : List ℕ → List ℕ → Option (List ℕ)
find_substring [] substr = none
find_substring (c ∷ str) substr = elim (is_empty (match_loop (c ∷ str) substr)) [
  | true ↦ some (c ∷ str)
  | false ↦ find_substring str substr
]

-- `fgets(s, size, stdin)`: at most `size - 1` bytes, up to and with a newline; what is read, and the
-- input left.
unfoldable pub read_line : ℕ → List ℕ → List ℕ × List ℕ
read_line zero input = ([], input)
read_line (suc room) [] = ([], [])
read_line (suc room) (c ∷ input) =
    let (line, rest) = read_line room input in
    if c == b'\n' then (c ∷ [], input) else (c ∷ line, rest)

-- At the end of the input `fgets` stores nothing, and the array was never set.
abbrev pub fgets : ℕ → List ℕ → Outcome (List ℕ × List ℕ)
fgets size [] = fault
fgets size (c ∷ input) = done (read_line (size - 1) (c ∷ input))

-- `s[strcspn(s, "\n")] = '\0'`, and the C string that is left.
unfoldable pub cut_newline : List ℕ → List ℕ
cut_newline [] = []
cut_newline (c ∷ s) = elim (c == b'\n') [ true ↦ [] | false ↦ c ∷ cut_newline s ]

abbrev pub size : ℕ
size = 100

-- What the program prints: the rest of the string from the occurrence on, or that there is none.
unfoldable pub main : List ℕ → Outcome (Option (List ℕ))
unfolding read_line c_string cut_newline find_substring match_loop
main input = do
  (first, rest) ← fgets size input
  (second, rest') ← fgets size rest
  done (find_substring (c_string (cut_newline first)) (c_string (cut_newline second)))
