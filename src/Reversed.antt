-- ===== src/Reversed.antt =====
-- file system/hello/hello.c: a program that writes a text to a file and prints the file from its
-- end. What the calls of the C library come to is an argument.
pub mod Laws
mod Tests
use hw.Prelude.{
  ℕ, zero, suc, Bool, true, false, not, ◌||◌, List, [], ◌∷◌, Option, none, some, if◌then◌else◌,
  length, get_elem?,
}

-- Which calls succeed, in the order of the program, those of the loop by their position; and what
-- the file holds when it is opened for reading.
pub record Calls : Type 0 where
  pub opens_write : Bool
  pub puts : Bool
  pub opens_read : Bool
  pub seeks_end : Bool
  pub tells : Bool
  pub seeks : ℕ → Bool
  pub reads : ℕ → Bool
  pub content : List ℕ

-- `fgetc` at a position: `none` for EOF.
unfoldable pub fgetc : Calls → ℕ → Option ℕ
fgetc calls i = if calls.reads i then get_elem? calls.content i else none

-- The loop for the positions below `i`, from the last on: what is printed, and whether it came to
-- its end.
unfoldable pub print_back : Calls → ℕ → List ℕ × Bool
print_back calls zero = ([], true)
print_back calls (suc i) =
    let (later, whole) = print_back calls i in
    if not (calls.seeks i)
    then ([], false)
    else (elim (fgetc calls i) [ none ↦ ([], false) | some ch ↦ (ch ∷ later, whole) ])

-- What is printed of the file, and the exit status.
unfoldable pub main : Calls → List ℕ × ℕ
unfolding print_back fgetc
main calls =
    let (printed, whole) = print_back calls (length calls.content) in
    if not calls.opens_write || not calls.puts
    then ([], 1)
    else if not calls.opens_read
    then ([], 1)
    else if not calls.seeks_end || not calls.tells
    then ([], 1)
    else (printed, if whole then 0 else 1)
