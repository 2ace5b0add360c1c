-- ===== src/Contacts/Fixed.antt =====
-- structs/task.c: a telephone book in an array of MAX_ABONENTS entries.
pub mod Spec
pub mod Loops
pub mod Laws
pub mod Invariant
use hw.Prelude.{
  ℕ, zero, suc, ◌+◌, ◌-◌, Bool, true, false, List, [], ◌∷◌, ◌++◌, none, some, leb, set, length, ltb,
  replicate,
}
use hw.Prelude.Outcome.{Outcome, done, fault, out_of_fuel, check, ◌>>=◌, ◌>>◌}
use hw.Stdio.{Buffer, read_word}
use hw.Contacts.Common.{
  show_abonent, Abonent, zeroed, Message, book_full, deleted, not_found, leaving, wrong_choice,
  load, read_abonent, has_name, search_loop, print_loop, Choice, read_choice, Command, decode,
  name_len,
}

abbrev pub max_abonents : ℕ
max_abonents = 100

-- The variables of `main`, and what was printed, oldest first.
pub record Book : Type 0 where
  pub list : List Abonent
  pub count : ℕ
  pub printed : List Message

-- A store into the array.
unfoldable pub store : List Abonent → ℕ → Abonent → Outcome (List Abonent)
store list i a = do check (ltb i (length list)); done (set list i a)

abbrev pub say : Book → Message → Book
say b m = record b { printed = b.printed ++ (m ∷ []) }

unfoldable pub add_abonent : Book → List ℕ → Outcome (Book × List ℕ)
add_abonent b input = elim (leb max_abonents b.count) [
  | true ↦ done (say b book_full, input)
  | false ↦ (do
    old ← load b.list b.count
    (a, rest) ← read_abonent old input
    list ← store b.list b.count a
    done (record b { list = list; count = b.count + 1 }, rest))
]

-- `for (j = i; j < count - 1; j++) list[j] = list[j + 1];` with `left` rounds to go
unfoldable pub shift_loop : ℕ → ℕ → List Abonent → Outcome (List Abonent)
shift_loop zero j list = done list
shift_loop (suc left) j list = do
  a ← load list (suc j)
  list' ← store list j a
  shift_loop left (suc j) list'

-- What `delete_abonent` does with the entry that it found at `i`: the array, the count, and that
-- an entry was deleted.
unfoldable pub delete_at : List Abonent → ℕ → ℕ → Outcome (List Abonent × ℕ × Bool)
delete_at list i count = do
  shifted ← shift_loop (count - 1 - i) i list
  cleared ← store shifted (count - 1) zeroed
  done (cleared, count - 1, true)

-- The outer loop of `delete_abonent` from `i` on, with `left` rounds to go.
unfoldable pub delete_loop : ℕ → ℕ → List Abonent → ℕ → Buffer → Outcome (List Abonent × ℕ × Bool)
delete_loop zero i list count name = done (list, count, false)
delete_loop (suc left) i list count name = do
  a ← load list i
  hit ← has_name a name
  elim hit [ true ↦ delete_at list i count | false ↦ delete_loop left (suc i) list count name ]

unfoldable pub delete_abonent : Book → List ℕ → Outcome (Book × List ℕ)
delete_abonent b input = do
  (name, rest) ← read_word name_len none input
  (list, count, hit) ← delete_loop b.count 0 b.list b.count name
  done (
    say (record b { list = list; count = count }) (elim hit [ true ↦ deleted | false ↦ not_found ]),
    rest,
  )

unfoldable pub search_abonent : Book → List ℕ → Outcome (Book × List ℕ)
search_abonent b input = do
  (name, rest) ← read_word name_len none input
  found ← search_loop b.list name b.count 0
  done (record b { printed = b.printed ++ found }, rest)

unfoldable pub print_abonents : Book → Outcome Book
print_abonents b = do
  all ← print_loop b.list b.count 0
  done (record b { printed = b.printed ++ all })

-- The `switch` of `main`.
unfoldable pub dispatch : Command → Book → List ℕ → Outcome (Book × List ℕ)
dispatch Command.add b input = add_abonent b input
dispatch Command.delete b input = delete_abonent b input
dispatch Command.search b input = search_abonent b input
dispatch Command.print b input = do b' ← print_abonents b; done (b', input)
dispatch Command.exit b input = done (say b leaving, input)
dispatch Command.other b input = done (say b wrong_choice, input)

abbrev pub is_exit : Command → Bool
is_exit Command.exit = true
is_exit Command.add = false
is_exit Command.delete = false
is_exit Command.search = false
is_exit Command.print = false
is_exit Command.other = false

-- The `do … while (choice != 5)` loop, at most `fuel` rounds of it.
unfoldable pub menu_loop : ℕ → Choice → Book → List ℕ → Outcome Book
menu_loop zero choice b input = out_of_fuel
menu_loop (suc fuel) choice b input = do
  (choice', input') ← read_choice choice input
  c ← decode choice'
  (b', rest) ← dispatch c b input'
  elim (is_exit c) [ true ↦ done b' | false ↦ menu_loop fuel choice' b' rest ]

abbrev pub empty_book : Book
empty_book = record { list = replicate max_abonents zeroed; count = 0; printed = [] }

unfoldable pub main : ℕ → List ℕ → Outcome Book
unfolding menu_loop dispatch add_abonent delete_abonent search_abonent print_abonents delete_loop
    delete_at shift_loop store load read_abonent has_name show_abonent search_loop print_loop
    read_word read_choice decode
main fuel input = menu_loop fuel none empty_book input
