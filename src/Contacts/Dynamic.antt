-- ===== src/Contacts/Dynamic.antt =====
-- dynamic/task.c: a telephone book in a block of memory that `realloc` resizes.
pub mod Laws
pub mod Spec
pub mod Refines
pub mod Known
use hw.Prelude.{
  ℕ, zero, suc, ◌+◌, ◌-◌, Bool, true, false, List, [], ◌∷◌, ◌++◌, Option, none, some, ◌==◌, set,
  length, ltb, replicate, take,
}
use hw.Prelude.Outcome.{Outcome, done, fault, out_of_fuel, ◌>>=◌, ◌>>◌}
use hw.Stdio.{Buffer, read_word}
use hw.Contacts.Common.{
  show_abonent, Abonent, fresh, Message, deleted, not_found, leaving, wrong_choice, no_memory, load,
  name_len, read_abonent, has_name, search_loop, print_loop, Choice, read_choice, Command, decode,
}
use hw.Contacts.Fixed.{store, is_exit}

-- The variables of `main`, and what was printed. The block that `list` points to is the list of
-- its entries, `NULL` the empty one. `requests` counts the calls of `realloc` with a size that is
-- not zero, which the allocator may refuse.
pub record Book : Type 0 where
  pub list : List Abonent
  pub count : ℕ
  pub requests : ℕ
  pub printed : List Message

-- What a call comes to: back to the menu with the rest of the input, or `exit(1)`.
pub data Turn : Type 0 where
  back : Book → List ℕ → Turn
  exit_failure : List Message → Turn

abbrev pub say : Book → Message → Book
say b m = record b { printed = b.printed ++ (m ∷ []) }

-- The block after a `realloc` to `n` entries: what fits is kept, what is new is undefined.
abbrev pub resized : ℕ → List Abonent → List Abonent
resized n xs = take n xs ++ replicate (n - length xs) fresh

-- What `delete_abonent` does to the block with the entry that it found at `i`: the last entry
-- takes its place.
unfoldable pub delete_at : List Abonent → ℕ → ℕ → Outcome (Option (List Abonent))
delete_at list i count = do
  last ← load list (count - 1)
  list' ← store list i last
  done (some list')

-- The loop of `delete_abonent` from `i` on: `none` if it ends without a hit.
unfoldable pub delete_loop : ℕ → ℕ → List Abonent → ℕ → Buffer → Outcome (Option (List Abonent))
delete_loop zero i list count name = done none
delete_loop (suc left) i list count name = do
  a ← load list i
  hit ← has_name a name
  elim hit [ true ↦ delete_at list i count | false ↦ delete_loop left (suc i) list count name ]

-- `grants k` tells whether the allocator serves the request with number `k`.
module _ (grants : ℕ → Bool) where
  unfoldable pub add_abonent : Book → List ℕ → Outcome Turn
  add_abonent b input = elim (grants b.requests) [
    | false ↦ done (exit_failure (b.printed ++ (no_memory ∷ [])))
    | true ↦ (do
      let list = resized (b.count + 1) b.list
      old ← load list b.count
      (a, rest) ← read_abonent old input
      list' ← store list b.count a
      done (back (record b { list = list'; count = b.count + 1; requests = suc b.requests }) rest))
  ]

  -- The second half of a deletion: `realloc` to one entry less. A size of zero frees the block.
  unfoldable pub shrink : Book → List Abonent → List ℕ → Turn
  shrink b list rest = elim (b.count - 1 == 0) [
    | true ↦ back (say (record b { list = []; count = b.count - 1 }) deleted) rest
    | false ↦ elim (grants b.requests) [
      | true ↦
          back
            (say
              (record b {
                list = resized (b.count - 1) list;
                count = b.count - 1;
                requests = suc b.requests;
              })
              deleted)
            rest
      | false ↦ exit_failure (b.printed ++ (no_memory ∷ []))
    ]
  ]

  unfoldable pub delete_abonent : Book → List ℕ → Outcome Turn
  delete_abonent b input = do
    (name, rest) ← read_word name_len none input
    found ← delete_loop b.count 0 b.list b.count name
    done (elim found [ none ↦ back (say b not_found) rest | some list ↦ shrink b list rest ])

  unfoldable pub search_abonent : Book → List ℕ → Outcome Turn
  search_abonent b input = do
    (name, rest) ← read_word name_len none input
    found ← search_loop b.list name b.count 0
    done (back (record b { printed = b.printed ++ found }) rest)

  unfoldable pub print_abonent : Book → List ℕ → Outcome Turn
  print_abonent b input = do
    all ← print_loop b.list b.count 0
    done (back (record b { printed = b.printed ++ all }) input)

  -- The `switch` of `main`.
  unfoldable pub dispatch : Command → Book → List ℕ → Outcome Turn
  dispatch Command.add b input = add_abonent b input
  dispatch Command.delete b input = delete_abonent b input
  dispatch Command.search b input = search_abonent b input
  dispatch Command.print b input = print_abonent b input
  dispatch Command.exit b input = done (back (say b leaving) input)
  dispatch Command.other b input = done (back (say b wrong_choice) input)

  -- The `do … while (choice != 5)` loop, at most `fuel` rounds of it: what was printed, and
  -- whether the program returned from `main`.
  unfoldable pub menu_loop : ℕ → Choice → Book → List ℕ → Outcome (List Message × Bool)
  menu_loop zero choice b input = out_of_fuel
  menu_loop (suc fuel) choice b input = do
    (choice', input') ← read_choice choice input
    c ← decode choice'
    turn ← dispatch c b input'
    elim turn [
      | exit_failure printed ↦ done (printed, false)
      | back b' rest ↦ elim (is_exit c) [
        | true ↦ done (b'.printed, true)
        | false ↦ menu_loop fuel choice' b' rest
      ]
    ]

  unfoldable pub main : ℕ → List ℕ → Outcome (List Message × Bool)
  unfolding menu_loop dispatch add_abonent delete_abonent search_abonent print_abonent delete_loop
      delete_at shrink store load read_abonent has_name show_abonent search_loop print_loop
      read_word read_choice decode
  main fuel input =
      menu_loop fuel none (record { list = []; count = 0; requests = 0; printed = [] }) input
