-- ===== src/Contacts/Fixed/Spec.antt =====
-- The book of structs/task.c as a list of entries: what each command does to it.
use hw.Prelude.{
  ℕ, zero, suc, ◌-◌, ◌≤◌, true, false, List, [], ◌∷◌, ◌++◌, none, some, length, leb, replicate,
}
use hw.Prelude.Outcome.{Outcome, done, fault, out_of_fuel, ◌>>=◌}
use hw.Stdio.{Buffer, read_word}
use hw.Contacts.Common.{
  Abonent, zeroed, Message, book_full, deleted, not_found, leaving, wrong_choice, name_len,
  read_abonent, Choice, read_choice, Command, decode,
}
use hw.Contacts.Spec.{Phonebook, AllKnown, remove_first, any_named, found, all_shown}
use hw.Contacts.Fixed.{max_abonents, Book, is_exit}

-- The free places behind `n` entries: all zero.
abbrev pub free_places : ℕ → List Abonent
free_places n = replicate (max_abonents - n) zeroed

-- How the program stores a book.
abbrev pub stored : Phonebook → Book
stored p = record {
  list = p.entries ++ free_places (length p.entries);
  count = length p.entries;
  printed = p.printed;
}

pub record IsBook (p : Phonebook) : Type 0 where
  pub all_known : AllKnown p.entries
  pub bounded : length p.entries ≤ max_abonents

abbrev pub reply : Phonebook → Message → Phonebook
reply p m = record p { printed = p.printed ++ (m ∷ []) }

unfoldable pub spec_add : Phonebook → List ℕ → Outcome (Phonebook × List ℕ)
spec_add p input = elim (leb max_abonents (length p.entries)) [
  | true ↦ done (reply p book_full, input)
  | false ↦ (do
    (a, rest) ← read_abonent zeroed input
    done (record p { entries = p.entries ++ (a ∷ []) }, rest))
]

-- A name that was never read is undefined; it is used only where there is an entry to compare.
abbrev pub spec_delete_named : Phonebook → Buffer → Outcome Phonebook
spec_delete_named p none = elim p.entries [ [] ↦ done (reply p not_found) | _ ∷ _ ↦ fault ]
spec_delete_named p (some k) = done (
    reply (record p { entries = remove_first k p.entries })
      (elim (any_named k p.entries) [ true ↦ deleted | false ↦ not_found ]))

unfoldable pub spec_delete : Phonebook → List ℕ → Outcome (Phonebook × List ℕ)
spec_delete p input = do
  (name, rest) ← read_word name_len none input
  q ← spec_delete_named p name
  done (q, rest)

abbrev pub spec_search_named : Phonebook → Buffer → Outcome Phonebook
spec_search_named p none = elim p.entries [
  | [] ↦ done (record p { printed = p.printed ++ [] })
  | _ ∷ _ ↦ fault
]
spec_search_named p (some k) = done (record p { printed = p.printed ++ found k p.entries })

unfoldable pub spec_search : Phonebook → List ℕ → Outcome (Phonebook × List ℕ)
spec_search p input = do
  (name, rest) ← read_word name_len none input
  q ← spec_search_named p name
  done (q, rest)

unfoldable pub spec_dispatch : Command → Phonebook → List ℕ → Outcome (Phonebook × List ℕ)
spec_dispatch Command.add p input = spec_add p input
spec_dispatch Command.delete p input = spec_delete p input
spec_dispatch Command.search p input = spec_search p input
spec_dispatch Command.print p input =
    done (record p { printed = p.printed ++ all_shown p.entries }, input)
spec_dispatch Command.exit p input = done (reply p leaving, input)
spec_dispatch Command.other p input = done (reply p wrong_choice, input)

unfoldable pub spec_menu : ℕ → Choice → Phonebook → List ℕ → Outcome Phonebook
spec_menu zero choice p input = out_of_fuel
spec_menu (suc fuel) choice p input = do
  (choice', input') ← read_choice choice input
  c ← decode choice'
  (p', rest) ← spec_dispatch c p input'
  elim (is_exit c) [ true ↦ done p' | false ↦ spec_menu fuel choice' p' rest ]

abbrev pub both : Phonebook × List ℕ → Book × List ℕ
both (p, rest) = (stored p, rest)
