-- ===== src/Contacts/Agree.antt =====
-- structs/task.c and dynamic/task.c on the same input: the one shifts the entries behind a removed
-- one, the other moves the last entry into its place. What is compared, and on which inputs.
pub mod Steps
pub mod Runs
use mathlib.Core.List.{Perm}
use mathlib.Core.List.Perm
use mathlib.Core.Quot
use mathlib.Core.Quot.{Quot}
use hw.Prelude.{
  ℕ, zero, suc, Bool, true, false, ◌&&◌, List, none, some, arith, length, ltb, leb, if◌then◌else◌,
}
use hw.Prelude.Outcome.{Outcome, done, fault, out_of_fuel}
use hw.Stdio.{same_string, Buffer, read_word}
use hw.Contacts.Common.{
  Abonent, fresh, Message, name_len, read_abonent, Choice, read_choice, Command, decode,
}
use hw.Contacts.Spec.{is_named, Phonebook, known}
use hw.Contacts.Contents.{named}
use hw.Contacts.Fixed
use hw.Contacts.Fixed.{max_abonents, is_exit}
use hw.Contacts.Fixed.Spec.{spec_add, spec_delete, spec_search, spec_dispatch}
use hw.Contacts.Dynamic
use hw.Contacts.Dynamic.Spec.{add}

-- What was printed, but for the order.
abbrev pub Transcript : Type 0
Transcript = Quot (Perm {A = Message})

abbrev pub transcript : List Message → Transcript
transcript = Quot.mk

-- What a run printed, and whether it returned from `main`.
abbrev pub printed_of : List Message × Bool → Transcript × Bool
printed_of (ms, returned) = (transcript ms, returned)

-- Whether three words were read into an entry.
abbrev pub whole : Outcome (Abonent × List ℕ) → Bool
whole (done (a, rest)) = known a.name && (known a.second_name && known a.tel)
whole fault = false
whole out_of_fuel = false

-- Whether a name was read, and one that passes the test.
abbrev pub named_well : (List ℕ → Bool) → Outcome (Buffer × List ℕ) → Bool
named_well test (done (none, rest)) = false
named_well test (done (some k, rest)) = test k
named_well test fault = false
named_well test out_of_fuel = false

-- What a command is given: a whole entry and a free place for it, or a name, which at most one
-- entry has where it is to be removed.
unfoldable pub suits : Command → Phonebook → List ℕ → Bool
suits Command.add p input = ltb (length p.entries) max_abonents && whole (read_abonent fresh input)
suits Command.delete p input =
    named_well (λ k. leb (named k p.entries) 1) (read_word name_len none input)
suits Command.search p input = named_well (λ k. true) (read_word name_len none input)
suits Command.print p input = true
suits Command.exit p input = true
suits Command.other p input = true

-- Whether every command of a run is given what suits it.
unfoldable pub plain : ℕ → Choice → Phonebook → List ℕ → Bool
unfolding suits spec_dispatch spec_add spec_delete spec_search named is_named same_string
    read_choice decode read_abonent read_word
plain zero choice p input = true
plain (suc fuel) choice p input = elim (read_choice choice input) [
  | fault ↦ true
  | out_of_fuel ↦ true
  | done (choice', input') ↦ elim (decode choice') [
    | fault ↦ true
    | out_of_fuel ↦ true
    | done c ↦ suits c p input' && elim (spec_dispatch c p input') [
      | fault ↦ true
      | out_of_fuel ↦ true
      | done (p', rest) ↦ elim (is_exit c) [ true ↦ true | false ↦ plain fuel choice' p' rest ]
    ]
  ]
]
