-- ===== src/Contacts/Tests.antt =====
-- Runs of both telephone books, and their theorems at concrete books and inputs.
use Prim.Native.String.{String}
use hw.Prelude.{[], ℕ, ◌≡◌, refl, true, false, List, ◌∷◌, none, some, arith}
use hw.Stdio.{codes}
use hw.Prelude.Outcome.{Outcome, done, fault, out_of_fuel, lift}
use hw.Contacts.Common.{Abonent, Message, deleted, leaving, entry}
use hw.Contacts.Spec.{Phonebook}
use hw.Contacts.Fixed
use hw.Contacts.Fixed.Spec.{stored, spec_menu, IsBook}
use hw.Contacts.Fixed.Laws.{main-refines}
use hw.Contacts.Dynamic
use hw.Contacts.Dynamic.Spec.{menu}
use hw.Contacts.Dynamic.Refines.{main-refines_list}
use hw.Contacts.Agree.{printed_of, plain}
use hw.Contacts.Agree.Runs.{same_transcript}

abbrev person : String → String → String → Abonent
person n s t = record { name = some (codes n); second_name = some (codes s); tel = some (codes t) }

abbrev ann : Abonent
ann = person "Ann" "Lee" "555"

abbrev bob : Abonent
bob = person "Bob" "Ray" "777"

abbrev cy : Abonent
cy = person "Cy" "Fox" "999"

abbrev three : Phonebook
three = record { entries = ann ∷ bob ∷ cy ∷ []; printed = [] }

abbrev on_screen : Outcome Fixed.Book → Outcome (List Message)
on_screen = lift (λ b. b.printed)

fixed_run :
    on_screen (Fixed.main 5 (codes "1 Ann Lee 555 1 Bob Ray 777 2 Ann 4 5"))
    ≡ done (deleted ∷ entry (codes "Bob") (codes "Ray") (codes "777") ∷ leaving ∷ [])
unfolding Fixed.main
fixed_run = refl

-- Nothing after the last word: the `scanf` of the next name finds the end of the input.
fixed_unnamed : on_screen (Fixed.main 5 (codes "1 Ann Lee 555 3")) ≡ fault
unfolding Fixed.main
fixed_unnamed = refl

-- Without a number in the input the last choice is made for ever.
fixed_spins : on_screen (Fixed.main 9 (codes "4 quit")) ≡ out_of_fuel
unfolding Fixed.main
fixed_spins = refl

-- A name of ten letters leaves no room for its NUL.
fixed_overflow : on_screen (Fixed.main 5 (codes "1 Alessandro Lee 555 5")) ≡ fault
unfolding Fixed.main
fixed_overflow = refl

dynamic_run :
    Dynamic.main (λ _. true) 7 (codes "1 Ann Lee 555 1 Bob Ray 777 1 Cy Fox 999 2 Ann 4 5")
    ≡ done (
      (deleted
          ∷ entry (codes "Cy") (codes "Fox") (codes "999")
          ∷ entry (codes "Bob") (codes "Ray") (codes "777")
          ∷ leaving
          ∷ []),
      true,
    )
unfolding Dynamic.main
dynamic_run = refl

three-IsBook : IsBook three
three-IsBook = record {
  all_known = ((refl, refl, refl), ((refl, refl, refl), ((refl, refl, refl), tt)));
  bounded = omega arith;
}

main-refines_example :
    Fixed.main 5 (codes "1 Ann Lee 555 2 Bob 5")
    ≡ lift stored
        (spec_menu 5 none (record { entries = []; printed = [] }) (codes "1 Ann Lee 555 2 Bob 5"))
main-refines_example = main-refines 5 (codes "1 Ann Lee 555 2 Bob 5")

main-refines_list_example :
    Dynamic.main (λ _. true) 5 (codes "1 Ann Lee 555 2 Ann 4 5")
    ≡ menu
        (λ _. true)
        5
        none
        (record { entries = []; requests = 0; printed = [] })
        (codes "1 Ann Lee 555 2 Ann 4 5")
main-refines_list_example = main-refines_list (λ _. true) 5 (codes "1 Ann Lee 555 2 Ann 4 5")

abbrev removal_between : List ℕ
removal_between = codes "1 Ann Lee 555 1 Bob Ray 777 1 Cy Fox 999 2 Ann 3 Bob 4 5"

removal_between-plain : plain 8 none (record { entries = []; printed = [] }) removal_between ≡ true
unfolding plain
removal_between-plain = refl

-- Of three entries of one name two are removed: the books keep different ones.
abbrev two_of_three : List ℕ
two_of_three = codes "1 Ann Lee 1 1 Ann Ray 2 1 Ann Fox 3 2 Ann 2 Ann 4 5"

two_of_three-plain : plain 8 none (record { entries = []; printed = [] }) two_of_three ≡ false
unfolding plain
two_of_three-plain = refl

fixed_keeps_last :
    on_screen (Fixed.main 7 two_of_three)
    ≡ done (deleted ∷ deleted ∷ entry (codes "Ann") (codes "Fox") (codes "3") ∷ leaving ∷ [])
unfolding Fixed.main
fixed_keeps_last = refl

dynamic_keeps_second :
    Dynamic.main (λ _. true) 7 two_of_three
    ≡ done (deleted ∷ deleted ∷ entry (codes "Ann") (codes "Ray") (codes "2") ∷ leaving ∷ [], true)
unfolding Dynamic.main
dynamic_keeps_second = refl

same_transcript_example :
    lift (λ b. printed_of (b.printed, true)) (Fixed.main 8 removal_between)
    ≡ lift printed_of (Dynamic.main (λ _. true) 8 removal_between)
same_transcript_example =
    same_transcript (λ _. true) (λ _. refl) 8 removal_between removal_between-plain
