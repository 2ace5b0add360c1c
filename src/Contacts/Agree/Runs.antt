-- ===== src/Contacts/Agree/Runs.antt =====
-- Runs of structs/task.c and of dynamic/task.c on the same input.
use mathlib.Core.List.Perm
use mathlib.Core.Quot
use mathlib.Core.Quot.{Quot}
use hw.Prelude.{[], ℕ, zero, suc, ◌≡◌, refl, ap, ◌∙◌, Bool, true, false, List, none, arith}
use hw.Prelude.Outcome.{Outcome, done, fault, out_of_fuel, lift, lift-eq_of, ◌>>=◌}
use hw.Contacts.Common.{Choice, read_choice, decode}
use hw.Contacts.Spec.{Phonebook}
use hw.Contacts.Fixed
use hw.Contacts.Fixed.{is_exit}
use hw.Contacts.Fixed.Spec.{stored, spec_dispatch, spec_menu}
use hw.Contacts.Fixed.Laws.{main-refines}
use hw.Contacts.Dynamic
use hw.Contacts.Dynamic.Spec.{Phones, Then, go_on, stop, apply, menu}
use hw.Contacts.Dynamic.Refines.{main-refines_list}
use hw.Contacts.Agree.{Transcript, printed_of, plain}
use hw.Contacts.Agree.Steps.{Alike, Step, dispatch-Step}

stored_printed :
    (m : Outcome Phonebook)
    → lift (λ (b : Fixed.Book). printed_of (b.printed, true)) (lift stored m)
      ≡ lift (λ (t : Phonebook). printed_of (t.printed, true)) m
stored_printed (done p) = refl
stored_printed fault = refl
stored_printed out_of_fuel = refl

module _ (grants : ℕ → Bool) (granted : (n : ℕ) → grants n ≡ true) where
  -- A round of both menus whose commands agree, and what follows it.
  round-transcript :
      (fuel : ℕ) (choice : Choice) (last : Bool) (m : Outcome (Phonebook × List ℕ))
      (n : Outcome Then)
      → Step m n
      → ((p : Phonebook) (q : Phones) (rest : List ℕ)
          → Alike p q
          → m ≡ done (p, rest)
          → last ≡ false
          → lift (λ (t : Phonebook). printed_of (t.printed, true)) (spec_menu fuel choice p rest)
            ≡ lift printed_of (menu grants fuel choice q rest))
      → lift
          (λ (t : Phonebook). printed_of (t.printed, true))
          (m >>= λ t. elim (last) [ true ↦ done t.0 | false ↦ spec_menu fuel choice t.0 t.1 ])
        ≡ lift printed_of (
            n >>= λ turn. elim turn [
              | stop printed ↦ done (printed, false)
              | go_on q rest ↦ elim (last) [
                | true ↦ done (q.printed, true)
                | false ↦ menu grants fuel choice q rest
              ]
            ])
  round-transcript fuel choice true m n s next =
      rw (s.left, s.right)
        (ap {B = Outcome (Transcript × Bool)} (λ t. done (t, true)) (Quot.sound s.alike.printed))
  round-transcript fuel choice false m n s next =
      rw (s.left, s.right) (next s.fixed s.grown s.rest s.alike s.left refl)

  -- Two runs from alike books.
  menu-transcript :
      (fuel : ℕ) (choice : Choice) (p : Phonebook) (q : Phones) (input : List ℕ)
      → Alike p q
      → plain fuel choice p input ≡ true
      → lift (λ (t : Phonebook). printed_of (t.printed, true)) (spec_menu fuel choice p input)
        ≡ lift printed_of (menu grants fuel choice q input)
  unfolding spec_menu menu plain
  menu-transcript zero choice p q input ok h = refl
  menu-transcript (suc fuel) choice p q input ok h =
      lift-eq_of _ _ (read_choice choice input) _ _ λ r er. lift-eq_of _ _ (decode r.0) _ _ λ c ec.
        round-transcript fuel r.0 (is_exit c) (spec_dispatch c p r.1) (apply grants c q r.1)
          (dispatch-Step grants granted c p q r.1 ok (ground (arith, h, er, ec)))
          λ p' q' rest alike e more.
            menu-transcript fuel r.0 p' q' rest alike (ground (arith, h, er, ec, e, more))

  -- Where the allocator serves every request, and every command of the run is given what suits it
  -- (an added entry is read in full and finds a free place; a name that is searched for is read; a
  -- name to be removed is read, and at most one entry has it): structs/task.c and dynamic/task.c
  -- print the same messages on the same input but for their order, and return both, fail both, or
  -- both use up the rounds.
  pub same_transcript :
      (fuel : ℕ) (input : List ℕ)
      → plain fuel none (record { entries = []; printed = [] }) input ≡ true
      → lift (λ b. printed_of (b.printed, true)) (Fixed.main fuel input)
        ≡ lift printed_of (Dynamic.main grants fuel input)
  same_transcript fuel input h =
      let none_yet : Phonebook = record { entries = []; printed = [] } in
      rw (main-refines fuel input, main-refines_list grants fuel input)
        (stored_printed (spec_menu fuel none none_yet input)
          ∙ menu-transcript fuel none none_yet (record { entries = []; requests = 0; printed = [] })
              input (record { entries = Perm.nil; all_known = tt; printed = Perm.nil }) h)
