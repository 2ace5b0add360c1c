-- ===== src/Contacts/Fixed/Invariant.antt =====
-- What every command of structs/task.c keeps of its array.
use hw.Prelude.{ℕ, ◌≡◌, List, ap, ◌∙◌, sym}
use hw.Prelude.Outcome.{Outcome, done, fault, out_of_fuel, lift}
use hw.Contacts.Common.{Command}
use hw.Contacts.Spec.{Phonebook}
use hw.Contacts.Fixed.{Book, dispatch}
use hw.Contacts.Fixed.Spec.{stored, both, spec_dispatch, IsBook}
use hw.Contacts.Fixed.Laws.{dispatch-refines, spec_dispatch-IsBook}

-- A well-formed book: at most a hundred entries with all three strings in front, free places
-- behind them, and the count of the entries.
pub record IsStored (b : Book) : Type 0 where
  pub held : Phonebook
  pub sound : IsBook held
  pub places : b ≡ stored held

lifted :
    (m : Outcome (Phonebook × List ℕ)) {b : Book} {rest : List ℕ}
    → lift both m ≡ done (b, rest)
    → (q : Phonebook) × (m ≡ done (q, rest)) × (b ≡ stored q)
lifted (done (q, rest)) h = (q, cc, cc)
lifted fault h = cc
lifted out_of_fuel h = cc

-- Every command that comes to an end leaves a well-formed book well formed.
pub dispatch-IsStored :
    (c : Command) (b : Book) (input : List ℕ) {b' : Book} {rest : List ℕ}
    → IsStored b
    → dispatch c b input ≡ done (b', rest)
    → IsStored b'
dispatch-IsStored c b input {b'} {rest} ok e =
    let p = ok.held in
    let run : lift both (spec_dispatch c p input) ≡ done (b', rest) =
      sym (dispatch-refines c p input ok.sound)
      ∙ sym (ap (λ (t : Book). dispatch c t input) ok.places)
      ∙ e in
    let (q, eq, same) = lifted (spec_dispatch c p input) run in
    record { held = q; sound = spec_dispatch-IsBook c p input ok.sound eq; places = same }
