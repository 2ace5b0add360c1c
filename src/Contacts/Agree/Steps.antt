-- ===== src/Contacts/Agree/Steps.antt =====
-- One command of structs/task.c and of dynamic/task.c, given to books with the same entries.
use mathlib.Core.List.{Perm}
use mathlib.Core.List.Perm
use hw.Prelude.{
  [], ℕ, suc, ◌≤◌, ◌≡◌, refl, Bool, true, false, List, ◌∷◌, ◌++◌, none, some, inl, inr, arith,
  length, leb, Bool-cases, ◌==◌, if◌then◌else◌,
}
use hw.Prelude.Outcome.{Outcome, done, fault, out_of_fuel, >>=-eq-done, ◌>>=◌}
use hw.Stdio.{Buffer, read_word}
use hw.Contacts.Common.{
  Abonent, zeroed, fresh, deleted, not_found, leaving, wrong_choice, Message, name_len,
  read_abonent, Command,
}
use hw.Contacts.Spec.{
  Phonebook, known, IsKnown, AllKnown, any_named, append-AllKnown, remove_first-AllKnown,
}
use hw.Contacts.Contents.{
  named, remove_first-perm, remove_first-absent, found-perm, all_shown-perm, AllKnown-perm,
  any_named-perm,
}
use hw.Contacts.Fixed.{max_abonents}
use hw.Contacts.Fixed.Spec.{
  spec_add, spec_delete, spec_search, spec_delete_named, reply, spec_dispatch,
}
use hw.Contacts.Dynamic.Laws.{swap_remove-perm, swap_remove}
use hw.Contacts.Dynamic.Spec.{Phones, Then, go_on, noted, add, remaining, removed, apply}
use hw.Contacts.Dynamic.Known.{without-known, shown_of-known, all_of-known}
use hw.Contacts.Agree.{whole, named_well, suits}

-- The two books hold the same entries and have printed the same messages, each in some order.
pub record Alike (p : Phonebook) (q : Phones) : Type 0 where
  pub entries : Perm p.entries q.entries
  pub all_known : AllKnown p.entries
  pub printed : Perm p.printed q.printed

-- Both programs take a command to alike books, and leave the same input.
pub record Step (m : Outcome (Phonebook × List ℕ)) (n : Outcome Then) : Type 0 where
  pub fixed : Phonebook
  pub grown : Phones
  pub rest : List ℕ
  pub left : m ≡ done (fixed, rest)
  pub right : n ≡ done (go_on grown rest)
  pub alike : Alike fixed grown

read_word-known_into :
    (size : ℕ) (old : Buffer) (input : List ℕ) {b : Buffer} {rest : List ℕ}
    → read_word size none input ≡ done (b, rest)
    → known b ≡ true
    → read_word size old input ≡ done (b, rest)
unfolding read_word
read_word-known_into size old input e h = ground arith

whole_done :
    (m : Outcome (Abonent × List ℕ))
    → whole m ≡ true
    → (a : Abonent) × (rest : List ℕ) × IsKnown a × (m ≡ done (a, rest))
whole_done (done (a, rest)) h = (a, rest, ground arith, refl)
whole_done fault h = cc
whole_done out_of_fuel h = cc

named_done :
    (test : List ℕ → Bool) (m : Outcome (Buffer × List ℕ))
    → named_well test m ≡ true
    → (k : List ℕ) × (rest : List ℕ) × (m ≡ done (some k, rest)) × (test k ≡ true)
named_done test (done (none, rest)) h = cc
named_done test (done (some k, rest)) h = (k, rest, refl, h)
named_done test fault h = cc
named_done test out_of_fuel h = cc

-- Three words that were read fill an entry whatever it held.
read_abonent-whole :
    (old : Abonent) (input : List ℕ) {a : Abonent} {rest : List ℕ}
    → read_abonent fresh input ≡ done (a, rest)
    → IsKnown a
    → read_abonent old input ≡ done (a, rest)
unfolding read_abonent
read_abonent-whole old input {a} {rest} e h =
    let (n, en, e₁) = >>=-eq-done (read_word name_len none input) _ e in
    let (s, es, e₂) = >>=-eq-done (read_word name_len none n.1) _ e₁ in
    let (t, et, e₃) = >>=-eq-done (read_word name_len none s.1) _ e₂ in
    let n' : known n.0 ≡ true = ground arith in
    let s' : known s.0 ≡ true = ground arith in
    let t' : known t.0 ≡ true = ground arith in
    rw
      (
        read_word-known_into name_len old.name input {b = n.0} {rest = n.1} en n',
        read_word-known_into name_len old.second_name n.1 {b = s.0} {rest = s.1} es s',
        read_word-known_into name_len old.tel s.1 {b = t.0} {rest = t.1} et t',
      )
      e₃

module _ (grants : ℕ → Bool) (granted : (n : ℕ) → grants n ≡ true) where
  add-Step :
      (p : Phonebook) (q : Phones) (input : List ℕ)
      → Alike p q
      → suits Command.add p input ≡ true
      → Step (spec_add p input) (add grants q input)
  unfolding suits spec_add
  add-Step p q input ok h =
      let room : leb max_abonents (length p.entries) ≡ false = ground arith in
      let (a, rest, k, e) = whole_done (read_abonent fresh input) (ground arith) in
      record {
        fixed = record p { entries = p.entries ++ (a ∷ []) };
        grown = record {
          entries = q.entries ++ (a ∷ []);
          requests = suc q.requests;
          printed = q.printed;
        };
        rest = rest;
        left = rw (room, spec_add, read_abonent-whole zeroed input {a = a} {rest = rest} e k) refl;
        right = rw (granted q.requests, add, e) refl;
        alike = record {
          entries = Perm.append_right (a ∷ []) ok.entries;
          all_known = append-AllKnown p.entries (a ∷ []) ok.all_known (k, tt);
          printed = ok.printed;
        };
      }

  -- What the grown book makes of the entries that remain: they are kept, whether or not the
  -- allocator was asked.
  remaining_kept :
      (q : Phones) (rest : List ℕ) (v : List Abonent)
      → (r : ℕ) × (remaining grants q rest v
          ≡ go_on
              (record { entries = v; requests = r; printed = q.printed ++ (deleted ∷ []) })
              rest)
  remaining_kept q rest v = elim (Bool-cases (length v == 0)) [
    | inl emptied ↦ (q.requests, rw (emptied, remaining) refl)
    | inr more ↦ (suc q.requests, rw (more, granted q.requests, remaining) refl)
  ]

  -- Both programs print one message.
  said-Step :
      (p : Phonebook) (q : Phones) (input : List ℕ) (m : Message)
      → Alike p q
      → Step (done (reply p m, input)) (done (go_on (noted q (m ∷ [])) input))
  said-Step p q input m ok = record {
    fixed = _;
    grown = _;
    rest = input;
    left = refl;
    right = refl;
    alike = record {
      entries = ok.entries;
      all_known = ok.all_known;
      printed = Perm.append_right (m ∷ []) ok.printed;
    };
  }

  named-Step :
      (p : Phonebook) (q : Phones) (k rest : List ℕ)
      → Alike p q
      → named k p.entries ≤ 1
      → Step (spec_delete_named p (some k) >>= λ t. done (t, rest)) (
          done (
            removed grants q rest
              (if any_named k q.entries then some (swap_remove k q.entries) else none)))
  named-Step p q k rest ok one =
      let same = any_named-perm k ok.entries in
      elim (Bool-cases (any_named k q.entries)) [
        | inl there ↦
            (let (r, kept) = remaining_kept q rest (swap_remove k q.entries) in
              rw (same, there, kept)
                (record {
                  fixed = _;
                  grown = _;
                  rest = rest;
                  left = refl;
                  right = refl;
                  alike = record {
                    entries =
                        Perm.trans (remove_first-perm k ok.entries one)
                          (Perm.symm (swap_remove-perm k q.entries there));
                    all_known = remove_first-AllKnown k p.entries ok.all_known;
                    printed = Perm.append_right (deleted ∷ []) ok.printed;
                  };
                }))
        | inr missing ↦
            (let absent : any_named k p.entries ≡ false = ground (arith, same) in
              rw (absent, missing, remove_first-absent k p.entries absent)
                (said-Step p q rest not_found ok))
      ]

  delete-Step :
      (p : Phonebook) (q : Phones) (input : List ℕ)
      → Alike p q
      → suits Command.delete p input ≡ true
      → Step (spec_delete p input) (apply grants Command.delete q input)
  unfolding suits spec_delete
  delete-Step p q input ok h =
      let (k, rest, e, one) = named_done _ (read_word name_len none input) h in
      rw (e, without-known k q.entries (AllKnown-perm ok.entries ok.all_known))
        (named-Step p q k rest ok (ground arith))

  search-Step :
      (p : Phonebook) (q : Phones) (input : List ℕ)
      → Alike p q
      → suits Command.search p input ≡ true
      → Step (spec_search p input) (apply grants Command.search q input)
  unfolding suits spec_search
  search-Step p q input ok h =
      let (k, rest, e, _) = named_done _ (read_word name_len none input) h in
      rw (e, shown_of-known k q.entries (AllKnown-perm ok.entries ok.all_known))
        (record {
          fixed = _;
          grown = _;
          rest = rest;
          left = refl;
          right = refl;
          alike = record {
            entries = ok.entries;
            all_known = ok.all_known;
            printed = Perm.append ok.printed (found-perm k ok.entries);
          };
        })

  pub dispatch-Step :
      (c : Command) (p : Phonebook) (q : Phones) (input : List ℕ)
      → Alike p q
      → suits c p input ≡ true
      → Step (spec_dispatch c p input) (apply grants c q input)
  unfolding spec_dispatch
  dispatch-Step Command.add p q input ok h = add-Step p q input ok h
  dispatch-Step Command.delete p q input ok h = delete-Step p q input ok h
  dispatch-Step Command.search p q input ok h = search-Step p q input ok h
  dispatch-Step Command.print p q input ok h =
      rw (all_of-known q.entries (AllKnown-perm ok.entries ok.all_known)) (record {
        fixed = _;
        grown = _;
        rest = input;
        left = refl;
        right = refl;
        alike = record {
          entries = ok.entries;
          all_known = ok.all_known;
          printed = Perm.append ok.printed (all_shown-perm ok.entries);
        };
      })
  dispatch-Step Command.exit p q input ok h = said-Step p q input leaving ok
  dispatch-Step Command.other p q input ok h = said-Step p q input wrong_choice ok
