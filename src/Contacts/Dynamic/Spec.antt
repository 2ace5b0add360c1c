-- ===== src/Contacts/Dynamic/Spec.antt =====
-- The telephone book of dynamic/task.c as a list of entries alone: no block, no count, no index.
use hw.Prelude.{
  ℕ, zero, suc, Bool, true, false, List, [], ◌∷◌, ◌++◌, Option, none, some, ◌==◌, length, take,
}
use hw.Prelude.Outcome.{Outcome, done, out_of_fuel, lift, ◌>>=◌}
use hw.Stdio.{Buffer, read_word}
use hw.Contacts.Common.{
  Abonent, fresh, Message, deleted, not_found, leaving, wrong_choice, no_memory, name_len,
  read_abonent, has_name, show_abonent, Choice, read_choice, Command, decode,
}
use hw.Contacts.Fixed.{is_exit}

pub record Phones : Type 0 where
  pub entries : List Abonent
  pub requests : ℕ
  pub printed : List Message

pub data Then : Type 0 where
  go_on : Phones → List ℕ → Then
  stop : List Message → Then

abbrev pub noted : Phones → List Message → Phones
noted p ms = record p { printed = p.printed ++ ms }

abbrev pub last_of : Abonent → List Abonent → Abonent
last_of a [] = a
last_of a (b ∷ v) = last_of b v

-- The list without its first entry of that name, the last entry in its place: `none` where no
-- entry has it.
unfoldable pub without : Buffer → List Abonent → Outcome (Option (List Abonent))
without name [] = done none
without name (a ∷ v) = do
  hit ← has_name a name
  elim hit [
    | true ↦ done (some (take (length v) (last_of a v ∷ v)))
    | false ↦ lift (λ o. elim o [ none ↦ none | some t ↦ some (a ∷ t) ]) (without name v)
  ]

unfoldable pub shown_of : Buffer → List Abonent → Outcome (List Message)
shown_of name [] = done []
shown_of name (a ∷ v) = do
  hit ← has_name a name
  shown ← elim hit [ true ↦ (do m ← show_abonent a; done (m ∷ [])) | false ↦ done [] ]
  later ← shown_of name v
  done (shown ++ later)

unfoldable pub all_of : List Abonent → Outcome (List Message)
all_of [] = done []
all_of (a ∷ v) = do m ← show_abonent a; later ← all_of v; done (m ∷ later)

module _ (grants : ℕ → Bool) where
  abbrev pub add : Phones → List ℕ → Outcome Then
  add p input = elim (grants p.requests) [
    | false ↦ done (stop (p.printed ++ (no_memory ∷ [])))
    | true ↦
        (read_abonent fresh input >>= λ (t : Abonent × List ℕ). done (
          go_on
            (record {
              entries = p.entries ++ (t.0 ∷ []);
              requests = suc p.requests;
              printed = p.printed;
            })
            t.1))
  ]

  -- The allocator is asked for the shorter list, unless that is empty.
  abbrev pub remaining : Phones → List ℕ → List Abonent → Then
  remaining p rest v = elim (length v == 0) [
    | true ↦
        go_on (record { entries = v; requests = p.requests; printed = p.printed ++ (deleted ∷ []) })
          rest
    | false ↦ elim (grants p.requests) [
      | true ↦
          go_on
            (record {
              entries = v;
              requests = suc p.requests;
              printed = p.printed ++ (deleted ∷ []);
            })
            rest
      | false ↦ stop (p.printed ++ (no_memory ∷ []))
    ]
  ]

  abbrev pub removed : Phones → List ℕ → Option (List Abonent) → Then
  removed p rest none = go_on (noted p (not_found ∷ [])) rest
  removed p rest (some v) = remaining p rest v

  abbrev pub apply : Command → Phones → List ℕ → Outcome Then
  apply Command.add p input = add p input
  apply Command.delete p input = read_word name_len none input >>= λ (t : Buffer × List ℕ).
      lift (removed p t.1) (without t.0 p.entries)
  apply Command.search p input = read_word name_len none input >>= λ (t : Buffer × List ℕ).
      lift (λ ms. go_on (noted p ms) t.1) (shown_of t.0 p.entries)
  apply Command.print p input = lift (λ ms. go_on (noted p ms) input) (all_of p.entries)
  apply Command.exit p input = done (go_on (noted p (leaving ∷ [])) input)
  apply Command.other p input = done (go_on (noted p (wrong_choice ∷ [])) input)

  -- The menu: what was printed, and whether `main` returned.
  unfoldable pub menu : ℕ → Choice → Phones → List ℕ → Outcome (List Message × Bool)
  menu zero choice p input = out_of_fuel
  menu (suc fuel) choice p input = read_choice choice input >>= λ (r : Choice × List ℕ).
      decode r.0 >>= λ c. apply c p r.1 >>= λ turn. elim turn [
        | stop printed ↦ done (printed, false)
        | go_on q rest ↦ elim (is_exit c) [
          | true ↦ done (q.printed, true)
          | false ↦ menu fuel r.0 q rest
        ]
      ]
