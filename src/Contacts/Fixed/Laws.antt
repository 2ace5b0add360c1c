-- ===== src/Contacts/Fixed/Laws.antt =====
-- structs/task.c keeps a list of at most MAX_ABONENTS entries: every function does to the array
-- what its specification does to the list, and so does the program as a whole.
use mathlib.Core.List.{append_assoc}
use mathlib.Core.Path.{subst}
use hw.Prelude.{
  ℕ, zero, suc, ◌+◌, ◌-◌, ◌<◌, ◌≤◌, ◌≡◌, refl, ap, sym, Bool, true, false, List, [], ◌∷◌, ◌++◌,
  none, some, inl, inr, arith, length, leb, Bool-cases, length-append,
}
use hw.Prelude.Outcome.{Outcome, done, lift, bind-lift, lift-bind-lift_of, >>=-eq-done, ◌>>=◌}
use hw.Stdio.{Buffer, read_word}
use hw.Contacts.Common.{
  Abonent, zeroed, Message, deleted, not_found, name_len, read_abonent, search_loop, Choice,
  read_choice, Command, decode,
}
use hw.Contacts.Spec.{
  Phonebook, AllKnown, remove_first, any_named, length-remove_first, remove_first-AllKnown,
  append-AllKnown, read_abonent-IsKnown, all_shown,
}
use hw.Contacts.Fixed.{
  max_abonents, Book, say, add_abonent, delete_abonent, search_abonent, print_abonents, dispatch,
  menu_loop, main, delete_loop,
}
use hw.Contacts.Fixed.Loops.{
  search_loop_lem, print_loop_lem, delete_loop_lem, delete_loop_unnamed, search_loop_unnamed,
  load_free, store_free, freed,
}
use hw.Contacts.Fixed.Spec.{
  free_places, stored, IsBook, spec_add, spec_delete_named, spec_delete, spec_search_named,
  spec_search, spec_dispatch, spec_menu, both,
}

free_places-suc : (n : ℕ) → n < max_abonents → free_places n ≡ zeroed ∷ free_places (suc n)
free_places-suc n h = let e : max_abonents - n ≡ suc (max_abonents - suc n) = omega arith in rw e

stored_add :
    (p : Phonebook) (a : Abonent)
    → length p.entries < max_abonents
    → stored (record p { entries = p.entries ++ (a ∷ []) }) ≡ record {
      list = p.entries ++ (a ∷ free_places (suc (length p.entries)));
      count = length p.entries + 1;
      printed = p.printed;
    }
stored_add p a h =
    let n : length (p.entries ++ (a ∷ [])) ≡ suc (length p.entries) =
      omega (arith, length-append p.entries (a ∷ [])) in
    let c : length p.entries + 1 ≡ suc (length p.entries) = omega arith in rw (n, c, append_assoc)

add_room :
    (p : Phonebook) (input : List ℕ)
    → length p.entries < max_abonents
    → add_abonent (stored p) input ≡ lift both (spec_add p input)
unfolding add_abonent spec_add
add_room p input h =
    let room : leb max_abonents (length p.entries) ≡ false = ground arith in
    let places = free_places-suc (length p.entries) h in
    rw (room, add_abonent, spec_add, places, load_free)
      (bind-lift both (read_abonent zeroed input) _ _ λ r. rw (store_free, stored_add p r.0 h))

add_abonent-refines :
    (p : Phonebook) (input : List ℕ) → add_abonent (stored p) input ≡ lift both (spec_add p input)
add_abonent-refines p input = elim (Bool-cases (leb max_abonents (length p.entries))) [
  | inl is_full ↦ unfold add_abonent spec_add in rw (is_full, add_abonent, spec_add)
  | inr room ↦ add_room p input (ground arith)
]

print-refines :
    (p : Phonebook)
    → AllKnown p.entries
    → print_abonents (stored p)
      ≡ done (stored (record p { printed = p.printed ++ all_shown p.entries }))
unfolding print_abonents
print-refines p h = rw (print_loop_lem p.entries (free_places (length p.entries)) h)

-- The places that a deletion leaves free are those behind the entries that remain.
freed-free_places :
    (k : List ℕ) (v : List Abonent)
    → length v ≤ max_abonents
    → freed (any_named k v) (free_places (length v)) ≡ free_places (length (remove_first k v))
freed-free_places k v h = elim (Bool-cases (any_named k v)) [
  | inl hit ↦
      (let e : length v ≡ suc (length (remove_first k v)) =
          ground (arith, length-remove_first k v) in
        rw (hit, e) (sym (free_places-suc (length (remove_first k v)) (omega arith))))
  | inr miss ↦
      (let e : length v ≡ length (remove_first k v) = ground (arith, length-remove_first k v) in
        rw (miss) (ap free_places e))
]

-- What `delete_abonent` makes of the result of its loop.
abbrev finish_delete : List Message → List ℕ → List Abonent × ℕ × Bool → Outcome (Book × List ℕ)
finish_delete printed rest (list, count, hit) = done (
  say (record { list = list; count = count; printed = printed })
      (elim hit [ true ↦ deleted | false ↦ not_found ]),
  rest,
)

delete_named :
    (v : List Abonent) (printed : List Message) (name : Buffer) (rest : List ℕ)
    → AllKnown v
    → length v ≤ max_abonents
    → (delete_loop (length v) 0 (v ++ free_places (length v)) (length v) name
        >>= finish_delete printed rest)
      ≡ lift both (
          spec_delete_named (record { entries = v; printed = printed }) name >>= λ q.
          done (q, rest))
unfolding delete_loop
delete_named [] printed none rest h b = refl
delete_named (a ∷ v) printed none rest h b =
    rw (delete_loop_unnamed a v (free_places (suc (length v))) (suc (length v)))
delete_named v printed (some k) rest h b =
    rw (delete_loop_lem k v (free_places (length v)) h, freed-free_places k v b)

delete_abonent-refines :
    (p : Phonebook) (input : List ℕ)
    → IsBook p
    → delete_abonent (stored p) input ≡ lift both (spec_delete p input)
unfolding delete_abonent spec_delete
delete_abonent-refines p input ok =
    bind-lift both (read_word name_len none input) _ _
      λ r. delete_named p.entries p.printed r.0 r.1 ok.all_known ok.bounded

search_named :
    (v : List Abonent) (printed : List Message) (name : Buffer) (rest : List ℕ)
    → AllKnown v
    → (search_loop (v ++ free_places (length v)) name (length v) 0 >>= λ found. done (
      record (stored (record { entries = v; printed = printed })) { printed = printed ++ found },
      rest,
    ))
      ≡ lift both (
          spec_search_named (record { entries = v; printed = printed }) name >>= λ q.
          done (q, rest))
unfolding search_loop
search_named [] printed none rest h = refl
search_named (a ∷ v) printed none rest h =
    rw (search_loop_unnamed a v (free_places (suc (length v))))
search_named v printed (some k) rest h = rw (search_loop_lem v (free_places (length v)) k h)

search_abonent-refines :
    (p : Phonebook) (input : List ℕ)
    → IsBook p
    → search_abonent (stored p) input ≡ lift both (spec_search p input)
unfolding search_abonent spec_search
search_abonent-refines p input ok =
    bind-lift both (read_word name_len none input) _ _
      λ r. search_named p.entries p.printed r.0 r.1 ok.all_known

-- Each command does to the array what its specification does to the list of entries, with the
-- same messages, the same rest of the input and the same undefined behaviour.
pub dispatch-refines :
    (c : Command) (p : Phonebook) (input : List ℕ)
    → IsBook p
    → dispatch c (stored p) input ≡ lift both (spec_dispatch c p input)
unfolding dispatch spec_dispatch
dispatch-refines Command.add p input ok = add_abonent-refines p input
dispatch-refines Command.delete p input ok = delete_abonent-refines p input ok
dispatch-refines Command.search p input ok = search_abonent-refines p input ok
dispatch-refines Command.print p input ok = rw (print-refines p ok.all_known)
dispatch-refines Command.exit p input ok = refl
dispatch-refines Command.other p input ok = refl

entries-IsBook :
    (q : Phonebook) (v : List Abonent)
    → q.entries ≡ v
    → AllKnown v
    → length v ≤ max_abonents
    → IsBook q
entries-IsBook q v e h b = record {
  all_known = subst AllKnown (sym e) h;
  bounded = subst (λ t. length t ≤ max_abonents) (sym e) b;
}

spec_add-IsBook :
    (p : Phonebook) (input : List ℕ) {q : Phonebook} {rest : List ℕ}
    → IsBook p
    → spec_add p input ≡ done (q, rest)
    → IsBook q
unfolding spec_add
spec_add-IsBook p input {q} ok e = elim (Bool-cases (leb max_abonents (length p.entries))) [
  | inl is_full ↦ entries-IsBook q p.entries (ground arith) ok.all_known ok.bounded
  | inr room ↦
      (let (r, er, eq) = >>=-eq-done (read_abonent zeroed input) _ (rw (room, spec_add) at e) in
        entries-IsBook q (p.entries ++ (r.0 ∷ [])) (ground arith)
          (append-AllKnown p.entries (r.0 ∷ []) ok.all_known
            (read_abonent-IsKnown zeroed input {rest = r.1} (refl, refl, refl) er, tt))
          (ground (arith, length-append p.entries (r.0 ∷ []))))
]

spec_delete_named-IsBook :
    (p : Phonebook) (name : Buffer) {q : Phonebook}
    → IsBook p
    → spec_delete_named p name ≡ done q
    → IsBook q
spec_delete_named-IsBook p none {q} ok e =
    entries-IsBook q p.entries (ground arith) ok.all_known ok.bounded
spec_delete_named-IsBook p (some k) {q} ok e =
    entries-IsBook q (remove_first k p.entries) (ground arith)
      (remove_first-AllKnown k p.entries ok.all_known)
      (omega (arith, length-remove_first k p.entries, ok.bounded))

spec_search_named-IsBook :
    (p : Phonebook) (name : Buffer) {q : Phonebook}
    → IsBook p
    → spec_search_named p name ≡ done q
    → IsBook q
spec_search_named-IsBook p none {q} ok e =
    entries-IsBook q p.entries (ground arith) ok.all_known ok.bounded
spec_search_named-IsBook p (some k) {q} ok e =
    entries-IsBook q p.entries (ground arith) ok.all_known ok.bounded

-- Every command keeps at most a hundred entries, all of them with their three strings.
pub spec_dispatch-IsBook :
    (c : Command) (p : Phonebook) (input : List ℕ) {q : Phonebook} {rest : List ℕ}
    → IsBook p
    → spec_dispatch c p input ≡ done (q, rest)
    → IsBook q
unfolding spec_dispatch spec_delete spec_search
spec_dispatch-IsBook Command.add p input ok e = spec_add-IsBook p input ok e
spec_dispatch-IsBook Command.delete p input ok e =
    let (r, er, e₁) = >>=-eq-done (read_word name_len none input) _ e in
    let (t, et, e₂) = >>=-eq-done (spec_delete_named p r.0) _ e₁ in
    spec_delete_named-IsBook p r.0 ok (ground (arith))
spec_dispatch-IsBook Command.search p input ok e =
    let (r, er, e₁) = >>=-eq-done (read_word name_len none input) _ e in
    let (t, et, e₂) = >>=-eq-done (spec_search_named p r.0) _ e₁ in
    spec_search_named-IsBook p r.0 ok (ground (arith))
spec_dispatch-IsBook Command.print p input ok e = ground (arith)
spec_dispatch-IsBook Command.exit p input ok e = ground (arith)
spec_dispatch-IsBook Command.other p input ok e = ground (arith)

menu_loop-refines :
    (fuel : ℕ) (choice : Choice) (p : Phonebook) (input : List ℕ)
    → IsBook p
    → menu_loop fuel choice (stored p) input ≡ lift stored (spec_menu fuel choice p input)
unfolding menu_loop spec_menu
menu_loop-refines zero choice p input ok = refl
menu_loop-refines (suc fuel) choice p input ok =
    bind-lift stored (read_choice choice input) _ _ λ r. bind-lift stored (decode r.0) _ _ λ c.
      rw (dispatch-refines c p r.1 ok) (
        lift-bind-lift_of stored both (spec_dispatch c p r.1) _ _ λ t e.
          ground (arith, menu_loop-refines fuel r.0 t.0 t.1 (spec_dispatch-IsBook c p r.1 ok e)))

-- The program does what its specification does, on every input and for every bound on the rounds
-- of its menu: the same messages and the same final book, or the same undefined behaviour.
pub main-refines :
    (fuel : ℕ) (input : List ℕ)
    → main fuel input
      ≡ lift stored (spec_menu fuel none (record { entries = []; printed = [] }) input)
unfolding main
main-refines fuel input =
    menu_loop-refines fuel none (record { entries = []; printed = [] }) input (omega arith)
