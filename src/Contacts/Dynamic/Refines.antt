-- ===== src/Contacts/Dynamic/Refines.antt =====
-- dynamic/task.c does to its block what its specification does to the list of entries.
use hw.Prelude.{
  [], ℕ, zero, suc, ◌-◌, ◌≡◌, refl, ap, sym, ◌∙◌, Bool, true, false, List, ◌∷◌, ◌++◌, Option, none,
  some, inl, inr, arith, length, Bool-cases, take, length-take, ◌==◌, append_nil,
}
use hw.Prelude.Outcome.{Outcome, done, fault, out_of_fuel, lift, bind-lift, bind-eq, ◌>>=◌}
use hw.Stdio.{Buffer, read_word}
use hw.Contacts.Common.{
  Abonent, fresh, deleted, not_found, load, name_len, read_abonent, has_name, search_loop,
  print_loop, Choice, read_choice, Command, decode,
}
use hw.Contacts.Fixed.{is_exit}
use hw.Contacts.Dynamic.{
  Book, Turn, back, exit_failure, delete_loop, shrink, delete_abonent, search_abonent,
  print_abonent, dispatch, menu_loop, main,
}
use hw.Contacts.Spec.{found}
use hw.Contacts.Dynamic.Laws.{holding, add_abonent_lem, delete_at-first, delete_loop-cons, under}
use hw.Contacts.Dynamic.Spec.{
  Phones, Then, go_on, stop, noted, last_of, without, shown_of, all_of, add, remaining, removed,
  apply, menu,
}

-- The book whose block holds the entries, and what a call comes to for it.
abbrev pub block : Phones → Book
block p = holding p.entries p.requests p.printed

abbrev pub real : Then → Turn
real (go_on p rest) = back (block p) rest
real (stop printed) = exit_failure printed

-- The loops, over the list alone.
search_loop-cons :
    (x : Abonent) (l : List Abonent) (name : Buffer) (n i : ℕ)
    → search_loop (x ∷ l) name n (suc i) ≡ search_loop l name n i
unfolding search_loop load
search_loop-cons x l name zero i = refl
search_loop-cons x l name (suc n) i = simp (search_loop-cons x l name n (suc i))

search_loop_lem :
    (name : Buffer) (v : List Abonent) → search_loop v name (length v) 0 ≡ shown_of name v
unfolding search_loop shown_of load
search_loop_lem name [] = refl
search_loop_lem name (a ∷ v) = simp (search_loop-cons a v name (length v) 0, search_loop_lem name v)

print_loop-cons :
    (x : Abonent) (l : List Abonent) (n i : ℕ) → print_loop (x ∷ l) n (suc i) ≡ print_loop l n i
unfolding print_loop load
print_loop-cons x l zero i = refl
print_loop-cons x l (suc n) i = simp (print_loop-cons x l n (suc i))

print_loop_lem : (v : List Abonent) → print_loop v (length v) 0 ≡ all_of v
unfolding print_loop all_of load
print_loop_lem [] = refl
print_loop_lem (a ∷ v) = simp (print_loop-cons a v (length v) 0, print_loop_lem v)

-- The loop of a deletion, with the last entry still in its own place too.
unfoldable pub seek : Buffer → List Abonent → Outcome (Option (List Abonent))
seek name [] = done none
seek name (a ∷ v) = do
  hit ← has_name a name
  elim hit [ true ↦ done (some (last_of a v ∷ v)) | false ↦ lift (under a) (seek name v) ]

pub delete_loop-seek :
    (name : Buffer) (v : List Abonent) → delete_loop (length v) 0 v (length v) name ≡ seek name v
unfolding delete_loop seek load
delete_loop-seek name [] = refl
delete_loop-seek name (a ∷ v) = bind-eq (has_name a name) _ _ (elim [
  | true ↦ delete_at-first a v
  | false ↦
      delete_loop-cons a name (length v) 0 (length v) v (omega arith)
      ∙ ap (lift (under a)) (delete_loop-seek name v)
])

abbrev pub cropped : ℕ → Option (List Abonent) → Option (List Abonent)
cropped n none = none
cropped n (some t) = some (take n t)

lift-lift :
    {A B B' C : Type 0} (f : B → C) (g : A → B) (f' : B' → C) (g' : A → B') (m : Outcome A)
    → ((a : A) → f (g a) ≡ f' (g' a))
    → lift f (lift g m) ≡ lift f' (lift g' m)
lift-lift f g f' g' (done a) e = ap done (e a)
lift-lift f g f' g' fault e = refl
lift-lift f g f' g' out_of_fuel e = refl

one_less : (n : ℕ) → suc n - 1 ≡ n
one_less n = omega arith

abbrev behind : Abonent → Option (List Abonent) → Option (List Abonent)
behind a o = elim o [ none ↦ none | some t ↦ some (a ∷ t) ]

cropped_behind :
    (a : Abonent) (n : ℕ) (o : Option (List Abonent))
    → behind a (cropped (suc n - 1) o) ≡ cropped (suc n) (under a o)
cropped_behind a n none = refl
cropped_behind a n (some t) = rw (one_less n) refl

pub without-seek :
    (name : Buffer) (v : List Abonent)
    → without name v ≡ lift (cropped (length v - 1)) (seek name v)
unfolding without seek
without-seek name [] = refl
without-seek name (a ∷ []) =
    bind-lift (cropped 0) (has_name a name) _ _ (elim [ true ↦ refl | false ↦ refl ])
without-seek name (a ∷ b ∷ v) = rw (one_less (suc (length v))) (
    bind-lift (cropped (suc (length v))) (has_name a name) _ _ (elim [
      | true ↦ refl
      | false ↦
          ap (lift (behind a)) (without-seek name (b ∷ v))
          ∙ lift-lift (behind a) (cropped (suc (length v) - 1)) (cropped (suc (length v))) (under a)
              (seek name (b ∷ v)) (cropped_behind a (length v))
    ]))

-- A hit leaves a list of the same length.
abbrev Sized : ℕ → Outcome (Option (List Abonent)) → Type 0
Sized n (done (some t)) = length t ≡ n
Sized n _ = Unit {0}

Sized-bind :
    (n : ℕ) (m : Outcome Bool) (f : Bool → Outcome (Option (List Abonent)))
    → ((b : Bool) → Sized n (f b))
    → Sized n (m >>= f)
Sized-bind n (done b) f h = h b
Sized-bind n fault f h = tt
Sized-bind n out_of_fuel f h = tt

Sized-under :
    (a : Abonent) (n : ℕ) (m : Outcome (Option (List Abonent)))
    → Sized n m
    → Sized (suc n) (lift (under a) m)
Sized-under a n (done none) h = tt
Sized-under a n (done (some t)) h = ap suc h
Sized-under a n fault h = tt
Sized-under a n out_of_fuel h = tt

seek-Sized : (name : Buffer) (v : List Abonent) → Sized (length v) (seek name v)
unfolding seek
seek-Sized name [] = tt
seek-Sized name (a ∷ v) =
    Sized-bind (suc (length v)) (has_name a name) _
      (elim [ true ↦ refl | false ↦ Sized-under a (length v) (seek name v) (seek-Sized name v) ])

empty_list : (v : List Abonent) → length v ≡ 0 → v ≡ []
empty_list [] h = refl
empty_list (a ∷ v) h = absurd (omega (arith, h))

-- What follows the loop, for what it came to.
module _ (grants : ℕ → Bool) where
  shrink-remaining :
      (p : Phones) (t : List Abonent) (rest : List ℕ)
      → length t ≡ length p.entries
      → shrink grants (block p) t rest
        ≡ real (remaining grants p rest (take (length p.entries - 1) t))
  unfolding shrink
  shrink-remaining p t rest e =
      let counted : List Abonent → ℕ → Turn = λ v n.
        back
          (record {
            list = v;
            count = n;
            requests = suc p.requests;
            printed = p.printed ++ (deleted ∷ []);
          })
          rest in
      let exact : length (take (length p.entries - 1) t) ≡ length p.entries - 1 =
        omega (arith, length-take (length p.entries - 1) t, e) in
      let whole : length p.entries - 1 - length t ≡ 0 = omega (arith, e) in
      elim (Bool-cases (length p.entries - 1 == 0)) [
        | inl emptied ↦
            (let nil : take (length p.entries - 1) t ≡ [] =
                empty_list (take (length p.entries - 1) t) (ground (arith, exact, emptied)) in
              let none_left : length p.entries - 1 ≡ 0 = ground (arith, emptied) in
              rw (shrink, remaining, exact, emptied) (rw (nil, none_left) refl))
        | inr more ↦ elim (Bool-cases (grants p.requests)) [
          | inl ok ↦
              rw
                (
                  shrink,
                  remaining,
                  exact,
                  more,
                  ok,
                  whole,
                  append_nil (take (length p.entries - 1) t),
                )
                (ap (counted (take (length p.entries - 1) t)) (sym exact))
          | inr refused ↦ rw (shrink, remaining, exact, more, refused)
        ]
      ]

  -- What the deletion makes of the result of its loop.
  abbrev finish : Phones → List ℕ → Option (List Abonent) → Turn
  finish p rest found = elim found [
    | none ↦ back (block (noted p (not_found ∷ []))) rest
    | some list ↦ shrink grants (block p) list rest
  ]

  finish_seek :
      (p : Phones) (rest : List ℕ) (m : Outcome (Option (List Abonent)))
      → Sized (length p.entries) m
      → (m >>= λ found. done (finish p rest found))
        ≡ lift real (lift (removed grants p rest) (lift (cropped (length p.entries - 1)) m))
  finish_seek p rest (done none) h = refl
  finish_seek p rest (done (some t)) h = ap done (shrink-remaining p t rest h)
  finish_seek p rest fault h = refl
  finish_seek p rest out_of_fuel h = refl

  delete_abonent-refines :
      (p : Phones) (input : List ℕ)
      → delete_abonent grants (block p) input ≡ lift real (apply grants Command.delete p input)
  unfolding delete_abonent
  delete_abonent-refines p input = bind-lift real (read_word name_len none input) _ _ λ r.
      rw (delete_loop-seek r.0 p.entries, without-seek r.0 p.entries)
        (finish_seek p r.1 (seek r.0 p.entries) (seek-Sized r.0 p.entries))

  bind_lift_done :
      {A : Type 0} (m : Outcome A) (f : A → Turn) (g : A → Then)
      → ((a : A) → f a ≡ real (g a))
      → (m >>= λ a. done (f a)) ≡ lift real (lift g m)
  bind_lift_done (done a) f g e = ap done (e a)
  bind_lift_done fault f g e = refl
  bind_lift_done out_of_fuel f g e = refl

  bind_lift :
      {C : Type 0} (m : Outcome Then) (f : Turn → Outcome C) (g : Then → Outcome C)
      → ((t : Then) → f (real t) ≡ g t)
      → (lift real m >>= f) ≡ (m >>= g)
  bind_lift (done t) f g e = e t
  bind_lift fault f g e = refl
  bind_lift out_of_fuel f g e = refl

  dispatch-refines :
      (c : Command) (p : Phones) (input : List ℕ)
      → dispatch grants c (block p) input ≡ lift real (apply grants c p input)
  unfolding dispatch search_abonent print_abonent
  dispatch-refines Command.add p input =
      add_abonent_lem grants p.entries p.requests p.printed input
      ∙ elim (Bool-cases (grants p.requests)) [
        | inl ok ↦ rw (add, ok) (bind-lift real (read_abonent fresh input) _ _ λ t. refl)
        | inr refused ↦ rw (add, refused)
      ]
  dispatch-refines Command.delete p input = delete_abonent-refines p input
  dispatch-refines Command.search p input = bind-lift real (read_word name_len none input) _ _ λ r.
      rw (search_loop_lem r.0 p.entries) (bind_lift_done (shown_of r.0 p.entries) _ _ (λ ms. refl))
  dispatch-refines Command.print p input =
      rw (print_loop_lem p.entries) (bind_lift_done (all_of p.entries) _ _ (λ ms. refl))
  dispatch-refines Command.exit p input = refl
  dispatch-refines Command.other p input = refl

  menu_loop-refines :
      (fuel : ℕ) (choice : Choice) (p : Phones) (input : List ℕ)
      → menu_loop grants fuel choice (block p) input ≡ menu grants fuel choice p input
  unfolding menu_loop menu
  menu_loop-refines zero choice p input = refl
  menu_loop-refines (suc fuel) choice p input = bind-eq (read_choice choice input) _ _ λ r.
      bind-eq (decode r.0) _ _ λ c. rw (dispatch-refines c p r.1) (
        bind_lift (apply grants c p r.1) _ _ (elim [
          | stop printed ↦ refl
          | go_on q rest ↦ elim (Bool-cases (is_exit c)) [
            | inl last ↦ rw last refl
            | inr more ↦ rw more (menu_loop-refines fuel r.0 q rest)
          ]
        ]))

  -- On every input, for every bound on the rounds of the menu and whatever the allocator answers,
  -- the program prints what the list of entries alone would make it print, and returns, exits or
  -- is undefined with it.
  pub main-refines_list :
      (fuel : ℕ) (input : List ℕ)
      → main grants fuel input
        ≡ menu grants fuel none (record { entries = []; requests = 0; printed = [] }) input
  unfolding main
  main-refines_list fuel input =
      menu_loop-refines fuel none (record { entries = []; requests = 0; printed = [] }) input
