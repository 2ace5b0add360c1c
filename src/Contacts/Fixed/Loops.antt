-- ===== src/Contacts/Fixed/Loops.antt =====
-- The loops of structs/task.c over an array that is a list of entries with free places behind it.
use hw.Prelude.{
  ℕ, zero, suc, ◌+◌, ◌-◌, ◌<◌, ◌≡◌, refl, ap, ◌∙◌, Bool, true, false, List, [], ◌∷◌, ◌++◌, none,
  some, arith, length, ltb, Bool-cases, inl, inr,
}
use hw.Prelude.Outcome.{Outcome, done, fault, lift, bind-lift, lift-bind-lift, bind_assoc, ◌>>=◌}
use hw.Contacts.Common.{Abonent, zeroed, load, has_name, search_loop, print_loop, show_abonent}
use hw.Contacts.Spec.{IsKnown, AllKnown, is_named, shown, remove_first, any_named, found, all_shown}
use hw.Contacts.Fixed.{store, shift_loop, delete_at, delete_loop}

pub has_name-known :
    (a : Abonent) (k : List ℕ) → IsKnown a → has_name a (some k) ≡ done (is_named k a)
unfolding has_name is_named
has_name-known a k h = ground arith

pub show_abonent-known : (a : Abonent) → IsKnown a → show_abonent a ≡ done (shown a)
unfolding show_abonent
show_abonent-known a h = ground arith

-- A loop that starts one place further on does not see the first entry.
search_loop-cons :
    (x : Abonent) (l : List Abonent) (k : List ℕ) (n i : ℕ)
    → search_loop (x ∷ l) (some k) n (suc i) ≡ search_loop l (some k) n i
unfolding search_loop load
search_loop-cons x l k zero i = refl
search_loop-cons x l k (suc n) i = simp (search_loop-cons x l k n (suc i))

print_loop-cons :
    (x : Abonent) (l : List Abonent) (n i : ℕ) → print_loop (x ∷ l) n (suc i) ≡ print_loop l n i
unfolding print_loop load
print_loop-cons x l zero i = refl
print_loop-cons x l (suc n) i = simp (print_loop-cons x l n (suc i))

pub store-cons :
    (x : Abonent) (l : List Abonent) (i : ℕ) (a : Abonent)
    → store (x ∷ l) (suc i) a ≡ lift (λ t. x ∷ t) (store l i a)
unfolding store
store-cons x l i a = elim (Bool-cases (ltb i (length l))) [
  | inl inside ↦ ground arith
  | inr outside ↦ ground arith
]

shift_loop-cons :
    (x : Abonent) (n j : ℕ) (l : List Abonent)
    → shift_loop n (suc j) (x ∷ l) ≡ lift (λ t. x ∷ t) (shift_loop n j l)
unfolding shift_loop load
shift_loop-cons x zero j l = refl
shift_loop-cons x (suc n) j l = bind-lift under (load l (suc j)) _ _ (λ a.
    rw store-cons
      (lift-bind-lift under under (store l j a) _ _ (λ t. shift_loop-cons x n (suc j) t)))
  where
    under : List Abonent → List Abonent
    under t = x ∷ t

pub store-zero : (x : Abonent) (l : List Abonent) (a : Abonent) → store (x ∷ l) 0 a ≡ done (a ∷ l)
unfolding store
store-zero x l a = ground arith

pub search_loop_lem :
    (v z : List Abonent) (k : List ℕ)
    → AllKnown v
    → search_loop (v ++ z) (some k) (length v) 0 ≡ done (found k v)
unfolding search_loop load found
search_loop_lem [] z k h = refl
search_loop_lem (a ∷ v) z k h =
    simp
      (
        has_name-known a k h.0,
        search_loop-cons a (v ++ z) k (length v) 0,
        search_loop_lem v z k h.1,
      )
      (ground (arith, show_abonent-known a h.0))

pub print_loop_lem :
    (v z : List Abonent) → AllKnown v → print_loop (v ++ z) (length v) 0 ≡ done (all_shown v)
unfolding print_loop load all_shown
print_loop_lem [] z h = refl
print_loop_lem (a ∷ v) z h =
    simp (show_abonent-known a h.0, print_loop-cons a (v ++ z) (length v) 0, print_loop_lem v z h.1)

-- Shifting down over the first entry, and clearing the last place.
shift_then_clear :
    (a : Abonent) (v z : List Abonent)
    → (shift_loop (length v) 0 (a ∷ v ++ z) >>= λ l. store l (length v) zeroed)
      ≡ done (v ++ (zeroed ∷ z))
unfolding shift_loop load
shift_then_clear a [] z = store-zero a z zeroed
shift_then_clear a (b ∷ v) z =
    rw (store-zero a (b ∷ v ++ z) b, shift_loop-cons b (length v) 0 (b ∷ v ++ z))
      (lift-bind-lift under under (shift_loop (length v) 0 (b ∷ v ++ z)) _ _
          (λ t. store-cons b t (length v) zeroed)
        ∙ ap (lift under) (shift_then_clear b v z))
  where
    under : List Abonent → List Abonent
    under t = b ∷ t

-- Deleting from the second place on, with an entry in front.
abbrev behind : Abonent → List Abonent × ℕ × Bool → List Abonent × ℕ × Bool
behind x (l, c, hit) = (x ∷ l, suc c, hit)

delete_at-cons :
    (x : Abonent) (l : List Abonent) (i c : ℕ)
    → i < c
    → delete_at (x ∷ l) (suc i) (suc c) ≡ lift (behind x) (delete_at l i c)
unfolding delete_at
delete_at-cons x l i c h =
    let left : suc c - 1 - suc i ≡ c - 1 - i = omega arith in
    let last : suc c - 1 ≡ suc (c - 1) = omega arith in
    rw (left, last, shift_loop-cons x (c - 1 - i) i l)
      (lift-bind-lift (behind x) (λ t. x ∷ t) (shift_loop (c - 1 - i) i l) _ _
        λ t.
          rw (store-cons x t (c - 1) zeroed)
            (lift-bind-lift (behind x) (λ t. x ∷ t) (store t (c - 1) zeroed) _ _ λ u. refl))

delete_loop-cons :
    (x : Abonent) (k : List ℕ) (n i c : ℕ) (l : List Abonent)
    → i + n ≡ c
    → delete_loop n (suc i) (x ∷ l) (suc c) (some k)
      ≡ lift (behind x) (delete_loop n i l c (some k))
unfolding delete_loop load
delete_loop-cons x k zero i c l h = refl
delete_loop-cons x k (suc n) i c l h = bind-lift (behind x) (load l i) _ _ λ a.
    bind-lift (behind x) (has_name a (some k)) _ _ (elim [
      | true ↦ delete_at-cons x l i c (omega arith)
      | false ↦ delete_loop-cons x k n (suc i) c l (omega arith)
    ])

-- The free places after a deletion.
abbrev pub freed : Bool → List Abonent → List Abonent
freed true z = zeroed ∷ z
freed false z = z

abbrev pub after_delete : List ℕ → List Abonent → List Abonent → List Abonent × ℕ × Bool
after_delete k v z =
    (remove_first k v ++ freed (any_named k v) z, length (remove_first k v), any_named k v)

delete_at-first :
    (a : Abonent) (v z : List Abonent)
    → delete_at (a ∷ v ++ z) 0 (suc (length v)) ≡ done (v ++ (zeroed ∷ z), length v, true)
unfolding delete_at
delete_at-first a v z =
    let left : suc (length v) - 1 - 0 ≡ length v = omega arith in
    let last : suc (length v) - 1 ≡ length v = omega arith in
    rw (left, last)
      (bind_assoc (shift_loop (length v) 0 (a ∷ v ++ z)) (λ t. store t (length v) zeroed) finish
        ∙ ap (λ r. r >>= finish) (shift_then_clear a v z))
  where
    finish : List Abonent → Outcome (List Abonent × ℕ × Bool)
    finish t = done (t, length v, true)

pub delete_loop_lem :
    (k : List ℕ) (v z : List Abonent)
    → AllKnown v
    → delete_loop (length v) 0 (v ++ z) (length v) (some k) ≡ done (after_delete k v z)
unfolding delete_loop load remove_first any_named
delete_loop_lem k [] z h = refl
delete_loop_lem k (a ∷ v) z h = rw (has_name-known a k h.0) (elim (Bool-cases (is_named k a)) [
  | inl hit ↦ rw (hit, delete_at-first a v z)
  | inr miss ↦ rw (
    miss,
    delete_loop-cons a k (length v) 0 (length v) (v ++ z) (omega arith),
    delete_loop_lem k v z h.1,
  )
])

-- At the end of the input the name is undefined, and so is the first comparison.
pub delete_loop_unnamed :
    (a : Abonent) (v z : List Abonent) (c : ℕ)
    → delete_loop (suc (length v)) 0 (a ∷ v ++ z) c none ≡ fault
unfolding delete_loop load has_name
delete_loop_unnamed a v z c = ground arith

pub search_loop_unnamed :
    (a : Abonent) (v z : List Abonent) → search_loop (a ∷ v ++ z) none (suc (length v)) 0 ≡ fault
unfolding search_loop load has_name
search_loop_unnamed a v z = ground arith

-- The first free place.
pub load_free : (v z : List Abonent) (x : Abonent) → load (v ++ (x ∷ z)) (length v) ≡ done x
unfolding load
load_free [] z x = refl
load_free (a ∷ v) z x = load_free v z x

pub store_free :
    (v z : List Abonent) (x a : Abonent) → store (v ++ (x ∷ z)) (length v) a ≡ done (v ++ (a ∷ z))
store_free [] z x a = store-zero x z a
store_free (b ∷ v) z x a = rw (store-cons, store_free v z x a)
