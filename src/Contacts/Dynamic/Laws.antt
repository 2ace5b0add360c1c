-- ===== src/Contacts/Dynamic/Laws.antt =====
-- What the functions of dynamic/task.c do to the list of entries.
use mathlib.Core.List.{Perm}
use mathlib.Core.List.Perm
use hw.Prelude.{
  take_all, ℕ, zero, suc, ◌+◌, ◌-◌, ◌<◌, ◌≡◌, refl, ap, Bool, true, false, List, [], ◌∷◌, ◌++◌,
  Option, none, some, inl, inr, arith, length, Bool-cases, length-append, take, if◌then◌else◌,
}
use hw.Prelude.Outcome.{done, lift, bind-lift, lift-bind-lift, bind-eq, ◌>>=◌}
use hw.Stdio.{Buffer}
use hw.Contacts.Common.{Abonent, fresh, Message, no_memory, load, read_abonent, has_name}
use hw.Contacts.Spec.{AllKnown, is_named, any_named, remove_first}
use hw.Contacts.Fixed.{store}
use hw.Contacts.Fixed.Loops.{has_name-known, store-cons, store-zero, load_free, store_free}
use hw.Contacts.Dynamic.Spec.{last_of}
use hw.Contacts.Dynamic.{Book, back, exit_failure, resized, delete_at, delete_loop, add_abonent}

-- A book whose block holds these entries and no others.
abbrev pub holding : List Abonent → ℕ → List Message → Book
holding v requests printed = record {
  list = v;
  count = length v;
  requests = requests;
  printed = printed;
}

resized_grow : (v : List Abonent) → resized (length v + 1) v ≡ v ++ (fresh ∷ [])
resized_grow v =
    let one : length v + 1 - length v ≡ 1 = omega arith in
    rw (take_all (length v + 1) v (omega arith), one)

holding_append :
    (v : List Abonent) (a : Abonent) (r : ℕ) (printed : List Message)
    → holding (v ++ (a ∷ [])) r printed
      ≡ record { list = v ++ (a ∷ []); count = length v + 1; requests = r; printed = printed }
holding_append v a r printed =
    let n : length (v ++ (a ∷ [])) ≡ length v + 1 = omega (arith, length-append v (a ∷ [])) in rw n

-- Adding appends the entry that was read, into memory that held nothing before; where the
-- allocator refuses, the program prints so and exits, and the book is lost.
pub add_abonent_lem :
    (grants : ℕ → Bool) (v : List Abonent) (r : ℕ) (printed : List Message) (input : List ℕ)
    → add_abonent grants (holding v r printed) input ≡ (
        if grants r
        then (read_abonent fresh input >>= λ t.
            done (back (holding (v ++ (t.0 ∷ [])) (suc r) printed) t.1))
        else done (exit_failure (printed ++ (no_memory ∷ []))))
unfolding add_abonent
add_abonent_lem grants v r printed input = elim (Bool-cases (grants r)) [
  | inl ok ↦
      rw (ok, add_abonent, resized_grow, load_free)
        (bind-eq (read_abonent fresh input) _ _ λ t. rw (store_free v [] fresh t.0, holding_append))
  | inr refused ↦ rw (refused, add_abonent)
]

-- The first entry of that name is overwritten by the last one, and the last place given up.
unfoldable pub swapped : List ℕ → List Abonent → List Abonent
swapped k [] = []
swapped k (a ∷ v) = if is_named k a then last_of a v ∷ v else a ∷ swapped k v

abbrev pub swap_remove : List ℕ → List Abonent → List Abonent
swap_remove k v = take (length v - 1) (swapped k v)

load-last : (a : Abonent) (v : List Abonent) → load (a ∷ v) (length v) ≡ done (last_of a v)
unfolding load
load-last a [] = refl
load-last a (b ∷ v) = load-last b v

pub delete_at-first :
    (a : Abonent) (v : List Abonent)
    → delete_at (a ∷ v) 0 (suc (length v)) ≡ done (some (last_of a v ∷ v))
unfolding delete_at
delete_at-first a v =
    let last : suc (length v) - 1 ≡ length v = omega arith in
    rw (last, load-last a v, store-zero a v (last_of a v))

abbrev pub under : Abonent → Option (List Abonent) → Option (List Abonent)
under x none = none
under x (some t) = some (x ∷ t)

pub delete_at-cons :
    (x : Abonent) (l : List Abonent) (i c : ℕ)
    → i < c
    → delete_at (x ∷ l) (suc i) (suc c) ≡ lift (under x) (delete_at l i c)
unfolding delete_at load
delete_at-cons x l i c h =
    let last : suc c - 1 ≡ suc (c - 1) = omega arith in
    rw last (
      bind-lift (under x) (load l (c - 1)) _ _ λ a.
        rw (store-cons x l i a) (lift-bind-lift (under x) (λ t. x ∷ t) (store l i a) _ _ λ u. refl))

pub delete_loop-cons :
    (x : Abonent) (name : Buffer) (n i c : ℕ) (l : List Abonent)
    → i + n ≡ c
    → delete_loop n (suc i) (x ∷ l) (suc c) name ≡ lift (under x) (delete_loop n i l c name)
unfolding delete_loop load
delete_loop-cons x name zero i c l h = refl
delete_loop-cons x name (suc n) i c l h = bind-lift (under x) (load l i) _ _ λ a.
    bind-lift (under x) (has_name a name) _ _ (elim [
      | true ↦ delete_at-cons x l i c (omega arith)
      | false ↦ delete_loop-cons x name n (suc i) c l (omega arith)
    ])

-- Both ways to put an entry in front of what a loop found.
pushed_under :
    (x : Abonent) (t : List Abonent) (b : Bool)
    → under x (if b then some t else none) ≡ (if b then some (x ∷ t) else none)
pushed_under x t true = refl
pushed_under x t false = refl

pub delete_loop_lem :
    (k : List ℕ) (v : List Abonent)
    → AllKnown v
    → delete_loop (length v) 0 v (length v) (some k)
      ≡ done (if any_named k v then some (swapped k v) else none)
unfolding delete_loop load any_named swapped
delete_loop_lem k [] h = refl
delete_loop_lem k (a ∷ v) h = rw (has_name-known a k h.0) (elim (Bool-cases (is_named k a)) [
  | inl hit ↦ rw (hit, delete_at-first a v)
  | inr miss ↦
      rw
        (
          miss,
          delete_loop-cons a (some k) (length v) 0 (length v) v (omega arith),
          delete_loop_lem k v h.1,
        )
        (ap done (pushed_under a (swapped k v) (any_named k v)))
])

any_named-pos : (k : List ℕ) (v : List Abonent) → any_named k v ≡ true → 0 < length v
unfolding any_named
any_named-pos k [] h = cc
any_named-pos k (a ∷ v) h = omega arith

swap_one : (b : Abonent) (v : List Abonent) → Perm (last_of b v ∷ take (length v) (b ∷ v)) (b ∷ v)
swap_one b [] = Perm.refl (b ∷ [])
swap_one b (c ∷ v) =
    Perm.trans (Perm.swap b (last_of c v) (take (length v) (c ∷ v))) (Perm.cons b (swap_one c v))

swap_first : (a : Abonent) (v : List Abonent) → Perm (take (length v) (last_of a v ∷ v)) v
swap_first a [] = Perm.refl []
swap_first a (b ∷ v) = swap_one b v

swap_later :
    (a : Abonent) (t u v : List Abonent)
    → 0 < length v
    → Perm (take (length v - 1) t) u
    → Perm (take (length v) (a ∷ t)) (a ∷ u)
swap_later a t u v h p = let e : length v ≡ suc (length v - 1) = omega arith in rw e (Perm.cons a p)

-- The entries that remain are those that a removal in order would leave, in some order.
pub swap_remove-perm :
    (k : List ℕ) (v : List Abonent)
    → any_named k v ≡ true
    → Perm (swap_remove k v) (remove_first k v)
unfolding swapped remove_first any_named
swap_remove-perm k [] h = cc
swap_remove-perm k (a ∷ v) h =
    let n : suc (length v) - 1 ≡ length v = omega arith in
    elim (Bool-cases (is_named k a)) [
      | inl hit ↦ rw (hit, n) (swap_first a v)
      | inr miss ↦
          (let there : any_named k v ≡ true = ground arith in
            rw (miss, n)
              (swap_later a (swapped k v) (remove_first k v) v (any_named-pos k v there)
                (swap_remove-perm k v there)))
    ]
