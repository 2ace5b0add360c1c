-- ===== src/Contacts/Contents.antt =====
-- Lists of entries up to order: what both telephone books make of lists that hold the same.
use mathlib.Core.Logic.{∥∥₁_elim}
use mathlib.Core.List.{Perm, Permᴰ, filter_map, map}
use mathlib.Core.List.Perm
use native.Mathlib.Nat.{ℕ_set}
use mathlib.Core.Path.{subst}
use hw.Prelude.{
  [], sym, ℕ, ◌+◌, ◌≤◌, ◌≡◌, refl, ap, false, List, ◌∷◌, none, some, ltb, inl, inr, arith,
  Bool-cases, if◌then◌else◌,
}
use hw.Contacts.Common.{Abonent}
use hw.Contacts.Spec.{
  IsKnown, AllKnown, is_named, shown, remove_first, any_named, found, all_shown, hits,
}

-- How many entries have that name.
unfoldable pub named : List ℕ → List Abonent → ℕ
named k [] = 0
named k (a ∷ v) = hits (is_named k a) + named k v

named-Permᴰ : (k : List ℕ) {v w : List Abonent} → Permᴰ v w → named k v ≡ named k w
unfolding named
named-Permᴰ k Permᴰ.nil = refl
named-Permᴰ k (Permᴰ.cons e p) = rw (e, named-Permᴰ k p) refl
named-Permᴰ k (Permᴰ.swap {l} e e') = rw (e, e') (omega arith)
named-Permᴰ k (Permᴰ.trans p q) = cc (named-Permᴰ k p, named-Permᴰ k q)

named-perm : (k : List ℕ) {v w : List Abonent} → Perm v w → named k v ≡ named k w
named-perm k p = ∥∥₁_elim p (ℕ_set _ _) (named-Permᴰ k)

-- A name stands in the list where some entry has it.
any_named-named : (k : List ℕ) (v : List Abonent) → any_named k v ≡ ltb 0 (named k v)
unfolding any_named named
any_named-named k [] = refl
any_named-named k (a ∷ v) = ground (arith, any_named-named k v)

pub any_named-perm : (k : List ℕ) {v w : List Abonent} → Perm v w → any_named k v ≡ any_named k w
any_named-perm k {v} {w} p = rw (any_named-named k v, any_named-named k w, named-perm k p) refl

-- The entries of other names.
unfoldable pub others : List ℕ → List Abonent → List Abonent
others k = filter_map (λ a. if is_named k a then none else some a)

others-none : (k : List ℕ) (v : List Abonent) → named k v ≡ 0 → others k v ≡ v
unfolding others named filter_map
others-none k [] h = refl
others-none k (a ∷ v) h = elim (Bool-cases (is_named k a)) [
  | inl hit ↦ ground arith
  | inr miss ↦ rw miss (ap (λ t. a ∷ t) (others-none k v (ground arith)))
]

remove_first-others :
    (k : List ℕ) (v : List Abonent) → named k v ≤ 1 → remove_first k v ≡ others k v
unfolding remove_first others named filter_map
remove_first-others k [] h = refl
remove_first-others k (a ∷ v) h = elim (Bool-cases (is_named k a)) [
  | inl hit ↦ rw hit (sym (others-none k v (ground arith)))
  | inr miss ↦ rw miss (ap (λ t. a ∷ t) (remove_first-others k v (ground arith)))
]

pub remove_first-absent :
    (k : List ℕ) (v : List Abonent) → any_named k v ≡ false → remove_first k v ≡ v
unfolding remove_first any_named
remove_first-absent k [] h = refl
remove_first-absent k (a ∷ v) h = ground (arith, remove_first-absent k v)

-- Where at most one entry has the name, removing the first of that name leaves the same entries
-- of both lists.
pub remove_first-perm :
    (k : List ℕ) {v w : List Abonent}
    → Perm v w
    → named k v ≤ 1
    → Perm (remove_first k v) (remove_first k w)
unfolding others
remove_first-perm k {v} {w} p h =
    let one : named k w ≤ 1 = omega (arith, named-perm k p, h) in
    rw (remove_first-others k v h, remove_first-others k w one)
      (Perm.filter_map (λ a. if is_named k a then none else some a) p)

found-filter_map :
    (k : List ℕ) (v : List Abonent)
    → found k v ≡ filter_map (λ a. if is_named k a then some (shown a) else none) v
unfolding found filter_map
found-filter_map k [] = refl
found-filter_map k (a ∷ v) = ground (arith, found-filter_map k v)

pub found-perm : (k : List ℕ) {v w : List Abonent} → Perm v w → Perm (found k v) (found k w)
found-perm k {v} {w} p =
    rw (found-filter_map k v, found-filter_map k w)
      (Perm.filter_map (λ a. if is_named k a then some (shown a) else none) p)

all_shown-map : (v : List Abonent) → all_shown v ≡ map shown v
unfolding all_shown
all_shown-map [] = refl
all_shown-map (a ∷ v) = ap (λ t. shown a ∷ t) (all_shown-map v)

pub all_shown-perm : {v w : List Abonent} → Perm v w → Perm (all_shown v) (all_shown w)
all_shown-perm {v} {w} p = rw (all_shown-map v, all_shown-map w) (Perm.map shown p)

AllKnown-Permᴰ : {v w : List Abonent} → Permᴰ v w → AllKnown v → AllKnown w
AllKnown-Permᴰ Permᴰ.nil h = tt
AllKnown-Permᴰ (Permᴰ.cons e p) h = (subst IsKnown e h.0, AllKnown-Permᴰ p h.1)
AllKnown-Permᴰ (Permᴰ.swap e e') h = (subst IsKnown e' h.1.0, (subst IsKnown e h.0, h.1.1))
AllKnown-Permᴰ (Permᴰ.trans p q) h = AllKnown-Permᴰ q (AllKnown-Permᴰ p h)

AllKnown-prop : (v : List Abonent) → IsProp (AllKnown v)
AllKnown-prop [] = hlevel
AllKnown-prop (a ∷ v) = hlevel (AllKnown-prop v)

pub AllKnown-perm : {v w : List Abonent} → Perm v w → AllKnown v → AllKnown w
AllKnown-perm {v} {w} p h = ∥∥₁_elim p (AllKnown-prop w) (λ d. AllKnown-Permᴰ d h)
