-- ===== src/Contacts/Dynamic/Known.antt =====
-- The list operations of dynamic/task.c on entries whose strings were all read.
use hw.Prelude.{
  [], ℕ, ◌-◌, ◌≡◌, refl, ap, sym, Bool, true, false, List, ◌∷◌, none, some, arith, length, take,
  if◌then◌else◌,
}
use hw.Prelude.Outcome.{done}
use hw.Contacts.Common.{Abonent}
use hw.Contacts.Spec.{AllKnown, any_named, found, all_shown}
use hw.Contacts.Fixed.Loops.{has_name-known, show_abonent-known}
use hw.Contacts.Dynamic.Laws.{delete_loop_lem, swap_remove, swapped}
use hw.Contacts.Dynamic.Spec.{without, shown_of, all_of}
use hw.Contacts.Dynamic.Refines.{delete_loop-seek, cropped, without-seek}

cropped_if :
    (n : ℕ) (b : Bool) (t : List Abonent)
    → cropped n (if b then some t else none) ≡ (if b then some (take n t) else none)
cropped_if n true t = refl
cropped_if n false t = refl

-- Without the first entry of a name, where the entries have their strings.
pub without-known :
    (k : List ℕ) (v : List Abonent)
    → AllKnown v
    → without (some k) v ≡ done (if any_named k v then some (swap_remove k v) else none)
without-known k v h =
    rw (without-seek (some k) v, sym (delete_loop-seek (some k) v), delete_loop_lem k v h)
      (ap done (cropped_if (length v - 1) (any_named k v) (swapped k v)))

pub shown_of-known :
    (k : List ℕ) (v : List Abonent) → AllKnown v → shown_of (some k) v ≡ done (found k v)
unfolding shown_of found
shown_of-known k [] h = refl
shown_of-known k (a ∷ v) h =
    simp (has_name-known a k h.0, shown_of-known k v h.1) (ground (arith, show_abonent-known a h.0))

pub all_of-known : (v : List Abonent) → AllKnown v → all_of v ≡ done (all_shown v)
unfolding all_of all_shown
all_of-known [] h = refl
all_of-known (a ∷ v) h = simp (show_abonent-known a h.0, all_of-known v h.1)
