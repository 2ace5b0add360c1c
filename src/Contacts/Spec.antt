-- ===== src/Contacts/Spec.antt =====
-- A telephone book as its list of entries, in the order in which they were added.
use hw.Prelude.{
  arith, refl, ℕ, ◌+◌, ◌≡◌, Bool, true, false, ◌||◌, List, [], ◌∷◌, ◌++◌, none, some, length,
  if◌then◌else◌,
}
use hw.Prelude.Outcome.{done, >>=-eq-done}
use hw.Stdio.{Buffer, read_word, same_string}
use hw.Contacts.Common.{Abonent, Message, entry, name_len, read_abonent}

pub record Phonebook : Type 0 where
  pub entries : List Abonent
  pub printed : List Message

abbrev pub known : Buffer → Bool
known none = false
known (some s) = true

-- All three strings of an entry were stored.
abbrev pub IsKnown : Abonent → Type 0
IsKnown a = (known a.name ≡ true) × (known a.second_name ≡ true) × (known a.tel ≡ true)

abbrev pub AllKnown : List Abonent → Type 0
AllKnown [] = Unit {0}
AllKnown (a ∷ as_) = IsKnown a × AllKnown as_

abbrev pub string : Buffer → List ℕ
string none = []
string (some s) = s

unfoldable pub is_named : List ℕ → Abonent → Bool
is_named k a = same_string (string a.name) k

abbrev pub shown : Abonent → Message
shown a = entry (string a.name) (string a.second_name) (string a.tel)

-- Without the first entry of that name.
unfoldable pub remove_first : List ℕ → List Abonent → List Abonent
remove_first k [] = []
remove_first k (a ∷ rest) = if is_named k a then rest else a ∷ remove_first k rest

unfoldable pub any_named : List ℕ → List Abonent → Bool
any_named k [] = false
any_named k (a ∷ rest) = is_named k a || any_named k rest

-- The messages of a search: the entries of that name, in order.
unfoldable pub found : List ℕ → List Abonent → List Message
found k [] = []
found k (a ∷ rest) = if is_named k a then shown a ∷ found k rest else found k rest

unfoldable pub all_shown : List Abonent → List Message
all_shown [] = []
all_shown (a ∷ rest) = shown a ∷ all_shown rest

abbrev pub hits : Bool → ℕ
hits true = 1
hits false = 0

-- A removal shortens the list by one where the name stands in it, and by none where it does not.
pub length-remove_first :
    (k : List ℕ) (v : List Abonent) → length (remove_first k v) + hits (any_named k v) ≡ length v
unfolding remove_first any_named
length-remove_first k [] = refl
length-remove_first k (a ∷ v) = ground (arith, length-remove_first k v)

pub remove_first-AllKnown :
    (k : List ℕ) (v : List Abonent) → AllKnown v → AllKnown (remove_first k v)
unfolding remove_first
remove_first-AllKnown k [] h = tt
remove_first-AllKnown k (a ∷ v) h = ground (arith, remove_first-AllKnown k v h.1)

pub append-AllKnown : (v w : List Abonent) → AllKnown v → AllKnown w → AllKnown (v ++ w)
append-AllKnown [] w h g = g
append-AllKnown (a ∷ v) w h g = (h.0, append-AllKnown v w h.1 g)

read_word-known :
    (size : ℕ) (b : Buffer) (input : List ℕ) {b' : Buffer} {rest : List ℕ}
    → known b ≡ true
    → read_word size b input ≡ done (b', rest)
    → known b' ≡ true
unfolding read_word
read_word-known size b input h e = ground arith

-- Reading an entry leaves no string undefined that was stored before.
pub read_abonent-IsKnown :
    (a : Abonent) (input : List ℕ) {b : Abonent} {rest : List ℕ}
    → IsKnown a
    → read_abonent a input ≡ done (b, rest)
    → IsKnown b
unfolding read_abonent
read_abonent-IsKnown a input h e =
    let (n, en, e₁) = >>=-eq-done (read_word name_len a.name input) _ e in
    let (s, es, e₂) = >>=-eq-done (read_word name_len a.second_name n.1) _ e₁ in
    let (t, et, e₃) = >>=-eq-done (read_word name_len a.tel s.1) _ e₂ in
    ground (
      arith,
      read_word-known name_len a.name input {b' = n.0} {rest = n.1} h.0 en,
      read_word-known name_len a.second_name n.1 {b' = s.0} {rest = s.1} h.1 es,
      read_word-known name_len a.tel s.1 {b' = t.0} {rest = t.1} h.2 et,
    )
