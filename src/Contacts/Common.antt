-- ===== src/Contacts/Common.antt =====
-- What structs/task.c and dynamic/task.c share: the entry, its input and its output.
use hw.Prelude.{ℕ, zero, suc, Bool, true, false, List, [], ◌∷◌, ◌++◌, Option, none, some, get_elem?}
use hw.Prelude.Int.{ℤ, pos, negsuc}
use hw.Prelude.Outcome.{Outcome, done, fault, ◌>>=◌}
use hw.Stdio.{Buffer, text, read_word, same_string, scan_int}

abbrev pub name_len : ℕ
name_len = 10

-- `struct abonent`: three arrays of NAME_LEN bytes.
pub record Abonent : Type 0 where
  pub name : Buffer
  pub second_name : Buffer
  pub tel : Buffer

-- All bytes zero: three empty strings.
abbrev pub zeroed : Abonent
zeroed = record { name = some []; second_name = some []; tel = some [] }

-- What `malloc` hands out: nothing stored yet.
abbrev pub fresh : Abonent
fresh = record { name = none; second_name = none; tel = none }

-- One message on the terminal. The prompts and the menu are left out.
pub data Message : Type 0 where
  book_full : Message
  deleted : Message
  not_found : Message
  entry : List ℕ → List ℕ → List ℕ → Message
  leaving : Message
  wrong_choice : Message
  no_memory : Message

-- The load of `list[i]`.
unfoldable pub load {ℓ} : {A : Type ℓ} → List A → ℕ → Outcome A
load xs i = elim (get_elem? xs i) [ none ↦ fault | some a ↦ done a ]

-- The three `scanf` calls that fill an entry, in order; the rest of the input is returned.
unfoldable pub read_abonent : Abonent → List ℕ → Outcome (Abonent × List ℕ)
unfolding read_word
read_abonent a input = do
  (n, input₁) ← read_word name_len a.name input
  (s, input₂) ← read_word name_len a.second_name input₁
  (t, input₃) ← read_word name_len a.tel input₂
  done (record { name = n; second_name = s; tel = t }, input₃)

-- `strcmp(list[i].name, name) == 0`
unfoldable pub has_name : Abonent → Buffer → Outcome Bool
unfolding same_string
has_name a name = do n ← text a.name; k ← text name; done (same_string n k)

-- The `printf` of one entry.
unfoldable pub show_abonent : Abonent → Outcome Message
show_abonent a = do n ← text a.name; s ← text a.second_name; t ← text a.tel; done (entry n s t)

-- The loop of `search_abonent`, over the `left` entries from `i` on.
unfoldable pub search_loop : List Abonent → Buffer → ℕ → ℕ → Outcome (List Message)
search_loop list name zero i = done []
search_loop list name (suc left) i = do
  a ← load list i
  hit ← has_name a name
  shown ← elim hit [ true ↦ (do m ← show_abonent a; done (m ∷ [])) | false ↦ done [] ]
  later ← search_loop list name left (suc i)
  done (shown ++ later)

-- The loop of `print_abonents` (`print_abonent` in dynamic/task.c).
unfoldable pub print_loop : List Abonent → ℕ → ℕ → Outcome (List Message)
print_loop list zero i = done []
print_loop list (suc left) i = do
  a ← load list i
  m ← show_abonent a
  later ← print_loop list left (suc i)
  done (m ∷ later)

-- `choice`, which `scanf` leaves as it was where no number stands in the input. The first use of
-- a `choice` that was never set is undefined.
abbrev pub Choice : Type 0
Choice = Option ℤ

unfoldable pub read_choice : Choice → List ℕ → Outcome (Choice × List ℕ)
unfolding scan_int
read_choice choice input = do
  (read, rest) ← scan_int input
  done (elim read [ none ↦ choice | some v ↦ some v ], rest)

-- The cases of the `switch`.
pub data Command : Type 0 where
  add delete search print exit other : Command

abbrev pub command : ℤ → Command
command (negsuc n) = other
command (pos n) = elim n [
  | suc zero ↦ add
  | suc (suc zero) ↦ delete
  | suc (suc (suc zero)) ↦ search
  | suc (suc (suc (suc zero))) ↦ print
  | suc (suc (suc (suc (suc zero)))) ↦ exit
  | _ ↦ other
]

unfoldable pub decode : Choice → Outcome Command
decode none = fault
decode (some v) = done (command v)
