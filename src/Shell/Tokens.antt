-- ===== src/Shell/Tokens.antt =====
-- `strtok` in a loop against a splitting of the line at every delimiter.
use hw.Prelude.{
  ℕ, zero, suc, ◌≡◌, refl, ap, sym, ◌∙◌, true, false, ◌⊎◌, inl, inr, Bool-cases, List, [], ◌∷◌,
  ◌++◌, none, some, map, arith, ltb, ◌==◌, if◌then◌else◌, length, take,
}
use hw.Shell.{Args, skip, token, behind, strtok, store_args, store_bounded, space}

-- The parts of a string between delimiters, the first one apart, and those that are not empty.
unfoldable pub split : ℕ → List ℕ → List ℕ × List (List ℕ)
split d [] = ([], [])
split d (c ∷ s) =
    let (w, ws) = split d s in elim (c == d) [ true ↦ ([], w ∷ ws) | false ↦ (c ∷ w, ws) ]

abbrev pub keep : List (List ℕ) → List (List ℕ)
keep [] = []
keep ([] ∷ ws) = keep ws
keep ((c ∷ w) ∷ ws) = (c ∷ w) ∷ keep ws

unfoldable pub words : ℕ → List ℕ → List (List ℕ)
unfolding split
words d s = keep ((split d s).0 ∷ (split d s).1)

first-split : (d : ℕ) (s : List ℕ) → (split d s).0 ≡ token d s
unfolding split token
first-split d [] = refl
first-split d (c ∷ s) = elim (Bool-cases (c == d)) [
  | inl e ↦ rw (split, token, e) refl
  | inr e ↦ rw (split, token, e) (ap (λ w. c ∷ w) (first-split d s))
]

others-split : (d : ℕ) (s : List ℕ) → keep (split d s).1 ≡ words d (behind d s)
unfolding split behind words
others-split d [] = refl
others-split d (c ∷ s) = elim (Bool-cases (c == d)) [
  | inl e ↦ rw (split, behind, e) refl
  | inr e ↦ rw (split, behind, e) (others-split d s)
]

words-skip : (d : ℕ) (s : List ℕ) → words d (skip d s) ≡ words d s
unfolding split skip words
words-skip d [] = refl
words-skip d (c ∷ s) = elim (Bool-cases (c == d)) [
  | inl e ↦ rw (words, split, skip, e) (words-skip d s)
  | inr e ↦ rw (skip, e) refl
]

-- What `skip` leaves is empty or starts with another byte than the delimiter.
skip_front :
    (d : ℕ) (s : List ℕ)
    → (skip d s ≡ []) ⊎ ((c : ℕ) × (t : List ℕ) × (skip d s ≡ c ∷ t) × ((c == d) ≡ false))
unfolding skip
skip_front d [] = inl refl
skip_front d (c ∷ s) = elim (Bool-cases (c == d)) [
  | inl e ↦ rw (skip, e) (skip_front d s)
  | inr e ↦ rw (skip, e) (inr (c, s, refl, e))
]

words_from :
    (d c : ℕ) (t : List ℕ)
    → (c == d) ≡ false
    → words d (c ∷ t) ≡ token d (c ∷ t) ∷ words d (behind d (c ∷ t))
unfolding split token behind words
words_from d c t e = rw (words, split, token, behind, e, first-split d t, others-split d t)

-- A call of `strtok` finds no word where there is none, or the first one, and goes on with the
-- others.
pub strtok_cases :
    (d : ℕ) (s : List ℕ)
    → (((strtok d s).0 ≡ none) × (words d s ≡ []) × (words d (strtok d s).1 ≡ []))
      ⊎ ((w : List ℕ) × ((strtok d s).0 ≡ some w) × (words d s ≡ w ∷ words d (strtok d s).1))
unfolding strtok split words
strtok_cases d s = elim (skip_front d s) [
  | inl e ↦ inl (rw (strtok, e) refl, sym (words-skip d s) ∙ rw e refl, rw (strtok, e) refl)
  | inr (c, t, e, other) ↦ inr (
    token d (c ∷ t),
    rw (strtok, e) refl,
    sym (words-skip d s) ∙ rw (strtok, e) (words_from d c t other),
  )
]

-- An array of arguments: the words, and NULL behind them.
abbrev pub arguments : List (List ℕ) → Args
arguments ws = map (λ w. some w) ws ++ (none ∷ [])

-- What the unguarded loop makes of a line: its words and NULL, where there is room for these, and
-- nothing defined otherwise.
pub store_args-words :
    (room : ℕ) (s : List ℕ)
    → store_args room s
      ≡ (if ltb (length (words space s)) room then some (arguments (words space s)) else none)
unfolding store_args
store_args-words zero s =
    let over : ltb (length (words space s)) 0 ≡ false = ground arith in rw over refl
store_args-words (suc room) s = elim (strtok_cases space s) [
  | inl (e, z, _) ↦
      let fits : ltb 0 (suc room) ≡ true = ground arith in rw (store_args, e, z, fits) refl
  | inr (w, e, z) ↦ elim (Bool-cases (ltb (length (words space (strtok space s).1)) room)) [
    | inl h ↦
        let fits : ltb (suc (length (words space (strtok space s).1))) (suc room) ≡ true =
          ground (arith, h) in
        rw (store_args, e, z, store_args-words room (strtok space s).1, h, fits) refl
    | inr h ↦
        let over : ltb (suc (length (words space (strtok space s).1))) (suc room) ≡ false =
          ground (arith, h) in
        rw (store_args, e, z, store_args-words room (strtok space s).1, h, over) refl
  ]
]

-- What the guarded loop makes of a line: as many of its words as there is room for, and NULL.
pub store_bounded-words :
    (room : ℕ) (s : List ℕ) → store_bounded room s ≡ arguments (take room (words space s))
unfolding store_bounded
store_bounded-words zero s = refl
store_bounded-words (suc room) s = elim (strtok_cases space s) [
  | inl (e, z, _) ↦ rw (store_bounded, e, z) refl
  | inr (w, e, z) ↦ rw (store_bounded, e, z, store_bounded-words room (strtok space s).1) refl
]
