-- ===== src/Reversed/Laws.antt =====
-- What is printed is the file's content from its end, as far as the calls succeed.
use mathlib.Core.Path.{subst}
use mathlib.Core.List.{reverse, reverse-append}
use hw.Prelude.{
  ℕ, zero, suc, ◌≤◌, ◌<◌, ◌≡◌, ◌⊎◌, inl, inr, refl, ap, ◌∙◌, Bool, true, false, not, ◌||◌, List, [],
  ◌∷◌, ◌++◌, some, arith, if◌then◌else◌, ◌==◌, length, get_elem?, take, Bool-cases, Option-cases,
}
use hw.Reversed.{Calls, fgetc, print_back, main}

take_next :
    (xs : List ℕ) (i : ℕ) {c : ℕ}
    → get_elem? xs i ≡ some c
    → take (suc i) xs ≡ take i xs ++ (c ∷ [])
take_next [] i h = cc
take_next (x ∷ xs) zero h = cc
take_next (x ∷ xs) (suc i) h = ap (λ t. x ∷ t) (take_next xs i h)

take_all : (xs : List ℕ) → take (length xs) xs ≡ xs
take_all [] = refl
take_all (x ∷ xs) = ap (λ t. x ∷ t) (take_all xs)

-- `printed` is the front of `all`, and all of it where nothing failed.
pub record IsFront (all printed : List ℕ) (whole : Bool) : Type 0 where
  pub rest : List ℕ
  pub splits : all ≡ printed ++ rest
  pub complete : (whole ≡ false) ⊎ (rest ≡ [])

fgetc_elem :
    (calls : Calls) (i : ℕ) {c : ℕ} → fgetc calls i ≡ some c → get_elem? calls.content i ≡ some c
unfolding fgetc
fgetc_elem calls i h = elim (Bool-cases (calls.reads i)) [
  | inl ok ↦ ground (arith, ok)
  | inr failed ↦ ground (arith, failed)
]

IsFront-cons :
    (all shorter printed : List ℕ) (whole : Bool) (c : ℕ)
    → all ≡ c ∷ shorter
    → IsFront shorter printed whole
    → IsFront all (c ∷ printed) whole
IsFront-cons all shorter printed whole c e f = record {
  rest = f.rest;
  splits = e ∙ ap (λ t. c ∷ t) f.splits;
  complete = f.complete;
}

module _ (calls : Calls) where
  all_left : (i : ℕ) → IsFront (reverse (take (suc i) calls.content)) [] false
  all_left i = record {
    rest = reverse (take (suc i) calls.content);
    splits = refl;
    complete = inl refl;
  }

  last_first :
      (i c : ℕ)
      → get_elem? calls.content i ≡ some c
      → reverse (take (suc i) calls.content) ≡ c ∷ reverse (take i calls.content)
  last_first i c h =
      ap reverse (take_next calls.content i h) ∙ reverse-append (take i calls.content) (c ∷ [])

  print_back-IsFront :
      (i : ℕ)
      → IsFront (reverse (take i calls.content)) (print_back calls i).0 (print_back calls i).1
  unfolding print_back
  print_back-IsFront zero = record { rest = []; splits = refl; complete = inr refl }
  print_back-IsFront (suc i) = elim (Bool-cases (calls.seeks i)) [
    | inr stuck ↦ rw stuck (all_left i)
    | inl moved ↦ elim (Option-cases (fgetc calls i)) [
      | inl ended ↦ rw (moved, ended) (all_left i)
      | inr (ch, came) ↦
          rw (moved, came)
            (IsFront-cons (reverse (take (suc i) calls.content)) (reverse (take i calls.content))
              (print_back calls i).0 (print_back calls i).1 ch
              (last_first i ch (fgetc_elem calls i came)) (print_back-IsFront i))
    ]
  ]

  nothing_printed : IsFront (reverse calls.content) [] false
  nothing_printed = record { rest = reverse calls.content; splits = refl; complete = inl refl }

  printed_all :
      (whole : Bool) (printed : List ℕ)
      → IsFront (reverse calls.content) printed whole
      → IsFront (reverse calls.content) printed ((if whole then 0 else 1) == 0)
  printed_all true printed f = f
  printed_all false printed f = f

  -- Whatever fails, the program prints the content of the file from its end as far as it comes, and
  -- where it returns 0 it has printed all of it.
  pub main-IsFront : IsFront (reverse calls.content) (main calls).0 ((main calls).1 == 0)
  unfolding main
  main-IsFront = elim (Bool-cases (not calls.opens_write || not calls.puts)) [
    | inl early ↦ rw early nothing_printed
    | inr written ↦ elim (Bool-cases (not calls.opens_read)) [
      | inl early ↦ rw (written, early) nothing_printed
      | inr opened ↦ elim (Bool-cases (not calls.seeks_end || not calls.tells)) [
        | inl early ↦ rw (written, opened, early) nothing_printed
        | inr sized ↦
            rw (written, opened, sized)
              (printed_all whole printed (
                subst (λ xs. IsFront (reverse xs) printed whole) (take_all calls.content)
                  (print_back-IsFront (length calls.content))))
      ]
    ]
  ]
    where
      printed : List ℕ
      printed = (print_back calls (length calls.content)).0

      whole : Bool
      whole = (print_back calls (length calls.content)).1

-- No call fails.
pub record AllSucceed (calls : Calls) : Type 0 where
  pub opened_write : calls.opens_write ≡ true
  pub put : calls.puts ≡ true
  pub opened_read : calls.opens_read ≡ true
  pub sought_end : calls.seeks_end ≡ true
  pub told : calls.tells ≡ true
  pub sought : (i : ℕ) → calls.seeks i ≡ true
  pub got : (i : ℕ) → calls.reads i ≡ true

elem_there : (xs : List ℕ) (i : ℕ) → i < length xs → (c : ℕ) × (get_elem? xs i ≡ some c)
elem_there [] i h = absurd (omega arith)
elem_there (x ∷ xs) zero h = (x, refl)
elem_there (x ∷ xs) (suc i) h = elem_there xs i (omega arith)

module _ (calls : Calls) (ok : AllSucceed calls) where
  print_back_lem :
      (i : ℕ)
      → i ≤ length calls.content
      → print_back calls i ≡ (reverse (take i calls.content), true)
  unfolding print_back fgetc
  print_back_lem zero h = refl
  print_back_lem (suc i) h =
      let (c, there) = elem_there calls.content i (omega arith) in
      rw (ok.sought i, ok.got i, there, print_back_lem i (omega arith), last_first calls i c there)

  -- Where no call fails the program prints the content of the file from its end and returns 0.
  pub main-reverse : main calls ≡ (reverse calls.content, 0)
  unfolding main
  main-reverse = rw (
    ok.opened_write,
    ok.put,
    ok.opened_read,
    ok.sought_end,
    ok.told,
    print_back_lem (length calls.content) (omega arith),
    take_all calls.content,
  )
