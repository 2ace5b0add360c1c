-- ===== src/Password/Laws.antt =====
-- Which passwords are granted access.
use hw.Prelude.{
  ℕ, ◌≤◌, ◌<◌, ◌≡◌, ◌≢◌, refl, ap, ◌↔◌, true, false, Bool-cases, inl, inr, List, [], ◌∷◌, ◌++◌,
  some, arith, ltb, ◌==◌, length,
}
use hw.Prelude.Outcome.{Outcome, done, fault}
use hw.Stdio.{codes, c_string, same_string}
use hw.Stdio.Laws.{same_string_refl, same_string-eq}
use hw.Password.{line_of, gets, is_pass_ok, main}

-- No newline in it.
abbrev pub IsLine : List ℕ → Type 0
IsLine [] = Unit {0}
IsLine (c ∷ l) = (c ≢ 10) × IsLine l

line_found : (l rest : List ℕ) → IsLine l → line_of (l ++ 10 ∷ rest) ≡ l
unfolding line_of
line_found [] rest h = refl
line_found (c ∷ l) rest (h, hs) =
    let e : (c == 10) ≡ false = ground arith in rw (line_of, e, line_found l rest hs) refl

line_read : (l rest : List ℕ) → IsLine l → gets (l ++ 10 ∷ rest) ≡ some (l)
unfolding gets
line_read [] rest h = ap (λ r. some r) (line_found [] rest h)
line_read (c ∷ l) rest h = ap (λ r. some r) (line_found (c ∷ l) rest h)

abbrev granted : List (List ℕ)
granted = codes "Enter password:" ∷ codes "Access granted!" ∷ []

checked :
    (l rest : List ℕ)
    → IsLine l
    → length l < 12
    → is_pass_ok (l ++ 10 ∷ rest) ≡ done (same_string (c_string l) (codes "test"))
unfolding is_pass_ok
checked l rest h short =
    let room : ltb (length l) 12 ≡ true = ground (arith, short) in
    rw (is_pass_ok, line_read l rest h, room) refl

-- The status of a run.
abbrev status : Outcome (ℕ × List (List ℕ)) → ℕ
status (done (n, lines)) = n
status m = 2

-- A line shorter than twelve bytes is granted access, with status 0, exactly where the string in
-- it is the password.
pub main-granted :
    (l rest : List ℕ)
    → IsLine l
    → length l < 12
    → (main (l ++ 10 ∷ rest) ≡ done (0, granted)) ↔ (c_string l ≡ codes "test")
unfolding main
main-granted l rest h short = (only_if, when)
  where
    only_if : main (l ++ 10 ∷ rest) ≡ done (0, granted) → c_string l ≡ codes "test"
    only_if e = elim (Bool-cases (same_string (c_string l) (codes "test"))) [
      | inl same ↦ same_string-eq (c_string l) (codes "test") same
      | inr other ↦
          let refused : status (main (l ++ 10 ∷ rest)) ≡ 1 =
            rw (main, checked l rest h short, other) refl in
          ground (arith, refused, ap status e)
    ]

    when : c_string l ≡ codes "test" → main (l ++ 10 ∷ rest) ≡ done (0, granted)
    when e =
        let same : same_string (c_string l) (codes "test") ≡ true =
          rw e (same_string_refl (codes "test")) in
        rw (main, checked l rest h short, same) refl

-- A longer line ends in something undefined.
pub main_overflows : (l rest : List ℕ) → IsLine l → 12 ≤ length l → main (l ++ 10 ∷ rest) ≡ fault
unfolding main is_pass_ok
main_overflows l rest h long =
    let full : ltb (length l) 12 ≡ false = ground (arith, long) in
    rw (main, is_pass_ok, line_read l rest h, full) refl
