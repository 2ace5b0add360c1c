-- ===== src/Substring/Laws.antt =====
-- `find_substring` returns the first occurrence, and NULL only where there is none.
use mathlib.Core.Path.{subst}
use native.Mathlib.Nat.{le_refl}
use hw.Prelude.{
  ℕ, ◌≤◌, ◌≡◌, ◌↔◌, sym, ◌∙◌, ◌≢◌, refl, ap, true, List, [], ◌∷◌, ◌++◌, some, arith, ◌==◌, length,
  Bool-cases, inl, inr, length-append,
}
use hw.Substring.{match_loop, is_empty, find_substring}

-- `pattern` stands at the front of `str`.
pub record IsPrefix (pattern str : List ℕ) : Type 0 where
  pub behind : List ℕ
  pub splits : str ≡ pattern ++ behind

match_loop-IsPrefix :
    (str pattern : List ℕ) → is_empty (match_loop str pattern) ≡ true → IsPrefix pattern str
unfolding match_loop
match_loop-IsPrefix [] [] h = record { behind = []; splits = refl }
match_loop-IsPrefix [] (d ∷ pattern) h = cc
match_loop-IsPrefix (c ∷ str) [] h = record { behind = c ∷ str; splits = refl }
match_loop-IsPrefix (c ∷ str) (d ∷ pattern) h = elim (Bool-cases (c == d)) [
  | inl e ↦
      (let ih = match_loop-IsPrefix str pattern (ground (arith, e)) in
        let same : c ≡ d = ground arith in
        record { behind = ih.behind; splits = rw (same, ih.splits) })
  | inr e ↦ absurd (ground (arith, e))
]

prefix_matches :
    (pattern behind : List ℕ) → is_empty (match_loop (pattern ++ behind) pattern) ≡ true
unfolding match_loop
prefix_matches [] [] = refl
prefix_matches [] (c ∷ behind) = refl
prefix_matches (d ∷ pattern) behind =
    let e : (d == d) ≡ true = ground arith in
    rw (is_empty, match_loop, e) (prefix_matches pattern behind)

-- What is found is a tail of the string that starts with the pattern.
pub find_substring-found :
    (str substr : List ℕ) {found : List ℕ}
    → find_substring str substr ≡ some found
    → (before : List ℕ) × (str ≡ before ++ found) × IsPrefix substr found
unfolding find_substring
find_substring-found [] substr h = cc
find_substring-found (c ∷ str) substr {found} h =
    elim (Bool-cases (is_empty (match_loop (c ∷ str) substr))) [
      | inl hit ↦
          (let all : c ∷ str ≡ found = ground (arith, hit) in
            ([], all, subst (IsPrefix substr) all (match_loop-IsPrefix (c ∷ str) substr hit)))
      | inr miss ↦
          (let later : find_substring str substr ≡ some found = ground (arith, miss) in
            let (before, split, front) = find_substring-found str substr later in
            (c ∷ before, ap (λ t. c ∷ t) split, front))
    ]

find_here :
    (str substr : List ℕ)
    → str ≢ []
    → is_empty (match_loop str substr) ≡ true
    → find_substring str substr ≡ some str
unfolding find_substring
find_here [] substr h e = absurd (h refl)
find_here (c ∷ str) substr h e = rw (find_substring, e)

-- No occurrence is overlooked: where the pattern stands in the string behind `before`, and not at
-- its very end, something is found that starts no later.
find_substring_early :
    (before substr behind : List ℕ)
    → substr ++ behind ≢ []
    → (found : List ℕ) × (find_substring (before ++ (substr ++ behind)) substr ≡ some found)
      × (length (substr ++ behind) ≤ length found)
unfolding find_substring
find_substring_early [] substr behind k = (
  substr ++ behind,
  find_here (substr ++ behind) substr k (prefix_matches substr behind),
  le_refl _,
)
find_substring_early (c ∷ before) substr behind k =
    let (found, run, long) = find_substring_early before substr behind k in
    let str = before ++ (substr ++ behind) in
    elim (Bool-cases (is_empty (match_loop (c ∷ str) substr))) [
      | inl hit ↦ (
        c ∷ str,
        rw (find_substring, hit),
        omega (arith, length-append before (substr ++ behind)),
      )
      | inr miss ↦ (found, rw (find_substring, miss) run, long)
    ]

-- `found` is where the pattern stands first in `str`: a tail that is not empty and starts with the
-- pattern, and no other such tail starts before it.
pub record IsFirst (pattern str found : List ℕ) : Type 0 where
  pub ahead : List ℕ
  pub tail : str ≡ ahead ++ found
  pub front : IsPrefix pattern found
  pub some_left : found ≢ []
  pub earliest :
      (before behind : List ℕ)
      → str ≡ before ++ (pattern ++ behind)
      → pattern ++ behind ≢ []
      → length ahead ≤ length before

found_left :
    (str substr : List ℕ) {found : List ℕ} → find_substring str substr ≡ some found → found ≢ []
unfolding find_substring
found_left [] substr h e = cc
found_left (c ∷ str) substr {found} h e =
    elim (Bool-cases (is_empty (match_loop (c ∷ str) substr))) [
      | inl hit ↦ (let all : some (c ∷ str) ≡ some found = ground (arith, hit) in cc (all))
      | inr miss ↦ found_left str substr (ground (arith, miss)) e
    ]

same_tail : (a b c d : List ℕ) → a ++ b ≡ c ++ d → length a ≡ length c → b ≡ d
same_tail [] b [] d e n = e
same_tail [] b (y ∷ c) d e n = absurd (omega (arith, n))
same_tail (x ∷ a) b [] d e n = absurd (omega (arith, n))
same_tail (x ∷ a) b (y ∷ c) d e n = same_tail a b c d (cc e) (omega (arith, n))

found-IsFirst :
    (str substr : List ℕ) {found : List ℕ}
    → find_substring str substr ≡ some found
    → IsFirst substr str found
found-IsFirst str substr {found} run =
    let (ahead, tail, front) = find_substring-found str substr run in
    record {
      ahead = ahead;
      tail = tail;
      front = front;
      some_left = found_left str substr run;
      earliest = λ before behind split left.
          let (other, run', long) = find_substring_early before substr behind left in
          let same : some other ≡ some found = sym (rw split run') ∙ run in
          let one : other ≡ found = cc same in
          omega (
            arith,
            long,
            ap length one,
            ap length tail,
            ap length split,
            length-append ahead found,
            length-append before (substr ++ behind),
          );
    }

IsFirst-found :
    (str substr found : List ℕ) → IsFirst substr str found → find_substring str substr ≡ some found
IsFirst-found str substr found h =
    let split : str ≡ h.ahead ++ (substr ++ h.front.behind) =
      h.tail ∙ ap (λ t. h.ahead ++ t) h.front.splits in
    let left : substr ++ h.front.behind ≢ [] = λ e. h.some_left (h.front.splits ∙ e) in
    let (other, run, long) = find_substring_early h.ahead substr h.front.behind left in
    let run' : find_substring str substr ≡ some other = rw split run in
    let first = found-IsFirst str substr run' in
    let split' : str ≡ first.ahead ++ (substr ++ first.front.behind) =
      first.tail ∙ ap (λ t. first.ahead ++ t) first.front.splits in
    let left' : substr ++ first.front.behind ≢ [] = λ e. first.some_left (first.front.splits ∙ e) in
    let near = h.earliest first.ahead first.front.behind split' left' in
    let near' = first.earliest h.ahead h.front.behind split left in
    let same : other ≡ found =
      same_tail first.ahead other h.ahead found (sym first.tail ∙ h.tail)
        (omega (arith, near, near')) in
    run' ∙ ap (λ t. some t) same

-- The string from a place in it on is returned exactly where the pattern stands there, in front of
-- something that is not empty, and nowhere earlier; NULL is returned where there is no such place.
pub find_substring-IsFirst :
    (str substr found : List ℕ)
    → (find_substring str substr ≡ some found) ↔ IsFirst substr str found
find_substring-IsFirst str substr found =
    (λ run. found-IsFirst str substr run, λ first. IsFirst-found str substr found first)
