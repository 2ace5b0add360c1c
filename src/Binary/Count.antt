-- ===== src/Binary/Count.antt =====
-- `count_ones` counts the ones of the numeral that `print_binary` prints, and its loop ends.
use native.Mathlib.Nat.{pow-suc, pow-succ', div-div-eq-div-mul, zero-div}
use hw.Prelude.{
  ℕ, zero, suc, ◌+◌, ◌/◌, ◌%◌, ◌^◌, ◌<◌, ◌≡◌, refl, ap, sym, ◌∙◌, Bool, true, false, List, [], ◌∷◌,
  arith, ◌==◌, if◌then◌else◌, Bool-cases, inl, inr,
}
use hw.Prelude.Outcome.{done}
use hw.Prelude.Bits.{bit_and-one}
use hw.Binary.{width, binary_loop, print_binary, count_loop, count_ones}
use hw.Binary.Print.{loop_plain, loop_skips, loop_starts, leading_up}

unfoldable pub sum : List ℕ → ℕ
sum [] = 0
sum (d ∷ ds) = d + sum ds

-- The low `i` bits of `n`, added up.
weight : ℕ → ℕ → ℕ
weight zero n = 0
weight (suc i) n = n / 2 ^ i % 2 + weight i n

sum-plain : (i n : ℕ) → sum (binary_loop i n false).0 ≡ weight i n
unfolding sum weight
sum-plain zero n = unfold binary_loop in refl
sum-plain (suc i) n = rw (loop_plain i n, sum-plain i n)

sum-leading : (i n : ℕ) → sum (binary_loop i n true).0 ≡ weight i n
unfolding sum weight
sum-leading zero n = unfold binary_loop in refl
sum-leading (suc i) n = elim (Bool-cases (n / 2 ^ i % 2 == 0)) [
  | inl e ↦
      (let z : n / 2 ^ i % 2 ≡ 0 = ground arith in
        rw (loop_skips i n z, z, sum-leading i n) (omega arith))
  | inr e ↦ (let o : n / 2 ^ i % 2 ≡ 1 = ground arith in rw (loop_starts i n o, o, sum-plain i n))
]

sum-printed :
    (out : List ℕ × Bool)
    → (out.1 ≡ true → out.0 ≡ [])
    → sum (if out.1 then 0 ∷ [] else out.0) ≡ sum out.0
unfolding sum
sum-printed (ds, true) h = rw (h refl)
sum-printed (ds, false) h = refl

halves : (i n : ℕ) → n / 2 ^ suc i ≡ n / 2 / 2 ^ i
halves i n = ap (λ (t : ℕ). n / t) (pow-succ' 2 i) ∙ sym (div-div-eq-div-mul n 2 (2 ^ i))

weight_low : (i n : ℕ) → weight (suc i) n ≡ n % 2 + weight i (n / 2)
unfolding weight
weight_low zero n = omega arith
weight_low (suc i) n = omega (arith, weight_low i n, ap (λ (t : ℕ). t % 2) (halves i n))

weight-zero : (i : ℕ) → weight i 0 ≡ 0
unfolding weight
weight-zero zero = refl
weight-zero (suc i) = omega (arith, weight-zero i, zero-div (2 ^ i))

count_stops : (f count : ℕ) → count_loop (suc f) 0 count ≡ done count
unfolding count_loop
count_stops f count = refl

count_goes_on :
    (f n count : ℕ)
    → (n == 0) ≡ false
    → count_loop (suc f) n count ≡ count_loop f (n / 2) (count + n % 2)
unfolding count_loop
count_goes_on f n count e = rw (e, bit_and-one)

-- A number below 2 ^ f takes at most f rounds, and one test more.
count_loop-weight :
    (f n count : ℕ) → n < 2 ^ f → count_loop (suc f) n count ≡ done (count + weight f n)
count_loop-weight zero n count h =
    let z : n ≡ 0 = omega arith in rw (z, count_stops) (unfold weight in ap done (omega arith))
count_loop-weight (suc f) n count h = elim (Bool-cases (n == 0)) [
  | inl e ↦
      (let z : n ≡ 0 = ground arith in rw (z, count_stops, weight-zero) (ap done (omega arith)))
  | inr e ↦
      rw
        (
          count_goes_on (suc f) n count e,
          count_loop-weight f (n / 2) (count + n % 2) (omega (arith, pow-suc 2 f)),
          weight_low,
        )
        (ap done (omega arith))
]

sum-print_binary : (n : ℕ) → sum (print_binary n) ≡ weight width n
unfolding print_binary
sum-print_binary n =
    sum-printed (binary_loop width n true) (leading_up width n) ∙ sum-leading width n

-- For a 32-bit number the loop ends, and the count is the number of ones in what
-- `print_binary` prints.
pub count_ones-print_binary : (n : ℕ) → n < 2 ^ width → count_ones n ≡ done (sum (print_binary n))
count_ones-print_binary n h =
    unfold count_ones in
    rw (count_loop-weight width n 0 h, sum-print_binary n) (ap done (omega arith))
