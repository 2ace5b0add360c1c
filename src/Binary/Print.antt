-- ===== src/Binary/Print.antt =====
-- `print_binary` prints the binary numeral of its argument.
use native.Mathlib.Nat.{pow-suc, one-le-pow, mod-add-div, mod-add-div', mod-lt}
use hw.Prelude.{
  ◌⊎◌, ℕ, zero, suc, ◌+◌, ◌*◌, ◌/◌, ◌%◌, ◌^◌, ◌<◌, ◌≡◌, refl, ap, ◌∙◌, Bool, true, false, List, [],
  ◌∷◌, length, arith, ◌==◌, if◌then◌else◌, Bool-cases, inl, inr,
}
use hw.Prelude.Bits.{bit_and-one}
use hw.Binary.{width, binary_loop, print_binary}

-- The number that a binary numeral stands for, the highest digit first.
unfoldable pub value : List ℕ → ℕ
value [] = 0
value (d ∷ ds) = d * 2 ^ length ds + value ds

abbrev pub AllDigits : List ℕ → Type 0
AllDigits [] = Unit {0}
AllDigits (d ∷ ds) = (d < 2) × AllDigits ds

mul-pow-suc : (q k : ℕ) → q * 2 ^ suc k ≡ 2 * (q * 2 ^ k)
mul-pow-suc q k = omega (arith, ap (λ (t : ℕ). q * t) (pow-suc 2 k))

mod_unique : (q m r : ℕ) → r < m → (q * m + r) % m ≡ r
mod_unique q m r h = grind arith

-- One more binary digit.
pub mod-pow-suc : (n i : ℕ) → n % 2 ^ suc i ≡ n / 2 ^ i % 2 * 2 ^ i + n % 2 ^ i
mod-pow-suc n i =
    ap (λ (t : ℕ). t % 2 ^ suc i) parts
    ∙ mod_unique (q / 2) (2 ^ suc i) (q % 2 * 2 ^ i + n % 2 ^ i) fits
  where
    q : ℕ
    q = n / 2 ^ i

    twice : q * 2 ^ i ≡ 2 * (q / 2 * 2 ^ i) + q % 2 * 2 ^ i
    twice = omega (arith, ap (λ (t : ℕ). t * 2 ^ i) (mod-add-div q 2))

    parts : n ≡ q / 2 * 2 ^ suc i + (q % 2 * 2 ^ i + n % 2 ^ i)
    parts = omega (arith, mod-add-div' n (2 ^ i), mul-pow-suc (q / 2) i, twice)

    fits : q % 2 * 2 ^ i + n % 2 ^ i < 2 ^ suc i
    fits = grind (arith, mod-lt n (one-le-pow i 2 (omega arith)), pow-suc 2 i)

-- One round of the loop, by the bit that it looks at.
module _ (i n : ℕ) where
  abbrev pub bit : ℕ
  bit = n / 2 ^ i % 2

  abbrev pub plain : List ℕ × Bool
  plain = binary_loop i n false

  pub loop_plain : binary_loop (suc i) n false ≡ (bit ∷ plain.0, plain.1)
  unfolding binary_loop
  loop_plain =
      rw (bit_and-one (n / 2 ^ i)) (elim (Bool-cases (bit == 0)) [ inl e ↦ rw e | inr e ↦ rw e ])

  pub loop_skips : bit ≡ 0 → binary_loop (suc i) n true ≡ binary_loop i n true
  unfolding binary_loop
  loop_skips e = rw (bit_and-one (n / 2 ^ i), e)

  pub loop_starts : bit ≡ 1 → binary_loop (suc i) n true ≡ (1 ∷ plain.0, plain.1)
  unfolding binary_loop
  loop_starts e = rw (bit_and-one (n / 2 ^ i), e)

-- What the loop prints once the flag is down: `i` digits, which stand for the low `i` bits.
record IsPlain (i n : ℕ) (out : List ℕ × Bool) : Type 0 where
  digits : AllDigits out.0
  long : length out.0 ≡ i
  means : value out.0 ≡ n % 2 ^ i
  down : out.1 ≡ false

binary_loop-IsPlain : (i n : ℕ) → IsPlain i n (binary_loop i n false)
unfolding value
binary_loop-IsPlain zero n =
    unfold binary_loop in record { digits = tt; long = refl; means = omega arith; down = refl }
binary_loop-IsPlain (suc i) n =
    let ih = binary_loop-IsPlain i n in
    rw (loop_plain i n) (record {
      digits = (omega arith, ih.digits);
      long = ap suc ih.long;
      means = rw (ih.long, ih.means, mod-pow-suc n i);
      down = ih.down;
    })

-- What it prints with the flag up: nothing, with the flag still up, if the low `i` bits are zero;
-- otherwise their numeral, a 1 first.
abbrev pub StartsWithOne : List ℕ → Type 0
StartsWithOne [] = ⊥
StartsWithOne (d ∷ ds) = d ≡ 1

record IsLeading (i n : ℕ) (out : List ℕ × Bool) : Type 0 where
  digits : AllDigits out.0
  means : value out.0 ≡ n % 2 ^ i
  up : out.1 ≡ true → out.0 ≡ []
  down : out.1 ≡ false → StartsWithOne out.0

binary_loop-IsLeading : (i n : ℕ) → IsLeading i n (binary_loop i n true)
unfolding value
binary_loop-IsLeading zero n =
    unfold binary_loop in
    record { digits = tt; means = omega arith; up = λ e. refl; down = λ e. cc }
binary_loop-IsLeading (suc i) n = elim (Bool-cases (n / 2 ^ i % 2 == 0)) [
  | inl zero_bit ↦
      (let ih = binary_loop-IsLeading i n in
        let none_there : n / 2 ^ i % 2 ≡ 0 = ground arith in
        rw (loop_skips i n none_there) (record {
          digits = ih.digits;
          means = rw (ih.means, mod-pow-suc n i, none_there) (omega arith);
          up = ih.up;
          down = ih.down;
        }))
  | inr one_bit ↦
      (let ih = binary_loop-IsPlain i n in
        let one_there : n / 2 ^ i % 2 ≡ 1 = ground arith in
        rw (loop_starts i n one_there) (record {
          digits = (omega arith, ih.digits);
          means = rw (ih.long, ih.means, mod-pow-suc n i, one_there);
          up = λ e. absurd (ground (arith, ih.down));
          down = λ e. refl;
        }))
]

-- With the flag up at the end nothing was printed.
pub leading_up : (i n : ℕ) → (binary_loop i n true).1 ≡ true → (binary_loop i n true).0 ≡ []
leading_up i n = (binary_loop-IsLeading i n).up

abbrev pub IsNumeral : ℕ → List ℕ → Type 0
IsNumeral n ds = AllDigits ds × (value ds ≡ n) × ((n ≡ 0) × (ds ≡ 0 ∷ []) ⊎ StartsWithOne ds)

printed :
    (n : ℕ) (out : List ℕ × Bool)
    → n < 2 ^ width
    → IsLeading width n out
    → IsNumeral n (if out.1 then 0 ∷ [] else out.0)
unfolding value
printed n (ds, true) h l =
    let nothing : value ds ≡ 0 = rw (l.up refl) in
    let n_zero : n ≡ 0 = omega (arith, l.means, nothing) in
    ((omega arith, tt), omega arith, inl (n_zero, refl))
printed n (ds, false) h l = (l.digits, omega (arith, l.means), inr (l.down refl))

-- For a 32-bit number `print_binary` prints zeros and ones that stand for the number, with no
-- zero in front; for 0 it prints the one digit 0.
pub print_binary-IsNumeral : (n : ℕ) → n < 2 ^ width → IsNumeral n (print_binary n)
unfolding print_binary
print_binary-IsNumeral n h = printed n (binary_loop width n true) h (binary_loop-IsLeading width n)
