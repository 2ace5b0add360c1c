-- ===== src/Calculator/Laws.antt =====
-- The operations of libcalc against integer arithmetic.
use native.Mathlib.Nat.{div-add-mod, div-le_self}
use hw.Prelude.{ℕ, zero, suc, ◌*◌, ◌/◌, ◌≤◌, ◌≡◌, ◌↔◌, inl, inr, true, arith, Bool-cases}
use hw.Prelude.Int.{ℤ, pos, negsuc, ◌+ℤ◌, ◌-ℤ◌, int_laws}
use hw.Prelude.Outcome.{done, fault}
use hw.Stdio.{int_max}
use hw.Calculator.{fits, as_int, add, sub, divide}

abbrev pub Fits : ℤ → Type 0
Fits a = fits a ≡ true

as_int-eq-done : (a : ℤ) {c : ℤ} → as_int a ≡ done c → a ≡ c
as_int-eq-done a h = elim (Bool-cases (fits a)) [
  | inl e ↦ ground (arith, e)
  | inr e ↦ ground (arith, e)
]

-- Where a sum fits `int`, subtracting the second number again gives the first.
pub sub-add : (a b : ℤ) {c : ℤ} → Fits a → add a b ≡ done c → sub c b ≡ done a
unfolding add sub
sub-add a b {c} h e =
    let sum : a +ℤ b ≡ c = as_int-eq-done (a +ℤ b) e in
    let back : c -ℤ b ≡ a = rw (← sum) (omega int_laws) in rw (back, sub, h)

quotient_small : (m d : ℕ) → 2 ≤ d → 2 * (m / d) ≤ m
quotient_small m d h = grind (arith, div-add-mod m d)

quotient-le : (m d : ℕ) → m / d ≤ m
quotient-le m d = div-le_self m d

-- On two ints, division is undefined in one case alone: the smallest int by -1.
pub divide-fault :
    (a b : ℤ) → Fits a → Fits b → (divide a b ≡ fault) ↔ ((a ≡ negsuc int_max) × (b ≡ negsuc 0))
unfolding divide
divide-fault (pos m) (pos n) ha hb = ground (arith, quotient-le m n)
divide-fault (pos m) (negsuc n) ha hb = ground (arith, quotient-le m (suc n))
divide-fault (negsuc m) (pos n) ha hb = ground (arith, quotient-le (suc m) n)
divide-fault (negsuc m) (negsuc zero) ha hb =
    let one : suc m / 1 ≡ suc m = omega arith in rw one (ground arith)
divide-fault (negsuc m) (negsuc (suc n)) ha hb =
    ground (arith, quotient-le (suc m) (suc (suc n)), quotient_small (suc m) (suc (suc n)))
