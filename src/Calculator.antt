-- ===== src/Calculator.antt =====
-- libs/static and libs/dynamic: the four operations of libcalc on `int`, and the menu that calls
-- them, linked in or loaded with `dlopen`.
pub mod Laws
mod Tests
use hw.Prelude.{
  ℕ, zero, suc, ◌/◌, ◌≤◌, Bool, true, false, not, ◌&&◌, List, [], ◌∷◌, ◌++◌, Option, none, some,
  leb, ◌==◌, if◌then◌else◌,
}
use hw.Prelude.Int.{ℤ, pos, negsuc, ◌+ℤ◌, ◌-ℤ◌, ◌*ℤ◌, pos_part, neg_part}
use hw.Prelude.Outcome.{Outcome, done, fault, out_of_fuel, ◌>>=◌}
use hw.Stdio.{scan_int, int_max}

-- Whether a value fits `int`.
abbrev pub fits : ℤ → Bool
fits a = leb (pos_part a) int_max && leb (neg_part a) (suc int_max)

-- A signed result that does not fit is undefined behaviour.
abbrev pub as_int : ℤ → Outcome ℤ
as_int a = if fits a then done a else fault

unfoldable pub add : ℤ → ℤ → Outcome ℤ
add a b = as_int (a +ℤ b)

unfoldable pub sub : ℤ → ℤ → Outcome ℤ
sub a b = as_int (a -ℤ b)

unfoldable pub mul : ℤ → ℤ → Outcome ℤ
mul a b = as_int (a *ℤ b)

-- Minus `n`.
abbrev pub negative : ℕ → ℤ
negative zero = pos 0
negative (suc n) = negsuc n

-- `a / b` in C: the quotient of the magnitudes, rounded towards zero, with the sign of the
-- product.
abbrev pub quotient : ℤ → ℤ → ℤ
quotient (pos m) (pos n) = pos (m / n)
quotient (pos m) (negsuc n) = negative (m / suc n)
quotient (negsuc m) (pos n) = negative (suc m / n)
quotient (negsuc m) (negsuc n) = pos (suc m / suc n)

abbrev pub is_zero : ℤ → Bool
is_zero (pos n) = n == 0
is_zero (negsuc n) = false

unfoldable pub divide : ℤ → ℤ → Outcome ℤ
divide a b = if is_zero b then done (pos 0) else as_int (quotient a b)

-- The variables `choice`, `a` and `b` of `main`: `none` before anything was stored there.
pub record Vars : Type 0 where
  pub choice : Option ℤ
  pub a : Option ℤ
  pub b : Option ℤ

pub data Output : Type 0 where
  result : ℤ → Output
  wrong_choice : Output

-- The `scanf("%d", …)` of one variable.
unfoldable pub read_var : Option ℤ → List ℕ → Outcome (Option ℤ × List ℕ)
unfolding scan_int
read_var old input = do
  (read, rest) ← scan_int input
  done (elim read [ none ↦ old | some v ↦ some v ], rest)

-- `scanf("%d %d", &a, &b)` stops at the first number that is missing.
unfoldable pub read_pair : Option ℤ → Option ℤ → List ℕ → Outcome (Option ℤ × Option ℤ × List ℕ)
unfolding scan_int
read_pair a b input = do
  (first, rest) ← scan_int input
  elim first [
    | none ↦ done (a, b, rest)
    | some v ↦ (do
      (second, rest') ← scan_int rest
      done (some v, elim second [ none ↦ b | some w ↦ some w ], rest'))
  ]

abbrev pub value : Option ℤ → Outcome ℤ
value none = fault
value (some v) = done v

-- The `switch`: the result of the operation chosen, or `none` in its default case.
unfoldable pub calculate : ℤ → Option ℤ → Option ℤ → Outcome (Option ℤ)
unfolding add sub mul divide ◌+ℤ◌ ◌-ℤ◌ ◌*ℤ◌
calculate (negsuc n) a b = done none
calculate (pos n) a b =
    if n == 1
    then (do x ← value a; y ← value b; r ← add x y; done (some r))
    else if n == 2
    then (do x ← value a; y ← value b; r ← sub x y; done (some r))
    else if n == 3
    then (do x ← value a; y ← value b; r ← mul x y; done (some r))
    else if n == 4
    then (do x ← value a; y ← value b; r ← divide x y; done (some r))
    else done none

abbrev pub is_five : ℤ → Bool
is_five (pos n) = n == 5
is_five (negsuc n) = false

-- The `while (1)` loop, at most `fuel` rounds: what it prints.
unfoldable pub menu_loop : ℕ → Vars → List ℕ → List Output → Outcome (List Output)
menu_loop zero vars input printed = out_of_fuel
menu_loop (suc fuel) vars input printed = do
  (choice, input₁) ← read_var vars.choice input
  c ← value choice
  elim (is_five c) [
    | true ↦ done printed
    | false ↦ (do
      (a, b, input₂) ← read_pair vars.a vars.b input₁
      r ← calculate c a b
      menu_loop fuel (record { choice = choice; a = a; b = b }) input₂
          (printed ++ (elim r [ none ↦ wrong_choice | some v ↦ result v ] ∷ [])))
  ]

abbrev pub unset : Vars
unset = record { choice = none; a = none; b = none }

-- libs/static/main.c
unfoldable pub main : ℕ → List ℕ → Outcome (List Output)
unfolding menu_loop read_var read_pair calculate
main fuel input = menu_loop fuel unset input []

-- libs/dynamic/main.c, where loading the library may fail and so may the lookup of a function:
-- then the program prints the error and returns 1.
unfoldable pub dynamic_main :
    (opened : Bool) (found : Bool × Bool × Bool × Bool) → ℕ → List ℕ → Outcome (List Output × ℕ)
unfolding menu_loop read_var read_pair calculate
dynamic_main opened found fuel input =
    if not opened
    then done ([], 1)
    else if not (found.0 && found.1 && found.2 && found.3)
    then done ([], 1)
    else (do printed ← menu_loop fuel unset input []; done (printed, 0))
