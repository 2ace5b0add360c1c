-- ===== src/Pointers/Numbers.antt =====
-- What is read through the pointer.
use hw.Prelude.{
  ℕ, zero, suc, ◌≡◌, refl, ap, List, [], ◌∷◌, ◌++◌, Option, none, some, map, arith, length,
  replicate, ltb, true, length-append, set_behind, get_behind, append_one,
}
use hw.Prelude.Outcome.{done}
use hw.Arrays.{load, store}
use hw.Pointers.{number_loop, pointer_loop, numbers_main}

-- The numbers from `i + 1` on.
abbrev pub from : ℕ → ℕ → List ℕ
from i zero = []
from i (suc n) = suc i ∷ from (suc i) n

abbrev stored : List ℕ → List (Option ℕ)
stored vs = map (λ v. some v) vs

store_behind :
    (p z : List (Option ℕ)) (x v : Option ℕ)
    → store (p ++ (x ∷ z)) (length p) v ≡ done (p ++ (v ∷ z))
store_behind p z x v =
    let inside : ltb (length p) (length (p ++ (x ∷ z))) ≡ true =
      ground (arith, length-append p (x ∷ z)) in
    rw (store, inside) (ap done (set_behind p z x v))

load_behind : (p z : List (Option ℕ)) (x : Option ℕ) → load (p ++ (x ∷ z)) (length p) ≡ done x
load_behind p z x = rw (load, get_behind p z x)

length-one : (p : List (Option ℕ)) (x : Option ℕ) → length (p ++ (x ∷ [])) ≡ suc (length p)
length-one p x = omega (arith, length-append p (x ∷ []))

number_loop_lem :
    (left : ℕ) (p : List (Option ℕ))
    → number_loop left (length p) (p ++ replicate left none)
      ≡ done (p ++ stored (from (length p) left))
unfolding number_loop
number_loop_lem zero p = refl
number_loop_lem (suc left) p =
    let later = number_loop_lem left (p ++ (some (suc (length p)) ∷ [])) in
    rw (number_loop, store_behind p (replicate left none) none (some (suc (length p))))
      (rw
        (
          length-one p (some (suc (length p))),
          append_one p (replicate left none) (some (suc (length p))),
          append_one p (stored (from (suc (length p)) left)) (some (suc (length p))),
        )
        at later)

pointer_loop_lem :
    (vs : List ℕ) (p : List (Option ℕ))
    → pointer_loop (length vs) (length p) (p ++ stored vs) ≡ done vs
unfolding pointer_loop
pointer_loop_lem [] p = refl
pointer_loop_lem (v ∷ vs) p =
    let later = pointer_loop_lem vs (p ++ (some v ∷ [])) in
    rw
      (
        pointer_loop,
        load_behind p (stored vs) (some v),
        rw (length-one p (some v), append_one p (stored vs) (some v)) at later,
      )
      refl

length-from : (i n : ℕ) → length (from i n) ≡ n
length-from i zero = refl
length-from i (suc n) = ap suc (length-from (suc i) n)

-- For an array of any size, what is printed through the pointer are the numbers from 1 on that
-- were stored, each place once and in order, and every access is in bounds.
pub numbers_main_lem : (n : ℕ) → numbers_main n ≡ done (from 0 n)
unfolding numbers_main
numbers_main_lem n =
    rw (numbers_main, number_loop_lem n [])
      (rw (length-from 0 n) at (pointer_loop_lem (from 0 n) []))
