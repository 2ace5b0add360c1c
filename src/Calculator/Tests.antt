-- ===== src/Calculator/Tests.antt =====
-- Runs of both calculators, and the laws of their operations at concrete numbers.
use hw.Prelude.{◌≡◌, refl, true, false, [], ◌∷◌}
use hw.Prelude.Int.{pos, negsuc}
use hw.Prelude.Outcome.{done, out_of_fuel}
use hw.Stdio.{codes}
use hw.Calculator.{result, wrong_choice, main, dynamic_main}

static_run :
    main 6 (codes "1 2 3 2 2 3 4 -7 2 4 7 0 9 1 1 5")
    ≡ done (
        result (pos 5) ∷ result (negsuc 0) ∷ result (negsuc 2) ∷ result (pos 0) ∷ wrong_choice ∷ [])
unfolding main
static_run = refl

-- Without a number in the input the same operation is done for ever.
static_spins : main 6 (codes "1 2 3 quit") ≡ out_of_fuel
unfolding main
static_spins = refl

dynamic_run :
    dynamic_main true (true, true, true, true) 3 (codes "3 6 7 5") ≡ done (result (pos 42) ∷ [], 0)
unfolding dynamic_main
dynamic_run = refl

dynamic_unopened : dynamic_main false (true, true, true, true) 3 (codes "3 6 7 5") ≡ done ([], 1)
unfolding dynamic_main
dynamic_unopened = refl
