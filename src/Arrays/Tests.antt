-- ===== src/Arrays/Tests.antt =====
-- Runs of the four array programs, and the theorem on the numbered square at one size.
use hw.Prelude.{ℕ, ◌≡◌, refl, List, [], ◌∷◌, some, map}
use hw.Stdio.{codes}
use hw.Prelude.Outcome.{done, fault}
use hw.Arrays.{numbered_main, reverse_main, Matrix, split_main, spiral_main}

numbered_run : numbered_main (codes "2") ≡ done ((1 ∷ 2 ∷ []) ∷ (3 ∷ 4 ∷ []) ∷ [])
unfolding numbered_main
numbered_run = refl

numbered_unset : numbered_main (codes "two") ≡ fault
unfolding numbered_main
numbered_unset = refl

reversed_run : reverse_main ≡ done (8 ∷ 7 ∷ 6 ∷ 5 ∷ 4 ∷ 3 ∷ 2 ∷ 1 ∷ [])
unfolding reverse_main
reversed_run = refl

-- Every element is stored to.
abbrev filled : List (List ℕ) → Matrix
filled = map (map some)

split_run : split_main ≡ done (filled ((0 ∷ 0 ∷ 1 ∷ []) ∷ (0 ∷ 1 ∷ 1 ∷ []) ∷ (1 ∷ 1 ∷ 1 ∷ []) ∷ []))
unfolding split_main
split_run = refl

spiral_run :
    spiral_main
    ≡ done (
        filled (
          (1 ∷ 2 ∷ 3 ∷ 4 ∷ 5 ∷ [])
          ∷ (16 ∷ 17 ∷ 18 ∷ 19 ∷ 6 ∷ [])
          ∷ (15 ∷ 24 ∷ 25 ∷ 20 ∷ 7 ∷ [])
          ∷ (14 ∷ 23 ∷ 22 ∷ 21 ∷ 8 ∷ [])
          ∷ (13 ∷ 12 ∷ 11 ∷ 10 ∷ 9 ∷ [])
          ∷ []))
unfolding spiral_main
spiral_run = refl
