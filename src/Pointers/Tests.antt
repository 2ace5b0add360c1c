-- ===== src/Pointers/Tests.antt =====
-- The pointer exercises at a run.
use hw.Prelude.{◌+◌, ◌≡◌, refl, [], ◌∷◌}
use hw.Pointers.{sum_main}

doubled : sum_main (λ a b. a + b) 5 6 ≡ 5 ∷ 6 ∷ 12 ∷ []
unfolding sum_main
doubled = refl
