-- ===== src/Password/Tests.antt =====
-- The password program on concrete input.
use hw.Prelude.{◌≡◌, refl, ◌↔◌, [], ◌∷◌, ◌++◌, arith}
use hw.Prelude.Outcome.{done, fault}
use hw.Stdio.{codes, c_string}
use hw.Password.{main, is_pass_ok, gets}
use hw.Password.Laws.{main-granted}

main-granted_example :
    (main (codes "test" ++ 10 ∷ [])
      ≡ done (0, codes "Enter password:" ∷ codes "Access granted!" ∷ []))
    ↔ (c_string (codes "test") ≡ codes "test")
main-granted_example = main-granted (codes "test") [] (omega arith) (omega arith)

-- The array was never stored to.
nothing_typed : main [] ≡ fault
unfolding main is_pass_ok gets
nothing_typed = refl
