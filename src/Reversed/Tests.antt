-- ===== src/Reversed/Tests.antt =====
-- A run that prints "ti" and one whose second seek fails, and the theorems there.
use mathlib.Core.List.{reverse}
use hw.Prelude.{◌≡◌, refl, true, [], ◌∷◌, ◌==◌}
use hw.Reversed.{Calls, main}
use hw.Reversed.Laws.{main-reverse}

abbrev good : Calls
good = record {
  opens_write = true;
  puts = true;
  opens_read = true;
  seeks_end = true;
  tells = true;
  seeks = λ i. true;
  reads = λ i. true;
  content = b'i' ∷ b't' ∷ [];
}

abbrev broken : Calls
broken = record good { seeks = λ i. i == 1 }

good_run : main good ≡ (b't' ∷ b'i' ∷ [], 0)
unfolding main
good_run = refl

broken_run : main broken ≡ (b't' ∷ [], 1)
unfolding main
broken_run = refl

main-reverse_example : main good ≡ (reverse (b'i' ∷ b't' ∷ []), 0)
main-reverse_example = main-reverse good (record {
  opened_write = refl;
  put = refl;
  opened_read = refl;
  sought_end = refl;
  told = refl;
  sought = λ i. refl;
  got = λ i. refl;
})
