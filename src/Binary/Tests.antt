-- ===== src/Binary/Tests.antt =====
-- Runs of the programs on bits and bytes, and their theorems at concrete numbers.
use hw.Prelude.{◌≡◌, refl, [], ◌∷◌, arith}
use hw.Stdio.{codes}
use hw.Prelude.Outcome.{done, fault}
use hw.Binary.{
  print_binary, count_ones, replace_by_mask, replace_by_pointer, binary, ones, changed,
  out_of_range, print_main, count_main, mask_main, pointer_main,
}
use hw.Binary.Print.{IsNumeral, print_binary-IsNumeral}
use hw.Binary.Count.{sum, count_ones-print_binary}
use hw.Binary.Replace.{mask-eq-pointer}

zero_run : print_main (codes "0") ≡ done (binary (0 ∷ []) ∷ [])
unfolding print_main
zero_run = refl

count_run : count_main (codes "11") ≡ done (binary (1 ∷ 0 ∷ 1 ∷ 1 ∷ []) ∷ ones 3 ∷ [])
unfolding count_main
count_run = refl

unread : count_main (codes "x") ≡ fault
unfolding count_main
unread = refl

mask_run : mask_main (codes "1 256") ≡ done (binary (1 ∷ []) ∷ out_of_range ∷ [], 1)
unfolding mask_main
mask_run = refl

mask_big : replace_by_mask 0xffffffff 0xab ≡ 0xffabffff
unfolding replace_by_mask
mask_big = refl

pointer_run :
    pointer_main (codes "7 1")
    ≡ done (
      (binary (1 ∷ 1 ∷ 1 ∷ [])
          ∷ changed 65543
          ∷ binary (1 ∷ 0 ∷ 0 ∷ 0 ∷ 0 ∷ 0 ∷ 0 ∷ 0 ∷ 0 ∷ 0 ∷ 0 ∷ 0 ∷ 0 ∷ 0 ∷ 1 ∷ 1 ∷ 1 ∷ [])
          ∷ []),
      0,
    )
unfolding pointer_main
pointer_run = refl

print_binary-IsNumeral_example : IsNumeral 11 (print_binary 11)
print_binary-IsNumeral_example = print_binary-IsNumeral 11 (omega arith)

count_ones-print_binary_example : count_ones 0xf0f00001 ≡ done (sum (print_binary 0xf0f00001))
count_ones-print_binary_example = count_ones-print_binary 0xf0f00001 (omega arith)

mask-eq-pointer_example : replace_by_mask 0xdeadbeef 0x42 ≡ replace_by_pointer 0xdeadbeef 0x42
mask-eq-pointer_example = mask-eq-pointer 0xdeadbeef 0x42 (omega arith) (omega arith)
