-- ===== src/Binary.antt =====
-- byte_ops/task1and2.c, byte_ops/task3.c, byte_ops/task4.c and pointers/task1.c: printing an
-- unsigned number in binary, counting its ones, and replacing its third byte.
pub mod Print
pub mod Count
pub mod Replace
mod Tests
use Prim.Native.Nat.{bit_and, bit_or}
use hw.Prelude.{
  ℕ, zero, suc, ◌+◌, ◌-◌, ◌*◌, ◌/◌, ◌%◌, ◌^◌, Bool, true, false, List, [], ◌∷◌, ◌++◌, Option, none,
  some, ltb, ◌==◌, if◌then◌else◌, set,
}
use hw.Prelude.Outcome.{Outcome, done, fault, out_of_fuel, ◌>>=◌}
use hw.Stdio.{scan_unsigned}

-- The width of `unsigned int`.
abbrev pub width : ℕ
width = 32

-- The loop of `print_binary` for the bits below `i`, the highest first, with its flag: the digits
-- printed and the flag at the end.
pub binary_loop : ℕ → ℕ → Bool → List ℕ × Bool
binary_loop zero n leading_zero = ([], leading_zero)
binary_loop (suc i) n leading_zero =
    let bit = bit_and (n / 2 ^ i) 1 in
    let leading_zero' = if bit == 0 then leading_zero else false in
    let (later, last) = binary_loop i n leading_zero' in
    (if leading_zero' then later else bit ∷ later, last)

-- `print_binary`, the same function in all four files: the digits that it prints.
unfoldable pub print_binary : ℕ → List ℕ
unfolding binary_loop
print_binary n =
    let (digits, leading_zero) = binary_loop width n true in if leading_zero then 0 ∷ [] else digits

-- The loop of `count_ones`, at most `fuel` rounds.
pub count_loop : ℕ → ℕ → ℕ → Outcome ℕ
count_loop zero n count = out_of_fuel
count_loop (suc fuel) n count =
    let again = count_loop fuel (n / 2) (count + bit_and n 1) in
    if n == 0 then done count else again

-- The loop shifts an `unsigned int`, so one round more than it has bits is enough.
unfoldable pub count_ones : ℕ → Outcome ℕ
count_ones n = count_loop (suc width) n 0

-- `~x` in 32 bits
abbrev pub complement : ℕ → ℕ
complement x = 2 ^ width - 1 - x

-- byte_ops/task4.c: `num &= ~(0xFF << 16); num |= (newByte << 16);`
unfoldable pub replace_by_mask : ℕ → ℕ → ℕ
replace_by_mask num new_byte =
    bit_or (bit_and num (complement (0xff * 2 ^ 16))) (new_byte * 2 ^ 16 % 2 ^ width)

-- The bytes of an `unsigned int` in memory, on a little-endian machine, and back.
abbrev pub bytes : ℕ → List ℕ
bytes n = n % 256 ∷ n / 256 % 256 ∷ n / 65536 % 256 ∷ n / 16777216 % 256 ∷ []

abbrev pub from_bytes : List ℕ → ℕ
from_bytes [] = 0
from_bytes (b ∷ bs) = b + 256 * from_bytes bs

-- pointers/task1.c: `ptr = (unsigned char *)&num; ptr += 2; *ptr = newByte;`
unfoldable pub replace_by_pointer : ℕ → ℕ → ℕ
replace_by_pointer num new_byte = from_bytes (set (bytes num) 2 (new_byte % 256))

-- What the programs print, prompts left out.
pub data Output : Type 0 where
  binary : List ℕ → Output
  ones : ℕ → Output
  changed : ℕ → Output
  out_of_range : Output

-- `scanf("%u", &num)` into a variable that was never set: with no number in the input its use is
-- undefined.
read_unsigned : List ℕ → Outcome (ℕ × List ℕ)
read_unsigned input = do
  (read, rest) ← scan_unsigned input
  elim read [ none ↦ fault | some n ↦ done (n, rest) ]

-- `main` of byte_ops/task1and2.c, of byte_ops/task3.c, and the two of byte_ops/task4.c and
-- pointers/task1.c, which differ in the replacement: what is printed, and the exit status.
unfoldable pub print_main : List ℕ → Outcome (List Output)
unfolding read_unsigned print_binary scan_unsigned
print_main input = do (num, rest) ← read_unsigned input; done (binary (print_binary num) ∷ [])

unfoldable pub count_main : List ℕ → Outcome (List Output)
unfolding read_unsigned print_binary count_ones count_loop scan_unsigned
count_main input = do
  (num, rest) ← read_unsigned input
  n ← count_ones num
  done (binary (print_binary num) ∷ ones n ∷ [])

replace_main : (ℕ → ℕ → ℕ) → List ℕ → Outcome (List Output × ℕ)
replace_main replace input = do
  (num, rest) ← read_unsigned input
  (new_byte, rest') ← read_unsigned rest
  let shown = binary (print_binary num)
  done (
      if ltb 255 new_byte then (shown ∷ out_of_range ∷ [], 1) else (
        shown ∷ changed (replace num new_byte) ∷ binary (print_binary (replace num new_byte)) ∷ [],
        0,
      ))

unfoldable pub mask_main : List ℕ → Outcome (List Output × ℕ)
unfolding replace_main read_unsigned print_binary replace_by_mask scan_unsigned
mask_main = replace_main replace_by_mask

unfoldable pub pointer_main : List ℕ → Outcome (List Output × ℕ)
unfolding replace_main read_unsigned print_binary replace_by_pointer scan_unsigned
pointer_main = replace_main replace_by_pointer
