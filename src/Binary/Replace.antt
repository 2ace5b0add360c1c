-- ===== src/Binary/Replace.antt =====
-- Both ways to replace the third byte of a number do just that.
use Prim.Native.Nat.{bit_and, bit_or}
use mathlib.Core.Path.{ap₂, ◌≡⟨◌⟩◌, ◌∎}
use hw.Prelude.{
  Bool-cases, inl, inr, ltb, ℕ, ◌+◌, ◌*◌, ◌/◌, ◌%◌, ◌^◌, ◌<◌, ◌≡◌, ap, ◌∙◌, List, arith, set,
}
use hw.Prelude.Outcome.{done, >>=-eq-done, bind-eq_of}
use hw.Prelude.Bits.{
  bit_and_split, bit_or_split, bit_and-zero, bit_or-zero, zero-bit_or, bit_and_ones,
}
use hw.Stdio.{scan_unsigned}
use hw.Stdio.Laws.{scan_unsigned-lt}
use hw.Binary.{
  read_unsigned, replace_main, mask_main, pointer_main, width, complement, bytes, replace_by_mask,
  replace_by_pointer,
}

-- The number with `b` for its third byte.
abbrev with_third_byte : ℕ → ℕ → ℕ
with_third_byte n b = n / 2 ^ 24 * 2 ^ 24 + b * 2 ^ 16 + n % 2 ^ 16

masked : (n : ℕ) → n < 2 ^ width → bit_and n (complement (0xff * 2 ^ 16)) ≡ with_third_byte n 0
masked n h =
    bit_and n 0xff00ffff
    ≡⟨ ap (λ (t : ℕ). bit_and t 0xff00ffff) (omega arith) ⟩
      bit_and (n / 2 ^ 16 * 2 ^ 16 + n % 2 ^ 16) (0xff00 * 2 ^ 16 + 0xffff)
    ≡⟨ bit_and_split 16 (n / 2 ^ 16) 0xff00 (n % 2 ^ 16) 0xffff (omega arith) (omega arith) ⟩
      bit_and (n / 2 ^ 16) 0xff00 * 2 ^ 16 + bit_and (n % 2 ^ 16) 0xffff
    ≡⟨ omega (arith, high, bit_and_ones 16 (n % 2 ^ 16) (omega arith)) ⟩ with_third_byte n 0 ∎
  where
    high : bit_and (n / 2 ^ 16) 0xff00 ≡ n / 2 ^ 24 * 2 ^ 8
    high =
        bit_and (n / 2 ^ 16) 0xff00
        ≡⟨ ap (λ (t : ℕ). bit_and t 0xff00) (omega arith) ⟩
          bit_and (n / 2 ^ 24 * 2 ^ 8 + n / 2 ^ 16 % 2 ^ 8) (0xff * 2 ^ 8 + 0)
        ≡⟨ bit_and_split 8 (n / 2 ^ 24) 0xff (n / 2 ^ 16 % 2 ^ 8) 0 (omega arith) (omega arith) ⟩
          bit_and (n / 2 ^ 24) 0xff * 2 ^ 8 + bit_and (n / 2 ^ 16 % 2 ^ 8) 0
        ≡⟨ omega (
          arith,
          bit_and_ones 8 (n / 2 ^ 24) (omega arith),
          bit_and-zero 8 (n / 2 ^ 16 % 2 ^ 8) (omega arith),
        ) ⟩
          n / 2 ^ 24 * 2 ^ 8 ∎

or_third_byte :
    (x b lo : ℕ)
    → x < 2 ^ 8
    → b < 2 ^ 8
    → lo < 2 ^ 16
    → bit_or (x * 2 ^ 24 + 0 * 2 ^ 16 + lo) (b * 2 ^ 16) ≡ x * 2 ^ 24 + b * 2 ^ 16 + lo
or_third_byte x b lo hx hb hl =
    bit_or (x * 2 ^ 24 + 0 * 2 ^ 16 + lo) (b * 2 ^ 16)
    ≡⟨ ap₂ bit_or (omega arith) (omega arith) ⟩
      bit_or ((x * 2 ^ 8 + 0) * 2 ^ 16 + lo) ((0 * 2 ^ 8 + b) * 2 ^ 16 + 0)
    ≡⟨ bit_or_split 16 (x * 2 ^ 8 + 0) (0 * 2 ^ 8 + b) lo 0 hl (omega arith) ⟩
      bit_or (x * 2 ^ 8 + 0) (0 * 2 ^ 8 + b) * 2 ^ 16 + bit_or lo 0
    ≡⟨ omega (
      arith,
      bit_or_split 8 x 0 0 b (omega arith) hb,
      bit_or-zero 8 x hx,
      zero-bit_or b,
      bit_or-zero 16 lo hl,
    ) ⟩
      x * 2 ^ 24 + b * 2 ^ 16 + lo ∎

mask_sum : (n b : ℕ) → n < 2 ^ width → b < 256 → replace_by_mask n b ≡ with_third_byte n b
unfolding replace_by_mask
mask_sum n b h hb =
    let shifted : b * 2 ^ 16 % 2 ^ width ≡ b * 2 ^ 16 = omega arith in
    rw (masked n h, shifted)
      (or_third_byte (n / 2 ^ 24) b (n % 2 ^ 16) (omega arith) hb (omega arith))

-- The bit mask of byte_ops/task4.c and the byte pointer of pointers/task1.c agree, on a
-- little-endian machine, for every 32-bit number and every byte.
pub mask-eq-pointer :
    (n b : ℕ) → n < 2 ^ width → b < 256 → replace_by_mask n b ≡ replace_by_pointer n b
unfolding replace_by_pointer
mask-eq-pointer n b h hb = mask_sum n b h hb ∙ omega arith

-- The result is a 32-bit number whose third byte is the new one and whose other bytes are those
-- of the old number.
pub bytes-replace_by_mask :
    (n b : ℕ)
    → n < 2 ^ width
    → b < 256
    → (replace_by_mask n b < 2 ^ width) × (bytes (replace_by_mask n b) ≡ set (bytes n) 2 b)
bytes-replace_by_mask n b h hb = rw (mask_sum n b h hb) (omega arith, ground arith)

read_unsigned-lt :
    (input : List ℕ) {n : ℕ} {rest : List ℕ} → read_unsigned input ≡ done (n, rest) → n < 2 ^ width
unfolding read_unsigned
read_unsigned-lt input {n} {rest} h =
    let (r, er, e) = >>=-eq-done (scan_unsigned input) _ h in
    scan_unsigned-lt input {rest = rest} (ground (arith, er, e))

-- The two programs print the same and exit alike on every input.
pub mask_main-eq-pointer_main : (input : List ℕ) → mask_main input ≡ pointer_main input
unfolding mask_main pointer_main replace_main
mask_main-eq-pointer_main input = bind-eq_of (read_unsigned input) _ _ λ r er.
    bind-eq_of (read_unsigned r.1) _ _ λ s es. elim (Bool-cases (ltb 255 s.0)) [
      | inl over ↦ rw over
      | inr fits ↦
          rw (fits, mask-eq-pointer r.0 s.0 (read_unsigned-lt input {rest = r.1} er) (ground arith))
    ]
