-- ===== src/Stdio/Laws.antt =====
-- Laws of the C strings and of formatted input that several programs use.
use hw.Prelude.{ℕ, ◌<◌, ◌≤◌, ◌^◌, ◌≡◌, refl, true, List, [], ◌∷◌, some, arith, length}
use hw.Prelude.Outcome.{done, fault}
use hw.Stdio.{scan_unsigned, scan_word, c_string, same_string, read_word, Buffer}

pub same_string_refl : (s : List ℕ) → same_string s s ≡ true
unfolding same_string
same_string_refl [] = refl
same_string_refl (c ∷ s) = ground (arith, same_string_refl s)

-- `strcmp` returns 0 exactly for equal strings.
pub same_string-eq : (s t : List ℕ) → same_string s t ≡ true → s ≡ t
unfolding same_string
same_string-eq [] [] h = refl
same_string-eq [] (d ∷ t) h = cc
same_string-eq (c ∷ s) [] h = cc
same_string-eq (c ∷ s) (d ∷ t) h = ground (arith, same_string-eq s t)

-- A short word is stored whole, a long one overflows, and at the end of the input nothing changes.
pub read_word_short :
    (size : ℕ) (b : Buffer) (input word rest : List ℕ)
    → scan_word input ≡ (some word, rest)
    → length word < size
    → read_word size b input ≡ done (some (c_string word), rest)
unfolding read_word
read_word_short size b input word rest e short = rw (e, read_word) (ground arith)

pub read_word_long :
    (size : ℕ) (b : Buffer) (input word rest : List ℕ)
    → scan_word input ≡ (some word, rest)
    → size ≤ length word
    → read_word size b input ≡ fault
unfolding read_word
read_word_long size b input word rest e long = rw (e, read_word) (ground arith)

-- `scanf("%u", …)` stores a 32-bit number.
pub scan_unsigned-lt :
    (input : List ℕ) {n : ℕ} {rest : List ℕ}
    → scan_unsigned input ≡ done (some n, rest)
    → n < 2 ^ 32
unfolding scan_unsigned
scan_unsigned-lt input h = ground arith
