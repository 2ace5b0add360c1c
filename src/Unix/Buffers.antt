-- ===== src/Unix/Buffers.antt =====
-- `char` arrays: bytes that may not have been stored to, which is `none`.
use hw.Prelude.{
  ℕ, zero, suc, ◌+◌, ◌≤◌, ◌<◌, ◌≡◌, ◌≢◌, refl, ap, true, false, List, [], ◌∷◌, ◌++◌, Option, none,
  some, map, arith, ltb, ◌==◌, if◌then◌else◌, length, drop, replicate, length-append, length-map,
  length-drop, length-replicate,
}

abbrev pub Chars : Type 0
Chars = List (Option ℕ)

-- An array never stored to, and one declared as `{0}`.
unfoldable pub unset : ℕ → Chars
unset n = replicate n none

unfoldable pub zeroed : ℕ → Chars
zeroed n = replicate n (some 0)

-- Bytes stored at the front of an array.
unfoldable pub fill : Chars → List ℕ → Chars
fill b bytes = map (λ c. some c) bytes ++ drop (length bytes) b

-- The C string in an array: `none` where the search for its NUL meets a byte never stored to or
-- leaves the array.
unfoldable pub c_text : Chars → Option (List ℕ)
c_text [] = none
c_text (none ∷ b) = none
c_text (some c ∷ b) = elim (c == 0) [
  | true ↦ some []
  | false ↦ (elim (c_text b) [ none ↦ none | some t ↦ some (c ∷ t) ])
]

-- `strcpy(b, s)`: `none` where the string and its NUL do not fit.
unfoldable pub strcpy : Chars → List ℕ → Option Chars
strcpy b s = if ltb (length s) (length b) then some (fill b (s ++ (0 ∷ []))) else none

-- `strcat(b, s)`
unfoldable pub strcat : Chars → List ℕ → Option Chars
strcat b s = elim (c_text b) [
  | none ↦ none
  | some t ↦
      if ltb (length t + length s) (length b) then some (fill b ((t ++ s) ++ (0 ∷ []))) else none
]

-- The first bytes of an array: `none` where one was never stored to or the array is shorter.
unfoldable pub bytes_of : Chars → ℕ → Option (List ℕ)
bytes_of b zero = some []
bytes_of [] (suc n) = none
bytes_of (none ∷ b) (suc n) = none
bytes_of (some c ∷ b) (suc n) = elim (bytes_of b n) [ none ↦ none | some cs ↦ some (c ∷ cs) ]

-- No byte is a NUL.
abbrev pub IsText : List ℕ → Type 0
IsText [] = Unit {0}
IsText (c ∷ s) = (c ≢ 0) × IsText s

pub IsText-append : (s t : List ℕ) → IsText s → IsText t → IsText (s ++ t)
IsText-append [] t hs ht = ht
IsText-append (c ∷ s) t (h, hs) ht = (h, IsText-append s t hs ht)

pub length-fill :
    (b : Chars) (bytes : List ℕ) → length bytes ≤ length b → length (fill b bytes) ≡ length b
unfolding fill
length-fill b bytes h = omega (
  arith,
  length-append (map (λ c. some c) bytes) (drop (length bytes) b),
  length-map bytes (λ c. some c),
  length-drop (length bytes) b,
)

text_end :
    (t : List ℕ) (b : Chars) → IsText t → c_text (map (λ c. some c) t ++ (some 0 ∷ b)) ≡ some t
unfolding c_text
text_end [] b h = refl
text_end (c ∷ t) b (h, hs) =
    let e : (c == 0) ≡ false = ground arith in rw (c_text, e, text_end t b hs)

map_text :
    (t : List ℕ) (r : List ℕ) (b : Chars)
    → map (λ c. some c) (t ++ (0 ∷ r)) ++ b
      ≡ map (λ c. some c) t ++ (some 0 ∷ (map (λ c. some c) r ++ b))
map_text [] r b = refl
map_text (c ∷ t) r b = ap (λ l. some c ∷ l) (map_text t r b)

-- After a store of a string with its NUL, and anything behind it, the array holds that string.
pub c_text-fill :
    (b : Chars) (t rest : List ℕ) → IsText t → c_text (fill b (t ++ (0 ∷ rest))) ≡ some t
unfolding fill
c_text-fill b t rest h = rw (map_text t rest (drop (length (t ++ (0 ∷ rest))) b)) (text_end t _ h)

no_text_behind :
    (t : List ℕ) (b : Chars) → IsText t → c_text b ≡ none → c_text (map (λ c. some c) t ++ b) ≡ none
unfolding c_text
no_text_behind [] b h e = e
no_text_behind (c ∷ t) b (h, hs) e =
    let f : (c == 0) ≡ false = ground arith in rw (c_text, f, no_text_behind t b hs e)

no_text_left : (k n : ℕ) → c_text (drop k (replicate n none)) ≡ none
unfolding c_text
no_text_left zero zero = refl
no_text_left zero (suc n) = refl
no_text_left (suc k) zero = refl
no_text_left (suc k) (suc n) = no_text_left k n

-- A text with no NUL, stored into an array that was never set, leaves no string there.
pub c_text-fill-unset : (t : List ℕ) (n : ℕ) → IsText t → c_text (fill (unset n) t) ≡ none
unfolding fill unset
c_text-fill-unset t n h =
    no_text_behind t (drop (length t) (replicate n none)) h (no_text_left (length t) n)

-- What `strcat` makes of an array that holds a string, and when it leaves the array.
module _ (b : Chars) (t s : List ℕ) (held : c_text b ≡ some t) where
  pub strcat_fits :
      length t + length s < length b → strcat b s ≡ some (fill b ((t ++ s) ++ (0 ∷ [])))
  unfolding strcat
  strcat_fits h =
      let room : ltb (length t + length s) (length b) ≡ true = ground arith in
      rw (held, strcat) (rw room)

  pub strcat_overflows : length b ≤ length t + length s → strcat b s ≡ none
  unfolding strcat
  strcat_overflows h =
      let full : ltb (length t + length s) (length b) ≡ false = ground arith in
      rw (held, strcat) (rw full)

pub length-unset : (n : ℕ) → length (unset n) ≡ n
unfolding unset
length-unset n = length-replicate n none

bytes_front : (cs : List ℕ) (b : Chars) → bytes_of (map (λ c. some c) cs ++ b) (length cs) ≡ some cs
unfolding bytes_of
bytes_front [] b = refl
bytes_front (c ∷ cs) b = rw (bytes_of, bytes_front cs b)

pub bytes_of-fill :
    (b : Chars) (bytes : List ℕ) → bytes_of (fill b bytes) (length bytes) ≡ some bytes
unfolding fill
bytes_of-fill b bytes = bytes_front bytes (drop (length bytes) b)

zero_behind :
    (t : List ℕ) (n : ℕ)
    → length t < n
    → (r : Chars) × (drop (length t) (replicate n (some 0)) ≡ some 0 ∷ r)
zero_behind [] zero h = ground arith
zero_behind [] (suc n) h = (replicate n (some 0), refl)
zero_behind (c ∷ t) zero h = ground arith
zero_behind (c ∷ t) (suc n) h = zero_behind t n (omega (arith, h))

-- A text shorter than an array of zeros is the string there after it was stored.
pub c_text-fill-zeroed :
    (t : List ℕ) (n : ℕ) → IsText t → length t < n → c_text (fill (zeroed n) t) ≡ some t
unfolding fill zeroed
c_text-fill-zeroed t n clean short = let (r, e) = zero_behind t n short in rw e (text_end t r clean)
