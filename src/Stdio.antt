-- ===== src/Stdio.antt =====
-- What the programs use of the C library's formatted input: `scanf` with %d, %u and %s on a
-- standard input that is a list of bytes, and C strings as the bytes before their NUL.
pub mod Laws
use Prim.Native.Char.{code}
use Prim.Native.String.{String}
use hw.Prelude.{
  ℕ, ◌+◌, ◌-◌, ◌*◌, ◌%◌, ◌^◌, Bool, true, false, ◌&&◌, ◌||◌, List, [], ◌∷◌, Option, none, some, ltb,
  leb, ◌==◌, if◌then◌else◌, length,
}
use hw.Prelude.Int.{ℤ, pos, negsuc}
use hw.Prelude.Outcome.{Outcome, done, fault, check, ◌>>=◌, ◌>>◌}

-- The bytes of an ASCII text.
abbrev pub codes : String → List ℕ
codes String.[] = []
codes (String.◌∷◌ c s) = code c ∷ codes s

-- `isspace`: a blank, or one of \t \n \v \f \r.
abbrev pub is_space : ℕ → Bool
is_space c = (c == 32) || (leb 9 c && leb c 13)

abbrev pub is_digit : ℕ → Bool
is_digit c = leb b'0' c && leb c b'9'

unfoldable pub skip_space : List ℕ → List ℕ
skip_space [] = []
skip_space (c ∷ cs) = elim (is_space c) [ true ↦ skip_space cs | false ↦ c ∷ cs ]

-- The longest prefix without white space, and the rest.
unfoldable pub span_word : List ℕ → List ℕ × List ℕ
span_word [] = ([], [])
span_word (c ∷ cs) =
    let (word, rest) = span_word cs in if is_space c then ([], c ∷ cs) else (c ∷ word, rest)

-- `scanf("%s", …)`: the word read, or `none` at the end of the input, and the input left.
unfoldable pub scan_word : List ℕ → Option (List ℕ) × List ℕ
unfolding skip_space span_word
scan_word input = elim (skip_space input) [
  | [] ↦ (none, [])
  | c ∷ cs ↦ (let (word, rest) = span_word (c ∷ cs) in (some word, rest))
]

-- The digits in front of the input: their value behind `acc`, how many there are, and the rest.
unfoldable pub span_digits : ℕ → List ℕ → ℕ × ℕ × List ℕ
span_digits acc [] = (acc, 0, [])
span_digits acc (c ∷ cs) =
    let (value, n, rest) = span_digits (acc * 10 + (c - b'0')) cs in
    if is_digit c then (value, n + 1, rest) else (acc, 0, c ∷ cs)

-- A sign, if there is one: whether it is a minus, and the rest.
abbrev sign : List ℕ → Bool × List ℕ
sign [] = (false, [])
sign (c ∷ cs) = if c == b'-' then (true, cs) else if c == b'+' then (false, cs) else (false, c ∷ cs)

abbrev pub int_max : ℕ
int_max = 2 ^ 31 - 1

abbrev pub signed : Bool → ℕ → ℤ
signed false n = pos n
signed true n = if n == 0 then pos 0 else negsuc (n - 1)

-- `scanf("%d", …)`: `none` where no number stands in the input (then the variable keeps its
-- value). A number outside the range of `int` is undefined behaviour.
unfoldable pub scan_int : List ℕ → Outcome (Option ℤ × List ℕ)
unfolding skip_space span_digits
scan_int input =
    let (minus, body) = sign (skip_space input) in
    let (value, n, rest) = span_digits 0 body in
    if n == 0
    then done (none, body)
    else if leb value (if minus then 2 ^ 31 else int_max)
    then done (some (signed minus value), rest)
    else fault

-- `scanf("%u", …)`: a minus negates modulo 2 ^ 32.
unfoldable pub scan_unsigned : List ℕ → Outcome (Option ℕ × List ℕ)
unfolding skip_space span_digits
scan_unsigned input =
    let (minus, body) = sign (skip_space input) in
    let (value, n, rest) = span_digits 0 body in
    if n == 0
    then done (none, body)
    else if ltb value (2 ^ 32)
    then done (some (if minus then (2 ^ 32 - value) % 2 ^ 32 else value), rest)
    else fault

-- The C string in a buffer that holds these bytes and a NUL behind them.
unfoldable pub c_string : List ℕ → List ℕ
c_string [] = []
c_string (c ∷ cs) = elim (c == 0) [ true ↦ [] | false ↦ c ∷ c_string cs ]

-- `strcmp(s, t) == 0` on C strings
unfoldable pub same_string : List ℕ → List ℕ → Bool
same_string [] [] = true
same_string [] (d ∷ t) = false
same_string (c ∷ s) [] = false
same_string (c ∷ s) (d ∷ t) = (c == d) && same_string s t

-- The content of a `char` array: `none` before anything was stored there.
abbrev pub Buffer : Type 0
Buffer = Option (List ℕ)

-- A use of the string in a buffer. The content of a buffer never stored to is undefined.
abbrev pub text : Buffer → Outcome (List ℕ)
text none = fault
text (some s) = done s

-- `scanf("%s", buffer)` for a buffer of `size` bytes. The call has no bound: a word that leaves
-- no room for its NUL is stored outside the buffer.
unfoldable pub read_word : ℕ → Buffer → List ℕ → Outcome (Buffer × List ℕ)
unfolding scan_word c_string
read_word size buffer input =
    let (word, rest) = scan_word input in
    elim word [
      | none ↦ done (buffer, rest)
      | some w ↦ if ltb (length w) size then done (some (c_string w), rest) else fault
    ]
