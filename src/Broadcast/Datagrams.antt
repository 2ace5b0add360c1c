-- ===== src/Broadcast/Datagrams.antt =====
-- What the clients print.
use Prim.Native.String.{String}
use hw.Prelude.{
  ℕ, zero, suc, ◌≤◌, ◌<◌, ◌≡◌, refl, ap, true, false, Bool-cases, inl, inr, List, [], ◌∷◌, ◌++◌,
  Option, none, some, map, arith, ltb, ◌==◌, length, take, take_all, drop, set, length-set,
  length-take,
}
use hw.Stdio.{c_string}
use hw.Unix.Calls.{Fd, Call}
use hw.Unix.Buffers.{Chars, fill, c_text, length-fill}
use hw.Unix.Runs.{Kernel, End, running, undefined, run, outcome}
use hw.Unix.{recv_into}
use hw.Broadcast.{terminate, after_datagram, receive_loop}

text_before :
    (s : List ℕ) (b : Chars) → c_text (map (λ c. some c) s ++ (some 0 ∷ b)) ≡ some (c_string s)
unfolding c_text c_string
text_before [] b = refl
text_before (c ∷ s) b = elim (Bool-cases (c == 0)) [
  | inl e ↦ rw (c_text, c_string, e) refl
  | inr e ↦ rw (c_text, c_string, e, text_before s b) refl
]

set_behind :
    (s : List ℕ) (x : Option ℕ) (b : Chars)
    → set (map (λ c. some c) s ++ (x ∷ b)) (length s) (some 0) ≡ map (λ c. some c) s ++ (some 0 ∷ b)
set_behind [] x b = refl
set_behind (c ∷ s) x b = ap (λ l. some c ∷ l) (set_behind s x b)

split_at : (n : ℕ) (b : Chars) → n < length b → (x : Option ℕ) × (r : Chars) × (drop n b ≡ x ∷ r)
split_at n [] h = ground arith
split_at zero (x ∷ b) h = (x, b, refl)
split_at (suc n) (x ∷ b) h = split_at n b (omega (arith, h))

-- A datagram shorter than the array is printed up to its first NUL, whatever the array held, and
-- one as long as the array has its NUL stored behind the array.
terminated :
    (b : Chars) (s : List ℕ)
    → length s < length b
    → (b' : Chars) × (terminate (fill b s) (length s) ≡ some b')
      × (c_text b' ≡ some (c_string s))
      × (length b' ≡ length b)
unfolding terminate fill
terminated b s h =
    let (x, r, e) = split_at (length s) b h in
    let room : ltb (length s) (length (fill b s)) ≡ true =
      ground (arith, h, length-fill b s (omega (arith, h))) in
    let text : c_text (set (fill b s) (length s) (some 0)) ≡ some (c_string s) =
      rw (fill, e, set_behind s x r, text_before s r) refl in
    (
      set (fill b s) (length s) (some 0),
      rw (terminate, room) refl,
      text,
      omega (arith, length-set (fill b s) (length s) (some 0), length-fill b s (omega (arith, h))),
    )

full_array : (b : Chars) (s : List ℕ) → length s ≡ length b → terminate (fill b s) (length s) ≡ none
unfolding terminate
full_array b s h =
    let over : ltb (length s) (length (fill b s)) ≡ false =
      ground (arith, h, length-fill b s (omega (arith, h))) in
    rw (terminate, over) refl

-- What the calls of `recvfrom` bring from the n-th call on, two calls in each round: a datagram
-- shorter than the array, or a failure.
abbrev pub Arrives : Kernel → Fd → ℕ → List (Option (List ℕ)) → Type 0
Arrives k sock n [] = Unit {0}
Arrives k sock n (none ∷ es) =
    (k n (Call.recvfrom sock 1024) ≡ none) × Arrives k sock (suc (suc n)) es
Arrives k sock n (some s ∷ es) =
    (from : ℕ) × (k n (Call.recvfrom sock 1024) ≡ some (s, from))
    × (length s < 1024)
    × Arrives k sock (suc (suc n)) es

abbrev pub texts : List (Option (List ℕ)) → List (List ℕ)
texts [] = []
texts (none ∷ es) = texts es
texts (some s ∷ es) = c_string s ∷ texts es

one_datagram :
    (k : Kernel) (format : String) (sock : Fd) (rounds n : ℕ) (b : Chars) (s : List ℕ) (from : ℕ)
    (t : List ℕ) (b' : Chars) (ts : List (List ℕ))
    → k n (Call.recvfrom sock 1024) ≡ some (s, from)
    → terminate (fill b (take 1024 s)) (length (take 1024 s)) ≡ some b'
    → c_text b' ≡ some t
    → outcome (run k (suc (suc n)) (receive_loop rounds format sock b')) ≡ (running, [], ts)
    → outcome (run k n (receive_loop (suc rounds) format sock b)) ≡ (running, [], t ∷ ts)
unfolding run receive_loop recv_into after_datagram
one_datagram k format sock rounds n b s from t b' ts e stored text rest =
    rw (run, e)
      (rw stored
        (rw text (ap (λ (r : End ℕ × List (List ℕ) × List (List ℕ)). (r.0, r.1, t ∷ r.2)) rest)))

-- In any number of rounds, whatever the array held, a client prints each datagram that is shorter
-- than its array up to its first NUL, goes on behind each failure, and is still running.
pub receive_loop_prints :
    (k : Kernel) (format : String) (sock : Fd) (es : List (Option (List ℕ))) (n : ℕ) (b : Chars)
    → Arrives k sock n es
    → length b ≡ 1024
    → outcome (run k n (receive_loop (length es) format sock b)) ≡ (running, [], texts es)
unfolding run receive_loop recv_into after_datagram
receive_loop_prints k format sock [] n b a h = refl
receive_loop_prints k format sock (none ∷ es) n b (e, a) h =
    rw (run, e) (receive_loop_prints k format sock es (suc (suc n)) b a h)
receive_loop_prints k format sock (some s ∷ es) n b (from, e, short, a) h =
    let whole : take 1024 s ≡ s = take_all 1024 s (omega (arith, short)) in
    let (b', stored, text, long) = terminated b s (omega (arith, short, h)) in
    let rest = receive_loop_prints k format sock es (suc (suc n)) b' a (omega (arith, long, h)) in
    one_datagram k format sock (length es) n b s from (c_string s) b' (texts es) e (rw whole stored)
      text rest

-- A datagram of at least as many bytes as the array has room for ends in something undefined: its
-- NUL is stored behind the array.
pub receive_loop_overflows :
    (k : Kernel) (format : String) (sock : Fd) (rounds n from : ℕ) (s : List ℕ) (b : Chars)
    → k n (Call.recvfrom sock 1024) ≡ some (s, from)
    → 1024 ≤ length s
    → length b ≡ 1024
    → outcome (run k n (receive_loop (suc rounds) format sock b)) ≡ (undefined, [], [])
unfolding run receive_loop recv_into after_datagram
receive_loop_overflows k format sock rounds n from s b e long h =
    let over : terminate (fill b (take 1024 s)) (length (take 1024 s)) ≡ none =
      full_array b (take 1024 s) (omega (arith, h, long, length-take 1024 s)) in
    rw (run, e, over)
