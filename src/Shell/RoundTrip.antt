-- ===== src/Shell/RoundTrip.antt =====
-- What the piping shell executes for a line that was typed from words.
use hw.Prelude.{
  ℕ, suc, ◌<◌, ◌≡◌, refl, ◌∙◌, false, List, [], ◌∷◌, ◌++◌, some, arith, length, take, replicate,
  length-append, take_all,
}
use hw.Stdio.{codes, c_string, same_string}
use hw.Unix.Calls.{Forked, Call}
use hw.Unix.Runs.{Kernel, exited, run}
use hw.Shell.{space, bar, token, cut, chop, pipe_shell}
use hw.Shell.Tokens.{split, words, arguments}
use hw.Shell.Commands.{effects, pipe_shell_executes, pipe_shell_left, pipe_shell_right}
use hw.Shell.Typing.{typed, others, IsWord, AreWords, Free, words-typed, Free-typed, length-others}

-- A line without a NUL, as `fgets` stores it and as the shells cut its last byte off.
abbrev newline : List ℕ
newline = 10 ∷ []

c_string-line : (s : List ℕ) → Free s → c_string (s ++ newline) ≡ s ++ newline
unfolding c_string
c_string-line [] h = refl
c_string-line (c ∷ s) (z, _, h) = rw (c_string, z, c_string-line s h)

take-line : (s : List ℕ) → take (length s) (s ++ newline) ≡ s
take-line [] = refl
take-line (c ∷ s) = rw (take-line s)

chop-line : (s : List ℕ) → chop (s ++ newline) ≡ some s
unfolding chop
chop-line [] = refl
chop-line (c ∷ s) =
    let long : length (s ++ newline) ≡ suc (length s) = omega (arith, length-append s newline) in
    rw (chop, long, take-line s)

chop_typed : (s : List ℕ) → Free s → chop (c_string (s ++ newline)) ≡ some s
chop_typed s h = rw (c_string-line s h) (chop-line s)

-- A line with no bar is one command, and one with a bar between two commands is these.
token_whole : (s : List ℕ) → Free s → token bar s ≡ s
unfolding token
token_whole [] h = refl
token_whole (c ∷ s) (_, b, h) = rw (token, b, token_whole s h)

cut_whole : (s : List ℕ) → Free s → cut bar s ≡ s
unfolding cut
cut_whole [] h = refl
cut_whole (c ∷ s) (z, b, h) = rw (cut, b, token_whole (c ∷ s) (z, b, h))

c_string-pair :
    (s t : List ℕ)
    → Free s
    → Free t
    → c_string ((s ++ (bar ∷ t)) ++ newline) ≡ (s ++ (bar ∷ t)) ++ newline
unfolding c_string
c_string-pair [] t h g = rw (c_string, c_string-line t g)
c_string-pair (c ∷ s) t (z, _, h) g = rw (c_string, z, c_string-pair s t h g)

split-Free : (s : List ℕ) → Free s → split bar s ≡ (s, [])
unfolding split
split-Free [] h = refl
split-Free (c ∷ s) (_, b, h) = rw (split, b, split-Free s h)

split_bar : (s t : List ℕ) → Free s → Free t → split bar (s ++ (bar ∷ t)) ≡ (s, t ∷ [])
unfolding split
split_bar [] t h g = rw (split, split-Free t g)
split_bar (c ∷ s) t (_, b, h) g = rw (split, b, split_bar s t h g)

single : (s : List ℕ) → Free s → length (words bar s) < 2
unfolding words
single [] h = omega arith
single (c ∷ s) h = rw (words, split-Free (c ∷ s) h) (omega arith)

halves :
    (s t : List ℕ)
    → 0 < length s
    → 0 < length t
    → Free s
    → Free t
    → words bar (s ++ (bar ∷ t)) ≡ s ∷ t ∷ []
unfolding words
halves [] t h g _ _ = absurd (omega (arith, h))
halves (c ∷ s) [] h g _ _ = absurd (omega (arith, g))
halves (c ∷ s) (d ∷ t) _ _ h g = rw (words, split_bar (c ∷ s) (d ∷ t) h g)

length-typed :
    (n : ℕ) (w : List ℕ) (ws : List (ℕ × List ℕ)) (end : ℕ)
    → IsWord w
    → 0 < length (typed n w ws end)
unfolding typed
length-typed n w [] end (h, _) = omega (
  arith,
  h,
  length-append (replicate n space) (w ++ replicate end space),
  length-append w (replicate end space),
)
length-typed n w ((m, v) ∷ ws) end (h, _) = omega (
  arith,
  h,
  length-append (replicate n space) (w ++ (space ∷ typed m v ws end)),
  length-append w (space ∷ typed m v ws end),
)

-- A command of one to nine words, typed with any blanks between them and not `exit`, is executed
-- by the child as these words.
pub pipe_shell-typed :
    (k : Kernel) (rounds n : ℕ) (w : List ℕ) (ws : List (ℕ × List ℕ)) (end : ℕ)
    → IsWord w
    → AreWords ws
    → length ws < 9
    → same_string w (codes "exit") ≡ false
    → k 1 (Call.get_line 1024) ≡ some (typed n w ws end ++ newline)
    → k 2 Call.fork ≡ Forked.child
    → effects (run k 0 (pipe_shell (suc rounds)))
      ≡ (exited 1, [], (w, arguments (w ∷ others ws)) ∷ [])
pipe_shell-typed k rounds n w ws end h hs short other came child =
    let line = typed n w ws end in
    let free = Free-typed n w ws end h hs in
    let whole = chop_typed line free in
    let found : words space (cut bar line) ≡ w ∷ others ws =
      rw (cut_whole line free) (words-typed n w ws end h hs) in
    pipe_shell_executes k rounds line (line ++ newline, came, whole) w (others ws)
      (single line free) found (rw (length-others ws) short) other child

-- A command: how it is typed, and its words.
abbrev pub Command : Type 0
Command = ℕ × List ℕ × List (ℕ × List ℕ) × ℕ

abbrev pub line_of : Command → List ℕ
line_of (n, w, ws, end) = typed n w ws end

abbrev pub program : Command → List ℕ
program (n, w, ws, end) = w

abbrev pub words_of : Command → List (List ℕ)
words_of (n, w, ws, end) = w ∷ others ws

abbrev pub IsCommand : Command → Type 0
IsCommand (n, w, ws, end) = IsWord w × AreWords ws × (length ws < 9)

Free-line_of : (c : Command) → IsCommand c → Free (line_of c)
Free-line_of (n, w, ws, end) (h, hs, _) = Free-typed n w ws end h hs

length-line_of : (c : Command) → IsCommand c → 0 < length (line_of c)
length-line_of (n, w, ws, end) (h, _, _) = length-typed n w ws end h

-- Two commands of one to nine words each, typed with a bar between them and any blanks, where the
-- pipe is made: the first child has its standard output in the pipe and executes the words of the
-- first command, and the second child, of the parent behind the first `fork`, has its standard
-- input there and executes those of the second.
pub pipe_shell-typed_pair :
    (a b : Command) (kl kr : Kernel) (rounds from to pid : ℕ)
    → IsCommand a
    → IsCommand b
    → kl 1 (Call.get_line 1024) ≡ some ((line_of a ++ (bar ∷ line_of b)) ++ newline)
    → kr 1 (Call.get_line 1024) ≡ some ((line_of a ++ (bar ∷ line_of b)) ++ newline)
    → kl 2 Call.pipe ≡ some (from, to)
    → kr 2 Call.pipe ≡ some (from, to)
    → kl 3 Call.fork ≡ Forked.child
    → kr 3 Call.fork ≡ Forked.parent pid
    → kr 4 Call.fork ≡ Forked.child
    → (effects (run kl 0 (pipe_shell (suc rounds)))
        ≡ (exited 1, (some to, 1) ∷ [], (program a, arguments (words_of a)) ∷ []))
      × (effects (run kr 0 (pipe_shell (suc rounds)))
          ≡ (exited 1, (some from, 0) ∷ [], (program b, arguments (words_of b)) ∷ []))
pipe_shell-typed_pair (n, w, ws, i) (m, v, vs, j) kl kr rounds from to pid (h, hs, short)
      (g, gs, brief) cl cr pl pr left parent right =
    let a : Command = (n, w, ws, i) in
    let b : Command = (m, v, vs, j) in
    let fa = Free-line_of a (h, hs, short) in
    let fb = Free-line_of b (g, gs, brief) in
    let line = line_of a ++ (bar ∷ line_of b) in
    let whole : chop (c_string (line ++ newline)) ≡ some line =
      rw (c_string-pair (line_of a) (line_of b) fa fb) (chop-line line) in
    let split =
      halves (line_of a) (line_of b) (length-line_of a (h, hs, short))
        (length-line_of b (g, gs, brief)) fa fb in
    let all = take_all 8 (others ws) (rw (length-others ws) (omega (arith, short))) in
    let every = take_all 8 (others vs) (rw (length-others vs) (omega (arith, brief))) in
    (
      pipe_shell_left kl rounds line (line ++ newline, cl, whole) (line_of a) (line_of b) [] split
            from to pl w (others ws) (words-typed n w ws i h hs) left
          ∙ rw all refl,
      pipe_shell_right kr rounds line (line ++ newline, cr, whole) (line_of a) (line_of b) [] split
            from to pr v (others vs) pid (words-typed m v vs j g gs) parent right
          ∙ rw every refl,
    )
