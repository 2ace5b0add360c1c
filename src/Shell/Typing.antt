-- ===== src/Shell/Typing.antt =====
-- Lines written from words, and the words that the shells find in them.
use hw.Prelude.{
  append_nil, ℕ, zero, suc, ◌<◌, ◌≡◌, refl, ap, sym, ◌∙◌, false, List, [], ◌∷◌, ◌++◌, arith, ◌==◌,
  length, replicate,
}
use hw.Shell.{space, bar}
use hw.Shell.Tokens.{split, words}

-- Bytes that are neither a NUL, nor a blank, nor a bar; a word has one at least.
abbrev pub Plain : List ℕ → Type 0
Plain [] = Unit {0}
Plain (c ∷ s) = ((c == 0) ≡ false) × ((c == space) ≡ false) × ((c == bar) ≡ false) × Plain s

abbrev pub IsWord : List ℕ → Type 0
IsWord w = (0 < length w) × Plain w

abbrev pub AreWords : List (ℕ × List ℕ) → Type 0
AreWords [] = Unit {0}
AreWords ((n, w) ∷ ws) = IsWord w × AreWords ws

-- A command as it is typed: so many blanks, a word, then the others with one blank and so many
-- more in front of each, and so many blanks at the end.
unfoldable pub typed : ℕ → List ℕ → List (ℕ × List ℕ) → ℕ → List ℕ
typed n w [] end = replicate n space ++ (w ++ replicate end space)
typed n w ((m, v) ∷ ws) end = replicate n space ++ (w ++ (space ∷ typed m v ws end))

abbrev pub others : List (ℕ × List ℕ) → List (List ℕ)
others [] = []
others ((n, w) ∷ ws) = w ∷ others ws

pub length-others : (ws : List (ℕ × List ℕ)) → length (others ws) ≡ length ws
length-others [] = refl
length-others ((n, w) ∷ ws) = ap suc (length-others ws)

words-replicate : (n : ℕ) (s : List ℕ) → words space (replicate n space ++ s) ≡ words space s
unfolding words split
words-replicate zero s = refl
words-replicate (suc n) s = words-replicate n s

split-append :
    (w s : List ℕ)
    → Plain w
    → split space (w ++ (space ∷ s)) ≡ (w, (split space s).0 ∷ (split space s).1)
unfolding split
split-append [] s h = refl
split-append (c ∷ w) s (_, e, _, h) = rw (split, e, split-append w s h)

split_whole : (w : List ℕ) → Plain w → split space w ≡ (w, [])
unfolding split
split_whole [] h = refl
split_whole (c ∷ w) (_, e, _, h) = rw (split, e, split_whole w h)

words-append : (w s : List ℕ) → IsWord w → words space (w ++ (space ∷ s)) ≡ w ∷ words space s
unfolding words
words-append [] s (h, _) = absurd (omega (arith, h))
words-append (c ∷ w) s (_, h) = rw (words, split-append (c ∷ w) s h)

words-end : (w : List ℕ) (n : ℕ) → IsWord w → words space (w ++ replicate n space) ≡ w ∷ []
unfolding words split
words-end [] n (h, _) = absurd (omega (arith, h))
words-end (c ∷ w) zero (_, h) = rw (words, append_nil w, split_whole (c ∷ w) h)
words-end (c ∷ w) (suc n) h =
    words-append (c ∷ w) (replicate n space) h
    ∙ ap (λ ws. (c ∷ w) ∷ ws)
        (ap (words space) (sym (append_nil (replicate n space))) ∙ words-replicate n [])

-- The words of a command that is typed are those it was typed from.
pub words-typed :
    (n : ℕ) (w : List ℕ) (ws : List (ℕ × List ℕ)) (end : ℕ)
    → IsWord w
    → AreWords ws
    → words space (typed n w ws end) ≡ w ∷ others ws
unfolding typed
words-typed n w [] end h _ = words-replicate n (w ++ replicate end space) ∙ words-end w end h
words-typed n w ((m, v) ∷ ws) end h (g, gs) =
    words-replicate n (w ++ (space ∷ typed m v ws end))
    ∙ words-append w (typed m v ws end) h
    ∙ ap (λ vs. w ∷ vs) (words-typed m v ws end g gs)

-- No byte of it is a NUL or a bar.
abbrev pub Free : List ℕ → Type 0
Free [] = Unit {0}
Free (c ∷ s) = ((c == 0) ≡ false) × ((c == bar) ≡ false) × Free s

Free-append : (s t : List ℕ) → Free s → Free t → Free (s ++ t)
Free-append [] t h g = g
Free-append (c ∷ s) t (z, b, h) g = (z, b, Free-append s t h g)

Free-blanks : (n : ℕ) → Free (replicate n space)
Free-blanks zero = tt
Free-blanks (suc n) = (refl, refl, Free-blanks n)

Free-word : (w : List ℕ) → Plain w → Free w
Free-word [] h = tt
Free-word (c ∷ w) (z, _, b, h) = (z, b, Free-word w h)

pub Free-typed :
    (n : ℕ) (w : List ℕ) (ws : List (ℕ × List ℕ)) (end : ℕ)
    → IsWord w
    → AreWords ws
    → Free (typed n w ws end)
unfolding typed
Free-typed n w [] end (_, h) _ =
    Free-append (replicate n space) (w ++ replicate end space) (Free-blanks n)
      (Free-append w (replicate end space) (Free-word w h) (Free-blanks end))
Free-typed n w ((m, v) ∷ ws) end (_, h) (g, gs) =
    Free-append (replicate n space) (w ++ (space ∷ typed m v ws end)) (Free-blanks n) (
      Free-append w (space ∷ typed m v ws end) (Free-word w h)
        (refl, refl, Free-typed m v ws end g gs))
