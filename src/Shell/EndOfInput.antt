-- ===== src/Shell/EndOfInput.antt =====
-- The simple shell at the end of its input, where `fgets` leaves the array as it was.
use hw.Prelude.{
  ℕ, zero, suc, ◌≤◌, ◌<◌, ◌≡◌, refl, ap, ◌⊎◌, inl, inr, Bool-cases, Option-cases, List, [], ◌∷◌,
  Option, none, some, arith, length, length-take, take, ◌==◌,
}
use hw.Stdio.{codes, same_string}
use hw.Unix.Calls.{Forked, Call}
use hw.Unix.Runs.{Kernel, End, exited, undefined, run}
use hw.Shell.{space, strtok, token, cut, chop, store_args, simple_line, after_simple, simple_shell}

length-token : (d : ℕ) (s : List ℕ) → length (token d s) ≤ length s
unfolding token
length-token d [] = omega arith
length-token d (c ∷ s) = elim (Bool-cases (c == d)) [
  | inl e ↦ rw (token, e) (omega arith)
  | inr e ↦ rw (token, e) (omega (arith, length-token d s))
]

length-cut : (d : ℕ) (s : List ℕ) → length (cut d s) ≤ length s
unfolding cut
length-cut d [] = omega arith
length-cut d (c ∷ s) = elim (Bool-cases (c == d)) [
  | inl e ↦ rw (cut, e) (omega (arith, length-cut d s))
  | inr e ↦ rw (cut, e) (length-token d (c ∷ s))
]

length-chop : (s line : List ℕ) → chop s ≡ some line → length line < length s
unfolding chop
length-chop [] line e = ground (arith, e)
length-chop (c ∷ s) line e =
    let same : take (length s) (c ∷ s) ≡ line = cc e in
    omega (arith, length-take (length s) (c ∷ s), ap length same)

-- The run has ended, and not by returning.
abbrev pub Stops : End ℕ → Type 0
Stops end = (end ≡ undefined) ⊎ (end ≡ exited 0)

module _ (k : Kernel) (ended : (n : ℕ) → k n (Call.get_line 1024) ≡ none) where
  fork-Stops :
      (n rounds : ℕ) (cmd : List ℕ) (args : List (Option (List ℕ))) (held : List ℕ) (pid : Forked)
      → Stops (run k (suc n) (simple_shell rounds (some held))).0
      → Stops (run k n (after_simple cmd args (simple_shell rounds (some held)) pid)).0
  unfolding run after_simple
  fork-Stops n rounds cmd args held Forked.child h = h
  fork-Stops n rounds cmd args held Forked.failed h = h
  fork-Stops n rounds cmd args held (Forked.parent p) h = h

  line-Stops :
      (n rounds : ℕ) (line held : List ℕ)
      → ((m : ℕ) → Stops (run k m (simple_shell rounds (some held))).0)
      → Stops (run k n (simple_line line (simple_shell rounds (some held)))).0
  unfolding run simple_line
  line-Stops n rounds line held h = elim (Option-cases (store_args 10 (strtok space line).1)) [
    | inl e ↦ rw (simple_line, e) (inl refl)
    | inr (args, e) ↦ elim (Option-cases (strtok space line).0) [
      | inl f ↦ rw (simple_line, e, f) (inl refl)
      | inr (cmd, f) ↦ elim (Bool-cases (same_string cmd (codes "exit"))) [
        | inl x ↦ rw (simple_line, run, e, f, x) (inr refl)
        | inr x ↦
            rw (simple_line, run, e, f, x)
              (fork-Stops (suc n) rounds cmd args held (k n Call.fork) (h _))
      ]
    ]
  ]

  -- Where the input has ended, the shell goes on with the string in its array, whatever `fork` and
  -- the other calls answer: within one round more than that has bytes, the parent and each child
  -- has come to something undefined, or to the command `exit`.
  pub simple_shell-Stops :
      (rounds n : ℕ) (text : List ℕ)
      → length text < rounds
      → Stops (run k n (simple_shell rounds (some text))).0
  unfolding run simple_shell
  simple_shell-Stops zero n text h = ground (arith, h)
  simple_shell-Stops (suc rounds) n text h = elim (Option-cases (chop text)) [
    | inl e ↦ rw (run, ended (suc n), e) (inl refl)
    | inr (line, e) ↦
        rw (run, ended (suc n), e)
          (line-Stops (suc (suc n)) rounds line (cut space line) (λ m.
            simple_shell-Stops rounds m (cut space line)
              (omega (arith, h, length-chop text line e, length-cut space line))))
  ]
