-- ===== src/SharedMemory/Polling.antt =====
-- When a server leaves its polling, and what it prints then.
use hw.Prelude.{ℕ, zero, suc, ◌<◌, ◌≡◌, refl, ap, true, false, List, [], ◌∷◌, some, arith}
use hw.Stdio.{codes, same_string}
use hw.Unix.Calls.{Call, Io, ◌>>=◌}
use hw.Unix.Buffers.{c_text}
use hw.Unix.Runs.{Kernel, End, returned, run, outcome}
use hw.SharedMemory.{poll, posix_server, system_v_server}

-- From the n-th call on the memory holds the server's own text at `same` accesses, another text at
-- the next, and `seen` at the one behind that.
abbrev pub Changes : Kernel → ℕ → ℕ → List ℕ → Type 0
Changes k n zero seen =
    (other : List ℕ) × (c_text (k n Call.memory_peek) ≡ some other)
    × (same_string other (codes "Hi!") ≡ false)
    × (c_text (k (suc n) Call.memory_peek) ≡ some seen)
Changes k n (suc same) seen =
    (own : List ℕ) × (c_text (k n Call.memory_peek) ≡ some own)
    × (same_string own (codes "Hi!") ≡ true)
    × Changes k (suc n) same seen

-- What follows the polling, from the call at which it is left.
after_poll :
    (k : Kernel) (next : Unit {0} → Io ℕ) (same rounds n : ℕ) (seen : List ℕ) (end : End ℕ)
    (ws ts : List (List ℕ))
    → Changes k n same seen
    → same < rounds
    → ((m : ℕ)
        → c_text (k m Call.memory_peek) ≡ some seen
        → outcome (run k m (next tt)) ≡ (end, ws, ts))
    → outcome (run k n (poll rounds >>= next)) ≡ (end, ws, ts)
unfolding run poll
after_poll k next same zero n seen end ws ts c h f = ground (arith, h)
after_poll k next zero (suc rounds) n seen end ws ts (other, e, differs, e') h f =
    rw (run, e) (rw differs (f (suc n) e'))
after_poll k next (suc same) (suc rounds) n seen end ws ts (own, e, equal, c) h f =
    rw (run, e)
      (rw equal (after_poll k next same rounds (suc n) seen end ws ts c (omega (arith, h)) f))

-- Where the memory is attached and holds another text than the server's own after any number of
-- accesses, each server leaves its polling there, prints the text that the memory holds at the
-- access behind that, which may be a third one, and returns 0.
pub servers_print :
    (k : Kernel) (same rounds : ℕ) (seen : List ℕ)
    → k 0 (Call.memory_attach "/my_shm") ≡ true
    → k 0 (Call.memory_attach "my_shm") ≡ true
    → Changes k 3 same seen
    → same < rounds
    → (outcome (run k 0 (posix_server rounds)) ≡ (returned 0, [], [] ∷ seen ∷ []))
      × (outcome (run k 0 (system_v_server rounds)) ≡ (returned 0, [], [] ∷ seen ∷ []))
unfolding run posix_server system_v_server
servers_print k same rounds seen posix system_v c h = (
  rw (run, posix)
      (ap shown (
        after_poll k _ same rounds 3 seen (returned 0) [] (seen ∷ []) c h
          (λ m e. rw (run, e) refl))),
  rw (run, system_v)
      (ap shown (
        after_poll k _ same rounds 3 seen (returned 0) [] (seen ∷ []) c h
          (λ m e. rw (run, e) refl))),
)
  where
    shown : End ℕ × List (List ℕ) × List (List ℕ) → End ℕ × List (List ℕ) × List (List ℕ)
    shown r = (r.0, r.1, [] ∷ r.2)
