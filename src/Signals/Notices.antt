-- ===== src/Signals/Notices.antt =====
-- How many lines the signals bring.
use hw.Prelude.{
  ℕ, zero, suc, ◌≡◌, refl, ap, Bool, true, false, List, [], ◌∷◌, inl, inr, Bool-cases, length,
}
use hw.Unix.Calls.{Call}
use hw.Unix.Runs.{Kernel, Entry, run, said}
use hw.Signals.{sleep_loop, handling, wait_loop, waiting}

-- The signals that came, and those that `sigwait` brought.
abbrev pub arrived : List Bool → ℕ
arrived [] = 0
arrived (true ∷ rest) = suc (arrived rest)
arrived (false ∷ rest) = arrived rest

abbrev pub brought : List Entry → ℕ
brought [] = 0
brought ((Call.sigwait, true) ∷ calls) = suc (brought calls)
brought ((_, a) ∷ calls) = brought calls

sleep_loop_lem :
    (k : Kernel) (n : ℕ) (arrivals : List Bool)
    → length (said (run k n (sleep_loop arrivals)).1) ≡ arrived arrivals
unfolding run sleep_loop
sleep_loop_lem k n [] = refl
sleep_loop_lem k n (true ∷ rest) = ap suc (sleep_loop_lem k (suc (suc n)) rest)
sleep_loop_lem k n (false ∷ rest) = sleep_loop_lem k (suc n) rest

wait_loop_lem :
    (k : Kernel) (n rounds : ℕ)
    → length (said (run k n (wait_loop rounds)).1) ≡ brought (run k n (wait_loop rounds)).1
unfolding run wait_loop
wait_loop_lem k n zero = refl
wait_loop_lem k n (suc rounds) = elim (Bool-cases (k n Call.sigwait)) [
  | inl e ↦ rw e (ap suc (wait_loop_lem k (suc (suc n)) rounds))
  | inr e ↦ rw e (wait_loop_lem k (suc (suc n)) rounds)
]

-- Where the handler is installed and the mask is set: the first program prints a line for each
-- signal that comes, and the third one for its mask and one for each signal that it waited for,
-- in any number of rounds.
pub one_line_each :
    (k : Kernel) (arrivals : List Bool) (rounds : ℕ)
    → k 0 (Call.sigaction "SIGUSR1") ≡ true
    → k 0 (Call.sigprocmask "SIGUSR1") ≡ true
    → (length (said (run k 0 (handling arrivals)).1) ≡ arrived arrivals)
      × (length (said (run k 0 (waiting rounds)).1) ≡ suc (brought (run k 0 (waiting rounds)).1))
unfolding run handling waiting
one_line_each k arrivals rounds installed masked = (
  rw (run, installed) (sleep_loop_lem k 1 arrivals),
  rw (run, masked) (ap suc (wait_loop_lem k 2 rounds)),
)
