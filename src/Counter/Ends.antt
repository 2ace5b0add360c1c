-- ===== src/Counter/Ends.antt =====
-- Every run of the program comes to its end, in whatever order the threads go on.
use hw.Prelude.{
  ℕ, zero, suc, ◌+◌, ◌-◌, ◌*◌, ◌≤◌, ◌<◌, ◌≡◌, ◌⊎◌, inl, inr, refl, ap, ◌∙◌, Bool, true, false, some,
  arith, Bool-cases, dec_lt,
}
use mathlib.Core.Path.{subst}
use hw.Prelude.Family.{update, update_other, total, total-update, find_index}
use hw.Counter.{
  num_threads, num_increments, ThreadPc, looping, holding, loaded, stored, ended, Thread, Process,
  Step, start, MainPc, creating, joining, destroying, printing, returned, Program, Run, begun, Runs,
}
use hw.Counter.Final.{holds, owners, IsSound, Inv, Reach-Inv}
use hw.Counter.Main.{Printed, Runs-Sound}

-- The steps that a thread has still to take, with `m` rounds to go.
abbrev pc_energy : ℕ → ThreadPc → ℕ
pc_energy m looping = 4 * m + 1
pc_energy m holding = 4 * m
pc_energy m (loaded v) = 4 * m - 1
pc_energy m stored = 4 * m - 2
pc_energy m ended = 0

abbrev thread_energy : Thread → ℕ
thread_energy t = pc_energy (num_increments - t.i) t.pc

-- The steps that `main` has still to take.
abbrev main_energy : MainPc → ℕ
main_energy (creating i) = num_threads - i + 9
main_energy (joining i) = num_threads - i + 3
main_energy destroying = 2
main_energy printing = 1
main_energy returned = 0

abbrev energy : Program → ℕ
energy w = main_energy w.main + total thread_energy num_threads w.process.threads

thread_spends :
    (f : ℕ → Thread) (t : ℕ) (a : Thread) (pc : ThreadPc)
    → t < num_threads
    → (f t).pc ≡ pc
    → thread_energy a < pc_energy (num_increments - (f t).i) pc
    → total thread_energy num_threads (update f t a) < total thread_energy num_threads f
thread_spends f t a pc lt here less = omega (
  arith,
  total-update thread_energy num_threads f t a lt,
  ap (pc_energy (num_increments - (f t).i)) here,
  less,
)

Step-spends :
    {s p : Process}
    → Step s p
    → Inv s
    → total thread_energy num_threads p.threads < total thread_energy num_threads s.threads
Step-spends {s} (Step.lock t lt here more free) inv =
    thread_spends s.threads t (record { i = (s.threads t).i; pc = holding }) looping lt here
      (omega arith)
Step-spends {s} (Step.end t lt here last) inv =
    thread_spends s.threads t (record { i = (s.threads t).i; pc = ended }) looping lt here
      (omega arith)
Step-spends {s} (Step.load t lt here) inv =
    let more : (s.threads t).i < num_increments =
      subst (IsSound s.counter (s.threads t).i) here (inv.sound t lt) in
    thread_spends s.threads t (record { i = (s.threads t).i; pc = loaded s.counter }) holding lt
      here (omega (arith, more))
Step-spends {s} (Step.store t v lt here) inv =
    let (more, same) = subst (IsSound s.counter (s.threads t).i) here (inv.sound t lt) in
    thread_spends s.threads t (record { i = (s.threads t).i; pc = stored }) (loaded v) lt here
      (omega (arith, more))
Step-spends {s} (Step.unlock t lt here) inv =
    let more : (s.threads t).i < num_increments =
      subst (IsSound s.counter (s.threads t).i) here (inv.sound t lt) in
    thread_spends s.threads t (record { i = suc (s.threads t).i; pc = looping }) stored lt here
      (omega (arith, more))

Run-spends : {w v : Program} → Run w v → Inv w.process → energy v < energy w
Run-spends (Run.thread p step others) inv = omega (arith, Step-spends step inv)
Run-spends {w} (Run.create i here lt) inv = omega (arith, lt, ap main_energy here)
Run-spends {w} (Run.all_created i here past) inv = omega (arith, past, ap main_energy here)
Run-spends {w} (Run.join i here lt done) inv = omega (arith, lt, ap main_energy here)
Run-spends {w} (Run.all_joined i here past) inv = omega (arith, past, ap main_energy here)
Run-spends {w} (Run.destroy here) inv = omega (arith, ap main_energy here)
Run-spends {w} (Run.print here) inv = omega (arith, ap main_energy here)

-- Runs of `k` steps.
pub data Steps : ℕ → Program → Type 0 where
  still : Steps 0 begun
  onward : {k : ℕ} {w v : Program} → Steps k w → Run w v → Steps (suc k) v

Steps-Runs : {k : ℕ} {w : Program} → Steps k w → Runs w
Steps-Runs Steps.still = Runs.first
Steps-Runs (Steps.onward r step) = Runs.more (Steps-Runs r) step

begun-energy : energy begun ≡ num_threads * (4 * num_increments + 2) + 9
unfolding begun start total
begun-energy = refl

Steps-spend : {k : ℕ} {w : Program} → Steps k w → k + energy w ≤ energy begun
Steps-spend Steps.still = omega arith
Steps-spend (Steps.onward r step) =
    omega (arith, Steps-spend r, Run-spends step (Reach-Inv (Runs-Sound (Steps-Runs r)).reached))

-- The number of threads that are created.
abbrev made_by : MainPc → ℕ
made_by (creating i) = i
made_by (joining i) = num_threads
made_by destroying = num_threads
made_by printing = num_threads
made_by returned = num_threads

Run-created :
    {w v : Program}
    → Run w v
    → (w.created ≡ made_by w.main) × (made_by w.main ≤ num_threads)
    → (v.created ≡ made_by v.main) × (made_by v.main ≤ num_threads)
Run-created (Run.thread p step others) h = h
Run-created (Run.create i here lt) h = omega (arith, lt)
Run-created (Run.all_created i here past) h = omega (arith, past, h, ap made_by here)
Run-created (Run.join i here lt done) h = omega (arith, h, ap made_by here)
Run-created (Run.all_joined i here past) h = omega (arith, h, ap made_by here)
Run-created (Run.destroy here) h = omega (arith, h, ap made_by here)
Run-created (Run.print here) h = omega (arith, h, ap made_by here)

Runs-created :
    {w : Program} → Runs w → (w.created ≡ made_by w.main) × (made_by w.main ≤ num_threads)
unfolding begun
Runs-created Runs.first = omega arith
Runs-created (Runs.more r step) = Run-created step (Runs-created r)

-- A step of a thread that is there, as the others stay.
abbrev Goes : Process → Type 0
Goes s = (p : Process) × Step s p × ((u : ℕ) → num_threads ≤ u → p.threads u ≡ s.threads u)

abbrev is_owner : ThreadPc → Bool
is_owner looping = false
is_owner holding = true
is_owner (loaded v) = true
is_owner stored = true
is_owner ended = false

elsewhere :
    (f : ℕ → Thread) (t u : ℕ) (a : Thread)
    → t < num_threads
    → num_threads ≤ u
    → update f t a u ≡ f u
elsewhere f t u a lt out = update_other f t u a (λ same. omega (arith, lt, out, same))

-- The owner of the mutex goes on.
owner-Goes :
    (s : Process) (t : ℕ) (pc : ThreadPc)
    → t < num_threads
    → (s.threads t).pc ≡ pc
    → is_owner pc ≡ true
    → Goes s
owner-Goes s t holding lt here own =
    (_, Step.load t lt here, λ u out. elsewhere s.threads t u _ lt out)
owner-Goes s t (loaded v) lt here own =
    (_, Step.store t v lt here, λ u out. elsewhere s.threads t u _ lt out)
owner-Goes s t stored lt here own =
    (_, Step.unlock t lt here, λ u out. elsewhere s.threads t u _ lt out)
owner-Goes s t looping lt here own = cc
owner-Goes s t ended lt here own = cc

none_own :
    (n : ℕ) (f : ℕ → Thread) → ((t : ℕ) → t < n → is_owner (f t).pc ≡ false) → total holds n f ≡ 0
unfolding total
none_own zero f all = refl
none_own (suc n) f all =
    let rest = none_own n f (λ t l. all t (omega (arith, l))) in
    ground (arith, rest, all n (omega arith))

locked-Goes : (s : Process) → Inv s → s.locked ≡ true → Goes s
locked-Goes s inv lk = elim (find_index (λ t. is_owner t.pc) num_threads s.threads) [
  | inl (t, lt, own) ↦ owner-Goes s t (s.threads t).pc lt refl own
  | inr nobody ↦
      absurd (omega (arith, inv.owned, ap owners lk, none_own num_threads s.threads nobody))
]

-- A thread that has not ended, with the mutex free.
free-Goes :
    (s : Process) (t : ℕ) (pc : ThreadPc)
    → t < num_threads
    → (s.threads t).pc ≡ pc
    → s.locked ≡ false
    → (pc ≡ ended) ⊎ Goes s
free-Goes s t looping lt here free = elim (dec_lt (s.threads t).i num_increments) [
  | yes more ↦ inr (_, Step.lock t lt here more free, λ u out. elsewhere s.threads t u _ lt out)
  | no last ↦
      inr (_, Step.end t lt here (omega (arith, last)), λ u out. elsewhere s.threads t u _ lt out)
]
free-Goes s t holding lt here free = inr (owner-Goes s t holding lt here refl)
free-Goes s t (loaded v) lt here free = inr (owner-Goes s t (loaded v) lt here refl)
free-Goes s t stored lt here free = inr (owner-Goes s t stored lt here refl)
free-Goes s t ended lt here free = inl refl

abbrev Continues : Program → Type 0
Continues w = (v : Program) × Run w v

module _ {w : Program} (all : w.created ≡ num_threads) where
  thread-Continues : Goes w.process → Continues w
  thread-Continues (p, step, others) = (_, Run.thread p step (λ u out. others u (rw (← all) out)))

  joining-Continues : (i : ℕ) → w.main ≡ joining i → Inv w.process → Continues w
  joining-Continues i here inv = elim (dec_lt i num_threads) [
    | no past ↦ (_, Run.all_joined i here (omega (arith, past)))
    | yes lt ↦ elim (Bool-cases w.process.locked) [
      | inl lk ↦ thread-Continues (locked-Goes w.process inv lk)
      | inr free ↦ elim (free-Goes w.process i (w.process.threads i).pc lt refl free) [
        | inl done ↦ (_, Run.join i here lt done)
        | inr goes ↦ thread-Continues goes
      ]
    ]
  ]

-- `main` has returned, and has printed the number of all increments.
abbrev pub Ended : Program → Type 0
Ended w = (w.main ≡ returned) × (w.printed ≡ some (num_threads * num_increments))

main-Continues : {w : Program} (pc : MainPc) → w.main ≡ pc → Runs w → Continues w ⊎ Ended w
main-Continues (creating i) here r = elim (dec_lt i num_threads) [
  | yes lt ↦ inl (_, Run.create i here lt)
  | no past ↦ inl (_, Run.all_created i here (omega (arith, past)))
]
main-Continues (joining i) here r = inl (
    joining-Continues ((Runs-created r).0 ∙ ap made_by here) i here
      (Reach-Inv (Runs-Sound r).reached))
main-Continues destroying here r = inl (_, Run.destroy here)
main-Continues printing here r = inl (_, Run.print here)
main-Continues {w} returned here r =
    inr (here, subst (λ q. Printed q w.printed) here (Runs-Sound r).shown)

-- In every order of the threads' steps a run has at most NUM_THREADS (4 NUM_INCREMENTS + 2) + 9
-- steps; and where it cannot go on, `main` has returned and has printed the number of all
-- increments, NUM_THREADS NUM_INCREMENTS.
pub main_ends :
    {k : ℕ} {w : Program}
    → Steps k w
    → (k ≤ num_threads * (4 * num_increments + 2) + 9) × (((v : Program) × Run w v) ⊎ Ended w)
main_ends {k} {w} r =
    (omega (arith, Steps-spend r, begun-energy), main-Continues w.main refl (Steps-Runs r))
