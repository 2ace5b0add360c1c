-- ===== src/Indices/Ends.antt =====
-- Every run comes to its end, in whatever order the threads go on.
use mathlib.Core.Path.{subst}
use hw.Prelude.{
  ℕ, suc, ◌+◌, ◌-◌, ◌*◌, ◌≤◌, ◌<◌, ◌≡◌, ◌≢◌, ◌⊎◌, inl, inr, refl, ap, arith, dec_lt, ltb,
  if◌then◌else◌,
}
use hw.Prelude.Family.{update, total, total-update}
use hw.Indices.{
  num_indices, IndexPc, absent, created, holding, printed, MainPc, storing, creating, joining,
  returned, Printing, Step, start, Reach,
}
use hw.Indices.Once.{count, Own, made, Stored, Inv, Reach-Inv, changed, each_once}

-- The steps that a thread has still to take.
abbrev thread_energy : IndexPc → ℕ
thread_energy absent = 0
thread_energy created = 2
thread_energy (holding v) = 1
thread_energy printed = 0

-- The steps that `main` and the threads that it will create have still to take.
abbrev main_energy : MainPc → ℕ
main_energy (storing i) = 4 * (num_indices - i) + 7
main_energy (creating i) = 4 * (num_indices - i) + 6
main_energy (joining i) = num_indices - i + 1
main_energy returned = 0

abbrev energy : Printing → ℕ
energy s = main_energy s.main + total thread_energy num_indices s.threads

thread_moves :
    (f : ℕ → IndexPc) (t : ℕ) (p p' : IndexPc)
    → t < num_indices
    → f t ≡ p
    → total thread_energy num_indices (update f t p') + thread_energy p
      ≡ total thread_energy num_indices f + thread_energy p'
thread_moves f t p p' lt at = rw (← at) (total-update thread_energy num_indices f t p' lt)

-- A thread that is there is one of the five.
there_small : {s : Printing} (t : ℕ) → Inv s → s.threads t ≢ absent → t < num_indices
there_small {s} t inv there = elim (dec_lt t num_indices) [
  | yes lt ↦ lt
  | no out ↦ absurd (there (inv.fresh t (omega (arith, out, inv.small))))
]

Step-spends : {s t : Printing} → Step s t → Inv s → energy t < energy s
Step-spends {s} (Step.store i here lt) inv = omega (arith, lt, ap main_energy here)
Step-spends {s} (Step.create i here) inv =
    let (_, lt) = subst (λ q. Stored q s.t_id) here inv.stored in
    let none_yet : s.threads i ≡ absent = inv.fresh i (rw (ap made here) (omega arith)) in
    omega (arith, lt, ap main_energy here, thread_moves s.threads i absent created lt none_yet)
Step-spends {s} (Step.all_created i here past) inv = omega (arith, past, ap main_energy here)
Step-spends {s} (Step.read t v here given) inv =
    let lt = there_small t inv (λ e. cc (here, e)) in
    omega (arith, thread_moves s.threads t created (holding v) lt here)
Step-spends {s} (Step.print t v here) inv =
    let lt = there_small t inv (λ e. cc (here, e)) in
    omega (arith, thread_moves s.threads t (holding v) printed lt here)
Step-spends {s} (Step.join i here lt done) inv = omega (arith, lt, ap main_energy here)
Step-spends {s} (Step.return i here past) inv = omega (arith, past, ap main_energy here)

-- Runs of `k` steps.
pub data Steps : ℕ → Printing → Type 0 where
  still : Steps 0 start
  onward : {k : ℕ} {s t : Printing} → Steps k s → Step s t → Steps (suc k) t

Steps-Reach : {k : ℕ} {s : Printing} → Steps k s → Reach s
Steps-Reach Steps.still = Reach.begin
Steps-Reach (Steps.onward r step) = Reach.next (Steps-Reach r) step

start-energy : energy start ≡ 5 * num_indices + 2
unfolding total
start-energy = refl

Steps-spend : {k : ℕ} {s : Printing} → Steps k s → k + energy s ≤ 5 * num_indices + 2
Steps-spend Steps.still = omega (arith, start-energy)
Steps-spend (Steps.onward r step) =
    omega (arith, Steps-spend r, Step-spends step (Reach-Inv (Steps-Reach r)))

-- The threads that `main` has created are there.
Step-born :
    {s t : Printing} (u : ℕ)
    → Step s t
    → (u < made s.main → s.threads u ≢ absent)
    → u < made t.main
    → t.threads u ≢ absent
Step-born {s} u (Step.store i here lt) h l = h (rw (ap made here) l)
Step-born {s} u (Step.create i here) h l =
    changed (λ t pc. (t < made s.main → s.threads t ≢ absent) → t < suc i → pc ≢ absent) s.threads i
      created (λ g m. cc) (λ j other g m. g (rw (ap made here) (omega (arith, m, other)))) u h l
Step-born {s} u (Step.all_created i here past) h l = h (rw (ap made here) (omega (arith, l, past)))
Step-born {s} u (Step.read t v here given) h l =
    changed (λ j pc. s.threads j ≢ absent → pc ≢ absent) s.threads t (holding v) (λ g. cc)
      (λ j other g. g) u (h l)
Step-born {s} u (Step.print t v here) h l =
    changed (λ j pc. s.threads j ≢ absent → pc ≢ absent) s.threads t printed (λ g. cc)
      (λ j other g. g) u (h l)
Step-born {s} u (Step.join i here lt done) h l = h (rw (ap made here) l)
Step-born {s} u (Step.return i here past) h l = h (rw (ap made here) l)

Reach-born : {s : Printing} (u : ℕ) → Reach s → u < made s.main → s.threads u ≢ absent
Reach-born u Reach.begin l = absurd (omega (arith, l))
Reach-born u (Reach.next r step) l = Step-born u step (Reach-born u r) l

abbrev Continues : Printing → Type 0
Continues s = (t : Printing) × Step s t

-- `main` joins the thread, or the thread goes on.
thread-Continues :
    {s : Printing} (i : ℕ) (pc : IndexPc)
    → s.main ≡ joining i
    → i < num_indices
    → s.threads i ≡ pc
    → pc ≢ absent
    → Own i pc (s.t_id i) (count i s.lines)
    → Continues s
thread-Continues i absent here lt at there own = absurd (there refl)
thread-Continues i created here lt at there own = (_, Step.read i i at own.1)
thread-Continues i (holding v) here lt at there own = (_, Step.print i v at)
thread-Continues i printed here lt at there own = (_, Step.join i here lt at)

main-Continues :
    {s : Printing} (pc : MainPc) → s.main ≡ pc → Reach s → Continues s ⊎ (s.main ≡ returned)
main-Continues (storing i) here r = elim (dec_lt i num_indices) [
  | yes lt ↦ inl (_, Step.store i here lt)
  | no past ↦ inl (_, Step.all_created i here (omega (arith, past)))
]
main-Continues (creating i) here r = inl (_, Step.create i here)
main-Continues {s} (joining i) here r = elim (dec_lt i num_indices) [
  | no past ↦ inl (_, Step.return i here (omega (arith, past)))
  | yes lt ↦ inl (
      thread-Continues i (s.threads i) here lt refl (Reach-born i r (rw (ap made here) lt))
        ((Reach-Inv r).own i))
]
main-Continues returned here r = inr here

-- In every order of the threads' steps a run has at most 27 steps; and where it cannot go on,
-- `main` has returned and each index below five was printed exactly once, and no other number.
pub print_ends :
    {k : ℕ} {s : Printing} (n : ℕ)
    → Steps k s
    → (k ≤ 5 * num_indices + 2)
      × (((t : Printing) × Step s t)
          ⊎ ((s.main ≡ returned) × (count n s.lines ≡ (if ltb n num_indices then 1 else 0))))
print_ends {k} {s} n run =
    let r = Steps-Reach run in
    (
      omega (arith, Steps-spend run),
      elim (main-Continues s.main refl r) [
        | inl on ↦ inl on
        | inr here ↦ inr (here, each_once n r here)
      ],
    )
