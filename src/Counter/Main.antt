-- ===== src/Counter/Main.antt =====
-- What `main` prints.
use mathlib.Core.Path.{subst}
use mathlib.Core.Logic.{ite}
use hw.Prelude.{
  ℕ, zero, suc, ◌*◌, ◌<◌, ◌≡◌, ◌≢◌, refl, ap, sym, ◌∙◌, Bool, true, false, Option, some, arith,
  ℕ_discrete,
}
use hw.Prelude.Family.{update, total}
use hw.Counter.{
  num_threads, num_increments, ThreadPc, looping, holding, loaded, stored, ended, Thread, Process,
  Step, Reach, MainPc, creating, joining, destroying, returned, Program, Run, begun, Runs,
}
use hw.Counter.Final.{late, holds_pc, holds, made, owners, IsSound, Reach-Inv}

others_end :
    (f : ℕ → Thread) (t j : ℕ) (a : Thread) (pc : ThreadPc)
    → (f t).pc ≡ pc
    → pc ≢ ended
    → (f j).pc ≡ ended
    → (update f t a j).pc ≡ ended
others_end f t j a pc here live done = elim (ℕ_discrete t j) as (λ d. (ite d a (f j)).pc ≡ ended) [
  | yes same ↦ absurd (live (sym here ∙ (ap (λ u. (f u).pc) same ∙ done)))
  | no other ↦ done
]

Step-ended :
    {s t : Process} (j : ℕ) → Step s t → (s.threads j).pc ≡ ended → (t.threads j).pc ≡ ended
Step-ended {s} j (Step.lock t lt here more free) h =
    others_end s.threads t j (record { i = (s.threads t).i; pc = holding }) looping here (cc) h
Step-ended {s} j (Step.end t lt here last) h =
    others_end s.threads t j (record { i = (s.threads t).i; pc = ended }) looping here (cc) h
Step-ended {s} j (Step.load t lt here) h =
    others_end s.threads t j (record { i = (s.threads t).i; pc = loaded s.counter }) holding here
      (cc) h
Step-ended {s} j (Step.store t v lt here) h =
    others_end s.threads t j (record { i = (s.threads t).i; pc = stored }) (loaded v) here (cc) h
Step-ended {s} j (Step.unlock t lt here) h =
    others_end s.threads t j (record { i = suc (s.threads t).i; pc = looping }) stored here (cc) h

-- The threads that `main` has joined have ended, and what it printed is the number of all
-- increments.
abbrev pub joined : MainPc → ℕ
joined (creating i) = 0
joined (joining i) = i
joined _ = num_threads

abbrev pub Printed : MainPc → Option ℕ → Type 0
Printed returned v = v ≡ some (num_threads * num_increments)
Printed _ v = Unit

pub record Sound (w : Program) : Type 0 where
  pub reached : Reach w.process
  pub waited : (t : ℕ) → t < joined w.main → t < num_threads → (w.process.threads t).pc ≡ ended
  pub shown : Printed w.main w.printed

total-ended :
    (n c : ℕ) (f : ℕ → Thread)
    → ((t : ℕ) → t < n → (f t).pc ≡ ended)
    → ((t : ℕ) → t < n → IsSound c (f t).i (f t).pc)
    → (total made n f ≡ n * num_increments) × (total holds n f ≡ 0)
unfolding total
total-ended zero c f all sound = (refl, refl)
total-ended (suc n) c f all sound =
    let (m, h) =
      total-ended n c f (λ t l. all t (omega (arith, l))) (λ t l. sound t (omega (arith, l))) in
    let last = all n (omega arith) in
    let whole : (f n).i ≡ num_increments =
      subst (λ q. IsSound c (f n).i q) last (sound n (omega arith)) in
    (omega (arith, m, whole, ap late last), omega (arith, h, ap holds_pc last))

not_owned : (b : Bool) → owners b ≡ 0 → b ≡ false
not_owned true h = absurd (omega (arith, h))
not_owned false h = refl

-- Behind the end of all threads the counter holds all increments, and nobody has the mutex.
all_ended :
    (p : Process)
    → Reach p
    → ((t : ℕ) → t < num_threads → (p.threads t).pc ≡ ended)
    → (p.counter ≡ num_threads * num_increments) × (p.locked ≡ false)
all_ended p r all =
    let inv = Reach-Inv r in
    let (m, h) = total-ended num_threads p.counter p.threads all inv.sound in
    (inv.counted ∙ m, not_owned p.locked (sym inv.owned ∙ h))

Run-Sound : {w v : Program} → Run w v → Sound w → Sound v
Run-Sound {w} (Run.thread p step others) h = record {
  reached = Reach.next h.reached step;
  waited = λ t l m. Step-ended t step (h.waited t l m);
  shown = h.shown;
}
Run-Sound {w} (Run.create i here lt) h = record {
  reached = h.reached;
  waited = λ t l m. absurd (omega (arith, l));
  shown = tt;
}
Run-Sound {w} (Run.all_created i here past) h = record {
  reached = h.reached;
  waited = λ t l m. absurd (omega (arith, l));
  shown = tt;
}
Run-Sound {w} (Run.join i here lt done) h = record {
  reached = h.reached;
  waited = λ t l m. elim (ℕ_discrete i t) [
    | yes same ↦ subst (λ u. (w.process.threads u).pc ≡ ended) same done
    | no other ↦ h.waited t (subst (λ q. t < joined q) (sym here) (omega (arith, l, other))) m
  ];
  shown = tt;
}
Run-Sound {w} (Run.all_joined i here past) h = record {
  reached = h.reached;
  waited = λ t l m. h.waited t (subst (λ q. t < joined q) (sym here) (omega (arith, m, past))) m;
  shown = tt;
}
Run-Sound {w} (Run.destroy here) h = record {
  reached = h.reached;
  waited = λ t l m. h.waited t (subst (λ q. t < joined q) (sym here) m) m;
  shown = tt;
}
Run-Sound {w} (Run.print here) h =
    let all : (t : ℕ) → t < num_threads → (w.process.threads t).pc ≡ ended =
      λ t m. h.waited t (subst (λ q. t < joined q) (sym here) m) m in
    record {
      reached = h.reached;
      waited = λ t l m. all t m;
      shown = ap (λ n. some n) (all_ended w.process h.reached all).0;
    }

pub Runs-Sound : {w : Program} → Runs w → Sound w
unfolding begun
Runs-Sound Runs.first = record {
  reached = Reach.begin;
  waited = λ t l m. absurd (omega (arith, l));
  shown = tt;
}
Runs-Sound (Runs.more r step) = Run-Sound step (Runs-Sound r)

-- In every order of the threads' steps: where `main` has returned it has printed the number of all
-- increments, NUM_THREADS * NUM_INCREMENTS.
pub main_prints :
    {w : Program} → Runs w → w.main ≡ returned → w.printed ≡ some (num_threads * num_increments)
main_prints {w} r here = subst (λ q. Printed q w.printed) here (Runs-Sound r).shown

-- Where `main` destroys the mutex, no thread has it, and every thread has ended.
pub destroys_free :
    {w : Program} (t : ℕ)
    → Runs w
    → w.main ≡ destroying
    → t < num_threads
    → (w.process.locked ≡ false) × ((w.process.threads t).pc ≡ ended)
destroys_free {w} t r here lt =
    let h = Runs-Sound r in
    let all : (u : ℕ) → u < num_threads → (w.process.threads u).pc ≡ ended =
      λ u m. h.waited u (subst (λ q. u < joined q) (sym here) m) m in
    ((all_ended w.process h.reached all).1, all t lt)
