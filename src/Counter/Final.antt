-- ===== src/Counter/Final.antt =====
-- No increment is lost: the counter is the number of increments that the threads have made.
use mathlib.Core.Path.{subst}
use mathlib.Core.Logic.{ite}
use hw.Prelude.{
  ℕ, suc, ◌+◌, ◌≤◌, ◌<◌, ◌≡◌, ◌≢◌, refl, ap, Bool, true, false, arith, ℕ_discrete, dec_lt,
}
use hw.Prelude.Family.{update, total, total-update, total_const, total_single, total_pair}
use hw.Counter.{
  num_threads, num_increments, ThreadPc, looping, holding, loaded, stored, ended, Thread, Process,
  Step, start, Reach,
}

abbrev pub holds_pc : ThreadPc → ℕ
holds_pc looping = 0
holds_pc holding = 1
holds_pc (loaded v) = 1
holds_pc stored = 1
holds_pc ended = 0

-- Whether a thread has the mutex.
abbrev pub holds : Thread → ℕ
holds t = holds_pc t.pc

abbrev pub late : ThreadPc → ℕ
late stored = 1
late _ = 0

-- The increments that a thread has made.
abbrev pub made : Thread → ℕ
made t = t.i + late t.pc

abbrev pub owners : Bool → ℕ
owners true = 1
owners false = 0

-- A value in hand is the counter's; a thread inside its loop has rounds to go, one behind it none.
abbrev pub IsSound : ℕ → ℕ → ThreadPc → Type 0
IsSound counter i looping = i ≤ num_increments
IsSound counter i holding = i < num_increments
IsSound counter i (loaded v) = (i < num_increments) × (v ≡ counter)
IsSound counter i stored = i < num_increments
IsSound counter i ended = i ≡ num_increments

pub record Inv (s : Process) : Type 0 where
  pub owned : total holds num_threads s.threads ≡ owners s.locked
  pub counted : s.counter ≡ total made num_threads s.threads
  pub sound : (t : ℕ) → t < num_threads → IsSound s.counter (s.threads t).i (s.threads t).pc

owners_small : (b : Bool) → owners b ≤ 1
owners_small true = omega arith
owners_small false = omega arith

-- A thread without the mutex has no value in hand.
IsSound-elsewhere : (c d i : ℕ) (pc : ThreadPc) → holds_pc pc ≡ 0 → IsSound c i pc → IsSound d i pc
IsSound-elsewhere c d i looping h s = s
IsSound-elsewhere c d i holding h s = s
IsSound-elsewhere c d i (loaded v) h s = absurd (omega arith)
IsSound-elsewhere c d i stored h s = s
IsSound-elsewhere c d i ended h s = s

module _ (s : Process) (inv : Inv s) where
  -- With one thread inside, no other has the mutex.
  alone :
      (t u : ℕ)
      → t < num_threads
      → u < num_threads
      → t ≢ u
      → holds (s.threads t) ≡ 1
      → holds (s.threads u) ≡ 0
  alone t u lt lu other here = elim (dec_lt t u) [
    | yes below ↦ omega (
      arith,
      inv.owned,
      owners_small s.locked,
      total_pair holds num_threads s.threads t u below lu,
    )
    | no above ↦ omega (
      arith,
      inv.owned,
      owners_small s.locked,
      total_pair holds num_threads s.threads u t (omega arith) lt,
    )
  ]

  -- Thread `t` becomes `a`, with the counter `c`: the invariant, from its parts.
  replaced :
      (t c : ℕ) (b : Bool) (a : Thread)
      → t < num_threads
      → holds a + owners s.locked ≡ holds (s.threads t) + owners b
      → c + made (s.threads t) ≡ s.counter + made a
      → IsSound c a.i a.pc
      → ((u : ℕ) → u < num_threads → t ≢ u → IsSound c (s.threads u).i (s.threads u).pc)
      → Inv (record { counter = c; locked = b; threads = update s.threads t a })
  replaced t c b a lt owns makes here rest = record {
    owned = omega (arith, inv.owned, total-update holds num_threads s.threads t a lt, owns);
    counted = omega (arith, inv.counted, total-update made num_threads s.threads t a lt, makes);
    sound = λ u lu.
        elim (ℕ_discrete t u)
          as (λ d. IsSound c (ite d a (s.threads u)).i (ite d a (s.threads u)).pc) [
            | yes same ↦ here
            | no other ↦ rest u lu other
          ];
  }

Step-Inv : {s t : Process} → Step s t → Inv s → Inv t
Step-Inv {s} (Step.lock t lt here more free) inv =
    replaced s inv t s.counter true (record { i = (s.threads t).i; pc = holding }) lt
      (omega (arith, ap owners free, ap holds_pc here)) (omega (arith, ap late here)) more
      (λ u lu other. inv.sound u lu)
Step-Inv {s} (Step.end t lt here over) inv =
    let i_most : (s.threads t).i ≤ num_increments =
      subst (IsSound s.counter (s.threads t).i) here (inv.sound t lt) in
    replaced s inv t s.counter s.locked (record { i = (s.threads t).i; pc = ended }) lt
      (omega (arith, ap holds_pc here)) (omega (arith, ap late here)) (omega arith)
      (λ u lu other. inv.sound u lu)
Step-Inv {s} (Step.load t lt here) inv =
    let more : (s.threads t).i < num_increments =
      subst (IsSound s.counter (s.threads t).i) here (inv.sound t lt) in
    replaced s inv t s.counter s.locked (record { i = (s.threads t).i; pc = loaded s.counter }) lt
      (omega (arith, ap holds_pc here)) (omega (arith, ap late here)) (more, refl)
      (λ u lu other. inv.sound u lu)
Step-Inv {s} (Step.store t v lt here) inv =
    let (more, same) = subst (IsSound s.counter (s.threads t).i) here (inv.sound t lt) in
    replaced s inv t (suc v) s.locked (record { i = (s.threads t).i; pc = stored }) lt
      (omega (arith, ap holds_pc here)) (omega (arith, same, ap late here)) more
      (λ u lu other.
        IsSound-elsewhere s.counter (suc v) (s.threads u).i (s.threads u).pc
          (alone s inv t u lt lu other (ap holds_pc here)) (inv.sound u lu))
Step-Inv {s} (Step.unlock t lt here) inv =
    let more : (s.threads t).i < num_increments =
      subst (IsSound s.counter (s.threads t).i) here (inv.sound t lt) in
    replaced s inv t s.counter false (record { i = suc (s.threads t).i; pc = looping }) lt
      (omega (
        arith,
        inv.owned,
        owners_small s.locked,
        ap holds_pc here,
        total_single holds num_threads s.threads t lt,
      ))
      (omega (arith, ap late here)) more (λ u lu other. inv.sound u lu)

pub Reach-Inv : {s : Process} → Reach s → Inv s
unfolding start
Reach-Inv Reach.begin = record {
  owned = total_const holds num_threads (record { i = 0; pc = looping }) refl;
  counted = omega (arith, total_const made num_threads (record { i = 0; pc = looping }) refl);
  sound = λ t lt. omega arith;
}
Reach-Inv (Reach.next r step) = Step-Inv step (Reach-Inv r)

-- In every reachable state the counter is the number of increments that the threads have made.
pub no_lost_increment : {s : Process} → Reach s → s.counter ≡ total made num_threads s.threads
no_lost_increment r = (Reach-Inv r).counted
