-- ===== src/Indices/Tests.antt =====
-- Threads that print their indices, at a run.
use hw.Prelude.{ℕ, zero, suc, ◌+◌, ◌*◌, ◌≤◌, ◌≡◌, ◌⊎◌, refl, [], ◌∷◌, some, arith, ℕ_discrete}
use hw.Prelude.Family.{update}
use hw.Indices.{
  num_indices, created, holding, printed, storing, joining, returned, Printing, Step, start, Reach,
}
use hw.Indices.Once.{count, each_once}
use hw.Indices.Ends.{Steps, print_ends}

-- After `n` threads have been created and have printed, one after the other.
abbrev turn : Printing → ℕ → Printing
turn s n = record {
  t_id = update s.t_id n (some n);
  threads = update (update (update s.threads n created) n (holding n)) n printed;
  main = storing (suc n);
  lines = n ∷ s.lines;
}

abbrev turns : ℕ → Printing
turns zero = start
turns (suc n) = turn (turns n) n

turn-Reach :
    {s : Printing} (n : ℕ) → Reach s → s.main ≡ storing n → suc n ≤ num_indices → Reach (turn s n)
turn-Reach {s} n r here lt =
    let own : update s.t_id n (some n) n ≡ some n = ground arith in
    let born : update s.threads n created n ≡ created = ground arith in
    let read : update (update s.threads n created) n (holding n) n ≡ holding n = ground arith in
    Reach.next
      (Reach.next (Reach.next (Reach.next r (Step.store n here lt)) (Step.create n refl))
        (Step.read n n born own))
      (Step.print n n read)

all_created : Reach (record (turns 5) { main = joining 0 })
all_created =
    Reach.next
      (turn-Reach 4
        (turn-Reach 3
          (turn-Reach 2
            (turn-Reach 1 (turn-Reach 0 Reach.begin refl (omega arith)) refl (omega arith)) refl
            (omega arith))
          refl (omega arith))
        refl (omega arith))
      (Step.all_created 5 refl (omega arith))

all_joined : Reach (record (turns 5) { main = returned })
unfolding ℕ_discrete
all_joined =
    Reach.next
      (Reach.next
        (Reach.next
          (Reach.next
            (Reach.next (Reach.next all_created (Step.join 0 refl (omega arith) refl))
              (Step.join 1 refl (omega arith) refl))
            (Step.join 2 refl (omega arith) refl))
          (Step.join 3 refl (omega arith) refl))
        (Step.join 4 refl (omega arith) refl))
      (Step.return 5 refl (omega arith))

-- The first thread is created, before the others, and has its index in hand.
abbrev first_reads : Printing
first_reads = record start {
  t_id = update start.t_id 0 (some 0);
  threads = update (update start.threads 0 created) 0 (holding 0);
  main = storing 1;
}

first_reads-Steps : Steps 3 first_reads
unfolding ℕ_discrete
first_reads-Steps =
    Steps.onward
      (Steps.onward (Steps.onward Steps.still (Step.store 0 refl (omega arith)))
        (Step.create 0 refl))
      (Step.read 0 0 refl refl)

print_ends_example :
    (3 ≤ 5 * num_indices + 2)
    × (((t : Printing) × Step first_reads t)
        ⊎ ((first_reads.main ≡ returned) × (count 3 first_reads.lines ≡ 1)))
print_ends_example = print_ends 3 first_reads-Steps

each_printed : count 3 (4 ∷ 3 ∷ 2 ∷ 1 ∷ 0 ∷ []) ≡ 1
each_printed = each_once 3 all_joined refl
