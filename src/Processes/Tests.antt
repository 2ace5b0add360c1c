-- ===== src/Processes/Tests.antt =====
-- The programs of processes and pipes at concrete kernels.
use hw.Prelude.{ℕ, ◌≡◌, refl, List, [], ◌∷◌}
use hw.Unix.Calls.{Forked, Call, Answer}
use hw.Unix.Runs.{Kernel, returned, run, outcome}
use hw.Unix.Sample.{delivering}
use hw.Processes.{one_child, one_child_after, five_children}
use hw.Processes.Children.{Awaited, five_children-Awaited}

-- Every `fork` answers as in the child.
abbrev as_child : List ℕ → Kernel
as_child bytes n c = elim c as (λ d. Answer d) [
  | Call.fork ↦ Forked.child
  | other ↦ delivering bytes n other
]

alone : outcome (run (delivering []) 0 one_child) ≡ (returned 0, [], (7 ∷ []) ∷ (0 ∷ []) ∷ [])
unfolding run one_child one_child_after
alone = refl

five_children-Awaited_example : Awaited [] (run (delivering []) 0 five_children)
five_children-Awaited_example = five_children-Awaited (delivering [])
