-- ===== src/Signals/Tests.antt =====
-- The programs with signals at a kernel.
use hw.Prelude.{◌≡◌, refl, true, false, [], ◌∷◌, length}
use hw.Unix.Runs.{run, said}
use hw.Unix.Sample.{delivering}
use hw.Signals.{handling, blocking}

three_rounds : length (said (run (delivering []) 0 (handling (true ∷ false ∷ true ∷ []))).1) ≡ 2
unfolding run handling
three_rounds = refl

blocked_once : length (said (run (delivering []) 0 (blocking 7)).1) ≡ 1
unfolding run blocking
blocked_once = refl
