-- ===== src/Shop/Progress.antt =====
-- The shop is never stuck before `main` returns.
use hw.Prelude.{ℕ, ◌+◌, ◌<◌, ◌≡◌}
use hw.Stdio.{int_max}
use hw.Shop.{loader_increment, adding, Shop, Program, Run}

-- The loader is about to add goods to a store whose sum would not fit `int`.
abbrev pub Overflows : Shop → Type 0
Overflows s = (i : ℕ) × (s.loader ≡ adding i) × (int_max < s.stores i + loader_increment)

abbrev Continues : Program → Type 0
Continues w = (v : Program) × Run w v
