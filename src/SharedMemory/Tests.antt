-- ===== src/SharedMemory/Tests.antt =====
-- A server of shm at a concrete kernel.
use hw.Prelude.{◌≡◌, refl, [], ◌∷◌, ◌++◌, if◌then◌else◌, arith, ltb}
use hw.Stdio.{codes, same_string}
use hw.Unix.Buffers.{c_text, unset, fill}
use hw.Unix.Runs.{Kernel, returned, run, outcome}
use hw.Unix.Sample.{delivering}
use hw.SharedMemory.{posix_server, system_v_server}
use hw.SharedMemory.Polling.{servers_print}

-- The memory changes at the fifth call, while the client is still writing.
abbrev changing : Kernel
changing n = delivering (if ltb n 4 then codes "Hi!" ++ 0 ∷ [] else codes "He!" ++ 0 ∷ []) n

servers_print_example :
    (outcome (run changing 0 (posix_server 9)) ≡ (returned 0, [], [] ∷ codes "He!" ∷ []))
    × (outcome (run changing 0 (system_v_server 9)) ≡ (returned 0, [], [] ∷ codes "He!" ∷ []))
unfolding same_string c_text unset fill
servers_print_example =
    servers_print changing 1 9 (codes "He!") refl refl
      (codes "Hi!", refl, refl, (codes "He!", refl, refl, refl)) (omega arith)
