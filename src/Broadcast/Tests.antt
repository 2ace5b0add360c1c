-- ===== src/Broadcast/Tests.antt =====
-- The clients and servers of sockets/hw3 at concrete kernels.
use hw.Prelude.{ℕ, ◌≡◌, refl, List, [], ◌∷◌, some, arith, replicate}
use hw.Stdio.{codes, c_string}
use hw.Unix.Buffers.{unset, length-unset}
use hw.Unix.Runs.{running, run, outcome}
use hw.Unix.Sample.{delivering}
use hw.Broadcast.{receive_loop, broadcast_server, send_loop}
use hw.Broadcast.Datagrams.{receive_loop_prints}

abbrev hi : List ℕ
hi = codes "hi"

receive_loop_prints_example :
    outcome (run (delivering hi) 0 (receive_loop 2 "%s" (some 3) (unset 1024)))
    ≡ (running, [], hi ∷ hi ∷ [])
unfolding c_string
receive_loop_prints_example =
    receive_loop_prints (delivering hi) "%s" (some 3) (some hi ∷ some hi ∷ []) 0 (unset 1024)
      (9, refl, omega arith, (9, refl, omega arith, tt)) (length-unset 1024)

abbrev full : List ℕ
full = replicate 1024 b'a'

-- A server sends the same text in each round.
twice : outcome (run (delivering []) 0 (broadcast_server 2)) ≡ (
  running,
  codes "Hello, Broadcast!" ∷ codes "Hello, Broadcast!" ∷ [],
  codes "Hello, Broadcast!" ∷ codes "Hello, Broadcast!" ∷ [],
)
unfolding run broadcast_server send_loop
twice = refl
