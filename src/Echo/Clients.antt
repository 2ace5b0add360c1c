-- ===== src/Echo/Clients.antt =====
-- What the TCP clients of sockets/hw2 send and print.
use hw.Prelude.{ℕ, ◌<◌, ◌≡◌, true, List, [], ◌∷◌, some, length, take}
use hw.Unix.Calls.{Family, Kind, Address, Call}
use hw.Unix.Buffers.{IsText, c_text-fill-zeroed}
use hw.Unix.Runs.{Kernel, returned, run, outcome}
use hw.Unix.{read_into}
use hw.Echo.{port, tcp_client}

-- A kernel under which no call of a client fails, and its read brings `bytes`.
pub record Serves (k : Kernel) (fd : ℕ) (bytes : List ℕ) : Type 0 where
  pub sockets : k 0 (Call.socket Family.inet Kind.stream) ≡ some fd
  pub resolves : k 1 (Call.inet_pton "127.0.0.1") ≡ true
  pub connects : k 2 (Call.connect (some fd) (Address.ip_port "127.0.0.1" port)) ≡ true
  pub reads : k 5 (Call.read (some fd) 1024) ≡ some bytes

-- A client sends its message without a NUL, prints it, prints the text that its read brings, where
-- that is shorter than its array, and returns 0.
pub tcp_client_prints :
    (k : Kernel) {fd : ℕ} {bytes : List ℕ}
    → Serves k fd bytes
    → IsText (take 1024 bytes)
    → length (take 1024 bytes) < 1024
    → (message : List ℕ)
    → outcome (run k 0 (tcp_client message))
      ≡ (returned 0, message ∷ [], message ∷ take 1024 bytes ∷ [])
unfolding run tcp_client read_into
tcp_client_prints k s clean short message = rw (
  run,
  s.sockets,
  s.resolves,
  s.connects,
  s.reads,
  c_text-fill-zeroed (take 1024 _) 1024 clean short,
)
