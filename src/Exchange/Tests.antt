-- ===== src/Exchange/Tests.antt =====
-- The exchange at a concrete kernel.
use hw.Unix.Calls.{Call, Answer}
use hw.Unix.Buffers.{IsText}
use hw.Prelude.{zero, suc, ap, ℕ, ◌≡◌, refl, List, [], ◌∷◌, ◌++◌, none, arith, replicate}
use hw.Stdio.{codes}
use hw.Unix.Runs.{Kernel, End, returned, exited, run, outcome}
use hw.Unix.Sample.{delivering}
use hw.Exchange.{hello, remark, inet_tcp_server}
use hw.Exchange.Replies.{
  Transport, server, client, Delivers, server_replies, exchange, client_sends,
}

delivering-Delivers : (bytes : List ℕ) → Delivers (delivering bytes) 3 4 9 bytes
delivering-Delivers bytes = record {
  sockets = λ n f t. refl;
  resolves = λ n. refl;
  binds = λ n a. refl;
  listens = λ n. refl;
  accepts = λ n. refl;
  connects = λ n a. refl;
  reads = λ n d. refl;
  receives = λ n. refl;
}

-- Where no socket is to be had, the server says so and exits.
abbrev no_sockets : Kernel
no_sockets n c = elim c as (λ d. Answer d) [
  | Call.socket f k ↦ none
  | other ↦ delivering [] n other
]

refused : outcome (run no_sockets 0 inet_tcp_server) ≡ (exited 1, [], [])
unfolding run inet_tcp_server
refused = refl

abbrev ping : List ℕ
ping = codes "ping" ++ (0 ∷ [])

letters-IsText : (n : ℕ) → IsText (replicate n b'a')
letters-IsText zero = tt
letters-IsText (suc n) = (omega arith, letters-IsText n)

-- A message of 1010 letters.
abbrev long : List ℕ
long = replicate 1010 b'a'

abbrev request : List ℕ
request = hello ++ (0 ∷ [])

abbrev reply : List ℕ
reply = (hello ++ remark) ++ (0 ∷ [])

exchange_example :
    (outcome (run (delivering request) 0 (server Transport.inet_udp))
      ≡ (returned 0, reply ∷ [], hello ∷ []))
    × (outcome (run (delivering reply) 0 (client Transport.inet_udp))
        ≡ (returned 0, request ∷ [], (hello ++ remark) ∷ []))
exchange_example =
    exchange Transport.inet_udp (delivering request) (delivering reply)
      (delivering-Delivers request) (delivering-Delivers reply)
      (client_sends (delivering reply) (delivering-Delivers reply) Transport.inet_udp)
      (ap (λ (r : End ℕ × List (List ℕ) × List (List ℕ)). r.1)
        (server_replies (delivering request) (delivering-Delivers request) Transport.inet_udp hello
          (record { rest = []; split = refl; clean = omega arith }) (omega arith)))
