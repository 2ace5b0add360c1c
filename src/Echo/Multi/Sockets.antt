-- ===== src/Echo/Multi/Sockets.antt =====
-- What becomes of the sockets that the server of two protocols accepts.
use hw.Prelude.{
  ℕ, zero, suc, ◌≡◌, refl, ap, inl, inr, Option-cases, Bool, true, false, List, [], ◌∷◌, ◌++◌, some,
  Bool-cases, arith, take, length,
}
use hw.Unix.Calls.{Fd, Call, Io, ◌>>=◌}
use hw.Unix.Buffers.{unset, fill, c_text, bytes_of-fill}
use hw.Unix.Runs.{Kernel, End, returned, exited, undefined, running, Entry, run}
use hw.Unix.{read_into, recv_into}
use hw.Echo.{some_came}
use hw.Echo.Multi.{handle_tcp_client, handle_udp_client, serve_tcp, serve_udp, serve_both}

-- The sockets accepted, and those answered or closed, oldest first.
abbrev pub accepted : List Entry → List ℕ
accepted [] = []
accepted ((Call.accept fd, some (s, from)) ∷ calls) = s ∷ accepted calls
accepted ((_, a) ∷ calls) = accepted calls

abbrev pub settled : List Entry → List ℕ
settled [] = []
settled ((Call.write (some s) bytes, a) ∷ calls) = s ∷ settled calls
settled ((Call.close (some s), a) ∷ calls) = s ∷ settled calls
settled ((_, a) ∷ calls) = settled calls

-- The run ended in something undefined.
abbrev pub is_undefined : {A : Type 0} → End A → Bool
is_undefined (returned a) = false
is_undefined (exited n) = false
is_undefined undefined = true
is_undefined running = false

-- Every accepted socket was answered once or closed once, in order, but perhaps the last of an
-- undefined run.
abbrev pub Settled : {A : Type 0} → End A × List Entry → Type 0
Settled (end, calls) =
    (left : List ℕ) × (accepted calls ≡ settled calls ++ left)
    × ((is_undefined end ≡ false) → left ≡ [])

settle :
    (s : ℕ) (r : End ℕ × List Entry)
    → Settled r
    → (left : List ℕ) × (s ∷ accepted r.1 ≡ s ∷ settled r.1 ++ left)
      × ((is_undefined r.0 ≡ false) → left ≡ [])
settle s r (left, e, h) = (left, ap (λ l. s ∷ l) e, h)

-- It holds of `m >>= f` from any call on, when it holds of `f` from any call on.
abbrev Keeps : {A : Type 0} → Io A → Type 0
Keeps {A} m =
    (f : A → Io ℕ) (k : Kernel)
    → ((a : A) (n : ℕ) → Settled (run k n (f a)))
    → (n : ℕ) → Settled (run k n (m >>= f))

udp-Keeps : (fd : Fd) → Keeps (handle_udp_client fd)
unfolding handle_udp_client recv_into run
udp-Keeps fd f k h n = elim (Option-cases (k n (Call.recvfrom fd 1024))) [
  | inl e ↦ rw (run, e) (h tt (suc (suc n)))
  | inr ((bytes, from), e) ↦ elim (Bool-cases (some_came (some (length (take 1024 bytes))))) [
    | inr z ↦ rw (run, e) (rw z (h tt (suc (suc n))))
    | inl z ↦ elim (Option-cases (c_text (fill (unset 1024) (take 1024 bytes)))) [
      | inl lost ↦ rw (run, e) (rw z (rw lost ([], refl, λ d. refl)))
      | inr (t, held) ↦
          rw (run, e)
            (rw z (
              rw held
                (rw (bytes_of-fill (unset 1024) (take 1024 bytes)) (h tt (suc (suc (suc n)))))))
    ]
  ]
]

read-Keeps :
    (s : ℕ) (f : Unit {0} → Io ℕ) (k : Kernel)
    → ((n : ℕ) → Settled (run k n (f tt)))
    → (n : ℕ)
    → (left : List ℕ) × (s ∷ accepted (run k n (handle_tcp_client (some s) >>= f)).1
        ≡ settled (run k n (handle_tcp_client (some s) >>= f)).1 ++ left)
      × ((is_undefined (run k n (handle_tcp_client (some s) >>= f)).0 ≡ false) → left ≡ [])
unfolding handle_tcp_client read_into run
read-Keeps s f k h n =
    let after = settle s (run k (suc (suc (suc n))) (f tt)) (h (suc (suc (suc n)))) in
    elim (Option-cases (k n (Call.read (some s) 1024))) [
      | inl e ↦ rw (run, e) after
      | inr (bytes, e) ↦ elim (Bool-cases (some_came (some (length (take 1024 bytes))))) [
        | inr z ↦ rw (run, e) (rw z after)
        | inl z ↦ elim (Option-cases (c_text (fill (unset 1024) (take 1024 bytes)))) [
          | inl lost ↦ rw (run, e) (rw z (rw lost (s ∷ [], refl, λ d. ground (arith, d))))
          | inr (t, held) ↦
              rw (run, e) (rw z (rw held (rw (bytes_of-fill (unset 1024) (take 1024 bytes)) after)))
        ]
      ]
    ]

tcp-Keeps : (b : Bool) (fd : Fd) → Keeps (serve_tcp b fd)
unfolding serve_tcp run
tcp-Keeps false fd f k h n = h tt n
tcp-Keeps true fd f k h n = elim (Option-cases (k n (Call.accept fd))) [
  | inl e ↦ rw (run, e) ([], refl, λ d. refl)
  | inr ((s, from), e) ↦ rw (run, e) (read-Keeps s f k (h tt) (suc (suc n)))
]

ready-Keeps : (b : Bool) (fd : Fd) → Keeps (serve_udp b fd)
unfolding serve_udp run
ready-Keeps false fd f k h n = h tt n
ready-Keeps true fd f k h n = udp-Keeps fd f k h n

loop-Settled :
    (rounds : ℕ) (a b : Fd) (k : Kernel) (n : ℕ) → Settled (run k n (serve_both rounds a b))
unfolding serve_both run
loop-Settled zero a b k n = ([], refl, λ d. refl)
loop-Settled (suc rounds) a b k n = elim (Option-cases (k n (Call.select a b))) [
  | inl e ↦ rw (run, e) (loop-Settled rounds a b k (suc (suc n)))
  | inr ((r, q), e) ↦
      rw (run, e)
        (tcp-Keeps r a _ k (λ u. ready-Keeps q b _ k (λ v. loop-Settled rounds a b k)) (suc n))
]

-- Of the sockets that the server accepts, in any number of rounds and whatever the kernel answers,
-- each is answered once or closed once, in the order in which they were accepted, and nothing
-- else is: none is both answered and closed. Only a run with something undefined in it may leave
-- some that are neither.
pub serve_both-Settled :
    (k : Kernel) (rounds : ℕ) (tcp_socket udp_socket : Fd)
    → Settled (run k 0 (serve_both rounds tcp_socket udp_socket))
serve_both-Settled k rounds tcp_socket udp_socket = loop-Settled rounds tcp_socket udp_socket k 0
