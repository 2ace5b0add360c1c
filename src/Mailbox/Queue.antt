-- ===== src/Mailbox/Queue.antt =====
-- What the two System V programs call, and the queue between them.
use Prim.Native.String.{String}
use hw.Prelude.{
  ℕ, suc, ◌≤◌, ◌<◌, ◌≡◌, ◌≢◌, ◌⊎◌, refl, inl, inr, true, false, List, [], ◌∷◌, ◌++◌, Option, none,
  some, arith, ◌==◌, length,
}
use hw.Stdio.{codes}
use hw.Unix.Calls.{Call}
use hw.Unix.Buffers.{Chars}
use hw.Unix.Runs.{Entry}
use hw.Unix.Joint.{System, Follows}
use hw.Mailbox.{system_v_server, system_v_client}
use hw.Mailbox.Texts.{
  greeting, answer, written, received, answered_with, got_answer, answer_text, greeting_text,
}

-- What each program calls, with the answers that it gets.
abbrev pub server_script : List Entry
server_script =
    (Call.queue_open "server", true)
    ∷ (Call.queue_send 1 greeting, true)
    ∷ (Call.say "Server: Sent message: %s\n" (codes "Hi!"), tt)
    ∷ (Call.queue_receive 2, some answer)
    ∷ (Call.say "Server: Received message: %s\n" (codes "Hello!"), tt)
    ∷ (Call.queue_remove, true)
    ∷ []

abbrev pub client_script : List Entry
client_script =
    (Call.queue_open "server", true)
    ∷ (Call.queue_receive 1, some greeting)
    ∷ (Call.say "Client: Received message: %s\n" (codes "Hi!"), tt)
    ∷ (Call.queue_send 2 answer, true)
    ∷ (Call.say "Client: Sent message: %s\n" (codes "Hello!"), tt)
    ∷ []

pub server-Follows : Follows server_script system_v_server
unfolding system_v_server
server-Follows = (
  _,
  refl,
  rw (written, greeting_text)
      (_, refl, (_, refl, (_, refl, rw got_answer (_, refl, (_, refl, refl))))),
)

pub client-Follows : Follows client_script system_v_client
unfolding system_v_client
client-Follows = (
  _,
  refl,
  (_, refl, rw (received, answered_with) (_, refl, (_, refl, rw answer_text (_, refl, refl)))),
)

-- The messages in the queue, oldest first, and the first one of a type with the others.
abbrev pub Messages : Type 0
Messages = List (ℕ × Chars)

abbrev pub first_of : ℕ → Messages → Option (Chars × Messages)
first_of t [] = none
first_of t ((u, m) ∷ ms) = elim (u == t) [
  | true ↦ some (m, ms)
  | false ↦ (elim (first_of t ms) [ none ↦ none | some (n, ns) ↦ some (n, (u, m) ∷ ns) ])
]

-- A system with a queue, whose state says which messages are inside; `none` is a queue that was
-- removed. There is room for a second message, and a call that receives waits while there is no
-- message of its type.
pub record Queue {S : Type 0} (system : System S) (inside : S → Option Messages) : Type 0 where
  pub opens :
      (s : S) (q : String) (ms : Messages)
      → inside s ≡ some ms
      → (s' : S) × (system s (Call.queue_open q) ≡ some (true, s')) × (inside s' ≡ some ms)
  pub says :
      (s : S) (f : String) (t : List ℕ)
      → (s' : S) × (system s (Call.say f t) ≡ some (tt, s')) × (inside s' ≡ inside s)
  pub sleeps :
      (s : S) (n : ℕ)
      → (s' : S) × (system s (Call.sleep n) ≡ some (tt, s')) × (inside s' ≡ inside s)
  pub closes :
      (s : S) → (s' : S) × (system s Call.queue_close ≡ some (tt, s')) × (inside s' ≡ inside s)
  pub removes :
      (s : S) (ms : Messages)
      → inside s ≡ some ms
      → (s' : S) × (system s Call.queue_remove ≡ some (true, s')) × (inside s' ≡ none)
  pub sends :
      (s : S) (t : ℕ) (m : Chars) (ms : Messages)
      → inside s ≡ some ms
      → length ms < 2
      → (s' : S) × (system s (Call.queue_send t m) ≡ some (true, s'))
        × (inside s' ≡ some (ms ++ ((t, m) ∷ [])))
  pub receives :
      (s : S) (t : ℕ) (m : Chars) (ms ns : Messages)
      → inside s ≡ some ms
      → first_of t ms ≡ some (m, ns)
      → (s' : S) × (system s (Call.queue_receive t) ≡ some (some m, s')) × (inside s' ≡ some ns)
  pub waits :
      (s : S) (t : ℕ) (ms : Messages)
      → inside s ≡ some ms
      → first_of t ms ≡ none
      → system s (Call.queue_receive t) ≡ none

-- What is in the queue after so many calls of the server and of the client, and the pairs of these
-- numbers that come up.
pub data At : ℕ → ℕ → Option Messages → Type 0 where
  early : {i j : ℕ} (o : Option Messages) → i ≤ 1 → j ≤ 1 → o ≡ some [] → At i j o
  asked :
      {i j : ℕ} (o : Option Messages)
      → 2 ≤ i
      → i ≤ 3
      → j ≤ 1
      → o ≡ some ((1, greeting) ∷ [])
      → At i j o
  taken : {i j : ℕ} (o : Option Messages) → 2 ≤ i → i ≤ 3 → 2 ≤ j → j ≤ 3 → o ≡ some [] → At i j o
  answering :
      {i j : ℕ} (o : Option Messages)
      → 2 ≤ i
      → i ≤ 3
      → 4 ≤ j
      → j ≤ 5
      → o ≡ some ((2, answer) ∷ [])
      → At i j o
  late : {i j : ℕ} (o : Option Messages) → 4 ≤ i → i ≤ 5 → 4 ≤ j → j ≤ 5 → o ≡ some [] → At i j o
  removed : {i j : ℕ} (o : Option Messages) → i ≡ 6 → 4 ≤ j → j ≤ 5 → o ≡ none → At i j o

pub server_local :
    {i j : ℕ} {o : Option Messages} → At i j o → i ≢ 1 → i ≢ 3 → i < 5 → At (suc i) j o
server_local (At.early o a b e) n m l = At.early o (omega (arith, a, n)) b e
server_local (At.asked o a b c e) n m l = At.asked o (omega (arith, a)) (omega (arith, b, m)) c e
server_local (At.taken o a b c d e) n m l =
    At.taken o (omega (arith, a)) (omega (arith, b, m)) c d e
server_local (At.answering o a b c d e) n m l =
    At.answering o (omega (arith, a)) (omega (arith, b, m)) c d e
server_local (At.late o a b c d e) n m l = At.late o (omega (arith, a)) (omega (arith, l)) c d e
server_local (At.removed o a b c e) n m l = absurd (omega (arith, a, l))

pub client_local :
    {i j : ℕ} {o : Option Messages} → At i j o → j ≢ 1 → j ≢ 3 → j < 5 → At i (suc j) o
client_local (At.early o a b e) n m l = At.early o a (omega (arith, b, n)) e
client_local (At.asked o a b c e) n m l = At.asked o a b (omega (arith, c, n)) e
client_local (At.taken o a b c d e) n m l =
    At.taken o a b (omega (arith, c)) (omega (arith, d, m)) e
client_local (At.answering o a b c d e) n m l =
    At.answering o a b (omega (arith, c)) (omega (arith, l)) e
client_local (At.late o a b c d e) n m l = At.late o a b (omega (arith, c)) (omega (arith, l)) e
client_local (At.removed o a b c e) n m l = At.removed o a (omega (arith, b)) (omega (arith, l)) e

-- The queue is there until the server has removed it.
pub there : {i j : ℕ} {o : Option Messages} → At i j o → i < 6 → (ms : Messages) × (o ≡ some ms)
there (At.early o a b e) l = ([], e)
there (At.asked o a b c e) l = ((1, greeting) ∷ [], e)
there (At.taken o a b c d e) l = ([], e)
there (At.answering o a b c d e) l = ((2, answer) ∷ [], e)
there (At.late o a b c d e) l = ([], e)
there (At.removed o a b c e) l = absurd (omega (arith, a, l))

pub server_sends :
    {j : ℕ} {o : Option Messages} → At 1 j o → (o ≡ some []) × At 2 j (some ((1, greeting) ∷ []))
server_sends (At.early o a b e) =
    (e, At.asked (some ((1, greeting) ∷ [])) (omega arith) (omega arith) b refl)
server_sends (At.asked o a b c e) = absurd (omega (arith, a))
server_sends (At.taken o a b c d e) = absurd (omega (arith, a))
server_sends (At.answering o a b c d e) = absurd (omega (arith, a))
server_sends (At.late o a b c d e) = absurd (omega (arith, a))
server_sends (At.removed o a b c e) = absurd (omega (arith, a))

pub client_sends :
    {i : ℕ} {o : Option Messages} → At i 3 o → (o ≡ some []) × At i 4 (some ((2, answer) ∷ []))
client_sends (At.early o a b e) = absurd (omega (arith, b))
client_sends (At.asked o a b c e) = absurd (omega (arith, c))
client_sends (At.taken o a b c d e) =
    (e, At.answering (some ((2, answer) ∷ [])) a b (omega arith) (omega arith) refl)
client_sends (At.answering o a b c d e) = absurd (omega (arith, c))
client_sends (At.late o a b c d e) = absurd (omega (arith, c))
client_sends (At.removed o a b c e) = absurd (omega (arith, b))

-- A call that receives finds the message of the other side, or waits for that side.
pub server_receives :
    {j : ℕ} {o : Option Messages}
    → At 3 j o
    → ((o ≡ some ((2, answer) ∷ [])) × At 4 j (some []))
      ⊎ ((j < 4) × (ms : Messages) × (o ≡ some ms) × (first_of 2 ms ≡ none))
server_receives (At.early o a b e) = absurd (omega (arith, a))
server_receives (At.asked o a b c e) = inr (omega (arith, c), (1, greeting) ∷ [], e, refl)
server_receives (At.taken o a b c d e) = inr (omega (arith, d), [], e, refl)
server_receives (At.answering o a b c d e) =
    inl (e, At.late (some []) (omega arith) (omega arith) c d refl)
server_receives (At.late o a b c d e) = absurd (omega (arith, a))
server_receives (At.removed o a b c e) = absurd (omega (arith, a))

pub client_receives :
    {i : ℕ} {o : Option Messages}
    → At i 1 o
    → ((o ≡ some ((1, greeting) ∷ [])) × At i 2 (some []))
      ⊎ ((i < 2) × (ms : Messages) × (o ≡ some ms) × (first_of 1 ms ≡ none))
client_receives (At.early o a b e) = inr (omega (arith, a), [], e, refl)
client_receives (At.asked o a b c e) =
    inl (e, At.taken (some []) a b (omega arith) (omega arith) refl)
client_receives (At.taken o a b c d e) = absurd (omega (arith, c))
client_receives (At.answering o a b c d e) = absurd (omega (arith, c))
client_receives (At.late o a b c d e) = absurd (omega (arith, c))
client_receives (At.removed o a b c e) = absurd (omega (arith, b))

pub server_removes : {j : ℕ} {o : Option Messages} → At 5 j o → At 6 j none
server_removes (At.early o a b e) = absurd (omega (arith, a))
server_removes (At.asked o a b c e) = absurd (omega (arith, b))
server_removes (At.taken o a b c d e) = absurd (omega (arith, b))
server_removes (At.answering o a b c d e) = absurd (omega (arith, b))
server_removes (At.late o a b c d e) = At.removed none refl c d refl
server_removes (At.removed o a b c e) = absurd (omega (arith, a))

-- The programs make no more calls than these.
pub server_bound : {i j : ℕ} {o : Option Messages} → At i j o → i ≤ 6
server_bound (At.early o a b e) = omega (arith, a, b)
server_bound (At.asked o a b c e) = omega (arith, a, b, c)
server_bound (At.taken o a b c d e) = omega (arith, a, b, c, d)
server_bound (At.answering o a b c d e) = omega (arith, a, b, c, d)
server_bound (At.late o a b c d e) = omega (arith, a, b, c, d)
server_bound (At.removed o a b c e) = omega (arith, a, b, c)

pub client_bound : {i j : ℕ} {o : Option Messages} → At i j o → j ≤ 5
client_bound (At.early o a b e) = omega (arith, a, b)
client_bound (At.asked o a b c e) = omega (arith, a, b, c)
client_bound (At.taken o a b c d e) = omega (arith, a, b, c, d)
client_bound (At.answering o a b c d e) = omega (arith, a, b, c, d)
client_bound (At.late o a b c d e) = omega (arith, a, b, c, d)
client_bound (At.removed o a b c e) = omega (arith, a, b, c)

-- What is received was sent.
pub in_order :
    {i j : ℕ} {o : Option Messages} → At i j o → ((j ≤ 1) ⊎ (2 ≤ i)) × ((i ≤ 3) ⊎ (4 ≤ j))
in_order (At.early o a b e) = (inl b, inl (omega (arith, a)))
in_order (At.asked o a b c e) = (inl c, inl b)
in_order (At.taken o a b c d e) = (inr a, inl b)
in_order (At.answering o a b c d e) = (inr a, inl b)
in_order (At.late o a b c d e) = (inr (omega (arith, a)), inr c)
in_order (At.removed o a b c e) = (inr (omega (arith, a)), inr b)

pub is_removed : {j : ℕ} {o : Option Messages} → At 6 j o → o ≡ none
is_removed (At.early o a b e) = absurd (omega (arith, a))
is_removed (At.asked o a b c e) = absurd (omega (arith, b))
is_removed (At.taken o a b c d e) = absurd (omega (arith, b))
is_removed (At.answering o a b c d e) = absurd (omega (arith, b))
is_removed (At.late o a b c d e) = absurd (omega (arith, b))
is_removed (At.removed o a b c e) = e

pub client_first_half : {i j : ℕ} {o : Option Messages} → At i j o → j < 4 → i < 6
client_first_half at l = elim ((in_order at).1) [
  | inl h ↦ omega (arith, h)
  | inr h ↦ absurd (omega (arith, h, l))
]
