-- ===== src/Mailbox/Posix.antt =====
-- What the two POSIX programs call where neither takes its own message, and the queue between them.
use hw.Prelude.{
  ℕ, suc, ◌≤◌, ◌<◌, ◌≡◌, ◌≢◌, ◌⊎◌, refl, inl, inr, true, List, [], ◌∷◌, Option, none, some, arith,
}
use hw.Stdio.{codes}
use hw.Unix.Calls.{Call}
use hw.Unix.Runs.{Entry}
use hw.Unix.Joint.{Follows}
use hw.Mailbox.{posix_server, posix_client}
use hw.Mailbox.Texts.{
  greeting, answer, written, received, answered_with, got_answer, answer_text, greeting_text,
}
use hw.Mailbox.Queue.{Messages}

abbrev pub good_script : List Entry
good_script =
    (Call.queue_open "/my_queue", true)
    ∷ (Call.queue_send 0 greeting, true)
    ∷ (Call.say "Server: Sent message: %s\n" (codes "Hi!"), tt)
    ∷ (Call.sleep 5, tt)
    ∷ (Call.queue_close, tt)
    ∷ (Call.queue_open "/my_queue", true)
    ∷ (Call.queue_receive 0, some answer)
    ∷ (Call.say "Server: Received message: %s\n" (codes "Hello!"), tt)
    ∷ (Call.queue_close, tt)
    ∷ (Call.queue_remove, true)
    ∷ []

abbrev pub posix_client_script : List Entry
posix_client_script =
    (Call.queue_open "/my_queue", true)
    ∷ (Call.queue_receive 0, some greeting)
    ∷ (Call.say "Client: Received message: %s\n" (codes "Hi!"), tt)
    ∷ (Call.queue_close, tt)
    ∷ (Call.queue_open "/my_queue", true)
    ∷ (Call.queue_send 0 answer, true)
    ∷ (Call.say "Client: Sent message: %s\n" (codes "Hello!"), tt)
    ∷ (Call.queue_close, tt)
    ∷ []

pub good-Follows : Follows good_script posix_server
unfolding posix_server
good-Follows = (
  _,
  refl,
  rw (written, greeting_text)
      (
        _,
        refl,
        (
          _,
          refl,
          (
            _,
            refl,
            (_, refl, (_, refl, (_, refl, rw got_answer (_, refl, (_, refl, (_, refl, refl)))))),
          ),
        ),
      ),
)

pub client_script-Follows : Follows posix_client_script posix_client
unfolding posix_client
client_script-Follows = (
  _,
  refl,
  (
    _,
    refl,
    rw received (
      _,
      refl,
      (_, refl, (_, refl, rw answered_with (_, refl, rw answer_text (_, refl, (_, refl, refl))))),
    ),
  ),
)

-- What is in the queue before the server receives, after so many calls of each, and behind that
-- where it received the client's answer.
pub data Before (i j : ℕ) (o : Option Messages) : Type 0 where
  early : i ≤ 1 → j ≤ 1 → o ≡ some [] → Before i j o
  asked : 2 ≤ i → i ≤ 6 → j ≤ 1 → o ≡ some ((0, greeting) ∷ []) → Before i j o
  taken : 2 ≤ i → i ≤ 6 → 2 ≤ j → j ≤ 5 → o ≡ some [] → Before i j o
  answering : 2 ≤ i → i ≤ 6 → 6 ≤ j → j ≤ 8 → o ≡ some ((0, answer) ∷ []) → Before i j o

pub data Behind (i j : ℕ) (o : Option Messages) : Type 0 where
  late : 7 ≤ i → i ≤ 9 → 6 ≤ j → j ≤ 8 → o ≡ some [] → Behind i j o
  removed : i ≡ 10 → 6 ≤ j → j ≤ 8 → o ≡ none → Behind i j o

pub server_quiet :
    {i j : ℕ} {o : Option Messages} → Before i j o → i ≢ 1 → i < 6 → Before (suc i) j o
server_quiet (Before.early a b e) n l = Before.early (omega (arith, a, n)) b e
server_quiet (Before.asked a b c e) n l = Before.asked (omega (arith, a)) (omega (arith, l)) c e
server_quiet (Before.taken a b c d e) n l = Before.taken (omega (arith, a)) (omega (arith, l)) c d e
server_quiet (Before.answering a b c d e) n l =
    Before.answering (omega (arith, a)) (omega (arith, l)) c d e

pub client_quiet :
    {i j : ℕ} {o : Option Messages} → Before i j o → j ≢ 1 → j ≢ 5 → j < 8 → Before i (suc j) o
client_quiet (Before.early a b e) n m l = Before.early a (omega (arith, b, n)) e
client_quiet (Before.asked a b c e) n m l = Before.asked a b (omega (arith, c, n)) e
client_quiet (Before.taken a b c d e) n m l =
    Before.taken a b (omega (arith, c)) (omega (arith, d, m)) e
client_quiet (Before.answering a b c d e) n m l =
    Before.answering a b (omega (arith, c)) (omega (arith, l)) e

pub server_quiet_behind :
    {i j : ℕ} {o : Option Messages} → Behind i j o → i < 9 → Behind (suc i) j o
server_quiet_behind (Behind.late a b c d e) l =
    Behind.late (omega (arith, a)) (omega (arith, l)) c d e
server_quiet_behind (Behind.removed a b c e) l = absurd (omega (arith, a, l))

pub client_quiet_behind :
    {i j : ℕ} {o : Option Messages} → Behind i j o → j < 8 → Behind i (suc j) o
client_quiet_behind (Behind.late a b c d e) l =
    Behind.late a b (omega (arith, c)) (omega (arith, l)) e
client_quiet_behind (Behind.removed a b c e) l =
    Behind.removed a (omega (arith, b)) (omega (arith, l)) e

pub before_there : {i j : ℕ} {o : Option Messages} → Before i j o → (ms : Messages) × (o ≡ some ms)
before_there (Before.early a b e) = ([], e)
before_there (Before.asked a b c e) = ((0, greeting) ∷ [], e)
before_there (Before.taken a b c d e) = ([], e)
before_there (Before.answering a b c d e) = ((0, answer) ∷ [], e)

pub behind_there :
    {i j : ℕ} {o : Option Messages} → Behind i j o → i < 10 → (o ≡ some []) × (6 ≤ j) × (j ≤ 8)
behind_there (Behind.late a b c d e) l = (e, c, d)
behind_there (Behind.removed a b c e) l = absurd (omega (arith, a, l))

-- The calls that send, and those that receive.
pub server_greets :
    {j : ℕ} {o : Option Messages}
    → Before 1 j o
    → (o ≡ some []) × Before 2 j (some ((0, greeting) ∷ []))
server_greets (Before.early a b e) = (e, Before.asked (omega arith) (omega arith) b refl)
server_greets (Before.asked a b c e) = absurd (omega (arith, a))
server_greets (Before.taken a b c d e) = absurd (omega (arith, a))
server_greets (Before.answering a b c d e) = absurd (omega (arith, a))

pub client_answers_at :
    {i : ℕ} {o : Option Messages}
    → Before i 5 o
    → (o ≡ some []) × Before i 6 (some ((0, answer) ∷ []))
client_answers_at (Before.early a b e) = absurd (omega (arith, b))
client_answers_at (Before.asked a b c e) = absurd (omega (arith, c))
client_answers_at (Before.taken a b c d e) =
    (e, Before.answering a b (omega arith) (omega arith) refl)
client_answers_at (Before.answering a b c d e) = absurd (omega (arith, c))

pub client_takes :
    {i : ℕ} {o : Option Messages}
    → Before i 1 o
    → ((o ≡ some ((0, greeting) ∷ [])) × Before i 2 (some [])) ⊎ (o ≡ some [])
client_takes (Before.early a b e) = inr e
client_takes (Before.asked a b c e) = inl (e, Before.taken a b (omega arith) (omega arith) refl)
client_takes (Before.taken a b c d e) = absurd (omega (arith, c))
client_takes (Before.answering a b c d e) = absurd (omega (arith, c))

pub server_takes :
    {j : ℕ} {o : Option Messages}
    → Before 6 j o
    → ((o ≡ some ((0, greeting) ∷ [])) × (j ≤ 1))
      ⊎ (((o ≡ some []) × (2 ≤ j) × (j ≤ 5))
          ⊎ ((o ≡ some ((0, answer) ∷ [])) × Behind 7 j (some [])))
server_takes (Before.early a b e) = absurd (omega (arith, a))
server_takes (Before.asked a b c e) = inl (e, c)
server_takes (Before.taken a b c d e) = inr (inl (e, c, d))
server_takes (Before.answering a b c d e) =
    inr (inr (e, Behind.late (omega arith) (omega arith) c d refl))

pub before_bounds : {i j : ℕ} {o : Option Messages} → Before i j o → (i ≤ 6) × (j ≤ 8)
before_bounds (Before.early a b e) = (omega (arith, a), omega (arith, b))
before_bounds (Before.asked a b c e) = (b, omega (arith, c))
before_bounds (Before.taken a b c d e) = (b, omega (arith, d))
before_bounds (Before.answering a b c d e) = (b, d)

pub behind_bounds :
    {i j : ℕ} {o : Option Messages} → Behind i j o → (7 ≤ i) × (i ≤ 10) × (6 ≤ j) × (j ≤ 8)
behind_bounds (Behind.late a b c d e) = (a, omega (arith, b), c, d)
behind_bounds (Behind.removed a b c e) = (omega (arith, a), omega (arith, a), b, c)
