-- ===== src/Mailbox/Tests.antt =====
-- The programs with message queues at concrete kernels.
use hw.Unix.Joint.{System, joint, Rounds}
use hw.Mailbox.Queue.{Messages, first_of, Queue, server_script, client_script}
use hw.Mailbox.Interleaved.{every_order, every_fair_order}
use hw.Mailbox.Posix.{good_script, posix_client_script}
use hw.Mailbox.Orders.{either_way}
use hw.Mailbox.TakenBack.{own_script, takes_back}
use hw.Prelude.{
  Option, ℕ, zero, suc, ◌≡◌, ◌≤◌, ◌⊎◌, ◌++◌, refl, Bool, true, false, none, replicate, take, List,
  [], ◌∷◌, some,
}
use hw.Unix.Calls.{Call, pure}
use hw.Mailbox.{posix_server, posix_client, system_v_server, system_v_client}
use hw.Unix.Buffers.{Chars}

-- A queue as the list of its messages, or none where it was removed.
abbrev brought : ℕ → Option (Chars × Messages) → Option (Option Chars × Option Messages)
brought t none = none
brought t (some (m, ms)) = some (some m, some ms)

abbrev listed : System (Option Messages)
listed o (Call.say f t) = some (tt, o)
listed o (Call.sleep n) = some (tt, o)
listed o Call.queue_close = some (tt, o)
listed none (Call.queue_open q) = some (false, none)
listed none Call.queue_remove = some (false, none)
listed none (Call.queue_send t m) = some (false, none)
listed none (Call.queue_receive t) = some (none, none)
listed (some ms) (Call.queue_open q) = some (true, some ms)
listed (some ms) Call.queue_remove = some (true, none)
listed (some ms) (Call.queue_send t m) = some (true, some (ms ++ ((t, m) ∷ [])))
listed (some ms) (Call.queue_receive t) = brought t (first_of t ms)
listed o _ = none

abbrev itself : Option Messages → Option Messages
itself o = o

listed-Queue : Queue listed itself
listed-Queue = record {
  opens = λ s q ms e. (some ms, rw e refl, refl);
  says = λ s f t. (s, refl, refl);
  sleeps = λ s n. (s, refl, refl);
  closes = λ s. (s, refl, refl);
  removes = λ s ms e. (none, rw e refl, refl);
  sends = λ s t m ms e room. (some (ms ++ ((t, m) ∷ [])), rw e refl, refl);
  receives = λ s t m ms ns e f. (some ns, rw (e, f) refl, refl);
  waits = λ s t ms e f. rw (e, f) refl;
}

-- The client first, and the turns in pairs.
abbrev in_turn : ℕ → List Bool
in_turn zero = []
in_turn (suc n) = false ∷ true ∷ in_turn n

in_turn-Rounds : (n : ℕ) → Rounds n (in_turn n)
in_turn-Rounds zero = Rounds.any []
in_turn-Rounds (suc n) = Rounds.round n false [] (in_turn n) (in_turn-Rounds n)

every_fair_order_example :
    ((joint listed (in_turn 11) (some [], (system_v_server, []), (system_v_client, []))).1
      ≡ (pure 0, server_script))
    × ((joint listed (in_turn 11) (some [], (system_v_server, []), (system_v_client, []))).2
        ≡ (pure 0, client_script))
    × ((joint listed (in_turn 11) (some [], (system_v_server, []), (system_v_client, []))).0 ≡ none)
every_fair_order_example =
    every_fair_order listed itself listed-Queue (in_turn 11) (some []) refl (in_turn-Rounds 11)

every_order_example :
    (i : ℕ) × (j : ℕ) × ((joint listed
        (in_turn 3)
        (some [], (system_v_server, []), (system_v_client, []))).1.1
      ≡ take i server_script)
    × ((joint listed (in_turn 3) (some [], (system_v_server, []), (system_v_client, []))).2.1
        ≡ take j client_script)
    × ((j ≤ 1) ⊎ (2 ≤ i))
    × ((i ≤ 3) ⊎ (4 ≤ j))
every_order_example = every_order listed itself listed-Queue (in_turn 3) (some []) refl

takes_back_example :
    (joint listed
      (replicate 10 true ++ in_turn 4)
      (some [], (posix_server, []), (posix_client, []))).1
    ≡ (pure 0, own_script)
takes_back_example =
    takes_back listed itself listed-Queue (in_turn 4) (some []) (posix_client, []) refl

either_way_example :
    (((joint listed (in_turn 18) (some [], (posix_server, []), (posix_client, []))).1
        ≡ (pure 0, good_script))
      × ((joint listed (in_turn 18) (some [], (posix_server, []), (posix_client, []))).2
          ≡ (pure 0, posix_client_script)))
    ⊎ ((joint listed (in_turn 18) (some [], (posix_server, []), (posix_client, []))).1
        ≡ (pure 0, own_script))
either_way_example =
    either_way listed itself listed-Queue (in_turn 18) (some []) refl (in_turn-Rounds 18)
