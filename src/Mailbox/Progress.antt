-- ===== src/Mailbox/Progress.antt =====
-- How far the POSIX pair is.
use hw.Prelude.{
  ℕ, ◌+◌, ◌≤◌, ◌<◌, ◌≡◌, ap, sym, ◌∙◌, inl, true, List, [], ◌∷◌, ◌++◌, Option, some, arith, length,
  take, drop, length-take,
}
use hw.Unix.Calls.{Call, Answer}
use hw.Unix.Runs.{Entry}
use hw.Unix.Joint.{System, Task, turn, Along, moves}
use hw.Unix.Fair.{Grown}
use hw.Mailbox.Queue.{Messages, Queue}
use hw.Mailbox.TakenBack.{own_script}
use hw.Mailbox.Posix.{good_script, posix_client_script, Before, Behind}

module _ {S : Type 0} (system : System S) (inside : S → Option Messages)
    (queue : Queue system inside) where
  abbrev pub World : Type 0
  World = S × Task × Task

  -- How far the programs are: the server before its second opening's receive, behind it with the
  -- client's answer, behind it with its own message, or at its end with that.
  pub data State (n : ℕ) (w : World) : Type 0 where
    before :
        (i j : ℕ)
        → n ≡ i + j
        → Before i j (inside w.0)
        → Along (take i good_script) (drop i good_script) w.1
        → Along (take i own_script) (drop i own_script) w.1
        → Along (take j posix_client_script) (drop j posix_client_script) w.2
        → State n w
    behind :
        (i j : ℕ)
        → n ≡ i + j
        → Behind i j (inside w.0)
        → Along (take i good_script) (drop i good_script) w.1
        → Along (take j posix_client_script) (drop j posix_client_script) w.2
        → State n w
    own :
        (i j : ℕ)
        → n ≡ 7 + i + j
        → 7 ≤ i
        → i ≤ 9
        → j ≤ 1
        → inside w.0 ≡ some []
        → Along (take i own_script) (drop i own_script) w.1
        → Along (take j posix_client_script) (drop j posix_client_script) w.2
        → State n w
    over : n ≡ 18 → Along own_script [] w.1 → State n w

  -- A call that leaves the messages.
  pub kept_open :
      (s : S)
      → ((ms : Messages) × (inside s ≡ some ms))
      → (s' : S) × (system s (Call.queue_open "/my_queue") ≡ some (true, s'))
        × (inside s' ≡ inside s)
  kept_open s (ms, e) = let (s', f, same) = queue.opens s "/my_queue" ms e in (s', f, same ∙ sym e)

  pub as_before :
      {s : S} {B : S → Type 0}
      → ((s' : S) × B s' × (inside s' ≡ inside s))
      → inside s ≡ some []
      → (s' : S) × B s' × (inside s' ≡ some [])
  as_before (s', f, same) e = (s', f, same ∙ e)

  pub makes :
      (s : S) (c : Call) (a : Answer c) (done left : List Entry) (p : Task) (o : Option Messages)
      → Along done ((c, a) ∷ left) p
      → ((s' : S) × (system s c ≡ some (a, s')) × (inside s' ≡ o))
      → (inside (turn system s p).0 ≡ o) × Along (done ++ ((c, a) ∷ [])) left (turn system s p).1
  makes s c a done left p o along (s', e, same) =
      let (f, on) = moves system s s' c a done left p along e in (rw f same, on)

  pub further : {n m : ℕ} {w : World} → State m w → n < m → Grown State 18 n w
  further {m = m} h lt = (m, h, inl lt)

  abbrev pub serve : World → World
  serve (s, p, q) = ((turn system s p).0, (turn system s p).1, q)

  abbrev pub ask : World → World
  ask (s, p, q) = ((turn system s q).0, p, (turn system s q).1)

  pub called :
      (j : ℕ) (q : Task)
      → j ≤ 8
      → Along (take j posix_client_script) (drop j posix_client_script) q
      → length q.1 ≡ j
  called j q h along = omega (arith, h, ap length along.0, length-take j posix_client_script)
