-- ===== src/Mailbox/TakenBack.antt =====
-- The POSIX server where the client comes later than its five seconds.
use hw.Prelude.{
  Option, none, ℕ, zero, suc, ◌≡◌, refl, ◌∙◌, Bool, true, false, List, [], ◌∷◌, ◌++◌, some, arith,
  take, drop, replicate, ap,
}
use hw.Stdio.{codes}
use hw.Unix.Calls.{Call, Answer, pure}
use hw.Unix.Buffers.{unset, fill, c_text}
use hw.Unix.Runs.{Entry}
use hw.Unix.Joint.{System, Task, turn, joint, Follows, Along, moves, rests}
use hw.Mailbox.{into, posix_server}
use hw.Mailbox.Texts.{greeting, written, greeting_text}
use hw.Mailbox.Queue.{Messages, Queue}

-- What the server calls where it receives its own message.
abbrev pub own_script : List Entry
own_script =
    (Call.queue_open "/my_queue", true)
    ∷ (Call.queue_send 0 greeting, true)
    ∷ (Call.say "Server: Sent message: %s\n" (codes "Hi!"), tt)
    ∷ (Call.sleep 5, tt)
    ∷ (Call.queue_close, tt)
    ∷ (Call.queue_open "/my_queue", true)
    ∷ (Call.queue_receive 0, some greeting)
    ∷ (Call.say "Server: Received message: %s\n" (codes "Hi!"), tt)
    ∷ (Call.queue_close, tt)
    ∷ (Call.queue_remove, true)
    ∷ []

abbrev kept : Messages
kept = (0, greeting) ∷ []

own_text : c_text (into greeting greeting) ≡ some (codes "Hi!")
unfolding c_text fill unset
own_text = refl

pub own-Follows : Follows own_script posix_server
unfolding posix_server
own-Follows = (
  _,
  refl,
  rw (written, greeting_text)
      (
        _,
        refl,
        (
          _,
          refl,
          (
            _,
            refl,
            (_, refl, (_, refl, (_, refl, rw own_text (_, refl, (_, refl, (_, refl, refl)))))),
          ),
        ),
      ),
)

at_end : (p : Task) → Along own_script [] p → p ≡ (pure 0, own_script)
at_end (m, calls) (same, e) = rw (same, e)

module _ {S : Type 0} (system : System S) (inside : S → Option Messages)
    (queue : Queue system inside) where
  -- The first program makes this call in the next turn, if that is its own.
  makes :
      (s : S) (c : Call) (a : Answer c) (done left : List Entry) (p : Task) (o : Option Messages)
      → Along done ((c, a) ∷ left) p
      → ((s' : S) × (system s c ≡ some (a, s')) × (inside s' ≡ o))
      → (inside (turn system s p).0 ≡ o) × Along (done ++ ((c, a) ∷ [])) left (turn system s p).1
  makes s c a done left p o along (s', e, same) =
      let (f, on) = moves system s s' c a done left p along e in (rw f same, on)

  keeps :
      (s : S) (c : Call) (a : Answer c) (done left : List Entry) (p : Task) (o : Option Messages)
      → Along done ((c, a) ∷ left) p
      → ((s' : S) × (system s c ≡ some (a, s')) × (inside s' ≡ inside s))
      → inside s ≡ o
      → (inside (turn system s p).0 ≡ o) × Along (done ++ ((c, a) ∷ [])) left (turn system s p).1
  keeps s c a done left p o along (s', e, same) h =
      makes s c a done left p o along (s', e, same ∙ h)

  unfoldable alone : ℕ → S × Task → S × Task
  alone zero w = w
  alone (suc n) (s, p) = alone n (turn system s p)

  joint-alone :
      (n : ℕ) (order : List Bool) (s : S) (p q : Task)
      → joint system (replicate n true ++ order) (s, p, q)
        ≡ joint system order ((alone n (s, p)).0, (alone n (s, p)).1, q)
  unfolding joint alone
  joint-alone zero order s p q = refl
  joint-alone (suc n) order s p q = joint-alone n order (turn system s p).0 (turn system s p).1 q

  ended_stays :
      (order : List Bool) (s : S) (done : List Entry) (p q : Task)
      → Along done [] p
      → (joint system order (s, p, q)).1 ≡ p
  unfolding joint
  ended_stays [] s done p q h = refl
  ended_stays (true ∷ order) s done p q h =
      rw (joint, rests system s done p h) (ended_stays order s done p q h)
  ended_stays (false ∷ order) s done p q h =
      ended_stays order (turn system s q).0 done p (turn system s q).1 h

  taken :
      (s : S) (p : Task)
      → inside s ≡ some []
      → Along [] own_script p
      → Along own_script [] (alone 10 (s, p)).1
  unfolding alone
  taken s p empty h =
      let (e1, h1) =
        makes s (Call.queue_open "/my_queue") true (take 0 own_script) (drop 1 own_script) p
          (some []) h (queue.opens s "/my_queue" [] empty) in
      let s1 = (turn system s p).0 in
      let p1 = (turn system s p).1 in
      let (e2, h2) =
        makes s1 (Call.queue_send 0 greeting) true (take 1 own_script) (drop 2 own_script) p1
          (some kept) h1 (queue.sends s1 0 greeting [] e1 (omega arith)) in
      let s2 = (turn system s1 p1).0 in
      let p2 = (turn system s1 p1).1 in
      let (e3, h3) =
        keeps s2 (Call.say "Server: Sent message: %s\n" (codes "Hi!")) tt (take 2 own_script)
          (drop 3 own_script) p2 (some kept) h2
          (queue.says s2 "Server: Sent message: %s\n" (codes "Hi!")) e2 in
      let s3 = (turn system s2 p2).0 in
      let p3 = (turn system s2 p2).1 in
      let (e4, h4) =
        keeps s3 (Call.sleep 5) tt (take 3 own_script) (drop 4 own_script) p3 (some kept) h3
          (queue.sleeps s3 5) e3 in
      let s4 = (turn system s3 p3).0 in
      let p4 = (turn system s3 p3).1 in
      let (e5, h5) =
        keeps s4 Call.queue_close tt (take 4 own_script) (drop 5 own_script) p4 (some kept) h4
          (queue.closes s4) e4 in
      let s5 = (turn system s4 p4).0 in
      let p5 = (turn system s4 p4).1 in
      let (e6, h6) =
        makes s5 (Call.queue_open "/my_queue") true (take 5 own_script) (drop 6 own_script) p5
          (some kept) h5 (queue.opens s5 "/my_queue" kept e5) in
      let s6 = (turn system s5 p5).0 in
      let p6 = (turn system s5 p5).1 in
      let (e7, h7) =
        makes s6 (Call.queue_receive 0) (some greeting) (take 6 own_script) (drop 7 own_script) p6
          (some []) h6 (queue.receives s6 0 greeting kept [] e6 refl) in
      let s7 = (turn system s6 p6).0 in
      let p7 = (turn system s6 p6).1 in
      let (e8, h8) =
        keeps s7 (Call.say "Server: Received message: %s\n" (codes "Hi!")) tt (take 7 own_script)
          (drop 8 own_script) p7 (some []) h7
          (queue.says s7 "Server: Received message: %s\n" (codes "Hi!")) e7 in
      let s8 = (turn system s7 p7).0 in
      let p8 = (turn system s7 p7).1 in
      let (e9, h9) =
        keeps s8 Call.queue_close tt (take 8 own_script) (drop 9 own_script) p8 (some []) h8
          (queue.closes s8) e8 in
      let s9 = (turn system s8 p8).0 in
      let p9 = (turn system s8 p8).1 in
      let (e10, h10) =
        makes s9 Call.queue_remove true (take 9 own_script) (drop 10 own_script) p9 none h9
          (queue.removes s9 [] e9) in
      h10

  -- From a queue that is there and empty, where the server has its first ten turns before the client
  -- has one, it receives its own message, prints that as the client's, returns 0 and has removed the
  -- queue, whatever the client is and does.
  pub takes_back :
      (order : List Bool) (s : S) (client : Task)
      → inside s ≡ some []
      → (joint system (replicate 10 true ++ order) (s, (posix_server, []), client)).1
        ≡ (pure 0, own_script)
  takes_back order s client empty =
      let all = taken s (posix_server, []) empty (refl, own-Follows) in
      let w = alone 10 (s, (posix_server, [])) in
      ap (λ (r : S × Task × Task). r.1) (joint-alone 10 order s (posix_server, []) client)
      ∙ ended_stays order w.0 own_script w.1 client all
      ∙ at_end w.1 all
