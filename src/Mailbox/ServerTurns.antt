-- ===== src/Mailbox/ServerTurns.antt =====
-- The turns of the POSIX server.
use mathlib.Core.Path.{subst}
use hw.Prelude.{
  ℕ, zero, suc, ◌≤◌, ◌≡◌, ◌⊎◌, refl, sym, inl, inr, true, [], ◌∷◌, Option, none, some, arith,
  length, take, drop, dec_lt,
}
use hw.Stdio.{codes}
use hw.Unix.Calls.{Call}
use hw.Unix.Joint.{System, stays, rests}
use hw.Unix.Fair.{Grown}
use hw.Mailbox.Texts.{greeting, answer}
use hw.Mailbox.Queue.{Messages, Queue}
use hw.Mailbox.TakenBack.{own_script}
use hw.Mailbox.Posix.{
  good_script, Before, Behind, server_quiet, server_quiet_behind, before_there, behind_there,
  server_greets, server_takes, before_bounds, behind_bounds,
}
use hw.Mailbox.Progress.{World, State, kept_open, as_before, makes, called, serve, further}

module _ {S : Type 0} (system : System S) (inside : S → Option Messages)
    (queue : Queue system inside) where
  -- The server waits only where the client has received and has calls to make, the client where it has
  -- not received or has none, and both are through where all calls are made.
  abbrev pub ServerStuck : ℕ → World system inside queue → Type 0
  ServerStuck n w = (18 ≤ n) ⊎ ((2 ≤ length w.2.1) × (length w.2.1 ≤ 7))

  pub server_turn :
      (n : ℕ) (w : World system inside queue)
      → State system inside queue n w
      → Grown (State system inside queue) 18 n (serve system inside queue w)
        ⊎ ((serve system inside queue w ≡ w) × ServerStuck n w)
  server_turn n (s, p, q) (State.before zero j e at gp op cq) =
      let (f, on) =
        makes system inside queue s (Call.queue_open "/my_queue") true (take 0 good_script)
          (drop 1 good_script) p (inside s) gp
          (kept_open system inside queue s (before_there at)) in
      let (_, own_on) =
        makes system inside queue s (Call.queue_open "/my_queue") true (take 0 own_script)
          (drop 1 own_script) p (inside s) op (kept_open system inside queue s (before_there at)) in
      inl (
        further system inside queue
          (State.before 1 j refl
            (subst (Before 1 j) (sym f) (server_quiet at (omega arith) (omega arith))) on own_on cq)
          (omega (arith, e)))
  server_turn n (s, p, q) (State.before (suc zero) j e at gp op cq) =
      let (empty, next) = server_greets at in
      let sent = queue.sends s 0 greeting [] empty (omega arith) in
      let (f, on) =
        makes system inside queue s (Call.queue_send 0 greeting) true (take 1 good_script)
          (drop 2 good_script) p (some ((0, greeting) ∷ [])) gp sent in
      let (_, own_on) =
        makes system inside queue s (Call.queue_send 0 greeting) true (take 1 own_script)
          (drop 2 own_script) p (some ((0, greeting) ∷ [])) op sent in
      inl (
        further system inside queue
          (State.before 2 j refl (subst (Before 2 j) (sym f) next) on own_on cq) (omega (arith, e)))
  server_turn n (s, p, q) (State.before (suc (suc zero)) j e at gp op cq) =
      let (f, on) =
        makes system inside queue s (Call.say "Server: Sent message: %s\n" (codes "Hi!")) tt
          (take 2 good_script) (drop 3 good_script) p (inside s) gp
          (queue.says s "Server: Sent message: %s\n" (codes "Hi!")) in
      let (_, own_on) =
        makes system inside queue s (Call.say "Server: Sent message: %s\n" (codes "Hi!")) tt
          (take 2 own_script) (drop 3 own_script) p (inside s) op
          (queue.says s "Server: Sent message: %s\n" (codes "Hi!")) in
      inl (
        further system inside queue
          (State.before 3 j refl
            (subst (Before 3 j) (sym f) (server_quiet at (omega arith) (omega arith))) on own_on cq)
          (omega (arith, e)))
  server_turn n (s, p, q) (State.before (suc (suc (suc zero))) j e at gp op cq) =
      let (f, on) =
        makes system inside queue s (Call.sleep 5) tt (take 3 good_script) (drop 4 good_script) p
          (inside s) gp (queue.sleeps s 5) in
      let (_, own_on) =
        makes system inside queue s (Call.sleep 5) tt (take 3 own_script) (drop 4 own_script) p
          (inside s) op (queue.sleeps s 5) in
      inl (
        further system inside queue
          (State.before 4 j refl
            (subst (Before 4 j) (sym f) (server_quiet at (omega arith) (omega arith))) on own_on cq)
          (omega (arith, e)))
  server_turn n (s, p, q) (State.before (suc (suc (suc (suc zero)))) j e at gp op cq) =
      let (f, on) =
        makes system inside queue s Call.queue_close tt (take 4 good_script) (drop 5 good_script) p
          (inside s) gp (queue.closes s) in
      let (_, own_on) =
        makes system inside queue s Call.queue_close tt (take 4 own_script) (drop 5 own_script) p
          (inside s) op (queue.closes s) in
      inl (
        further system inside queue
          (State.before 5 j refl
            (subst (Before 5 j) (sym f) (server_quiet at (omega arith) (omega arith))) on own_on cq)
          (omega (arith, e)))
  server_turn n (s, p, q) (State.before (suc (suc (suc (suc (suc zero))))) j e at gp op cq) =
      let (f, on) =
        makes system inside queue s (Call.queue_open "/my_queue") true (take 5 good_script)
          (drop 6 good_script) p (inside s) gp
          (kept_open system inside queue s (before_there at)) in
      let (_, own_on) =
        makes system inside queue s (Call.queue_open "/my_queue") true (take 5 own_script)
          (drop 6 own_script) p (inside s) op (kept_open system inside queue s (before_there at)) in
      inl (
        further system inside queue
          (State.before 6 j refl
            (subst (Before 6 j) (sym f) (server_quiet at (omega arith) (omega arith))) on own_on cq)
          (omega (arith, e)))
  server_turn n (s, p, q) (State.before (suc (suc (suc (suc (suc (suc zero)))))) j e at gp op cq) =
      elim (server_takes at) [
        | inl (there, few) ↦
            let (f, on) =
              makes system inside queue s (Call.queue_receive 0) (some greeting) (take 6 own_script)
                (drop 7 own_script) p (some []) op
                (queue.receives s 0 greeting ((0, greeting) ∷ []) [] there refl) in
            inl (
              further system inside queue
                (State.own 7 j refl (omega arith) (omega arith) few f on cq) (omega (arith, e)))
        | inr (inl (there, low, high)) ↦
            let same =
              stays system s (Call.queue_receive 0) (some answer) (take 6 good_script)
                (drop 7 good_script) p gp (queue.waits s 0 [] there refl) in
            let j_calls = called system inside queue j q (omega (arith, high)) cq in
            inr (rw same refl, inr (omega (arith, low, j_calls), omega (arith, high, j_calls)))
        | inr (inr (there, next)) ↦
            let (f, on) =
              makes system inside queue s (Call.queue_receive 0) (some answer) (take 6 good_script)
                (drop 7 good_script) p (some []) gp
                (queue.receives s 0 answer ((0, answer) ∷ []) [] there refl) in
            inl (
              further system inside queue
                (State.behind 7 j refl (subst (Behind 7 j) (sym f) next) on cq) (omega (arith, e)))
      ]
  server_turn n (s, p, q)
        (State.before (suc (suc (suc (suc (suc (suc (suc i))))))) j e at gp op cq) =
      absurd (omega (arith, (before_bounds at).0))
  server_turn n (s, p, q)
        (State.behind (suc (suc (suc (suc (suc (suc (suc zero))))))) j e at gp cq) =
      let (f, on) =
        makes system inside queue s (Call.say "Server: Received message: %s\n" (codes "Hello!")) tt
          (take 7 good_script) (drop 8 good_script) p (inside s) gp
          (queue.says s "Server: Received message: %s\n" (codes "Hello!")) in
      inl (
        further system inside queue
          (State.behind 8 j refl (subst (Behind 8 j) (sym f) (server_quiet_behind at (omega arith)))
            on cq)
          (omega (arith, e)))
  server_turn n (s, p, q)
        (State.behind (suc (suc (suc (suc (suc (suc (suc (suc zero)))))))) j e at gp cq) =
      let (f, on) =
        makes system inside queue s Call.queue_close tt (take 8 good_script) (drop 9 good_script) p
          (inside s) gp (queue.closes s) in
      inl (
        further system inside queue
          (State.behind 9 j refl (subst (Behind 9 j) (sym f) (server_quiet_behind at (omega arith)))
            on cq)
          (omega (arith, e)))
  server_turn n (s, p, q)
        (State.behind (suc (suc (suc (suc (suc (suc (suc (suc (suc zero))))))))) j e at gp cq) =
      let (there, low, high) = behind_there at (omega arith) in
      let (f, on) =
        makes system inside queue s Call.queue_remove true (take 9 good_script) [] p none gp
          (queue.removes s [] there) in
      inl (
        further system inside queue (State.behind 10 j refl (Behind.removed refl low high f) on cq)
          (omega (arith, e)))
  server_turn n (s, p, q)
        (State.behind
          (suc (suc (suc (suc (suc (suc (suc (suc (suc (suc zero))))))))))
          j
          e
          at
          gp
          cq) =
      let same = rests system s good_script p gp in
      let (_, _, low, high) = behind_bounds at in
      let j_calls = called system inside queue j q high cq in
      elim (dec_lt j 8) [
        | yes few ↦
            inr (rw same refl, inr (omega (arith, low, j_calls), omega (arith, few, j_calls)))
        | no all ↦ inr (rw same refl, inl (omega (arith, e, all)))
      ]
  server_turn n (s, p, q)
        (State.behind
          (suc (suc (suc (suc (suc (suc (suc (suc (suc (suc (suc i)))))))))))
          j
          e
          at
          gp
          cq) =
      absurd (omega (arith, (behind_bounds at).1))
  server_turn n (s, p, q) (State.behind zero j e at gp cq) =
      absurd (omega (arith, (behind_bounds at).0))
  server_turn n (s, p, q) (State.behind (suc zero) j e at gp cq) =
      absurd (omega (arith, (behind_bounds at).0))
  server_turn n (s, p, q) (State.behind (suc (suc zero)) j e at gp cq) =
      absurd (omega (arith, (behind_bounds at).0))
  server_turn n (s, p, q) (State.behind (suc (suc (suc zero))) j e at gp cq) =
      absurd (omega (arith, (behind_bounds at).0))
  server_turn n (s, p, q) (State.behind (suc (suc (suc (suc zero)))) j e at gp cq) =
      absurd (omega (arith, (behind_bounds at).0))
  server_turn n (s, p, q) (State.behind (suc (suc (suc (suc (suc zero))))) j e at gp cq) =
      absurd (omega (arith, (behind_bounds at).0))
  server_turn n (s, p, q) (State.behind (suc (suc (suc (suc (suc (suc zero)))))) j e at gp cq) =
      absurd (omega (arith, (behind_bounds at).0))
  server_turn n (s, p, q)
        (State.own (suc (suc (suc (suc (suc (suc (suc zero))))))) j e low high few there op cq) =
      let (f, on) =
        makes system inside queue s (Call.say "Server: Received message: %s\n" (codes "Hi!")) tt
          (take 7 own_script) (drop 8 own_script) p (some []) op
          (as_before system inside queue
            (queue.says s "Server: Received message: %s\n" (codes "Hi!")) there) in
      inl (
        further system inside queue (State.own 8 j refl (omega arith) (omega arith) few f on cq)
          (omega (arith, e)))
  server_turn n (s, p, q)
        (State.own
          (suc (suc (suc (suc (suc (suc (suc (suc zero))))))))
          j
          e
          low
          high
          few
          there
          op
          cq) =
      let (f, on) =
        makes system inside queue s Call.queue_close tt (take 8 own_script) (drop 9 own_script) p
          (some []) op (as_before system inside queue (queue.closes s) there) in
      inl (
        further system inside queue (State.own 9 j refl (omega arith) (omega arith) few f on cq)
          (omega (arith, e)))
  server_turn n (s, p, q)
        (State.own
          (suc (suc (suc (suc (suc (suc (suc (suc (suc zero)))))))))
          j
          e
          low
          high
          few
          there
          op
          cq) =
      let (f, on) =
        makes system inside queue s Call.queue_remove true (take 9 own_script) [] p none op
          (queue.removes s [] there) in
      inl (further system inside queue (State.over refl on) (omega (arith, e, few)))
  server_turn n (s, p, q) (State.own zero j e low high few there op cq) =
      absurd (omega (arith, low))
  server_turn n (s, p, q) (State.own (suc zero) j e low high few there op cq) =
      absurd (omega (arith, low))
  server_turn n (s, p, q) (State.own (suc (suc zero)) j e low high few there op cq) =
      absurd (omega (arith, low))
  server_turn n (s, p, q) (State.own (suc (suc (suc zero))) j e low high few there op cq) =
      absurd (omega (arith, low))
  server_turn n (s, p, q) (State.own (suc (suc (suc (suc zero)))) j e low high few there op cq) =
      absurd (omega (arith, low))
  server_turn n (s, p, q)
        (State.own (suc (suc (suc (suc (suc zero))))) j e low high few there op cq) =
      absurd (omega (arith, low))
  server_turn n (s, p, q)
        (State.own (suc (suc (suc (suc (suc (suc zero)))))) j e low high few there op cq) =
      absurd (omega (arith, low))
  server_turn n (s, p, q)
        (State.own
          (suc (suc (suc (suc (suc (suc (suc (suc (suc (suc i))))))))))
          j
          e
          low
          high
          few
          there
          op
          cq) =
      absurd (omega (arith, high))
  server_turn n (s, p, q) (State.over e op) =
      let same = rests system s own_script p op in inr (rw same refl, inl (omega (arith, e)))
