-- ===== src/Mailbox/ClientTurns.antt =====
-- The turns of the POSIX client.
use mathlib.Core.Path.{subst}
use hw.Prelude.{
  ℕ, zero, suc, ◌≤◌, ◌≡◌, ◌⊎◌, refl, sym, inl, inr, true, [], ◌∷◌, Option, some, arith, length,
  take, drop,
}
use hw.Stdio.{codes}
use hw.Unix.Calls.{Call}
use hw.Unix.Joint.{System, stays, rests}
use hw.Unix.Fair.{Grown}
use hw.Mailbox.Texts.{greeting, answer}
use hw.Mailbox.Queue.{Messages, Queue}
use hw.Mailbox.Posix.{
  posix_client_script, Before, Behind, client_quiet, client_quiet_behind, before_there,
  client_answers_at, client_takes, before_bounds, behind_bounds,
}
use hw.Mailbox.Progress.{World, State, kept_open, as_before, makes, called, ask, further}

module _ {S : Type 0} (system : System S) (inside : S → Option Messages)
    (queue : Queue system inside) where
  abbrev pub ClientStuck : ℕ → World system inside queue → Type 0
  ClientStuck n w = (18 ≤ n) ⊎ ((length w.2.1 ≤ 1) ⊎ (8 ≤ length w.2.1))

  pub client_turn :
      (n : ℕ) (w : World system inside queue)
      → State system inside queue n w
      → Grown (State system inside queue) 18 n (ask system inside queue w)
        ⊎ ((ask system inside queue w ≡ w) × ClientStuck n w)
  client_turn n (s, p, q) (State.before i zero e at gp op cq) =
      let (f, on) =
        makes system inside queue s (Call.queue_open "/my_queue") true (take 0 posix_client_script)
          (drop 1 posix_client_script) q (inside s) cq
          (kept_open system inside queue s (before_there at)) in
      inl (
        further system inside queue
          (State.before i 1 refl
            (subst (Before i 1) (sym f) (client_quiet at (omega arith) (omega arith) (omega arith)))
            gp op on)
          (omega (arith, e)))
  client_turn n (s, p, q) (State.before i (suc zero) e at gp op cq) = elim (client_takes at) [
    | inl (there, next) ↦
        let (f, on) =
          makes system inside queue s (Call.queue_receive 0) (some greeting)
            (take 1 posix_client_script) (drop 2 posix_client_script) q (some []) cq
            (queue.receives s 0 greeting ((0, greeting) ∷ []) [] there refl) in
        inl (
          further system inside queue
            (State.before i 2 refl (subst (Before i 2) (sym f) next) gp op on) (omega (arith, e)))
    | inr there ↦
        let same =
          stays system s (Call.queue_receive 0) (some greeting) (take 1 posix_client_script)
            (drop 2 posix_client_script) q cq (queue.waits s 0 [] there refl) in
        inr
          (rw same refl, inr (inl (omega (arith, called system inside queue 1 q (omega arith) cq))))
  ]
  client_turn n (s, p, q) (State.before i (suc (suc zero)) e at gp op cq) =
      let (f, on) =
        makes system inside queue s (Call.say "Client: Received message: %s\n" (codes "Hi!")) tt
          (take 2 posix_client_script) (drop 3 posix_client_script) q (inside s) cq
          (queue.says s "Client: Received message: %s\n" (codes "Hi!")) in
      inl (
        further system inside queue
          (State.before i 3 refl
            (subst (Before i 3) (sym f) (client_quiet at (omega arith) (omega arith) (omega arith)))
            gp op on)
          (omega (arith, e)))
  client_turn n (s, p, q) (State.before i (suc (suc (suc zero))) e at gp op cq) =
      let (f, on) =
        makes system inside queue s Call.queue_close tt (take 3 posix_client_script)
          (drop 4 posix_client_script) q (inside s) cq (queue.closes s) in
      inl (
        further system inside queue
          (State.before i 4 refl
            (subst (Before i 4) (sym f) (client_quiet at (omega arith) (omega arith) (omega arith)))
            gp op on)
          (omega (arith, e)))
  client_turn n (s, p, q) (State.before i (suc (suc (suc (suc zero)))) e at gp op cq) =
      let (f, on) =
        makes system inside queue s (Call.queue_open "/my_queue") true (take 4 posix_client_script)
          (drop 5 posix_client_script) q (inside s) cq
          (kept_open system inside queue s (before_there at)) in
      inl (
        further system inside queue
          (State.before i 5 refl
            (subst (Before i 5) (sym f) (client_quiet at (omega arith) (omega arith) (omega arith)))
            gp op on)
          (omega (arith, e)))
  client_turn n (s, p, q) (State.before i (suc (suc (suc (suc (suc zero))))) e at gp op cq) =
      let (empty, next) = client_answers_at at in
      let sent = queue.sends s 0 answer [] empty (omega arith) in
      let (f, on) =
        makes system inside queue s (Call.queue_send 0 answer) true (take 5 posix_client_script)
          (drop 6 posix_client_script) q (some ((0, answer) ∷ [])) cq sent in
      inl (
        further system inside queue
          (State.before i 6 refl (subst (Before i 6) (sym f) next) gp op on) (omega (arith, e)))
  client_turn n (s, p, q) (State.before i (suc (suc (suc (suc (suc (suc zero)))))) e at gp op cq) =
      let (f, on) =
        makes system inside queue s (Call.say "Client: Sent message: %s\n" (codes "Hello!")) tt
          (take 6 posix_client_script) (drop 7 posix_client_script) q (inside s) cq
          (queue.says s "Client: Sent message: %s\n" (codes "Hello!")) in
      inl (
        further system inside queue
          (State.before i 7 refl
            (subst (Before i 7) (sym f) (client_quiet at (omega arith) (omega arith) (omega arith)))
            gp op on)
          (omega (arith, e)))
  client_turn n (s, p, q)
        (State.before i (suc (suc (suc (suc (suc (suc (suc zero))))))) e at gp op cq) =
      let (f, on) =
        makes system inside queue s Call.queue_close tt (take 7 posix_client_script)
          (drop 8 posix_client_script) q (inside s) cq (queue.closes s) in
      inl (
        further system inside queue
          (State.before i 8 refl
            (subst (Before i 8) (sym f) (client_quiet at (omega arith) (omega arith) (omega arith)))
            gp op on)
          (omega (arith, e)))
  client_turn n (s, p, q)
        (State.before i (suc (suc (suc (suc (suc (suc (suc (suc zero)))))))) e at gp op cq) =
      let same = rests system s posix_client_script q cq in
      inr (rw same refl, inr (inr (omega (arith, called system inside queue 8 q (omega arith) cq))))
  client_turn n (s, p, q)
        (State.before i (suc (suc (suc (suc (suc (suc (suc (suc (suc j))))))))) e at gp op cq) =
      absurd (omega (arith, (before_bounds at).1))
  client_turn n (s, p, q) (State.behind i zero e at gp cq) =
      absurd (omega (arith, (behind_bounds at).2))
  client_turn n (s, p, q) (State.behind i (suc zero) e at gp cq) =
      absurd (omega (arith, (behind_bounds at).2))
  client_turn n (s, p, q) (State.behind i (suc (suc zero)) e at gp cq) =
      absurd (omega (arith, (behind_bounds at).2))
  client_turn n (s, p, q) (State.behind i (suc (suc (suc zero))) e at gp cq) =
      absurd (omega (arith, (behind_bounds at).2))
  client_turn n (s, p, q) (State.behind i (suc (suc (suc (suc zero)))) e at gp cq) =
      absurd (omega (arith, (behind_bounds at).2))
  client_turn n (s, p, q) (State.behind i (suc (suc (suc (suc (suc zero))))) e at gp cq) =
      absurd (omega (arith, (behind_bounds at).2))
  client_turn n (s, p, q) (State.behind i (suc (suc (suc (suc (suc (suc zero)))))) e at gp cq) =
      let (f, on) =
        makes system inside queue s (Call.say "Client: Sent message: %s\n" (codes "Hello!")) tt
          (take 6 posix_client_script) (drop 7 posix_client_script) q (inside s) cq
          (queue.says s "Client: Sent message: %s\n" (codes "Hello!")) in
      inl (
        further system inside queue
          (State.behind i 7 refl (subst (Behind i 7) (sym f) (client_quiet_behind at (omega arith)))
            gp on)
          (omega (arith, e)))
  client_turn n (s, p, q)
        (State.behind i (suc (suc (suc (suc (suc (suc (suc zero))))))) e at gp cq) =
      let (f, on) =
        makes system inside queue s Call.queue_close tt (take 7 posix_client_script)
          (drop 8 posix_client_script) q (inside s) cq (queue.closes s) in
      inl (
        further system inside queue
          (State.behind i 8 refl (subst (Behind i 8) (sym f) (client_quiet_behind at (omega arith)))
            gp on)
          (omega (arith, e)))
  client_turn n (s, p, q)
        (State.behind i (suc (suc (suc (suc (suc (suc (suc (suc zero)))))))) e at gp cq) =
      let same = rests system s posix_client_script q cq in
      inr (rw same refl, inr (inr (omega (arith, called system inside queue 8 q (omega arith) cq))))
  client_turn n (s, p, q)
        (State.behind i (suc (suc (suc (suc (suc (suc (suc (suc (suc j))))))))) e at gp cq) =
      absurd (omega (arith, (behind_bounds at).3))
  client_turn n (s, p, q) (State.own i zero e low high few there op cq) =
      let (f, on) =
        makes system inside queue s (Call.queue_open "/my_queue") true []
          (drop 1 posix_client_script) q (some []) cq
          (as_before system inside queue (kept_open system inside queue s ([], there)) there) in
      inl (
        further system inside queue (State.own i 1 refl low high (omega arith) f op on)
          (omega (arith, e)))
  client_turn n (s, p, q) (State.own i (suc zero) e low high few there op cq) =
      let same =
        stays system s (Call.queue_receive 0) (some greeting) (take 1 posix_client_script)
          (drop 2 posix_client_script) q cq (queue.waits s 0 [] there refl) in
      inr (rw same refl, inr (inl (omega (arith, called system inside queue 1 q (omega arith) cq))))
  client_turn n (s, p, q) (State.own i (suc (suc j)) e low high few there op cq) =
      absurd (omega (arith, few))
  client_turn n (s, p, q) (State.over e op) =
      inl (n, State.over e op, inr (omega (arith, e), omega arith))
