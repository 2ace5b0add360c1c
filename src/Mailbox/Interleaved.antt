-- ===== src/Mailbox/Interleaved.antt =====
-- The System V pair in every order of its turns.
use hw.Prelude.{
  sym, refl, Option, none, ℕ, zero, suc, ◌+◌, ◌≤◌, ◌<◌, ◌≡◌, ◌⊎◌, inl, inr, Bool, true, false, List,
  [], ◌∷◌, ◌++◌, some, arith, drop, take,
}
use mathlib.Core.Path.{subst}
use hw.Stdio.{codes}
use hw.Unix.Calls.{Call, Answer, pure}
use hw.Unix.Runs.{Entry}
use hw.Unix.Joint.{System, Task, turn, joint, Rounds, Along, moves, stays, rests}
use hw.Mailbox.{system_v_server, system_v_client}
use hw.Mailbox.Texts.{greeting, answer}
use hw.Unix.Fair.{Grown, fair_reaches}
use hw.Mailbox.Queue.{
  Messages, Queue, At, server_script, client_script, server-Follows, client-Follows, server_local,
  client_local, server_sends, client_sends, server_receives, client_receives, server_bound,
  client_bound, there, client_first_half, server_removes, in_order, is_removed,
}

-- The two wait together only where all calls are made.
never_both :
    (i j : ℕ)
    → i ≤ 6
    → ((i ≡ 6) ⊎ ((i ≡ 3) × (j < 4)))
    → ((j ≡ 5) ⊎ ((j ≡ 1) × (i < 2)))
    → 11 ≤ i + j
never_both i j h (inl e) (inl f) = omega (arith, e, f)
never_both i j h (inl e) (inr (f, g)) = absurd (omega (arith, e, g))
never_both i j h (inr (e, d)) (inl f) = absurd (omega (arith, d, f))
never_both i j h (inr (e, d)) (inr (f, g)) = absurd (omega (arith, e, g))

module _ {S : Type 0} (system : System S) (inside : S → Option Messages)
    (queue : Queue system inside) where
  -- So many calls of the server and of the client are behind them.
  abbrev Reached : ℕ → ℕ → S × Task × Task → Type 0
  Reached i j (s, p, q) =
      At i j (inside s)
      × Along (take i server_script) (drop i server_script) p
      × Along (take j client_script) (drop j client_script) q

  abbrev serve : S × Task × Task → S × Task × Task
  serve (s, p, q) = ((turn system s p).0, (turn system s p).1, q)

  abbrev ask : S × Task × Task → S × Task × Task
  ask (s, p, q) = ((turn system s q).0, p, (turn system s q).1)

  moved :
      (i j : ℕ) (s : S) (c : Call) (a : Answer c) (done left : List Entry) (p : Task)
      (o : Option Messages)
      → Along done ((c, a) ∷ left) p
      → ((s' : S) × (system s c ≡ some (a, s')) × (inside s' ≡ o))
      → At i j o
      → At i j (inside (turn system s p).0) × Along (done ++ ((c, a) ∷ [])) left (turn system s p).1
  moved i j s c a done left p o along (s', e, same) at =
      let (f, on) = moves system s s' c a done left p along e in (rw (f, same) at, on)

  -- A turn of the server makes its next call, or changes nothing: at the end, and before the
  -- client has sent.
  server_turn :
      (i j : ℕ) (w : S × Task × Task)
      → Reached i j w
      → Reached (suc i) j (serve w) ⊎ ((serve w ≡ w) × ((i ≡ 6) ⊎ ((i ≡ 3) × (j < 4))))
  server_turn zero j (s, p, q) (at, sp, sq) =
      let (ms, e) = there at (omega arith) in
      let (now, on) =
        moved 1 j s (Call.queue_open "server") true [] (drop 1 server_script) p (some ms) sp
          (queue.opens s "server" ms e)
          (subst (λ o. At 1 j o) e (server_local at (omega arith) (omega arith) (omega arith))) in
      inl (now, on, sq)
  server_turn (suc zero) j (s, p, q) (at, sp, sq) =
      let (e, next) = server_sends at in
      let (now, on) =
        moved 2 j s (Call.queue_send 1 greeting) true (take 1 server_script) (drop 2 server_script)
          p (some ((1, greeting) ∷ [])) sp (queue.sends s 1 greeting [] e (omega arith)) next in
      inl (now, on, sq)
  server_turn (suc (suc zero)) j (s, p, q) (at, sp, sq) =
      let (now, on) =
        moved 3 j s (Call.say "Server: Sent message: %s\n" (codes "Hi!")) tt (take 2 server_script)
          (drop 3 server_script) p (inside s) sp
          (queue.says s "Server: Sent message: %s\n" (codes "Hi!"))
          (server_local at (omega arith) (omega arith) (omega arith)) in
      inl (now, on, sq)
  server_turn (suc (suc (suc zero))) j (s, p, q) (at, sp, sq) = elim (server_receives at) [
    | inl (found, next) ↦
        let (now, on) =
          moved 4 j s (Call.queue_receive 2) (some answer) (take 3 server_script)
            (drop 4 server_script) p (some []) sp
            (queue.receives s 2 answer ((2, answer) ∷ []) [] found refl) next in
        inl (now, on, sq)
    | inr (before, ms, e, absent) ↦
        let same =
          stays system s (Call.queue_receive 2) (some answer) (take 3 server_script)
            (drop 4 server_script) p sp (queue.waits s 2 ms e absent) in
        inr (rw same refl, inr (refl, before))
  ]
  server_turn (suc (suc (suc (suc zero)))) j (s, p, q) (at, sp, sq) =
      let (now, on) =
        moved 5 j s (Call.say "Server: Received message: %s\n" (codes "Hello!")) tt
          (take 4 server_script) (drop 5 server_script) p (inside s) sp
          (queue.says s "Server: Received message: %s\n" (codes "Hello!"))
          (server_local at (omega arith) (omega arith) (omega arith)) in
      inl (now, on, sq)
  server_turn (suc (suc (suc (suc (suc zero))))) j (s, p, q) (at, sp, sq) =
      let (ms, e) = there at (omega arith) in
      let (now, on) =
        moved 6 j s Call.queue_remove true (take 5 server_script) [] p none sp
          (queue.removes s ms e) (server_removes at) in
      inl (now, on, sq)
  server_turn (suc (suc (suc (suc (suc (suc zero)))))) j (s, p, q) (at, sp, sq) =
      let same = rests system s server_script p sp in inr (rw same refl, inl refl)
  server_turn (suc (suc (suc (suc (suc (suc (suc i))))))) j (s, p, q) (at, sp, sq) =
      absurd (omega (arith, server_bound at))

  client_turn :
      (i j : ℕ) (w : S × Task × Task)
      → Reached i j w
      → Reached i (suc j) (ask w) ⊎ ((ask w ≡ w) × ((j ≡ 5) ⊎ ((j ≡ 1) × (i < 2))))
  client_turn i zero (s, p, q) (at, sp, sq) =
      let (ms, e) = there at (client_first_half at (omega arith)) in
      let (now, on) =
        moved i 1 s (Call.queue_open "server") true [] (drop 1 client_script) q (some ms) sq
          (queue.opens s "server" ms e)
          (subst (λ o. At i 1 o) e (client_local at (omega arith) (omega arith) (omega arith))) in
      inl (now, sp, on)
  client_turn i (suc zero) (s, p, q) (at, sp, sq) = elim (client_receives at) [
    | inl (found, next) ↦
        let (now, on) =
          moved i 2 s (Call.queue_receive 1) (some greeting) (take 1 client_script)
            (drop 2 client_script) q (some []) sq
            (queue.receives s 1 greeting ((1, greeting) ∷ []) [] found refl) next in
        inl (now, sp, on)
    | inr (before, ms, e, absent) ↦
        let same =
          stays system s (Call.queue_receive 1) (some greeting) (take 1 client_script)
            (drop 2 client_script) q sq (queue.waits s 1 ms e absent) in
        inr (rw same refl, inr (refl, before))
  ]
  client_turn i (suc (suc zero)) (s, p, q) (at, sp, sq) =
      let (now, on) =
        moved i 3 s (Call.say "Client: Received message: %s\n" (codes "Hi!")) tt
          (take 2 client_script) (drop 3 client_script) q (inside s) sq
          (queue.says s "Client: Received message: %s\n" (codes "Hi!"))
          (client_local at (omega arith) (omega arith) (omega arith)) in
      inl (now, sp, on)
  client_turn i (suc (suc (suc zero))) (s, p, q) (at, sp, sq) =
      let (e, next) = client_sends at in
      let (now, on) =
        moved i 4 s (Call.queue_send 2 answer) true (take 3 client_script) (drop 4 client_script) q
          (some ((2, answer) ∷ [])) sq (queue.sends s 2 answer [] e (omega arith)) next in
      inl (now, sp, on)
  client_turn i (suc (suc (suc (suc zero)))) (s, p, q) (at, sp, sq) =
      let (now, on) =
        moved i 5 s (Call.say "Client: Sent message: %s\n" (codes "Hello!")) tt
          (take 4 client_script) [] q (inside s) sq
          (queue.says s "Client: Sent message: %s\n" (codes "Hello!"))
          (client_local at (omega arith) (omega arith) (omega arith)) in
      inl (now, sp, on)
  client_turn i (suc (suc (suc (suc (suc zero))))) (s, p, q) (at, sp, sq) =
      let same = rests system s client_script q sq in inr (rw same refl, inl refl)
  client_turn i (suc (suc (suc (suc (suc (suc j)))))) (s, p, q) (at, sp, sq) =
      absurd (omega (arith, client_bound at))

  -- In every order of the turns: more calls are behind the programs, and no others.
  after :
      (order : List Bool) (i j : ℕ) (w : S × Task × Task)
      → Reached i j w
      → (i' : ℕ) × (j' : ℕ) × (i ≤ i') × (j ≤ j') × Reached i' j' (joint system order w)
  unfolding joint
  after [] i j w h = (i, j, omega arith, omega arith, h)
  after (true ∷ order) i j (s, p, q) h = elim (server_turn i j (s, p, q) h) [
    | inl on ↦
        let (i', j', a, b, r) = after order (suc i) j (serve (s, p, q)) on in
        (i', j', omega (arith, a), b, r)
    | inr (same, _) ↦ after order i j (serve (s, p, q)) (subst (λ w. Reached i j w) (sym same) h)
  ]
  after (false ∷ order) i j (s, p, q) h = elim (client_turn i j (s, p, q) h) [
    | inl on ↦
        let (i', j', a, b, r) = after order i (suc j) (ask (s, p, q)) on in
        (i', j', a, omega (arith, b), r)
    | inr (same, _) ↦ after order i j (ask (s, p, q)) (subst (λ w. Reached i j w) (sym same) h)
  ]

  -- So many calls in all, of eleven.
  abbrev State : ℕ → S × Task × Task → Type 0
  State n w = (i : ℕ) × (j : ℕ) × (n ≡ i + j) × Reached i j w

  turns :
      (b : Bool) (n : ℕ) (w : S × Task × Task)
      → State n w
      → Grown State 11 n (joint system (b ∷ []) w) ⊎ (joint system (b ∷ []) w ≡ w)
  unfolding joint
  turns true n w (i, j, e, h) = elim (server_turn i j w h) [
    | inl on ↦ inl (suc n, (suc i, j, omega (arith, e), on), inl (omega arith))
    | inr (same, _) ↦ inr same
  ]
  turns false n w (i, j, e, h) = elim (client_turn i j w h) [
    | inl on ↦ inl (suc n, (i, suc j, omega (arith, e), on), inl (omega arith))
    | inr (same, _) ↦ inr same
  ]

  alive :
      (n : ℕ) (w : S × Task × Task)
      → State n w
      → Grown State 11 n w
        ⊎ (Grown State 11 n (joint system (true ∷ []) w)
            ⊎ Grown State 11 n (joint system (false ∷ []) w))
  unfolding joint
  alive n w (i, j, e, h) = elim (server_turn i j w h) [
    | inl on ↦ inr (inl (suc n, (suc i, j, omega (arith, e), on), inl (omega arith)))
    | inr (_, why) ↦ elim (client_turn i j w h) [
      | inl on ↦ inr (inr (suc n, (i, suc j, omega (arith, e), on), inl (omega arith)))
      | inr (_, why') ↦
          inl
            (n, (i, j, e, h), inr (rw e (never_both i j (server_bound h.0) why why'), omega arith))
    ]
  ]

  abbrev started : S → S × Task × Task
  started s = (s, (system_v_server, []), (system_v_client, []))

  begun : (s : S) → inside s ≡ some [] → Reached 0 0 (started s)
  begun s empty = (
    At.early (inside s) (omega arith) (omega arith) empty,
    (refl, server-Follows),
    (refl, client-Follows),
  )

  -- From a queue that is there and empty, and in every order of the turns, each program has made the
  -- first calls of its script and got the answers that stand there, and no others; and where the
  -- client has received a message the server has sent it, and the reverse.
  pub every_order :
      (order : List Bool) (s : S)
      → inside s ≡ some []
      → (i : ℕ) × (j : ℕ) × ((joint system order (started s)).1.1 ≡ take i server_script)
        × ((joint system order (started s)).2.1 ≡ take j client_script)
        × ((j ≤ 1) ⊎ (2 ≤ i))
        × ((i ≤ 3) ⊎ (4 ≤ j))
  every_order order s empty =
      let (i, j, a, b, (at, sp, sq)) = after order 0 0 (started s) (begun s empty) in
      let (sent, answered) = in_order at in (i, j, sp.0, sq.0, sent, answered)

  ended :
      (w : S × Task × Task)
      → Reached 6 5 w
      → (w.1 ≡ (pure 0, server_script)) × (w.2 ≡ (pure 0, client_script)) × (inside w.0 ≡ none)
  ended (s, p, q) (at, sp, sq) = (rw (sp.0, sp.1), rw (sq.0, sq.1), is_removed at)

  -- From a queue that is there and empty, in every order of the turns in which each program has a
  -- turn in each of eleven rounds, both programs have made all calls of their scripts and returned
  -- 0, and the queue is removed.
  pub every_fair_order :
      (order : List Bool) (s : S)
      → inside s ≡ some []
      → Rounds 11 order
      → ((joint system order (started s)).1 ≡ (pure 0, server_script))
        × ((joint system order (started s)).2 ≡ (pure 0, client_script))
        × (inside (joint system order (started s)).0 ≡ none)
  every_fair_order order s empty rounds =
      let (n, (x, y, e, r), _, end) =
        fair_reaches system 11 State turns alive 11 0 order (started s) rounds
          (0, 0, refl, begun s empty) in
      let all : 11 ≤ x + y = elim end [
        | inl h ↦ omega (arith, e, h)
        | inr h ↦ omega (arith, e, h)
      ] in
      let ex : x ≡ 6 = omega (arith, all, server_bound r.0, client_bound r.0) in
      let ey : y ≡ 5 = omega (arith, all, server_bound r.0, client_bound r.0) in
      let w = joint system order (started s) in
      ended w (subst (λ n. Reached 6 n w) ey (subst (λ n. Reached n y w) ex r))
