-- ===== src/Mailbox/Orders.antt =====
-- The POSIX pair in every order of its turns.
use mathlib.Core.Path.{subst}
use hw.Prelude.{
  ℕ, ◌≤◌, ◌≡◌, ◌⊎◌, refl, inl, inr, Bool, true, false, List, [], ◌∷◌, Option, some, arith, take,
  drop,
}
use hw.Unix.Calls.{pure}
use hw.Unix.Joint.{System, joint, Rounds, Along}
use hw.Unix.Fair.{Grown, fair_reaches}
use hw.Mailbox.{posix_server, posix_client}
use hw.Mailbox.Queue.{Messages, Queue}
use hw.Mailbox.TakenBack.{own_script, own-Follows}
use hw.Mailbox.Posix.{
  good_script, posix_client_script, good-Follows, client_script-Follows, Before, before_bounds,
  behind_bounds,
}
use hw.Mailbox.ServerTurns.{server_turn}
use hw.Mailbox.Progress.{World, State}
use hw.Mailbox.ClientTurns.{client_turn}

module _ {S : Type 0} (system : System S) (inside : S → Option Messages)
    (queue : Queue system inside) where
  turns :
      (b : Bool) (n : ℕ) (w : World system inside queue)
      → State system inside queue n w
      → Grown (State system inside queue) 18 n (joint system (b ∷ []) w)
        ⊎ (joint system (b ∷ []) w ≡ w)
  unfolding joint
  turns true n w h = elim (server_turn system inside queue n w h) [
    | inl grown ↦ inl grown
    | inr (same, _) ↦ inr same
  ]
  turns false n w h = elim (client_turn system inside queue n w h) [
    | inl grown ↦ inl grown
    | inr (same, _) ↦ inr same
  ]

  alive :
      (n : ℕ) (w : World system inside queue)
      → State system inside queue n w
      → Grown (State system inside queue) 18 n w
        ⊎ (Grown (State system inside queue) 18 n (joint system (true ∷ []) w)
            ⊎ Grown (State system inside queue) 18 n (joint system (false ∷ []) w))
  unfolding joint
  alive n w h = elim (server_turn system inside queue n w h) [
    | inl grown ↦ inr (inl grown)
    | inr (_, inl all) ↦ inl (n, h, inr (all, omega arith))
    | inr (_, inr (low, high)) ↦ elim (client_turn system inside queue n w h) [
      | inl grown ↦ inr (inr grown)
      | inr (_, inl all) ↦ inl (n, h, inr (all, omega arith))
      | inr (_, inr (inl few)) ↦ absurd (omega (arith, low, few))
      | inr (_, inr (inr many)) ↦ absurd (omega (arith, high, many))
    ]
  ]

  abbrev started : S → World system inside queue
  started s = (s, (posix_server, []), (posix_client, []))

  -- With all calls made, there are two ways in which it can have gone.
  ended :
      (n : ℕ) (w : World system inside queue)
      → State system inside queue n w
      → 18 ≤ n
      → ((w.1 ≡ (pure 0, good_script)) × (w.2 ≡ (pure 0, posix_client_script)))
        ⊎ (w.1 ≡ (pure 0, own_script))
  ended n (s, (m, calls), (l, others)) (State.before i j e at gp op cq) h =
      absurd (omega (arith, e, h, before_bounds at))
  ended n (s, (m, calls), (l, others)) (State.behind i j e at gp cq) h =
      let bounds = behind_bounds at in
      let ei : i ≡ 10 = omega (arith, e, h, bounds.1, bounds.3) in
      let ej : j ≡ 8 = omega (arith, e, h, bounds.1, bounds.3) in
      let sp = subst (λ k. Along (take k good_script) (drop k good_script) (m, calls)) ei gp in
      let sq =
        subst (λ k. Along (take k posix_client_script) (drop k posix_client_script) (l, others)) ej
          cq in
      inl (rw (sp.0, sp.1), rw (sq.0, sq.1))
  ended n (s, (m, calls), (l, others)) (State.own i j e low high few there op cq) h =
      absurd (omega (arith, e, h, high, few))
  ended n (s, (m, calls), (l, others)) (State.over e op) h = inr (rw (op.0, op.1))

  -- From a queue that is there and empty, in every order of the turns in which each program has a
  -- turn in each of eighteen rounds: either both programs have made all calls of their scripts, in
  -- which each receives the other's message, and returned 0, or the server has received its own
  -- message, printed that as the client's and returned 0.
  pub either_way :
      (order : List Bool) (s : S)
      → inside s ≡ some []
      → Rounds 18 order
      → (((joint system order (started s)).1 ≡ (pure 0, good_script))
          × ((joint system order (started s)).2 ≡ (pure 0, posix_client_script)))
        ⊎ ((joint system order (started s)).1 ≡ (pure 0, own_script))
  either_way order s empty rounds =
      let begun : State system inside queue 0 (started s) =
        State.before 0 0 refl (Before.early (omega arith) (omega arith) empty) (refl, good-Follows)
          (refl, own-Follows) (refl, client_script-Follows) in
      let (n, h, _, end) =
        fair_reaches system 18 (State system inside queue) turns alive 18 0 order (started s) rounds
          begun in
      ended n (joint system order (started s)) h
        (elim end [ inl all ↦ all | inr all ↦ omega (arith, all) ])
