-- ===== src/Unix/Fair.antt =====
-- Two programs in fair orders of their turns: where every turn brings them further or changes
-- nothing, and they are never both stuck, enough rounds bring them to their end.
use hw.Prelude.{
  ℕ, suc, ◌+◌, ◌≤◌, ◌<◌, ◌≡◌, ◌⊎◌, refl, sym, ◌∙◌, ap, inl, inr, Bool, true, false, not, List, [],
  ◌∷◌, ◌++◌, arith,
}
use mathlib.Core.Path.{subst}
use hw.Unix.Joint.{System, Task, joint, Rounds, joint-append}

-- Further than `n`, or at the end already, which is `full`.
abbrev pub Grown : {W : Type 0} → (ℕ → W → Type 0) → ℕ → ℕ → W → Type 0
Grown State full n w = (n' : ℕ) × State n' w × ((n < n') ⊎ ((full ≤ n) × (n ≤ n')))

module _ {S : Type 0} (system : System S) (full : ℕ) (State : ℕ → S × Task × Task → Type 0)
    (turns : (b : Bool) (n : ℕ) (w : S × Task × Task)
      → State n w
      → Grown State full n (joint system (b ∷ []) w) ⊎ (joint system (b ∷ []) w ≡ w))
    (alive : (n : ℕ) (w : S × Task × Task)
      → State n w
      → Grown State full n w
        ⊎ (Grown State full n (joint system (true ∷ []) w)
            ⊎ Grown State full n (joint system (false ∷ []) w))) where
  grown_twice :
      (n n' : ℕ) (w : S × Task × Task)
      → (n < n') ⊎ ((full ≤ n) × (n ≤ n'))
      → Grown State full n' w
      → Grown State full n w
  grown_twice n n' w (inl a) (m, h, inl b) = (m, h, inl (omega (arith, a, b)))
  grown_twice n n' w (inl a) (m, h, inr (_, b)) = (m, h, inl (omega (arith, a, b)))
  grown_twice n n' w (inr (f, a)) (m, h, inl b) = (m, h, inr (f, omega (arith, a, b)))
  grown_twice n n' w (inr (f, a)) (m, h, inr (_, b)) = (m, h, inr (f, omega (arith, a, b)))

  grown_kept :
      (n n' : ℕ) (w v : S × Task × Task)
      → State n' w
      → (n < n') ⊎ ((full ≤ n) × (n ≤ n'))
      → v ≡ w
      → Grown State full n v
  grown_kept n n' w v h far e = (n', subst (λ u. State n' u) (sym e) h, far)

  after :
      (order : List Bool) (n : ℕ) (w : S × Task × Task)
      → State n w
      → Grown State full n (joint system order w) ⊎ (joint system order w ≡ w)
  unfolding joint
  after [] n w h = inr refl
  after (b ∷ order) n w h =
      let one = joint-append system (b ∷ []) order w in
      elim (turns b n w h) [
        | inl (n', h', far) ↦ elim (after order n' (joint system (b ∷ []) w) h') [
          | inl more ↦ inl (
              subst (λ u. Grown State full n u) (sym one)
                (grown_twice n n' (joint system order (joint system (b ∷ []) w)) far more))
          | inr same ↦ inl (
              grown_kept n n' (joint system (b ∷ []) w) (joint system (b ∷ order) w) h' far
                (one ∙ same))
        ]
        | inr stuck ↦ elim (after order n w h) [
          | inl more ↦
              inl
                (subst (λ u. Grown State full n u) (sym (one ∙ ap (joint system order) stuck)) more)
          | inr same ↦ inr (one ∙ (ap (joint system order) stuck ∙ same))
        ]
      ]

  -- A turn that was grown into, and more turns.
  onward :
      (order : List Bool) (n : ℕ) (w : S × Task × Task)
      → Grown State full n w
      → Grown State full n (joint system order w)
  onward order n w (n', h, far) = elim (after order n' w h) [
    | inl more ↦ grown_twice n n' (joint system order w) far more
    | inr same ↦ grown_kept n n' w (joint system order w) h far same
  ]

  stuck_both :
      (b : Bool) (n : ℕ) (w : S × Task × Task)
      → State n w
      → joint system (b ∷ []) w ≡ w
      → joint system (not b ∷ []) w ≡ w
      → Grown State full n w
  stuck_both b n w h first second =
      let stuck = both b first second in
      elim (alive n w h) [
        | inl now ↦ now
        | inr (inl grown) ↦ subst (λ u. Grown State full n u) stuck.0 grown
        | inr (inr grown) ↦ subst (λ u. Grown State full n u) stuck.1 grown
      ]
    where
      both :
          (c : Bool)
          → joint system (c ∷ []) w ≡ w
          → joint system (not c ∷ []) w ≡ w
          → (joint system (true ∷ []) w ≡ w) × (joint system (false ∷ []) w ≡ w)
      both true e f = (e, f)
      both false e f = (f, e)

  -- A round brings them further.
  pass :
      (b : Bool) (others : List Bool) (n : ℕ) (w : S × Task × Task)
      → State n w
      → Grown State full n
          (joint system (not b ∷ []) (joint system others (joint system (b ∷ []) w)))
  pass b others n w h = elim (turns b n w h) [
    | inl grown ↦
        onward (not b ∷ []) n (joint system others (joint system (b ∷ []) w))
          (onward others n (joint system (b ∷ []) w) grown)
    | inr stuck ↦ elim (after others n w h) [
      | inl grown ↦
          onward (not b ∷ []) n (joint system others (joint system (b ∷ []) w))
            (subst (λ u. Grown State full n (joint system others u)) (sym stuck) grown)
      | inr same ↦
          (let back : joint system others (joint system (b ∷ []) w) ≡ w =
              ap (joint system others) stuck ∙ same in
            subst (λ u. Grown State full n (joint system (not b ∷ []) u)) (sym back)
              (elim (turns (not b) n w h) [
                | inl grown ↦ grown
                | inr still ↦
                    subst (λ u. Grown State full n u) (sym still) (stuck_both b n w h stuck still)
              ]))
    ]
  ]

  -- As many rounds as there are steps to the end.
  pub fair_reaches :
      (k n : ℕ) (order : List Bool) (w : S × Task × Task)
      → Rounds k order
      → State n w
      → (n' : ℕ) × State n' (joint system order w) × (n ≤ n') × ((full ≤ n') ⊎ (n + k ≤ n'))
  fair_reaches k n order w (Rounds.any _) h = elim (after order n w h) [
    | inl (n', h', inl far) ↦ (n', h', omega (arith, far), inr (omega (arith, far)))
    | inl (n', h', inr (all, far)) ↦ (n', h', far, inr (omega (arith, far)))
    | inr same ↦ (n, subst (λ u. State n u) (sym same) h, omega arith, inr (omega arith))
  ]
  fair_reaches k n order w (Rounds.round m b others rest rounds) h =
      let w' = joint system (not b ∷ []) (joint system others (joint system (b ∷ []) w)) in
      let (n', h', far) = pass b others n w h in
      let (x, r, on, end) = fair_reaches m n' rest w' rounds h' in
      let whole : joint system (b ∷ (others ++ (not b ∷ rest))) w ≡ joint system rest w' =
        joint-append system (b ∷ []) (others ++ (not b ∷ rest)) w
        ∙ (joint-append system others (not b ∷ rest) (joint system (b ∷ []) w)
            ∙ joint-append system (not b ∷ []) rest
                (joint system others (joint system (b ∷ []) w))) in
      let (more, all) = counted m n n' x far on end in
      (x, subst (λ u. State x u) (sym whole) r, more, all)
    where
      counted :
          (i a c x : ℕ)
          → (a < c) ⊎ ((full ≤ a) × (a ≤ c))
          → c ≤ x
          → (full ≤ x) ⊎ (c + i ≤ x)
          → (a ≤ x) × ((full ≤ x) ⊎ (a + suc i ≤ x))
      counted i a c x (inl p) q (inl r) = (omega (arith, p, q), inl r)
      counted i a c x (inl p) q (inr r) = (omega (arith, p, q), inr (omega (arith, p, r)))
      counted i a c x (inr (f, p)) q r = (omega (arith, p, q), inl (omega (arith, f, p, q)))
