-- ===== src/Indices/Once.antt =====
-- Which indices are printed.
use mathlib.Core.Path.{subst}
use mathlib.Core.Logic.{ite}
use hw.Prelude.{
  ℕ, suc, ◌+◌, ◌≤◌, ◌<◌, ◌≡◌, ◌≢◌, refl, ap, sym, ◌∙◌, Option, some, List, [], ◌∷◌, arith,
  ℕ_discrete, ltb, inl, inr, Bool-cases, if◌then◌else◌,
}
use hw.Prelude.Family.{update, update_other, update_keeps}
use hw.Indices.{
  num_indices, IndexPc, absent, created, holding, printed, MainPc, storing, creating, joining,
  returned, Printing, Step, Reach,
}

-- How often a number is in a list.
abbrev one_if : ℕ → ℕ → ℕ
one_if v n = ite (ℕ_discrete v n) 1 0

unfoldable pub count : ℕ → List ℕ → ℕ
count n [] = 0
count n (v ∷ vs) = one_if v n + count n vs

-- Thread `t` is given its own index, and prints it once.
abbrev pub Own : ℕ → IndexPc → Option ℕ → ℕ → Type 0
Own t absent id n = n ≡ 0
Own t created id n = (n ≡ 0) × (id ≡ some t)
Own t (holding v) id n = (n ≡ 0) × (v ≡ t)
Own t printed id n = n ≡ 1

-- The threads from this one on are not created; `main` has stored the index of the one that it
-- creates next; the threads that it has joined have printed.
abbrev pub made : MainPc → ℕ
made (storing i) = i
made (creating i) = i
made _ = num_indices

abbrev pub Stored : MainPc → (ℕ → Option ℕ) → Type 0
Stored (creating i) id = (id i ≡ some i) × (i < num_indices)
Stored _ id = Unit

abbrev pub joined : MainPc → ℕ
joined (joining i) = i
joined returned = num_indices
joined _ = 0

pub record Inv (s : Printing) : Type 0 where
  pub own : (t : ℕ) → Own t (s.threads t) (s.t_id t) (count t s.lines)
  pub fresh : (t : ℕ) → made s.main ≤ t → s.threads t ≡ absent
  pub small : made s.main ≤ num_indices
  pub stored : Stored s.main s.t_id
  pub waited : (t : ℕ) → t < joined s.main → s.threads t ≡ printed

-- A member of a family changes.
pub changed :
    {A : Type 0} (P : ℕ → A → Type 0) (f : ℕ → A) (i : ℕ) (a : A)
    → P i a
    → ((j : ℕ) → i ≢ j → P j (f j))
    → (j : ℕ) → P j (update f i a j)
changed P f i a here rest j = elim (ℕ_discrete i j) as (λ d. P j (ite d a (f j))) [
  | yes same ↦ subst (λ t. P t a) same here
  | no other ↦ rest j other
]

at_absent :
    (t : ℕ) (pc : IndexPc) (id id' : Option ℕ) (n : ℕ)
    → pc ≡ absent
    → Own t pc id n
    → Own t pc id' n
at_absent t absent id id' n e h = h
at_absent t created id id' n e h = absurd (cc e)
at_absent t (holding v) id id' n e h = absurd (cc e)
at_absent t printed id id' n e h = absurd (cc e)

at_own : {A : Type 0} (f : ℕ → A) (i : ℕ) (a : A) → update f i a i ≡ a
at_own f i a = ground arith

some_eq : {a b : ℕ} → (some a ≡ some b) → a ≡ b
some_eq e = cc e

counts_own : (n : ℕ) (ls : List ℕ) → count n (n ∷ ls) ≡ suc (count n ls)
unfolding count
counts_own n ls = let e : one_if n n ≡ 1 = ground arith in omega (arith, e)

counts_other : (v n : ℕ) (ls : List ℕ) → v ≢ n → count n (v ∷ ls) ≡ count n ls
unfolding count
counts_other v n ls other = let e : one_if v n ≡ 0 = ground arith in omega (arith, e)

Step-Inv : {s t : Printing} → Step s t → Inv s → Inv t
Step-Inv {s} (Step.store i here lt) inv = record {
  own =
      changed (λ t id. Own t (s.threads t) id (count t s.lines)) s.t_id i (some i)
        (at_absent i (s.threads i) (s.t_id i) (some i) (count i s.lines)
          (inv.fresh i (rw (ap made here) (omega arith))) (inv.own i))
        (λ j other. inv.own j);
  fresh = λ t h. inv.fresh t (rw (ap made here) h);
  small = omega (arith, lt);
  stored = (at_own s.t_id i (some i), lt);
  waited = λ t h. absurd (omega (arith, h));
}
Step-Inv {s} (Step.create i here) inv =
    let now = subst (λ q. Stored q s.t_id) here inv.stored in
    let none_yet : s.threads i ≡ absent = inv.fresh i (rw (ap made here) (omega arith)) in
    record {
      own =
          changed (λ t pc. Own t pc (s.t_id t) (count t s.lines)) s.threads i created
            (subst (λ pc. Own i pc (s.t_id i) (count i s.lines)) none_yet (inv.own i), now.0)
            (λ j other. inv.own j);
      fresh = λ t h.
          update_other s.threads i t created (λ e. omega (arith, h, e))
          ∙ inv.fresh t (rw (ap made here) (omega (arith, h)));
      small = now.1;
      stored = tt;
      waited = λ t h. absurd (omega (arith, h));
    }
Step-Inv {s} (Step.all_created i here past) inv = record {
  own = inv.own;
  fresh = λ t h. inv.fresh t (rw (ap made here) (omega (arith, h, inv.small, ap made here)));
  small = omega arith;
  stored = tt;
  waited = λ t h. absurd (omega (arith, h));
}
Step-Inv {s} (Step.read t v here given) inv =
    let (none_yet, mine) = subst (λ pc. Own t pc (s.t_id t) (count t s.lines)) here (inv.own t) in
    record {
      own =
          changed (λ u pc. Own u pc (s.t_id u) (count u s.lines)) s.threads t (holding v)
            (none_yet, some_eq (sym given ∙ mine)) (λ j other. inv.own j);
      fresh =
          λ u h. update_keeps s.threads t u (holding v) created absent here (cc) (inv.fresh u h);
      small = inv.small;
      stored = inv.stored;
      waited =
          λ u h. update_keeps s.threads t u (holding v) created printed here (cc) (inv.waited u h);
    }
Step-Inv {s} (Step.print t v here) inv =
    let (none_yet, mine) = subst (λ pc. Own t pc (s.t_id t) (count t s.lines)) here (inv.own t) in
    record {
      own =
          changed (λ u pc. Own u pc (s.t_id u) (count u (v ∷ s.lines))) s.threads t printed
            (rw mine (omega (arith, none_yet, counts_own t s.lines)))
            (λ j other.
              let e : count j (v ∷ s.lines) ≡ count j s.lines =
                rw mine (counts_other t j s.lines other) in
              subst (λ n. Own j (s.threads j) (s.t_id j) n) (sym e) (inv.own j));
      fresh =
          λ u h. update_keeps s.threads t u printed (holding v) absent here (cc) (inv.fresh u h);
      small = inv.small;
      stored = inv.stored;
      waited =
          λ u h. update_keeps s.threads t u printed (holding v) printed here (cc) (inv.waited u h);
    }
Step-Inv {s} (Step.join i here lt done) inv = record {
  own = inv.own;
  fresh = λ t h. inv.fresh t (rw (ap made here) h);
  small = omega arith;
  stored = tt;
  waited = λ t h. elim (ℕ_discrete i t) [
    | yes same ↦ subst (λ u. s.threads u ≡ printed) same done
    | no other ↦ inv.waited t (subst (λ q. t < joined q) (sym here) (omega (arith, h, other)))
  ];
}
Step-Inv {s} (Step.return i here past) inv = record {
  own = inv.own;
  fresh = λ t h. inv.fresh t (rw (ap made here) h);
  small = omega arith;
  stored = tt;
  waited = λ t h. inv.waited t (subst (λ q. t < joined q) (sym here) (omega (arith, h, past)));
}

pub Reach-Inv : {s : Printing} → Reach s → Inv s
unfolding count
Reach-Inv Reach.begin = record {
  own = λ t. refl;
  fresh = λ t h. refl;
  small = omega arith;
  stored = tt;
  waited = λ t h. absurd (omega (arith, h));
}
Reach-Inv (Reach.next r step) = Step-Inv step (Reach-Inv r)

-- In every order of the threads' steps: where `main` has returned each index below five was printed
-- exactly once, and no other number.
pub each_once :
    {s : Printing} (n : ℕ)
    → Reach s
    → s.main ≡ returned
    → count n s.lines ≡ (if ltb n num_indices then 1 else 0)
each_once {s} n r here =
    let inv = Reach-Inv r in
    elim (Bool-cases (ltb n num_indices)) [
      | inl e ↦
          let done : s.threads n ≡ printed =
            inv.waited n (subst (λ q. n < joined q) (sym here) (ground (arith, e))) in
          rw e (subst (λ pc. Own n pc (s.t_id n) (count n s.lines)) done (inv.own n))
      | inr e ↦
          let none_made : s.threads n ≡ absent =
            inv.fresh n (subst (λ q. made q ≤ n) (sym here) (ground (arith, e))) in
          rw e (subst (λ pc. Own n pc (s.t_id n) (count n s.lines)) none_made (inv.own n))
    ]
