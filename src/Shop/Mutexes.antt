-- ===== src/Shop/Mutexes.antt =====
-- Who is in a store: the one thread that holds its mutex.
use mathlib.Core.Logic.{ite}
use hw.Prelude.{
  ℕ, suc, ◌+◌, ◌≤◌, ◌<◌, ◌≡◌, refl, ap, sym, ◌∙◌, Bool, true, false, arith, ℕ_discrete,
}
use hw.Prelude.Family.{update, total, total-update, total_const, total_single}
use hw.Shop.{
  num_customers, CustomerPc, LoaderPc, testing, trying, buying, leaving, satisfied, gone, looking,
  adding, parting, asking, stopped, Shop, Step, Reach,
}

abbrev one_if : ℕ → ℕ → ℕ
one_if i j = ite (ℕ_discrete i j) 1 0

-- Whether a customer, and the loader, is in store `j`.
abbrev pub inside : ℕ → CustomerPc → ℕ
inside j (buying i) = one_if i j
inside j (leaving i) = one_if i j
inside j _ = 0

abbrev pub loader_inside : ℕ → LoaderPc → ℕ
loader_inside j (adding i) = one_if i j
loader_inside j (parting i) = one_if i j
loader_inside j _ = 0

abbrev pub held : Bool → ℕ
held true = 1
held false = 0

-- A store's mutex is held by the threads in it.
abbrev pub Owned : Shop → Type 0
Owned s =
    (j : ℕ)
    → held (s.locked j) ≡ total (inside j) num_customers s.customers + loader_inside j s.loader

is_held : (b : Bool) → 1 ≤ held b → b ≡ true
is_held true h = refl
is_held false h = absurd (omega (arith, h))

held_small : (b : Bool) → held b ≤ 1
held_small true = omega arith
held_small false = omega arith

same_one : (i : ℕ) → one_if i i ≡ 1
same_one i = ground arith

-- A mutex taken, and one given back.
taken : (f : ℕ → Bool) (i j : ℕ) → f i ≡ false → held (update f i true j) ≡ held (f j) + one_if i j
taken f i j free =
    elim (ℕ_discrete i j) as (λ d. held (ite d true (f j)) ≡ held (f j) + ite d 1 0) [
      | yes same ↦ (let e : f j ≡ false = sym (ap f same) ∙ free in omega (arith, ap held e))
      | no other ↦ omega arith
    ]

freed : (f : ℕ → Bool) (i j : ℕ) → f i ≡ true → held (update f i false j) + one_if i j ≡ held (f j)
freed f i j full =
    elim (ℕ_discrete i j) as (λ d. held (ite d false (f j)) + ite d 1 0 ≡ held (f j)) [
      | yes same ↦ (let e : f j ≡ true = sym (ap f same) ∙ full in omega (arith, ap held e))
      | no other ↦ omega arith
    ]

-- A customer moves on, or the loader.
customer_moves :
    (s : Shop) (c : ℕ) (pc : CustomerPc) (locked : ℕ → Bool)
    → Owned s
    → c < num_customers
    → ((j : ℕ) → held (locked j) + inside j (s.customers c) ≡ held (s.locked j) + inside j pc)
    → (j : ℕ)
    → held (locked j)
      ≡ total (inside j) num_customers (update s.customers c pc) + loader_inside j s.loader
customer_moves s c pc locked own lt h j =
    omega (arith, own j, h j, total-update (inside j) num_customers s.customers c pc lt)

loader_moves :
    (s : Shop) (pc : LoaderPc) (locked : ℕ → Bool)
    → Owned s
    → ((j : ℕ)
        → held (locked j) + loader_inside j s.loader ≡ held (s.locked j) + loader_inside j pc)
    → (j : ℕ) → held (locked j) ≡ total (inside j) num_customers s.customers + loader_inside j pc
loader_moves s pc locked own h j = omega (arith, own j, h j)

Step-Owned : {s t : Shop} → Step s t → Owned s → Owned t
Step-Owned {s} (Step.shop c lt here more) own =
    customer_moves s c (trying 0) s.locked own lt (λ j. omega (arith, ap (inside j) here))
Step-Owned {s} (Step.enough c lt here met) own =
    customer_moves s c satisfied s.locked own lt (λ j. omega (arith, ap (inside j) here))
Step-Owned {s} (Step.enter c i lt here in_range free) own =
    customer_moves s c (buying i) (update s.locked i true) own lt
      (λ j. omega (arith, ap (inside j) here, taken s.locked i j free))
Step-Owned {s} (Step.busy c i lt here in_range full) own =
    customer_moves s c (trying (suc i)) s.locked own lt (λ j. omega (arith, ap (inside j) here))
Step-Owned {s} (Step.no_store c i lt here past) own =
    customer_moves s c testing s.locked own lt (λ j. omega (arith, ap (inside j) here))
Step-Owned {s} (Step.buy c i lt here) own =
    customer_moves s c (leaving i) s.locked own lt (λ j. omega (arith, ap (inside j) here))
Step-Owned {s} (Step.leave c i lt here) own =
    let full = is_held (s.locked i) (
      omega (
        arith,
        own i,
        same_one i,
        ap (inside i) here,
        total_single (inside i) num_customers s.customers c lt,
      )) in
    customer_moves s c testing (update s.locked i false) own lt
      (λ j. omega (arith, ap (inside j) here, freed s.locked i j full))
Step-Owned {s} (Step.return c lt here) own =
    customer_moves s c gone s.locked own lt (λ j. omega (arith, ap (inside j) here))
Step-Owned {s} (Step.enter_loader i here in_range free) own =
    loader_moves s (adding i) (update s.locked i true) own
      (λ j. omega (arith, ap (loader_inside j) here, taken s.locked i j free))
Step-Owned {s} (Step.busy_loader i here in_range full) own =
    loader_moves s (looking (suc i)) s.locked own (λ j. omega (arith, ap (loader_inside j) here))
Step-Owned {s} (Step.no_store_loader i here past) own =
    loader_moves s asking s.locked own (λ j. omega (arith, ap (loader_inside j) here))
Step-Owned {s} (Step.load i here fits) own =
    loader_moves s (parting i) s.locked own (λ j. omega (arith, ap (loader_inside j) here))
Step-Owned {s} (Step.leave_loader i here) own =
    let full = is_held (s.locked i) (omega (arith, own i, same_one i, ap (loader_inside i) here)) in
    loader_moves s asking (update s.locked i false) own
      (λ j. omega (arith, ap (loader_inside j) here, freed s.locked i j full))
Step-Owned {s} (Step.go_on here few) own =
    loader_moves s (looking 0) s.locked own (λ j. omega (arith, ap (loader_inside j) here))
Step-Owned {s} (Step.stop here enough) own =
    loader_moves s stopped s.locked own (λ j. omega (arith, ap (loader_inside j) here))

pub Reach-Owned : {goods wants : ℕ → ℕ} {s : Shop} → Reach goods wants s → Owned s
Reach-Owned Reach.begin = λ j. omega (arith, total_const (inside j) num_customers testing refl)
Reach-Owned (Reach.next r step) = Step-Owned step (Reach-Owned r)

-- In every reachable state at most one of the customers and the loader is in a store: the threads
-- there are as many as its mutex is held, which is once at most.
pub one_in_store :
    {goods wants : ℕ → ℕ} {s : Shop} (j : ℕ)
    → Reach goods wants s
    → total (inside j) num_customers s.customers + loader_inside j s.loader ≤ 1
one_in_store {s} j r = omega (arith, Reach-Owned r j, held_small (s.locked j))
