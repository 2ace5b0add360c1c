-- ===== src/Shop/Main.antt =====
-- What holds where `main` ends.
use mathlib.Core.Path.{subst}
use mathlib.Core.Logic.{ite}
use hw.Prelude.{
  ℕ, zero, suc, ◌%◌, ◌≤◌, ◌<◌, ◌≡◌, refl, ap, sym, Bool, true, false, arith, ℕ_discrete,
}
use hw.Prelude.Family.{update_keeps, total}
use hw.Shop.{
  num_stores, num_customers, CustomerPc, LoaderPc, testing, trying, buying, leaving, satisfied,
  gone, stopped, Shop, Step, Reach, MainPc, joining, awaiting, destroying, returned, Program, Run,
  Runs,
}
use hw.Shop.Conservation.{gone_served}
use hw.Shop.Mutexes.{inside, loader_inside, held, Reach-Owned}

Step-gone : {s t : Shop} (j : ℕ) → Step s t → s.customers j ≡ gone → t.customers j ≡ gone
Step-gone {s} j (Step.shop c lt here more) h =
    update_keeps s.customers c j (trying 0) testing gone here (cc) h
Step-gone {s} j (Step.enough c lt here met) h =
    update_keeps s.customers c j satisfied testing gone here (cc) h
Step-gone {s} j (Step.enter c i lt here in_range free) h =
    update_keeps s.customers c j (buying i) (trying i) gone here (cc) h
Step-gone {s} j (Step.busy c i lt here in_range full) h =
    update_keeps s.customers c j (trying (suc i)) (trying i) gone here (cc) h
Step-gone {s} j (Step.no_store c i lt here past) h =
    update_keeps s.customers c j testing (trying i) gone here (cc) h
Step-gone {s} j (Step.buy c i lt here) h =
    update_keeps s.customers c j (leaving i) (buying i) gone here (cc) h
Step-gone {s} j (Step.leave c i lt here) h =
    update_keeps s.customers c j testing (leaving i) gone here (cc) h
Step-gone {s} j (Step.return c lt here) h =
    update_keeps s.customers c j gone satisfied gone here (cc) h
Step-gone j (Step.enter_loader i here in_range free) h = h
Step-gone j (Step.busy_loader i here in_range full) h = h
Step-gone j (Step.no_store_loader i here past) h = h
Step-gone j (Step.load i here fits) h = h
Step-gone j (Step.leave_loader i here) h = h
Step-gone j (Step.go_on here few) h = h
Step-gone j (Step.stop here enough) h = h

Step-stopped : {s t : Shop} → Step s t → s.loader ≡ stopped → t.loader ≡ stopped
Step-stopped (Step.enter_loader i here in_range free) h = cc (here, h)
Step-stopped (Step.busy_loader i here in_range full) h = cc (here, h)
Step-stopped (Step.no_store_loader i here past) h = cc (here, h)
Step-stopped (Step.load i here fits) h = cc (here, h)
Step-stopped (Step.leave_loader i here) h = cc (here, h)
Step-stopped (Step.go_on here few) h = cc (here, h)
Step-stopped (Step.stop here enough) h = refl
Step-stopped (Step.shop c lt here more) h = h
Step-stopped (Step.enough c lt here met) h = h
Step-stopped (Step.enter c i lt here in_range free) h = h
Step-stopped (Step.busy c i lt here in_range full) h = h
Step-stopped (Step.no_store c i lt here past) h = h
Step-stopped (Step.buy c i lt here) h = h
Step-stopped (Step.leave c i lt here) h = h
Step-stopped (Step.return c lt here) h = h

-- How many customers `main` has joined, whether it has joined the loader, and how many mutexes it
-- has destroyed.
abbrev pub joined : MainPc → ℕ
joined (joining i) = i
joined _ = num_customers

abbrev pub Stopped : MainPc → LoaderPc → Type 0
Stopped (destroying i) pc = pc ≡ stopped
Stopped returned pc = pc ≡ stopped
Stopped _ pc = Unit

abbrev pub cleared : MainPc → ℕ
cleared (destroying i) = i
cleared returned = num_stores
cleared _ = 0

pub record Sound (goods wants : ℕ → ℕ) (w : Program) : Type 0 where
  pub reached : Reach goods wants w.shop
  pub waited : (c : ℕ) → c < joined w.main → c < num_customers → w.shop.customers c ≡ gone
  pub over : Stopped w.main w.shop.loader
  pub wiped : (j : ℕ) → j < cleared w.main → j < num_stores → w.destroyed j ≡ true

Stopped-Step : (m : MainPc) {s t : Shop} → Step s t → Stopped m s.loader → Stopped m t.loader
Stopped-Step (joining i) step h = tt
Stopped-Step awaiting step h = tt
Stopped-Step (destroying i) step h = Step-stopped step h
Stopped-Step returned step h = Step-stopped step h

Run-Sound :
    {goods wants : ℕ → ℕ} {w v : Program} → Run w v → Sound goods wants w → Sound goods wants v
Run-Sound {w} (Run.thread s step) h = record {
  reached = Reach.next h.reached step;
  waited = λ c l m. Step-gone c step (h.waited c l m);
  over = Stopped-Step w.main step h.over;
  wiped = h.wiped;
}
Run-Sound {w} (Run.join i here lt done) h = record {
  reached = h.reached;
  waited = λ c l m. elim (ℕ_discrete i c) [
    | yes same ↦ subst (λ u. w.shop.customers u ≡ gone) same done
    | no other ↦ h.waited c (subst (λ q. c < joined q) (sym here) (omega (arith, l, other))) m
  ];
  over = tt;
  wiped = λ j l m. absurd (omega (arith, l));
}
Run-Sound {w} (Run.all_joined i here past) h = record {
  reached = h.reached;
  waited = λ c l m. h.waited c (subst (λ q. c < joined q) (sym here) (omega (arith, m, past))) m;
  over = tt;
  wiped = λ j l m. absurd (omega (arith, l));
}
Run-Sound {w} (Run.join_loader here done) h = record {
  reached = h.reached;
  waited = λ c l m. h.waited c (subst (λ q. c < joined q) (sym here) m) m;
  over = done;
  wiped = λ j l m. absurd (omega (arith, l));
}
Run-Sound {w} (Run.destroy i here lt) h = record {
  reached = h.reached;
  waited = λ c l m. h.waited c (subst (λ q. c < joined q) (sym here) m) m;
  over = subst (λ q. Stopped q w.shop.loader) here h.over;
  wiped = λ j l m. elim (ℕ_discrete i j) as (λ d. ite d true (w.destroyed j) ≡ true) [
    | yes same ↦ refl
    | no other ↦ h.wiped j (subst (λ q. j < cleared q) (sym here) (omega (arith, l, other))) m
  ];
}
Run-Sound {w} (Run.return i here past) h = record {
  reached = h.reached;
  waited = λ c l m. h.waited c (subst (λ q. c < joined q) (sym here) m) m;
  over = subst (λ q. Stopped q w.shop.loader) here h.over;
  wiped = λ j l m. h.wiped j (subst (λ q. j < cleared q) (sym here) (omega (arith, m, past))) m;
}

pub Runs-Sound : {goods wants : ℕ → ℕ} {w : Program} → Runs goods wants w → Sound goods wants w
Runs-Sound Runs.created = record {
  reached = Reach.begin;
  waited = λ c l m. absurd (omega (arith, l));
  over = tt;
  wiped = λ j l m. absurd (omega (arith, l));
}
Runs-Sound (Runs.more r step) = Run-Sound step (Runs-Sound r)

not_held : (b : Bool) → held b ≡ 0 → b ≡ false
not_held true h = absurd (omega (arith, h))
not_held false h = refl

-- With all threads gone no mutex is held.
none_inside :
    (n j : ℕ) (f : ℕ → CustomerPc) → ((c : ℕ) → c < n → f c ≡ gone) → total (inside j) n f ≡ 0
unfolding total
none_inside zero j f all = refl
none_inside (suc n) j f all = omega (
  arith,
  none_inside n j f (λ c l. all c (omega (arith, l))),
  ap (inside j) (all n (omega arith)),
)

pub all_free :
    {goods wants : ℕ → ℕ} {s : Shop} (j : ℕ)
    → Reach goods wants s
    → ((c : ℕ) → c < num_customers → s.customers c ≡ gone)
    → s.loader ≡ stopped
    → s.locked j ≡ false
all_free {s} j r all over = not_held (s.locked j) (
    omega (
      arith,
      Reach-Owned r j,
      none_inside num_customers j s.customers all,
      ap (loader_inside j) over,
    ))

-- Where `main` destroys the mutexes, every thread has returned and no mutex is held.
pub destroys_free :
    {goods wants : ℕ → ℕ} {w : Program} (i j : ℕ)
    → Runs goods wants w
    → w.main ≡ destroying i
    → w.shop.locked j ≡ false
destroys_free {w} i j r here =
    let h = Runs-Sound r in
    all_free j h.reached (λ c m. h.waited c (subst (λ q. c < joined q) (sym here) m) m)
      (subst (λ q. Stopped q w.shop.loader) here h.over)

-- Where `main` has returned, every customer has taken what it needed at least, the loader has
-- stopped, and every store's mutex was destroyed and is held by nobody.
pub main_serves :
    {goods wants : ℕ → ℕ} {w : Program} (c j : ℕ)
    → Runs goods wants w
    → w.main ≡ returned
    → c < num_customers
    → j < num_stores
    → (wants c % 100000 ≤ w.shop.bought c)
      × (w.shop.loader ≡ stopped)
      × (w.destroyed j ≡ true)
      × (w.shop.locked j ≡ false)
main_serves {w} c j r here lt in_range =
    let h = Runs-Sound r in
    let all : (d : ℕ) → d < num_customers → w.shop.customers d ≡ gone =
      λ d m. h.waited d (subst (λ q. d < joined q) (sym here) m) m in
    let over = subst (λ q. Stopped q w.shop.loader) here h.over in
    (
      gone_served c h.reached (all c lt),
      over,
      h.wiped j (subst (λ q. j < cleared q) (sym here) in_range) in_range,
      all_free j h.reached all over,
    )
