-- ===== src/Shop/Stock.antt =====
-- The invariant of the shop, kept by every step.
use mathlib.Core.Path.{subst}
use mathlib.Core.Logic.{ite}
use hw.Prelude.{
  ℕ, suc, ◌+◌, ◌*◌, ◌%◌, ◌≤◌, ◌<◌, ◌≡◌, refl, ap, Bool, true, false, arith, ℕ_discrete,
}
use hw.Prelude.Int.{ℤ, pos, ◌+ℤ◌, ◌-ℤ◌, int_laws}
use hw.Prelude.Family.{update, total, total-update, total_const}
use hw.Shop.{
  num_stores, num_customers, loader_increment, CustomerPc, LoaderPc, testing, trying, buying,
  leaving, satisfied, gone, looking, adding, parting, asking, stopped, Shop, is_positive, Step,
  start, Reach,
}

abbrev pub goods_in : ℕ → (ℕ → ℕ) → ℕ
goods_in n f = total (λ x. x) n f

abbrev pub is_gone : CustomerPc → ℕ
is_gone gone = 1
is_gone _ = 0

-- A store whose mutex is held exists.
abbrev pub InRange : CustomerPc → Type 0
InRange (buying i) = i < num_stores
InRange _ = Unit

abbrev pub LoaderInRange : LoaderPc → Type 0
LoaderInRange (adding i) = i < num_stores
LoaderInRange _ = Unit

-- A customer behind its loop needs nothing more.
abbrev pub IsServed : CustomerPc → ℤ → Type 0
IsServed satisfied n = is_positive n ≡ false
IsServed gone n = is_positive n ≡ false
IsServed _ n = Unit

abbrev pub LoaderLast : LoaderPc → ℕ → Type 0
LoaderLast stopped n = num_customers ≤ n
LoaderLast _ n = Unit

pub record Inv (goods wants : ℕ → ℕ) (s : Shop) : Type 0 where
  pub conserved :
      goods_in num_stores s.stores + goods_in num_customers s.bought
      ≡ goods_in num_stores (start goods wants).stores + loader_increment * s.loads
  pub needs : (c : ℕ) → s.need c +ℤ pos (s.bought c) ≡ pos (wants c % 100000)
  pub counted : s.satisfied_customers ≡ total is_gone num_customers s.customers
  pub ranged : (c : ℕ) → InRange (s.customers c)
  pub loader_ranged : LoaderInRange s.loader
  pub served : (c : ℕ) → IsServed (s.customers c) (s.need c)
  pub last : LoaderLast s.loader s.satisfied_customers

pub update_all :
    {A : Type 0} (P : ℕ → A → Type 0) (f : ℕ → A) (i : ℕ) (a : A)
    → P i a
    → ((j : ℕ) → P j (f j))
    → (j : ℕ) → P j (update f i a j)
update_all P f i a here rest j = elim (ℕ_discrete i j) as (λ d. P j (ite d a (f j))) [
  | yes same ↦ subst (λ t. P t a) same here
  | no other ↦ rest j
]

pub need_less : (a : ℤ) (b g : ℕ) {w : ℤ} → a +ℤ pos b ≡ w → (a -ℤ pos g) +ℤ pos (b + g) ≡ w
need_less a b g h = rw (← h) (omega int_laws)

module _ (goods wants : ℕ → ℕ) (s : Shop) (inv : Inv goods wants s) where
  -- A customer moves on, and at most a mutex changes.
  moves :
      (c : ℕ) (pc : CustomerPc) (locked : ℕ → Bool)
      → c < num_customers
      → is_gone pc ≡ is_gone (s.customers c)
      → InRange pc
      → IsServed pc (s.need c)
      → Inv goods wants (record s { customers = update s.customers c pc; locked = locked })
  moves c pc locked lt same range sated = record {
    conserved = inv.conserved;
    needs = inv.needs;
    counted =
        omega (arith, inv.counted, total-update is_gone num_customers s.customers c pc lt, same);
    ranged = update_all (λ j q. InRange q) s.customers c pc range inv.ranged;
    loader_ranged = inv.loader_ranged;
    served = update_all (λ j q. IsServed q (s.need j)) s.customers c pc sated inv.served;
    last = inv.last;
  }

  -- The loader moves on, and at most a mutex changes.
  loader_moves :
      (pc : LoaderPc) (locked : ℕ → Bool)
      → LoaderInRange pc
      → LoaderLast pc s.satisfied_customers
      → Inv goods wants (record s { loader = pc; locked = locked })
  loader_moves pc locked range late = record {
    conserved = inv.conserved;
    needs = inv.needs;
    counted = inv.counted;
    ranged = inv.ranged;
    loader_ranged = range;
    served = inv.served;
    last = late;
  }

  buys :
      (c i : ℕ)
      → c < num_customers
      → s.customers c ≡ buying i
      → Inv goods wants (record s {
        customers = update s.customers c (leaving i);
        need = update s.need c (s.need c -ℤ pos (s.stores i));
        stores = update s.stores i 0;
        bought = update s.bought c (s.bought c + s.stores i);
      })
  buys c i lt here =
      let inside : i < num_stores = subst InRange here (inv.ranged c) in
      record {
        conserved = omega (
          arith,
          inv.conserved,
          total-update (λ x. x) num_stores s.stores i 0 inside,
          total-update (λ x. x) num_customers s.bought c (s.bought c + s.stores i) lt,
        );
        needs = λ d. needs_kept d;
        counted = omega (
          arith,
          inv.counted,
          total-update is_gone num_customers s.customers c (leaving i) lt,
          ap is_gone here,
        );
        ranged = update_all (λ j q. InRange q) s.customers c (leaving i) tt inv.ranged;
        loader_ranged = inv.loader_ranged;
        served = served_kept;
        last = inv.last;
      }
    where
      needs_kept :
          (d : ℕ)
          → update s.need c (s.need c -ℤ pos (s.stores i)) d
              +ℤ pos (update s.bought c (s.bought c + s.stores i) d)
            ≡ pos (wants d % 100000)
      needs_kept d =
          elim (ℕ_discrete c d)
            as (λ t.
              ite t (s.need c -ℤ pos (s.stores i)) (s.need d)
                +ℤ pos (ite t (s.bought c + s.stores i) (s.bought d))
              ≡ pos (wants d % 100000)) [
                | yes same ↦
                    subst
                      (λ t.
                        (s.need c -ℤ pos (s.stores i)) +ℤ pos (s.bought c + s.stores i)
                        ≡ pos (wants t % 100000))
                      same (need_less (s.need c) (s.bought c) (s.stores i) (inv.needs c))
                | no other ↦ inv.needs d
              ]

      served_kept :
          (d : ℕ)
          → IsServed
              (update s.customers c (leaving i) d)
              (update s.need c (s.need c -ℤ pos (s.stores i)) d)
      served_kept d =
          elim (ℕ_discrete c d)
            as (λ t.
              IsServed (ite t (leaving i) (s.customers d))
                (ite t (s.need c -ℤ pos (s.stores i)) (s.need d))) [
                  | yes same ↦ tt
                  | no other ↦ inv.served d
                ]

pub start-Inv : (goods wants : ℕ → ℕ) → Inv goods wants (start goods wants)
start-Inv goods wants = record {
  conserved = omega (arith, total_const (λ x. x) num_customers 0 refl);
  needs = λ c. omega int_laws;
  counted = omega (arith, total_const is_gone num_customers testing refl);
  ranged = λ c. tt;
  loader_ranged = tt;
  served = λ c. tt;
  last = tt;
}

pub Step-Inv : (goods wants : ℕ → ℕ) {s t : Shop} → Step s t → Inv goods wants s → Inv goods wants t
Step-Inv goods wants {s} (Step.shop c lt here more) inv =
    moves goods wants s inv c (trying 0) s.locked lt (rw here) tt tt
Step-Inv goods wants {s} (Step.enough c lt here met) inv =
    moves goods wants s inv c satisfied s.locked lt (rw here) tt met
Step-Inv goods wants {s} (Step.enter c i lt here inside free) inv =
    moves goods wants s inv c (buying i) (update s.locked i true) lt (rw here) inside tt
Step-Inv goods wants {s} (Step.busy c i lt here inside held) inv =
    moves goods wants s inv c (trying (suc i)) s.locked lt (rw here) tt tt
Step-Inv goods wants {s} (Step.no_store c i lt here past) inv =
    moves goods wants s inv c testing s.locked lt (rw here) tt tt
Step-Inv goods wants {s} (Step.buy c i lt here) inv = buys goods wants s inv c i lt here
Step-Inv goods wants {s} (Step.leave c i lt here) inv =
    moves goods wants s inv c testing (update s.locked i false) lt (rw here) tt tt
Step-Inv goods wants {s} (Step.return c lt here) inv = record {
  conserved = inv.conserved;
  needs = inv.needs;
  counted = omega (
    arith,
    inv.counted,
    total-update is_gone num_customers s.customers c gone lt,
    ap is_gone here,
  );
  ranged = update_all (λ j q. InRange q) s.customers c gone tt inv.ranged;
  loader_ranged = inv.loader_ranged;
  served =
      update_all (λ j q. IsServed q (s.need j)) s.customers c gone
        (subst (λ q. IsServed q (s.need c)) here (inv.served c)) inv.served;
  last = later s.loader inv.last;
}
  where
    later :
        (pc : LoaderPc)
        → LoaderLast pc s.satisfied_customers
        → LoaderLast pc (suc s.satisfied_customers)
    later (looking i) h = tt
    later (adding i) h = tt
    later (parting i) h = tt
    later asking h = tt
    later stopped h = omega arith
Step-Inv goods wants {s} (Step.enter_loader i here inside free) inv =
    loader_moves goods wants s inv (adding i) (update s.locked i true) inside tt
Step-Inv goods wants {s} (Step.busy_loader i here inside held) inv =
    loader_moves goods wants s inv (looking (suc i)) s.locked tt tt
Step-Inv goods wants {s} (Step.no_store_loader i here past) inv =
    loader_moves goods wants s inv asking s.locked tt tt
Step-Inv goods wants {s} (Step.load i here fits) inv = record {
  conserved = omega (
    arith,
    inv.conserved,
    total-update (λ x. x) num_stores s.stores i (s.stores i + loader_increment)
        (subst LoaderInRange here inv.loader_ranged),
  );
  needs = inv.needs;
  counted = inv.counted;
  ranged = inv.ranged;
  loader_ranged = tt;
  served = inv.served;
  last = tt;
}
Step-Inv goods wants {s} (Step.leave_loader i here) inv =
    loader_moves goods wants s inv asking (update s.locked i false) tt tt
Step-Inv goods wants {s} (Step.go_on here few) inv =
    loader_moves goods wants s inv (looking 0) s.locked tt tt
Step-Inv goods wants {s} (Step.stop here enough) inv =
    loader_moves goods wants s inv stopped s.locked tt enough

pub Reach-Inv : {goods wants : ℕ → ℕ} {s : Shop} → Reach goods wants s → Inv goods wants s
Reach-Inv {goods} {wants} Reach.begin = start-Inv goods wants
Reach-Inv {goods} {wants} (Reach.next r step) = Step-Inv goods wants step (Reach-Inv r)
