-- ===== src/Shop/Tests.antt =====
-- A run of the shop, and its theorems there.
use hw.Prelude.{ℕ, zero, suc, ◌≤◌, Bool, ◌+◌, ◌*◌, ◌≡◌, refl, true, false, arith, ℕ_discrete}
use hw.Prelude.Int.{pos, ◌-ℤ◌}
use hw.Prelude.Family.{update, total}
use hw.Shop.{
  num_stores, num_customers, loader_increment, Shop, Step, start, Reach, testing, trying, buying,
  leaving, satisfied, gone, stopped, at,
}
use hw.Shop.{MainPc, Program}
use hw.Shop.Mutexes.{inside, loader_inside, one_in_store}
use hw.Shop.Stock.{goods_in}
use hw.Shop.Conservation.{goods_conserved}

abbrev goods : ℕ → ℕ
goods i = 700

abbrev wants : ℕ → ℕ
wants c = 600

-- Nobody needs anything.
abbrev nothing : ℕ → ℕ
nothing c = 0

abbrev shopped : Shop
shopped = at (start goods wants) 1 (trying 0)

abbrev entered : Shop
entered = record shopped {
  customers = update shopped.customers 1 (buying 0);
  locked = update shopped.locked 0 true;
}

abbrev bought : Shop
bought = record entered {
  customers = update entered.customers 1 (leaving 0);
  need = update entered.need 1 (entered.need 1 -ℤ pos (entered.stores 0));
  stores = update entered.stores 0 0;
  bought = update entered.bought 1 (entered.bought 1 + entered.stores 0);
}

abbrev left : Shop
left = record bought {
  customers = update bought.customers 1 testing;
  locked = update bought.locked 0 false;
}

abbrev returned : Shop
returned = record (at left 1 satisfied) {
  customers = update (at left 1 satisfied).customers 1 gone;
  satisfied_customers = 1;
}

entered-Reach : Reach goods wants entered
unfolding ℕ_discrete
entered-Reach =
    Reach.next (Reach.next Reach.begin (Step.shop 1 (omega arith) refl refl))
      (Step.enter 1 0 (omega arith) refl (omega arith) refl)

returned-Reach : Reach goods wants returned
unfolding ℕ_discrete ◌-ℤ◌
returned-Reach =
    Reach.next
      (Reach.next
        (Reach.next (Reach.next entered-Reach (Step.buy 1 0 (omega arith) refl))
          (Step.leave 1 0 (omega arith) refl))
        (Step.enough 1 (omega arith) refl refl))
      (Step.return 1 (omega arith) refl)

goods_conserved_example :
    goods_in num_stores returned.stores + goods_in num_customers returned.bought
    ≡ goods_in num_stores (start goods wants).stores + loader_increment * 0
goods_conserved_example = goods_conserved returned-Reach

-- One customer after another is satisfied at once and returns.
abbrev after : Shop → ℕ → Shop
after s c = record (at s c satisfied) {
  customers = update (at s c satisfied).customers c gone;
  satisfied_customers = suc s.satisfied_customers;
}

abbrev all_returned : Shop
all_returned = after (after (after (start goods nothing) 0) 1) 2

abbrev over : Shop
over = record all_returned {
  stores = update all_returned.stores 0 (all_returned.stores 0 + loader_increment);
  locked = update (update all_returned.locked 0 true) 0 false;
  loader = stopped;
  loads = 1;
}

one_in_store_example :
    total (inside 0) num_customers entered.customers + loader_inside 0 entered.loader ≤ 1
one_in_store_example = one_in_store 0 entered-Reach

abbrev wiped : ℕ → (ℕ → Bool)
wiped zero = λ i. false
wiped (suc n) = update (wiped n) n true

abbrev closed : Program
closed = record { shop = over; main = MainPc.returned; destroyed = wiped 5 }
