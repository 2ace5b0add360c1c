-- ===== src/Shop.antt =====
-- pthread/task3.c: customers that empty stores until their need is met, and a loader that fills
-- them. A step is one call on a mutex, or one critical section's body, which no other thread can
-- see half done.
pub mod Stock
pub mod Conservation
pub mod Mutexes
pub mod Main
pub mod Progress
mod Tests
use hw.Prelude.{ℕ, zero, suc, ◌+◌, ◌%◌, ◌≤◌, ◌<◌, ◌≡◌, Bool, true, false, ltb}
use hw.Prelude.Int.{ℤ, pos, negsuc, ◌-ℤ◌}
use hw.Prelude.Family.{update}
use hw.Stdio.{int_max}

abbrev pub num_stores : ℕ
num_stores = 5

abbrev pub num_customers : ℕ
num_customers = 3

abbrev pub store_capacity : ℕ
store_capacity = 10000

abbrev pub loader_increment : ℕ
loader_increment = 5000

-- Where a customer stands in `customer_thread`.
pub data CustomerPc : Type 0 where
  testing : CustomerPc  -- the test of the `while`
  trying : ℕ → CustomerPc  -- the `for` loop at this store, before the test of its bound
  buying : ℕ → CustomerPc  -- the store's mutex held
  leaving : ℕ → CustomerPc  -- before the mutex is unlocked
  satisfied : CustomerPc  -- behind the loop
  gone : CustomerPc  -- returned

-- Where the loader stands in `loader_thread`.
pub data LoaderPc : Type 0 where
  looking : ℕ → LoaderPc  -- the `for` loop at this store, before the test of its bound
  adding : ℕ → LoaderPc  -- the store's mutex held
  parting : ℕ → LoaderPc  -- before the mutex is unlocked
  asking : LoaderPc  -- before it looks at `satisfied_customers`
  stopped : LoaderPc  -- returned

-- `bought` and `loads` record what each customer took in all, and how often the loader added to a
-- store. The code does not store them.
pub record Shop : Type 0 where
  pub stores : ℕ → ℕ
  pub locked : ℕ → Bool
  pub need : ℕ → ℤ
  pub customers : ℕ → CustomerPc
  pub loader : LoaderPc
  pub satisfied_customers : ℕ
  pub bought : ℕ → ℕ
  pub loads : ℕ

abbrev pub is_positive : ℤ → Bool
is_positive (pos n) = ltb 0 n
is_positive (negsuc n) = false

abbrev pub at : Shop → ℕ → CustomerPc → Shop
at s c pc = record s { customers = update s.customers c pc }

pub data Step (s : Shop) : Shop → Type 0 where
  shop :
      (c : ℕ)
      → c < num_customers
      → s.customers c ≡ testing
      → is_positive (s.need c) ≡ true
      → Step s (at s c (trying 0))
  enough :
      (c : ℕ)
      → c < num_customers
      → s.customers c ≡ testing
      → is_positive (s.need c) ≡ false
      → Step s (at s c satisfied)
  -- `pthread_mutex_trylock` takes a free mutex and fails on one that is held.
  enter :
      (c i : ℕ)
      → c < num_customers
      → s.customers c ≡ trying i
      → i < num_stores
      → s.locked i ≡ false
      → Step s (record s {
        customers = update s.customers c (buying i);
        locked = update s.locked i true;
      })
  busy :
      (c i : ℕ)
      → c < num_customers
      → s.customers c ≡ trying i
      → i < num_stores
      → s.locked i ≡ true
      → Step s (at s c (trying (suc i)))
  no_store :
      (c i : ℕ)
      → c < num_customers
      → s.customers c ≡ trying i
      → num_stores ≤ i
      → Step s (at s c testing)
  buy :
      (c i : ℕ)
      → c < num_customers
      → s.customers c ≡ buying i
      → Step s (record s {
        customers = update s.customers c (leaving i);
        need = update s.need c (s.need c -ℤ pos (s.stores i));
        stores = update s.stores i 0;
        bought = update s.bought c (s.bought c + s.stores i);
      })
  leave :
      (c i : ℕ)
      → c < num_customers
      → s.customers c ≡ leaving i
      → Step s
          (record s { customers = update s.customers c testing; locked = update s.locked i false })
  -- The critical section of `satisfied_customers_mutex`, which is held for this alone.
  return :
      (c : ℕ)
      → c < num_customers
      → s.customers c ≡ satisfied
      → Step s (record s {
        customers = update s.customers c gone;
        satisfied_customers = suc s.satisfied_customers;
      })
  enter_loader :
      (i : ℕ)
      → s.loader ≡ looking i
      → i < num_stores
      → s.locked i ≡ false
      → Step s (record s { loader = adding i; locked = update s.locked i true })
  busy_loader :
      (i : ℕ)
      → s.loader ≡ looking i
      → i < num_stores
      → s.locked i ≡ true
      → Step s (record s { loader = looking (suc i) })
  no_store_loader :
      (i : ℕ) → s.loader ≡ looking i → num_stores ≤ i → Step s (record s { loader = asking })
  -- A sum that does not fit `int` is undefined behaviour: no step.
  load :
      (i : ℕ)
      → s.loader ≡ adding i
      → s.stores i + loader_increment ≤ int_max
      → Step s (record s {
        loader = parting i;
        stores = update s.stores i (s.stores i + loader_increment);
        loads = suc s.loads;
      })
  leave_loader :
      (i : ℕ)
      → s.loader ≡ parting i
      → Step s (record s { loader = asking; locked = update s.locked i false })
  go_on :
      s.loader ≡ asking
      → s.satisfied_customers < num_customers
      → Step s (record s { loader = looking 0 })
  stop :
      s.loader ≡ asking
      → num_customers ≤ s.satisfied_customers
      → Step s (record s { loader = stopped })

-- `main` behind its initialisation, with the values that `rand` returned for the stores and for the
-- customers.
abbrev pub start : (ℕ → ℕ) → (ℕ → ℕ) → Shop
start goods wants = record {
  stores = λ i. goods i % store_capacity;
  locked = λ i. false;
  need = λ c. pos (wants c % 100000);
  customers = λ c. testing;
  loader = looking 0;
  satisfied_customers = 0;
  bought = λ c. 0;
  loads = 0;
}

pub data Reach (goods wants : ℕ → ℕ) : Shop → Type 0 where
  begin : Reach goods wants (start goods wants)
  next : {s t : Shop} → Reach goods wants s → Step s t → Reach goods wants t

-- Where `main` stands behind the creation of its threads, with the `i` of its loops. Every
-- `pthread_create` succeeds.
pub data MainPc : Type 0 where
  joining : ℕ → MainPc  -- the loop that joins the customers
  awaiting : MainPc  -- before the loader is joined
  destroying : ℕ → MainPc  -- the loop that destroys the stores' mutexes
  returned : MainPc

pub record Program : Type 0 where
  pub shop : Shop
  pub main : MainPc
  pub destroyed : ℕ → Bool

pub data Run (w : Program) : Program → Type 0 where
  thread : (s : Shop) → Step w.shop s → Run w (record w { shop = s })
  -- `pthread_join` waits for the thread's end.
  join :
      (i : ℕ)
      → w.main ≡ joining i
      → i < num_customers
      → w.shop.customers i ≡ gone
      → Run w (record w { main = joining (suc i) })
  all_joined :
      (i : ℕ) → w.main ≡ joining i → num_customers ≤ i → Run w (record w { main = awaiting })
  join_loader :
      w.main ≡ awaiting → w.shop.loader ≡ stopped → Run w (record w { main = destroying 0 })
  destroy :
      (i : ℕ)
      → w.main ≡ destroying i
      → i < num_stores
      → Run w (record w { main = destroying (suc i); destroyed = update w.destroyed i true })
  return : (i : ℕ) → w.main ≡ destroying i → num_stores ≤ i → Run w (record w { main = returned })

pub data Runs (goods wants : ℕ → ℕ) : Program → Type 0 where
  created :
      Runs goods wants
        (record { shop = start goods wants; main = joining 0; destroyed = λ i. false })
  more : {w v : Program} → Runs goods wants w → Run w v → Runs goods wants v
