-- ===== src/Shop/Conservation.antt =====
-- What the shop keeps: its goods, the needs of its customers, and the count of those satisfied.
use mathlib.Core.Path.{subst}
use hw.Prelude.{ℕ, zero, suc, ◌+◌, ◌*◌, ◌%◌, ◌≤◌, ◌<◌, ◌≡◌, refl, ap, false, arith, ℕ_discrete}
use hw.Prelude.Int.{ℤ, pos, negsuc, pos_part, neg_part, ◌+ℤ◌, int_laws}
use hw.Prelude.Family.{total}
use hw.Shop.{
  num_stores, num_customers, loader_increment, CustomerPc, testing, trying, buying, leaving,
  satisfied, gone, stopped, Shop, is_positive, start, Reach,
}
use hw.Shop.Stock.{goods_in, is_gone, IsServed, LoaderLast, Reach-Inv}

positive_part : (a : ℤ) → is_positive a ≡ false → pos_part a ≡ 0
positive_part (pos n) h = ground arith
positive_part (negsuc n) h = refl

not_positive : (a : ℤ) (b : ℕ) {w : ℕ} → is_positive a ≡ false → a +ℤ pos b ≡ pos w → w ≤ b
not_positive a b h e = omega (int_laws, positive_part a h, ap pos_part e, ap neg_part e)

is_gone_small : (pc : CustomerPc) → is_gone pc ≤ 1
is_gone_small testing = omega arith
is_gone_small (trying i) = omega arith
is_gone_small (buying i) = omega arith
is_gone_small (leaving i) = omega arith
is_gone_small satisfied = omega arith
is_gone_small gone = omega arith

is_gone_one : (pc : CustomerPc) → is_gone pc ≡ 1 → pc ≡ gone
is_gone_one testing h = absurd (omega arith)
is_gone_one (trying i) h = absurd (omega arith)
is_gone_one (buying i) h = absurd (omega arith)
is_gone_one (leaving i) h = absurd (omega arith)
is_gone_one satisfied h = absurd (omega arith)
is_gone_one gone h = refl

gone_at_most : (n : ℕ) (f : ℕ → CustomerPc) → total is_gone n f ≤ n
unfolding total
gone_at_most zero f = omega arith
gone_at_most (suc n) f = omega (arith, gone_at_most n f, is_gone_small (f n))

all_gone : (n : ℕ) (f : ℕ → CustomerPc) (c : ℕ) → n ≤ total is_gone n f → c < n → is_gone (f c) ≡ 1
unfolding total
all_gone zero f c many lt = absurd (omega arith)
all_gone (suc n) f c many lt = elim (ℕ_discrete c n) [
  | yes last ↦ rw last (omega (arith, gone_at_most n f, is_gone_small (f n)))
  | no earlier ↦ all_gone n f c (omega (arith, gone_at_most n f, is_gone_small (f n))) (omega arith)
]

-- In every reachable state the goods in the stores and those that the customers took are the goods
-- at the start and what the loader brought.
pub goods_conserved :
    {goods wants : ℕ → ℕ} {s : Shop}
    → Reach goods wants s
    → goods_in num_stores s.stores + goods_in num_customers s.bought
      ≡ goods_in num_stores (start goods wants).stores + loader_increment * s.loads
goods_conserved r = (Reach-Inv r).conserved

-- In every reachable state a customer that has returned took at least what it needed at the start.
pub gone_served :
    {goods wants : ℕ → ℕ} {s : Shop} (c : ℕ)
    → Reach goods wants s
    → s.customers c ≡ gone
    → wants c % 100000 ≤ s.bought c
gone_served {wants} {s} c r here =
    let met : is_positive (s.need c) ≡ false =
      subst (λ q. IsServed q (s.need c)) here ((Reach-Inv r).served c) in
    not_positive (s.need c) (s.bought c) met ((Reach-Inv r).needs c)

-- In every reachable state in which the loader has stopped, every customer has returned.
pub loader_stops_last :
    {goods wants : ℕ → ℕ} {s : Shop} (c : ℕ)
    → Reach goods wants s
    → s.loader ≡ stopped
    → c < num_customers
    → s.customers c ≡ gone
loader_stops_last {s} c r here lt =
    let many : num_customers ≤ s.satisfied_customers =
      subst (λ q. LoaderLast q s.satisfied_customers) here (Reach-Inv r).last in
    is_gone_one (s.customers c)
      (all_gone num_customers s.customers c (omega (arith, many, (Reach-Inv r).counted)) lt)
