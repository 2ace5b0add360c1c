-- ===== src/RawSocket/Checksum.antt =====
-- The checksum of an IP header: it is always found, and it is what a receiver expects exactly
-- where the field for it was zero, or all ones, when it was taken.
use hw.Prelude.{
  ℕ, suc, ◌+◌, ◌-◌, ◌*◌, ◌/◌, ◌%◌, ◌≤◌, ◌<◌, ◌≡◌, refl, ap, ◌⊎◌, inl, inr, true, Bool-cases, List,
  [], ◌∷◌, ◌++◌, some, arith, ◌==◌, ==-eq, length, take, take_all,
}
use hw.RawSocket.{sum, fold, checksum}

-- Every one is of 16 bits.
abbrev pub AreShorts : List ℕ → Type 0
AreShorts [] = Unit {0}
AreShorts (w ∷ ws) = (w < 65536) × AreShorts ws

pub sum_bound : (ws : List ℕ) → AreShorts ws → sum ws ≤ 65535 * length ws
unfolding sum
sum_bound [] h = omega arith
sum_bound (w ∷ ws) (h, hs) = omega (arith, h, sum_bound ws hs)

pub sum_field :
    (before after : List ℕ) (x : ℕ) → sum (before ++ x ∷ after) ≡ x + sum (before ++ after)
unfolding sum
sum_field [] after x = refl
sum_field (w ∷ before) after x = omega (arith, sum_field before after x)

-- The sum with its carries folded: of 16 bits, the same modulo 65535, and zero only for zero.
abbrev pub Folded : ℕ → ℕ → Type 0
Folded csum r = (r < 65536) × (q : ℕ) × (csum ≡ 65535 * q + r) × (0 < csum → 0 < r)

fold_step :
    (n csum : ℕ)
    → ((r : ℕ) × (fold n (csum % 65536 + csum / 65536) ≡ some r)
        × Folded (csum % 65536 + csum / 65536) r)
    → (r : ℕ) × (fold (suc n) csum ≡ some r) × Folded csum r
unfolding fold
fold_step n csum (r, e, (small, q, split, positive)) = elim (Bool-cases (csum / 65536 == 0)) [
  | inl z ↦ (csum, rw (fold, z) refl, (omega (arith, ==-eq z), 0, omega arith, λ h. h))
  | inr z ↦ (
    r,
    rw (fold, z, e) refl,
    (small, csum / 65536 + q, omega (arith, split), λ h. positive (omega (arith, h))),
  )
]

fold_last : (n csum : ℕ) → csum < 65536 → (r : ℕ) × (fold (suc n) csum ≡ some r) × Folded csum r
unfolding fold
fold_last n csum h =
    let z : (csum / 65536 == 0) ≡ true = ground (arith, h) in
    (csum, rw (fold, z) refl, (h, 0, omega arith, λ p. p))

-- Three rounds are enough for the sum of ten shorts.
pub fold_enough : (csum : ℕ) → csum ≤ 655350 → (r : ℕ) × (fold 3 csum ≡ some r) × Folded csum r
fold_enough csum h =
    let first : csum % 65536 + csum / 65536 ≤ 65545 = omega (arith, h) in
    fold_step 2 csum (
      fold_step 1 (csum % 65536 + csum / 65536)
        (fold_last 0 _ (second (csum % 65536 + csum / 65536) first)))
  where
    second : (c : ℕ) → c ≤ 65545 → c % 65536 + c / 65536 < 65536
    second c h = omega (arith, h)

-- The checksum of at most ten shorts, and what the sum is modulo 65535.
pub checksum_total :
    (ws : List ℕ)
    → AreShorts ws
    → length ws ≤ 10
    → (k : ℕ) × (checksum ws ≡ some k)
      × (r : ℕ) × (q : ℕ) × (k + r ≡ 65535)
      × (sum ws ≡ 65535 * q + r)
      × (0 < sum ws → 0 < r)
unfolding checksum
checksum_total ws h short =
    let (r, e, (small, q, split, positive)) =
      fold_enough (sum ws) (omega (arith, sum_bound ws h, short)) in
    let whole : take 10 ws ≡ ws = take_all 10 ws short in
    (65535 - r % 65536, rw (checksum, whole, e) refl, r, q, omega (arith, small), split, positive)

AreShorts-field :
    (before after : List ℕ) (x y : ℕ)
    → AreShorts (before ++ x ∷ after)
    → y < 65536
    → AreShorts (before ++ y ∷ after)
AreShorts-field [] after x y (h, hs) e = (e, hs)
AreShorts-field (w ∷ before) after x y (h, hs) e = (h, AreShorts-field before after x y hs e)

field_short : (before after : List ℕ) (x : ℕ) → AreShorts (before ++ x ∷ after) → x < 65536
field_short [] after x (h, hs) = h
field_short (w ∷ before) after x (h, hs) = field_short before after x hs

length-field :
    (before after : List ℕ) (x y : ℕ) → length (before ++ x ∷ after) ≡ length (before ++ y ∷ after)
length-field [] after x y = refl
length-field (w ∷ before) after x y = ap suc (length-field before after x y)

module _ (before after : List ℕ) (x k : ℕ) (h : AreShorts (before ++ x ∷ after))
    (short : length (before ++ x ∷ after) ≤ 10)
    (taken : checksum (before ++ x ∷ after) ≡ some k) where
  -- Where the other shorts of a header of at most ten are not all zero, the checksum stored in the
  -- place of `x` makes the whole a header that a receiver accepts when `x`, the field's content
  -- while the checksum was taken, is zero or all ones.
  pub checksum_accepts :
      0 < sum (before ++ after) → (x ≡ 0) ⊎ (x ≡ 65535) → checksum (before ++ k ∷ after) ≡ some 0
  checksum_accepts some_set cases =
      let (k', e, r, q, whole, split, positive) = checksum_total (before ++ x ∷ after) h short in
      let same : k ≡ k' = cc (taken, e) in
      let (z, e', r', q', whole', split', positive') =
        checksum_total (before ++ k ∷ after)
          (AreShorts-field before after x k h (omega (arith, same, whole)))
          (omega (arith, short, length-field before after x k)) in
      let none_left : z ≡ 0 = ground (
        arith,
        same,
        whole,
        split,
        whole',
        split',
        sum_field before after x,
        sum_field before after k,
        some_set,
        cases,
        positive,
        positive',
      ) in
      rw (e', none_left) refl

  -- With any other content of the field, a receiver refuses the header.
  pub checksum_refuses : checksum (before ++ k ∷ after) ≡ some 0 → (x ≡ 0) ⊎ (x ≡ 65535)
  checksum_refuses accepted =
      let (k', e, r, q, whole, split, positive) = checksum_total (before ++ x ∷ after) h short in
      let same : k ≡ k' = cc (taken, e) in
      let (z, e', r', q', whole', split', positive') =
        checksum_total (before ++ k ∷ after)
          (AreShorts-field before after x k h (omega (arith, same, whole)))
          (omega (arith, short, length-field before after x k)) in
      let none_left : z ≡ 0 = cc (accepted, e') in
      ground (
        arith,
        same,
        whole,
        split,
        whole',
        split',
        none_left,
        sum_field before after x,
        sum_field before after k,
        field_short before after x h,
      )
