-- ===== src/Prelude/Family.antt =====
-- Families indexed by thread: replacing one member, summing a measure of the first `n`, and
-- searching them.
use Prim.Native.Nat.{ℕ, zero, suc, ◌+◌, ◌≤◌, ◌<◌}
use mathlib.Core.Path.{◌≡◌, refl, ap, sym, ◌∙◌}
use mathlib.Core.Logic.{ite, ◌⊎◌, inl, inr, ◌≢◌}
use mathlib.Core.Bool.{Bool, true, false}
use native.Mathlib.Decide.{dec_lt, ℕ_discrete}
use native.Mathlib.Omega.{arith}
use hw.Prelude.Tests.{Bool-cases}

abbrev pub update {κ} : {B : Type κ} (members : ℕ → B) (at : ℕ) (b : B) → ℕ → B
update members at b j = ite (ℕ_discrete at j) b (members j)

-- A member that is not the one replaced, or is not `q` before it is replaced.
pub update_other {κ} : {B : Type κ} (f : ℕ → B) (t u : ℕ) (b : B) → t ≢ u → update f t b u ≡ f u
update_other f t u b other = ground arith

pub update_keeps {κ} :
    {B : Type κ} (f : ℕ → B) (t u : ℕ) (b p q : B) → f t ≡ p → p ≢ q → f u ≡ q → update f t b u ≡ q
update_keeps f t u b p q here differs there =
    update_other f t u b (λ e. differs (sym here ∙ (ap f e ∙ there))) ∙ there

-- The sum of a measure over a family.
unfoldable pub total {κ} : {B : Type κ} → (B → ℕ) → ℕ → (ℕ → B) → ℕ
total measure zero members = 0
total measure (suc n) members = total measure n members + measure (members n)

-- Families that agree have one sum; families that agree but at `at` differ by that member.
module _ {κ} {B : Type κ} (measure : B → ℕ) (f g : ℕ → B) where
  total_agree : (n : ℕ) → ((j : ℕ) → j < n → f j ≡ g j) → total measure n f ≡ total measure n g
  unfolding total
  total_agree zero same = refl
  total_agree (suc n) same =
      omega (arith, total_agree n (λ j h. same j (omega arith)), ap measure (same n (omega arith)))

  total_swap :
      (n at : ℕ)
      → at < n
      → ((j : ℕ) → at ≢ j → f j ≡ g j)
      → total measure n g + measure (f at) ≡ total measure n f + measure (g at)
  unfolding total
  total_swap zero at inside off = absurd (omega arith)
  total_swap (suc n) at inside off = elim (ℕ_discrete at n) [
    | yes last ↦ rw last (omega (arith, total_agree n (λ j h. off j (omega (arith, last)))))
    | no earlier ↦
        omega (arith, total_swap n at (omega arith) off, ap measure (off n (omega arith)))
  ]

module _ {κ} {B : Type κ} (measure : B → ℕ) where
  pub total-update :
      (n : ℕ) (members : ℕ → B) (at : ℕ) (b : B)
      → at < n
      → total measure n (update members at b) + measure (members at)
        ≡ total measure n members + measure b
  total-update n members at b inside =
      let there : update members at b at ≡ b = ground arith in
      omega (
        arith,
        ap measure there,
        total_swap measure members (update members at b) n at inside (λ j other. ground arith),
      )

  pub total_const : (n : ℕ) (b : B) → measure b ≡ 0 → total measure n (λ _. b) ≡ 0
  unfolding total
  total_const zero b h = refl
  total_const (suc n) b h = omega (arith, total_const n b h)

  pub total_single :
      (n : ℕ) (members : ℕ → B) (at : ℕ) → at < n → measure (members at) ≤ total measure n members
  unfolding total
  total_single zero members at inside = absurd (omega arith)
  total_single (suc n) members at inside = elim (ℕ_discrete at n) [
    | yes last ↦ rw last (omega arith)
    | no earlier ↦ omega (arith, total_single n members at (omega arith))
  ]

  pub total_pair :
      (n : ℕ) (f : ℕ → B) (i j : ℕ)
      → i < j
      → j < n
      → measure (f i) + measure (f j) ≤ total measure n f
  unfolding total
  total_pair zero f i j h k = absurd (omega arith)
  total_pair (suc n) f i j h k = elim (ℕ_discrete j n) [
    | yes last ↦ rw last (omega (arith, total_single n f i))
    | no earlier ↦ omega (arith, total_pair n f i j h (omega arith))
  ]

-- A member of the family that passes a test, or the proof that none does.
pub find_index {ℓ} :
    {A : Type ℓ} (b : A → Bool) (n : ℕ) (f : ℕ → A)
    → ((j : ℕ) × (j < n) × (b (f j) ≡ true)) ⊎ ((j : ℕ) → j < n → b (f j) ≡ false)
find_index b zero f = inr (λ j h. absurd (omega arith))
find_index b (suc n) f = elim (find_index b n f) [
  | inl (j, h, e) ↦ inl (j, omega arith, e)
  | inr none_below ↦ elim (Bool-cases (b (f n))) [
    | inl hit ↦ inl (n, omega arith, hit)
    | inr miss ↦ inr (λ j h. elim (dec_lt j n) [
      | yes below ↦ none_below j below
      | no last ↦ (let e : j ≡ n = omega arith in rw e miss)
    ])
  ]
]
