-- ===== src/Bits/Digit.antt =====
-- The bits of a number one by one.
use Prim.Native.Nat.{min, max}
use cdecl.Prelude.{
  ℕ, zero, suc, ◌/◌, ◌%◌, ◌<◌, ◌≤◌, ◌==◌, true, false, bit_and, bit_or, ◌≡◌, ◌≢◌, inl, inr, refl,
  sym, ap, ◌∙◌, arith, Bool-cases,
}
use cdecl.Bits.{has}
use cdecl.Bits.Step.{bit_and_step, bit_or_step}

-- The bit of value 2 ^ k, 0 or 1.
abbrev pub bit_at : ℕ → ℕ → ℕ
bit_at zero x = x % 2
bit_at (suc k) x = bit_at k (x / 2)

pub bit_at-bit_or : (k x y : ℕ) → bit_at k (bit_or x y) ≡ max (bit_at k x) (bit_at k y)
bit_at-bit_or zero x y = omega (arith, bit_or_step x y)
bit_at-bit_or (suc k) x y =
    ap (bit_at k) (omega (arith, bit_or_step x y)) ∙ bit_at-bit_or k (x / 2) (y / 2)

pub bit_at-bit_and : (k x y : ℕ) → bit_at k (bit_and x y) ≡ min (bit_at k x) (bit_at k y)
bit_at-bit_and zero x y = omega (arith, bit_and_step x y)
bit_at-bit_and (suc k) x y =
    ap (bit_at k) (omega (arith, bit_and_step x y)) ∙ bit_at-bit_and k (x / 2) (y / 2)

bit_at-zero : (k : ℕ) → bit_at k 0 ≡ 0
bit_at-zero zero = refl
bit_at-zero (suc k) = bit_at-zero k

bit_at_bound : (k x : ℕ) → bit_at k x ≤ 1
bit_at_bound zero x = omega arith
bit_at_bound (suc k) x = bit_at_bound k (x / 2)

-- A number that is not 0 has a bit.
some_bit : (n x : ℕ) → x < n → x ≢ 0 → (k : ℕ) × (bit_at k x ≡ 1)
some_bit zero x h k = absurd (omega arith)
some_bit (suc n) x h k = elim (Bool-cases (x % 2 == 0)) [
  | inl e ↦
      let (j, one) = some_bit n (x / 2) (ground (arith, e)) (ground (arith, e)) in (suc j, one)
  | inr e ↦ (0, ground (arith, e))
]

-- Two types share a bit.
abbrev pub Shares : ℕ → ℕ → Type 0
Shares x y = (k : ℕ) × (bit_at k x ≡ 1) × (bit_at k y ≡ 1)

-- No bit is in both.
abbrev pub Apart : ℕ → ℕ → Type 0
Apart x y = (k : ℕ) → min (bit_at k x) (bit_at k y) ≡ 0

pub has-Shares : (x y : ℕ) → has x y ≡ true → Shares x y
unfolding has
has-Shares x y h =
    let (k, one) = some_bit (suc (bit_and x y)) (bit_and x y) (omega arith) (ground (arith, h)) in
    shared k (sym (bit_at-bit_and k x y) ∙ one) (bit_at_bound k x) (bit_at_bound k y)
  where
    shared :
        (k : ℕ) → min (bit_at k x) (bit_at k y) ≡ 1 → bit_at k x ≤ 1 → bit_at k y ≤ 1 → Shares x y
    shared k both small small' = (k, omega (arith, both), omega (arith, both))

pub has-Apart : (x y : ℕ) → has x y ≡ false → Apart x y
unfolding has
has-Apart x y h k =
    let none : bit_and x y ≡ 0 = ground (arith, h) in
    sym (bit_at-bit_and k x y) ∙ ap (bit_at k) none ∙ bit_at-zero k
