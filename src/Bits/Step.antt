-- ===== src/Bits/Step.antt =====
-- One equation for the lowest digit of `&` and `|`, from the recursion on binary digits that the
-- native operations stand for.
use Prim.Native.Nat.{min, max, digits, bit_and-bitwise, bit_or-bitwise}
use native.Mathlib.Nat.{le_refl}
use cdecl.Prelude.{ℕ, zero, suc, ◌+◌, ◌*◌, ◌/◌, ◌%◌, ◌≤◌, bit_and, bit_or, ◌≡◌, refl, arith}

module _ (z : ℕ → ℕ) (f : ℕ → ℕ → ℕ) where
  -- More fuel than the first number changes nothing.
  fuel_irrelevant : (x y k l : ℕ) → x ≤ l → x ≤ k → digits z f k x y ≡ digits z f l x y
  fuel_irrelevant zero y zero zero under_l under_k = refl
  fuel_irrelevant zero y (suc k) zero under_l under_k = refl
  fuel_irrelevant zero y zero (suc l) under_l under_k = refl
  fuel_irrelevant zero y (suc k) (suc l) under_l under_k = refl
  fuel_irrelevant (suc x) y (suc k) (suc l) under_l under_k =
      let half = fuel_irrelevant (suc x / 2) (y / 2) k l (omega arith) (omega arith) in rw half refl
  fuel_irrelevant (suc x) y k zero under_l under_k = absurd (omega arith)
  fuel_irrelevant (suc x) y zero l under_l under_k = absurd (omega arith)

  low_digit :
      (x y : ℕ)
      → digits z f (suc x) (suc x) y
        ≡ digits z f (suc x / 2) (suc x / 2) (y / 2) * 2 + f (suc x % 2) (y % 2)
  low_digit x y =
      let half = fuel_irrelevant (suc x / 2) (y / 2) x (suc x / 2) (le_refl _) (omega arith) in
      omega (arith, half)

pub zero-bit_or : (y : ℕ) → bit_or 0 y ≡ y
zero-bit_or = bit_or-bitwise 0

pub zero-bit_and : (y : ℕ) → bit_and 0 y ≡ 0
zero-bit_and = bit_and-bitwise 0

pub bit_and_step : (x y : ℕ) → bit_and x y ≡ bit_and (x / 2) (y / 2) * 2 + min (x % 2) (y % 2)
bit_and_step (suc x) y = simp bit_and-bitwise (low_digit (λ n. 0) min x y)
bit_and_step zero y = omega (arith, zero-bit_and y, zero-bit_and (y / 2))

pub bit_or_step : (x y : ℕ) → bit_or x y ≡ bit_or (x / 2) (y / 2) * 2 + max (x % 2) (y % 2)
bit_or_step (suc x) y = simp bit_or-bitwise (low_digit (λ n. n) max x y)
bit_or_step zero y = omega (arith, zero-bit_or y, zero-bit_or (y / 2))
