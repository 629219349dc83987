-- ===== src/Bits/Laws.antt =====
-- The laws of bit sets, and of the test of util.h for one bit.
use mathlib.Core.WellFounded
use cdecl.Prelude.{
  ℕ, zero, suc, ◌+◌, ◌-◌, ◌/◌, ◌%◌, ◌<◌, ◌^◌, bit_and, bit_or, ◌≡◌, refl, arith, lt_wf, Bool, true,
  false, not, ◌||◌, ◌&&◌, ◌==◌, inl, inr, ◌↔◌, Bool-cases,
}
use native.Mathlib.Nat.{pow-suc, one-le-pow}
use cdecl.Bits.{has, at_most_one_bit_set, exactly_one_bit_set}
use cdecl.Bits.Step.{bit_and_step, bit_or_step, zero-bit_or}

none_kept : (k x : ℕ) → x < k → bit_and x 0 ≡ 0
none_kept zero x below = absurd (omega arith)
none_kept (suc k) zero below = refl
none_kept (suc k) (suc x) below =
    let halved = none_kept k (suc x / 2) (omega arith) in
    omega (arith, halved, bit_and_step (suc x) 0)

pub bit_and-zero : (x : ℕ) → bit_and x 0 ≡ 0
bit_and-zero x = none_kept (suc x) x (omega arith)

-- `&` distributes over `|`.
pub bit_and-bit_or : (a b m : ℕ) → bit_and (bit_or a b) m ≡ bit_or (bit_and a m) (bit_and b m)
bit_and-bit_or a b m =
    WellFounded.induction lt_wf
      {C = λ n. (x y : ℕ) → bit_and (bit_or x y) n ≡ bit_or (bit_and x n) (bit_and y n)} m step a b
  where
    step :
        (n : ℕ)
        → ((k : ℕ)
            → k < n
            → (x y : ℕ) → bit_and (bit_or x y) k ≡ bit_or (bit_and x k) (bit_and y k))
        → (x y : ℕ) → bit_and (bit_or x y) n ≡ bit_or (bit_and x n) (bit_and y n)
    step zero ih x y = rw (bit_and-zero (bit_or x y), bit_and-zero x, bit_and-zero y)
    step (suc n) ih x y = ground (
      arith,
      ih (suc n / 2) (omega arith) (x / 2) (y / 2),
      bit_and_step (bit_or x y) (suc n),
      bit_or_step x y,
      bit_or_step (bit_and x (suc n)) (bit_and y (suc n)),
      bit_and_step x (suc n),
      bit_and_step y (suc n),
    )

bit_or-zero_left : (n a b : ℕ) → a < n → bit_or a b ≡ 0 → a ≡ 0
bit_or-zero_left zero a b h e = absurd (omega arith)
bit_or-zero_left (suc n) zero b h e = refl
bit_or-zero_left (suc n) (suc a) b h e = absurd (
    omega (
      arith,
      bit_or_step (suc a) b,
      bit_or-zero_left n (suc a / 2) (b / 2) (omega arith) (omega (arith, bit_or_step (suc a) b)),
    ))

bit_or-eq-zero : (a b : ℕ) → bit_or a b ≡ 0 → (a ≡ 0) × (b ≡ 0)
bit_or-eq-zero a b e =
    let left : a ≡ 0 = bit_or-zero_left (suc a) a b (omega arith) e in
    (left, ground (arith, left, zero-bit_or b))

bit_or-is-zero : (a b : ℕ) → (bit_or a b == 0) ≡ ((a == 0) && (b == 0))
bit_or-is-zero a b = ground (arith, bit_or-eq-zero a b, zero-bit_or b)

not_and : (a b : Bool) → not (a && b) ≡ (not a || not b)
not_and true b = refl
not_and false b = refl

-- A set of bits meets `a | b` exactly when it meets `a` or `b`.
pub has-bit_or : (a b m : ℕ) → has (bit_or a b) m ≡ (has a m || has b m)
unfolding has
has-bit_or a b m =
    rw (bit_and-bit_or a b m, bit_or-is-zero (bit_and a m) (bit_and b m))
      (not_and (bit_and a m == 0) (bit_and b m == 0))

all_kept : (k x : ℕ) → x < k → bit_and x x ≡ x
all_kept zero x below = absurd (omega arith)
all_kept (suc k) zero below = refl
all_kept (suc k) (suc x) below =
    let halved = all_kept k (suc x / 2) (omega arith) in
    omega (arith, halved, bit_and_step (suc x) (suc x))

pub bit_and_self : (x : ℕ) → bit_and x x ≡ x
bit_and_self x = all_kept (suc x) x (omega arith)

-- `n & (n - 1)` clears the lowest bit: nothing is left exactly for a power of two.
clears_none : (k : ℕ) → bit_and (2 ^ k) (2 ^ k - 1) ≡ 0
clears_none zero = refl
clears_none (suc k) =
    ground
      (arith, pow-suc 2 k, one-le-pow k 2, bit_and_step (2 ^ suc k) (2 ^ suc k - 1), clears_none k)

-- The exponent is found by halving.
clears_all : (n : ℕ) → 0 < n → bit_and n (n - 1) ≡ 0 → (k : ℕ) × (n ≡ 2 ^ k)
clears_all n =
    WellFounded.induction lt_wf {C = λ n. 0 < n → bit_and n (n - 1) ≡ 0 → (k : ℕ) × (n ≡ 2 ^ k)} n
      step
  where
    step :
        (n : ℕ)
        → ((m : ℕ) → m < n → 0 < m → bit_and m (m - 1) ≡ 0 → (k : ℕ) × (m ≡ 2 ^ k))
        → 0 < n
        → bit_and n (n - 1) ≡ 0
        → (k : ℕ) × (n ≡ 2 ^ k)
    step n ih p e = elim (Bool-cases (n % 2 == 0)) [
      | inl even ↦
          let half =
            ih (n / 2) (ground arith) (ground arith) (ground (arith, bit_and_step n (n - 1))) in
          (suc half.0, ground (arith, half.1, pow-suc 2 half.0))
      | inr odd ↦ (0, ground (arith, bit_and_step n (n - 1), bit_and_self (n / 2)))
    ]

-- The test of util.h holds of a 64-bit word exactly when it is a power of two.
pub exactly_one_bit_set_iff :
    (n : ℕ) → n < 2 ^ 64 → (exactly_one_bit_set n ≡ true) ↔ ((k : ℕ) × (n ≡ 2 ^ k))
unfolding exactly_one_bit_set at_most_one_bit_set
exactly_one_bit_set_iff n h = (
  λ e. clears_all n (ground arith) (ground (arith, wrap)),
  λ (k, e). ground (arith, one-le-pow k 2, clears_none k, wrap),
)
  where
    wrap : 0 < n → (n + (2 ^ 64 - 1)) % 2 ^ 64 ≡ n - 1
    wrap p = omega arith
