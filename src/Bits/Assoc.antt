-- ===== src/Bits/Assoc.antt =====
-- Masking twice.
use mathlib.Core.WellFounded
use cdecl.Prelude.{
  ℕ, zero, suc, ◌/◌, ◌<◌, bit_and, bit_or, ◌≡◌, refl, arith, lt_wf, ◌||◌, ◌==◌, not, ap, ◌∙◌,
}
use cdecl.Bits.{has}
use cdecl.Bits.Laws.{bit_and-zero, has-bit_or}
use cdecl.Bits.Step.{bit_and_step, bit_or_step, zero-bit_and}

-- Masks are taken in any order.
pub bit_and_assoc : (a b c : ℕ) → bit_and (bit_and a b) c ≡ bit_and a (bit_and b c)
bit_and_assoc a b c =
    WellFounded.induction lt_wf
      {C = λ n. (x y : ℕ) → bit_and (bit_and n x) y ≡ bit_and n (bit_and x y)} a step b c
  where
    step :
        (n : ℕ)
        → ((k : ℕ) → k < n → (x y : ℕ) → bit_and (bit_and k x) y ≡ bit_and k (bit_and x y))
        → (x y : ℕ) → bit_and (bit_and n x) y ≡ bit_and n (bit_and x y)
    step zero ih x y = rw (zero-bit_and x, zero-bit_and y, zero-bit_and (bit_and x y)) refl
    step (suc n) ih x y = ground (
      arith,
      ih (suc n / 2) (omega arith) (x / 2) (y / 2),
      bit_and_step (bit_and (suc n) x) y,
      bit_and_step (suc n) x,
      bit_and_step (suc n) (bit_and x y),
      bit_and_step x y,
    )

or_none : (k x : ℕ) → x < k → bit_or x 0 ≡ x
or_none zero x below = absurd (omega arith)
or_none (suc k) zero below = refl
or_none (suc k) (suc x) below =
    ground (arith, or_none k (suc x / 2) (omega arith), bit_or_step (suc x) 0)

pub bit_or-zero : (x : ℕ) → bit_or x 0 ≡ x
bit_or-zero x = or_none (suc x) x (omega arith)

pub bit_and_comm : (a b : ℕ) → bit_and a b ≡ bit_and b a
bit_and_comm a b =
    WellFounded.induction lt_wf {C = λ n. (y : ℕ) → bit_and n y ≡ bit_and y n} a step b
  where
    step :
        (n : ℕ)
        → ((k : ℕ) → k < n → (y : ℕ) → bit_and k y ≡ bit_and y k)
        → (y : ℕ) → bit_and n y ≡ bit_and y n
    step zero ih y = omega (arith, zero-bit_and y, bit_and-zero y)
    step (suc n) ih y = ground (
      arith,
      ih (suc n / 2) (omega arith) (y / 2),
      bit_and_step (suc n) y,
      bit_and_step y (suc n),
    )

-- A test for the bits of two masks.
pub has-masks : (x a b : ℕ) → has x (bit_or a b) ≡ (has x a || has x b)
has-masks x a b =
    has_comm x (bit_or a b)
    ∙ has-bit_or a b x
    ∙ ap (λ t. t || has b x) (has_comm a x)
    ∙ ap (λ t. has x a || t) (has_comm b x)
  where
    has_comm : (x y : ℕ) → has x y ≡ has y x
    has_comm x y = unfold has in ap (λ t. not (t == 0)) (bit_and_comm x y)
