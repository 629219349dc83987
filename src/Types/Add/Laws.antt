-- ===== src/Types/Add/Laws.antt =====
-- What adding type bits gives and refuses.
use Prim.Native.Nat.{max}
use cdecl.Prelude.{◌⊎◌, ℕ, true, false, ◌&&◌, bit_or, ◌≡◌, refl, arith, Bool-cases, inl, inr}
use cdecl.Bits.{has}
use cdecl.Bits.Laws.{has-bit_or}
use cdecl.Bits.Assoc.{has-masks}
use cdecl.Bits.Digit.{bit_at, bit_at-bit_or, Shares, Apart, has-Shares, has-Apart}
use cdecl.Types.{t_long, t_long_long, t_float, t_double}
use cdecl.Types.Add.{is_long_int, added, not_combined, combined_type, c_type_add}

-- A type is "long", and neither "float" nor "double", or it is not so.
abbrev pub LongInt : ℕ → Type 0
LongInt t = (has t t_long ≡ true) × (has t t_float ≡ false) × (has t t_double ≡ false)

abbrev pub NotLongInt : ℕ → Type 0
NotLongInt t = (has t t_long ≡ false) ⊎ ((has t t_float ≡ true) ⊎ (has t t_double ≡ true))

-- What a type counts as, when it is added to another: a second "long" is "long long".
abbrev pub CountsAs : ℕ → ℕ → ℕ → Type 0
CountsAs dest new n =
    ((LongInt dest × LongInt new) × (n ≡ t_long_long))
    ⊎ ((NotLongInt dest ⊎ NotLongInt new) × (n ≡ new))

is_long_int-cases :
    (t : ℕ) → ((is_long_int t ≡ true) × LongInt t) ⊎ ((is_long_int t ≡ false) × NotLongInt t)
unfolding is_long_int
is_long_int-cases t = ground (arith, has-masks t t_float t_double)

combined-CountsAs : (dest new : ℕ) → CountsAs dest new (combined_type dest new)
unfolding combined_type
combined-CountsAs dest new = elim (is_long_int-cases dest) [
  | inl a ↦ elim (is_long_int-cases new) [
    | inl b ↦ inl ((a.1, b.1), rw (a.0, b.0) refl)
    | inr b ↦ inr (inr b.1, rw (a.0, b.0) refl)
  ]
  | inr a ↦ inr (inl a.1, rw a.0 refl)
]

-- A second "long" counts as "long long", and every other type as itself. Where no bit of what it
-- counts as is in the type that was read, c_type_add gives the type with exactly the bits of both;
-- where one is, it refuses, and the error names what it counts as and the type that was read.
pub c_type_add_lem :
    (dest new : ℕ)
    → (n : ℕ) × CountsAs dest new n
      × ((Apart dest n
            × ((r : ℕ) × (c_type_add dest new ≡ added r)
                × ((k : ℕ) → bit_at k r ≡ max (bit_at k dest) (bit_at k n))))
          ⊎ (Shares dest n × (c_type_add dest new ≡ not_combined n dest)))
unfolding c_type_add
c_type_add_lem dest new =
    let n = combined_type dest new in
    (
      n,
      combined-CountsAs dest new,
      elim (Bool-cases (has dest n)) [
        | inl e ↦ inr (has-Shares dest n e, rw e refl)
        | inr e ↦ inl (has-Apart dest n e, (bit_or dest n, rw e refl, λ k. bit_at-bit_or k dest n))
      ],
    )

long_long_apart :
    (has t_long_long t_long ≡ false) × (has t_long_long (bit_or t_float t_double) ≡ false)
unfolding has
long_long_apart = (refl, refl)

long-is_long_int : is_long_int t_long ≡ true
unfolding is_long_int has
long-is_long_int = refl

has_self : has t_long_long t_long_long ≡ true
unfolding has
has_self = refl

is_long_int-long_long : (d : ℕ) → is_long_int d ≡ true → is_long_int (bit_or d t_long_long) ≡ true
unfolding is_long_int
is_long_int-long_long d h = ground (
  arith,
  has-bit_or d t_long_long t_long,
  has-bit_or d t_long_long (bit_or t_float t_double),
  long_long_apart,
)

combined_longs : (d : ℕ) → is_long_int d ≡ true → combined_type d t_long ≡ t_long_long
combined_longs d h = unfold combined_type in rw (h, long-is_long_int)

-- Two "long"s make "long long", and a third is refused.
pub c_type_add_third_long :
    (d : ℕ)
    → is_long_int d ≡ true
    → has d t_long_long ≡ false
    → (c_type_add d t_long ≡ added (bit_or d t_long_long))
      × (c_type_add (bit_or d t_long_long) t_long ≡ not_combined t_long_long (bit_or d t_long_long))
unfolding c_type_add
c_type_add_third_long d h k = (
  rw (combined_longs d h, k),
  ground (
    arith,
    combined_longs (bit_or d t_long_long) (is_long_int-long_long d h),
    has-bit_or d t_long_long t_long_long,
    has_self,
  ),
)

-- A type that shares a bit with what was read is refused, unless both are forms of "long int".
pub c_type_add_shared :
    (dest new : ℕ)
    → (is_long_int dest && is_long_int new) ≡ false
    → has dest new ≡ true
    → c_type_add dest new ≡ not_combined new dest
unfolding c_type_add combined_type
c_type_add_shared dest new h k = ground arith
