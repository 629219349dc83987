-- ===== src/Bits/Tests.antt =====
-- The test for a power of two at a storage class, and at two of them.
use cdecl.Prelude.{◌≡◌, refl, true, false}
use cdecl.Bits.{at_most_one_bit_set, exactly_one_bit_set}

one_class : exactly_one_bit_set 0x1000000 ≡ true
unfolding exactly_one_bit_set at_most_one_bit_set
one_class = refl

two_classes : exactly_one_bit_set 0x3000000 ≡ false
unfolding exactly_one_bit_set at_most_one_bit_set
two_classes = refl
