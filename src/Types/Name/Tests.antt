-- ===== src/Types/Name/Tests.antt =====
-- Runs of c_type_name.
use cdecl.Prelude.{◌≡◌, refl, bit_or}
use cdecl.Bits.{has, exactly_one_bit_set}
use cdecl.Types.{
  t_mask_storage, t_unsigned, t_long, t_long_long, t_int, t_static, t_const, t_char, t_signed,
}
use cdecl.Types.Name.{ok, internal_err, overflow, c_type_name}
use cdecl.Types.Name.Laws.{c_type_name-overflow}

static_const_unsigned_long :
    c_type_name (bit_or t_static (bit_or t_const (bit_or t_unsigned (bit_or t_long t_int))))
    ≡ ok "static const unsigned long"
unfolding c_type_name has exactly_one_bit_set
static_const_unsigned_long = refl

long_long : c_type_name (bit_or t_long t_long_long) ≡ ok "long long"
unfolding c_type_name has exactly_one_bit_set
long_long = refl

signed_char : c_type_name (bit_or t_signed t_char) ≡ ok "signed char"
unfolding c_type_name has exactly_one_bit_set
signed_char = refl

no_type : c_type_name 0 ≡ ok ""
unfolding c_type_name has exactly_one_bit_set
no_type = refl

-- A bit that no table has.
unknown_bit : c_type_name 0x400000 ≡ internal_err
unfolding c_type_name has exactly_one_bit_set
unknown_bit = refl

-- All storage classes at once.
c_type_name-overflow_example : c_type_name t_mask_storage ≡ overflow
unfolding has exactly_one_bit_set
c_type_name-overflow_example =
    c_type_name-overflow t_mask_storage refl refl refl refl refl refl refl refl refl refl refl refl
