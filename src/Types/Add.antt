-- ===== src/Types/Add.antt =====
-- c_type_add of src/c_type.c: adding a type's bits to those read so far.
pub mod Laws
mod Tests
use cdecl.Prelude.{ℕ, Bool, not, ◌&&◌, if◌then◌else◌, bit_or}
use cdecl.Bits.{has}
use cdecl.Types.{t_long, t_long_long, t_float, t_double}

unfoldable pub is_long_int : ℕ → Bool
is_long_int type = has type t_long && not (has type (bit_or t_float t_double))

-- `true` with what `*dest_type` has become, or `false` after the error "<new> can not be combined
-- with <dest>", which leaves `*dest_type` alone.
pub data AddResult : Type 0 where
  added : ℕ → AddResult
  not_combined : ℕ → ℕ → AddResult

-- The second "long" is the bit of "long long".
unfoldable pub combined_type : ℕ → ℕ → ℕ
combined_type dest_type new_type =
    if is_long_int dest_type && is_long_int new_type then t_long_long else new_type

unfoldable pub c_type_add : ℕ → ℕ → AddResult
c_type_add dest_type new_type =
    let new_type' = combined_type dest_type new_type in
    if has dest_type new_type'
    then not_combined new_type' dest_type
    else added (bit_or dest_type new_type')
