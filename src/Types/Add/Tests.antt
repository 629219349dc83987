-- ===== src/Types/Add/Tests.antt =====
-- Runs of c_type_add, and the theorems of `Laws` at concrete types.
use cdecl.Prelude.{ℕ, true, false, ◌⊎◌, ◌≡◌, refl, bit_or}
use cdecl.Bits.{has}
use cdecl.Types.{t_int, t_long, t_long_long, t_unsigned}
use cdecl.Types.Add.{is_long_int, combined_type, added, not_combined, c_type_add}
use cdecl.Types.Add.Laws.{CountsAs, c_type_add_lem}
use Prim.Native.Nat.{max}
use cdecl.Bits.Digit.{bit_at, Apart, Shares}

unsigned_then_int : c_type_add t_unsigned t_int ≡ added (bit_or t_unsigned t_int)
unfolding has c_type_add combined_type is_long_int
unsigned_then_int = refl

long_is_long_int : is_long_int t_long ≡ true
unfolding has is_long_int
long_is_long_int = refl

long_without_long_long : has t_long t_long_long ≡ false
unfolding has
long_without_long_long = refl

int_shares_int : has t_int t_int ≡ true
unfolding has
int_shares_int = refl

c_type_add_lem_example :
    (n : ℕ) × CountsAs t_long t_long n
    × ((Apart t_long n
          × ((r : ℕ) × (c_type_add t_long t_long ≡ added r)
              × ((k : ℕ) → bit_at k r ≡ max (bit_at k t_long) (bit_at k n))))
        ⊎ (Shares t_long n × (c_type_add t_long t_long ≡ not_combined n t_long)))
c_type_add_lem_example = c_type_add_lem t_long t_long

long_then_long : c_type_add t_long t_long ≡ added (bit_or t_long t_long_long)
unfolding has c_type_add combined_type is_long_int
long_then_long = refl
