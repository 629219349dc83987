-- ===== src/Types/Check/Tests.antt =====
-- Runs of c_type_check, and the theorems of `Laws` at concrete types.
use cdecl.Prelude.{ℕ, true, false, ◌≡◌, ◌≢◌, refl, ◌∙◌, ◌||◌, bit_or, arith, Bool}
use cdecl.Bits.{has}
use cdecl.Bits.Laws.{has-bit_or}
use cdecl.Lang.{lang_all, lang_c_99}
use cdecl.Types.{t_int, t_unsigned, t_float}
use cdecl.Types.Tables.{
  c_qualifier_info, c_storage_info, c_type_info, ok_storage_langs, ok_type_langs,
}
use cdecl.Types.Check.{check_found, c_type_check}
use cdecl.Types.Check.Laws.{c_type_check-Blames}

abbrev unsigned_int : ℕ
unsigned_int = bit_or t_unsigned t_int

abbrev unsigned_float : ℕ
unsigned_float = bit_or t_unsigned t_float

unsigned_int_passes : c_type_check unsigned_int lang_c_99 ≡ lang_all
unfolding has c_type_check check_found c_storage_info c_type_info c_qualifier_info ok_storage_langs
    ok_type_langs
unsigned_int_passes = refl

unsigned_float_fails : c_type_check unsigned_float lang_c_99 ≢ lang_all
unfolding has c_type_check check_found c_storage_info c_type_info c_qualifier_info ok_storage_langs
    ok_type_langs
unsigned_float_fails = ground arith

int_in_unsigned_int : (m : ℕ) → has t_int m ≡ true → has unsigned_int m ≡ true
int_in_unsigned_int m h = has-bit_or t_unsigned t_int m ∙ or_true (has t_unsigned m) h
  where
    or_true : (a : Bool) {b : Bool} → b ≡ true → (a || b) ≡ true
    or_true true e = refl
    or_true false e = e

c_type_check-Blames_example : has lang_c_99 (c_type_check unsigned_float lang_c_99) ≡ false
c_type_check-Blames_example = c_type_check-Blames unsigned_float lang_c_99 unsigned_float_fails
