-- ===== src/Lang/Find/Tests.antt =====
-- Runs of the search, and the theorems of `Laws` at concrete names.
use cdecl.Prelude.{◌≡◌, refl, arith, String, some, inr, inl, ◌≢◌}
use cdecl.Lang.{lang_cpp_11, lang_c_99, c_lang_name}
use cdecl.Lang.Find.{c_lang_find}
use cdecl.Lang.Find.Laws.{c_lang_find-c_lang_name}

find_cpp : c_lang_find "C++11" ≡ lang_cpp_11
unfolding c_lang_find
find_cpp = refl

find_cpp_found : c_lang_find "C++11" ≢ 0
unfolding c_lang_find
find_cpp_found = ground arith

any_case : c_lang_find "KnR" ≡ c_lang_find "knr"
unfolding c_lang_find
any_case = refl

c_lang_find-c_lang_name_example :
    (n : String) × (c_lang_name lang_c_99 ≡ some n) × (c_lang_find n ≡ lang_c_99)
c_lang_find-c_lang_name_example = c_lang_find-c_lang_name lang_c_99 (inr (inr (inl refl)))
