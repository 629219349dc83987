-- ===== src/Keyword/Tests.antt =====
-- Runs of c_keyword_find.
use mathlib.Core.List.{Memᴰ}
use mathlib.Core.List.Memᴰ.{head}
use cdecl.Prelude.{none, some, ◌≡◌, ◌≢◌, ◌↔◌, refl, arith}
use cdecl.Lang.{lang_cpp_03, lang_cpp_11, lang_max, lang_min, lang_c_99, lang_c_knr}
use cdecl.Types.{t_auto_c, t_auto_cpp_11, t_none}
use cdecl.Keyword.{CKeyword, c_keywords, c_keyword_find, y_auto_c, y_auto_cpp_11}
use cdecl.Keyword.Laws.{IsFor, c_keyword_find_lem}

abbrev old_auto : CKeyword
old_auto = record {
  literal = "auto";
  y_token = y_auto_c;
  type = t_auto_c;
  ok_langs = lang_max lang_cpp_03;
}

abbrev new_auto : CKeyword
new_auto = record {
  literal = "auto";
  y_token = y_auto_cpp_11;
  type = t_auto_cpp_11;
  ok_langs = lang_min lang_cpp_11;
}

storage_auto : c_keyword_find lang_cpp_03 "auto" ≡ some old_auto
unfolding c_keyword_find
storage_auto = refl

deduced_auto : c_keyword_find lang_cpp_11 "auto" ≡ some new_auto
unfolding c_keyword_find
deduced_auto = refl

no_keyword : c_keyword_find lang_c_99 "word" ≡ none
unfolding c_keyword_find
no_keyword = refl

c_keyword_find_lem_example :
    (c_keyword_find lang_c_knr "auto" ≡ some old_auto)
    ↔ (Memᴰ old_auto c_keywords × (old_auto.literal ≡ "auto") × IsFor lang_c_knr old_auto)
c_keyword_find_lem_example = c_keyword_find_lem lang_c_knr "auto" old_auto (head refl)

auto_typed : new_auto.type ≢ t_none
auto_typed = ground arith
