-- ===== src/Keyword.antt =====
-- src/c_keyword.c with the literals of src/literals.c: which words are keywords in a language, with
-- the token and the type bit of each. The numbers that the parser's generator gives the tokens are
-- a data type here.
pub mod Laws
mod Tests
use text.Mathlib.Text.{◌==◌ as str_eq}
use cdecl.Prelude.{ℕ, ◌==◌, bit_and, String, Option, none, some, List, [], ◌∷◌, if◌then◌else◌}
use cdecl.Lang.{lang_none, lang_all, lang_min, lang_max, lang_cpp_03, lang_cpp_11}
use cdecl.Types.{
  t_atomic, t_auto_c, t_auto_cpp_11, t_block, t_bool, t_char, t_char16_t, t_char32_t, t_class,
  t_complex, t_const, t_constexpr, t_double, t_enum, t_extern, t_final, t_float, t_friend, t_inline,
  t_int, t_long, t_mutable, t_none, t_noreturn, t_override, t_register, t_restrict, t_short,
  t_signed, t_static, t_struct, t_thread_local, t_typedef, t_union, t_unsigned, t_virtual, t_void,
  t_volatile, t_wchar_t,
}

pub data YToken : Type 0 where
  y_auto_c y_char y_double y_extern y_float y_int y_long y_register y_short y_static y_struct
        y_typedef y_union y_unsigned y_const y_ellipsis y_enum y_signed y_void y_volatile y_bool
        y_complex y_inline y_restrict y_wchar_t y_atomic_qual y_noreturn y_class y_const_cast
        y_dynamic_cast y_friend y_mutable y_reinterpret_cast y_static_cast y_virtual y_auto_cpp_11
        y_constexpr y_final y_override y_char16_t y_char32_t y_thread_local y_block :
      YToken

pub record CKeyword : Type 0 where
  pub literal : String
  pub y_token : YToken
  pub type : ℕ
  pub ok_langs : ℕ

row : String → YToken → ℕ → ℕ → CKeyword
row l y t o = record { literal = l; y_token = y; type = t; ok_langs = o }

-- The table without the row of nulls that ends it.
unfoldable pub c_keywords : List CKeyword
unfolding row
c_keywords =
    row "auto" y_auto_c t_auto_c (lang_max lang_cpp_03)
    ∷ row "char" y_char t_char lang_all
    ∷ row "double" y_double t_double lang_all
    ∷ row "extern" y_extern t_extern lang_all
    ∷ row "float" y_float t_float lang_all
    ∷ row "int" y_int t_int lang_all
    ∷ row "long" y_long t_long lang_all
    ∷ row "register" y_register t_register lang_all
    ∷ row "short" y_short t_short lang_all
    ∷ row "static" y_static t_static lang_all
    ∷ row "struct" y_struct t_struct lang_all
    ∷ row "typedef" y_typedef t_typedef lang_all
    ∷ row "union" y_union t_union lang_all
    ∷ row "unsigned" y_unsigned t_unsigned lang_all
    ∷ row "const" y_const t_const lang_all
    ∷ row "..." y_ellipsis t_none lang_all
    ∷ row "enum" y_enum t_enum lang_all
    ∷ row "signed" y_signed t_signed lang_all
    ∷ row "void" y_void t_void lang_all
    ∷ row "volatile" y_volatile t_volatile lang_all
    ∷ row "bool" y_bool t_bool lang_all
    ∷ row "complex" y_complex t_complex lang_all
    ∷ row "inline" y_inline t_inline lang_all
    ∷ row "restrict" y_restrict t_restrict lang_all
    ∷ row "wchar_t" y_wchar_t t_wchar_t lang_all
    ∷ row "_Atomic" y_atomic_qual t_atomic lang_all
    ∷ row "noreturn" y_noreturn t_noreturn lang_all
    ∷ row "class" y_class t_class lang_all
    ∷ row "const_cast" y_const_cast t_none lang_all
    ∷ row "dynamic_cast" y_dynamic_cast t_none lang_all
    ∷ row "friend" y_friend t_friend lang_all
    ∷ row "mutable" y_mutable t_mutable lang_all
    ∷ row "reinterpret_cast" y_reinterpret_cast t_none lang_all
    ∷ row "static_cast" y_static_cast t_none lang_all
    ∷ row "virtual" y_virtual t_virtual lang_all
    ∷ row "auto" y_auto_cpp_11 t_auto_cpp_11 (lang_min lang_cpp_11)
    ∷ row "constexpr" y_constexpr t_constexpr lang_all
    ∷ row "final" y_final t_final lang_all
    ∷ row "override" y_override t_override lang_all
    ∷ row "char16_t" y_char16_t t_char16_t lang_all
    ∷ row "char32_t" y_char32_t t_char32_t lang_all
    ∷ row "thread_local" y_thread_local t_thread_local lang_all
    ∷ row "__block" y_block t_block lang_all
    ∷ []

-- The loop over the table.
unfoldable pub find_keyword : ℕ → String → List CKeyword → Option CKeyword
find_keyword opt_lang literal [] = none
find_keyword opt_lang literal (k ∷ rest) =
    let later = find_keyword opt_lang literal rest in
    if bit_and k.ok_langs opt_lang == lang_none
    then later
    else if str_eq literal k.literal
    then some k
    else later

-- The first argument is the variable opt_lang.
unfoldable pub c_keyword_find : ℕ → String → Option CKeyword
unfolding find_keyword c_keywords
c_keyword_find opt_lang literal = find_keyword opt_lang literal c_keywords
