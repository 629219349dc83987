-- ===== src/Types/Tables.antt =====
-- The tables of src/c_type.c: each type bit with its literal and the languages that have it, and
-- the languages in which two storage classes or two types may be combined. Only the lower
-- triangles of the last two are used.
use cdecl.Prelude.{ℕ, String, List, [], ◌∷◌, bit_and, bit_or}
use cdecl.Bits.{compl32}
use cdecl.Lang.{
  lang_none, lang_all, lang_min, lang_max, lang_c_knr, lang_c_89, lang_c_95, lang_c_99, lang_c_11,
  lang_cpp_03, lang_cpp_11, lang_cpp_min, lang_cpp_all,
}
use cdecl.Types.{
  t_void, t_auto_cpp_11, t_bool, t_char, t_char16_t, t_char32_t, t_wchar_t, t_short, t_int, t_long,
  t_long_long, t_signed, t_unsigned, t_float, t_double, t_complex, t_enum, t_struct, t_union,
  t_class, t_typedef_type, t_auto_c, t_block, t_extern, t_mutable, t_register, t_static,
  t_thread_local, t_typedef, t_constexpr, t_final, t_friend, t_inline, t_noreturn, t_override,
  t_pure_virtual, t_virtual, t_atomic, t_const, t_restrict, t_volatile, t_reference,
  t_rvalue_reference,
}

pub record CTypeInfo : Type 0 where
  pub type : ℕ
  pub literal : String
  pub ok_langs : ℕ

row : ℕ → String → ℕ → CTypeInfo
row t l o = record { type = t; literal = l; ok_langs = o }

unfoldable pub c_qualifier_info : List CTypeInfo
unfolding row
c_qualifier_info =
    row t_atomic "_Atomic" (lang_min lang_c_11)
    ∷ row t_const "const" (lang_min lang_c_89)
    ∷ row t_reference "reference" (lang_min lang_cpp_11)
    ∷ row t_rvalue_reference "rvalue reference" (lang_min lang_cpp_11)
    ∷ row t_restrict "restrict" (bit_and (lang_min lang_c_89) (compl32 lang_cpp_all))
    ∷ row t_volatile "volatile" (lang_min lang_c_89)
    ∷ []

unfoldable pub c_storage_info : List CTypeInfo
unfolding row
c_storage_info =
    row t_auto_c "auto" (lang_max lang_cpp_03)
    ∷ row t_block "__block" lang_all
    ∷ row t_extern "extern" lang_all
    ∷ row t_register "register" lang_all
    ∷ row t_static "static" lang_all
    ∷ row t_thread_local "thread_local" (bit_or lang_c_11 (lang_min lang_cpp_11))
    ∷ row t_typedef "typedef" lang_all
    ∷ row t_constexpr "constexpr" (lang_min lang_cpp_11)
    ∷ row t_final "final" (lang_min lang_cpp_11)
    ∷ row t_friend "friend" lang_cpp_all
    ∷ row t_inline "inline" (lang_min lang_c_99)
    ∷ row t_mutable "mutable" (lang_min lang_cpp_min)
    ∷ row t_noreturn "noreturn" lang_c_11
    ∷ row t_override "override" (lang_min lang_cpp_11)
    ∷ row t_virtual "virtual" lang_cpp_all
    ∷ row t_pure_virtual "pure" lang_cpp_all
    ∷ []

unfoldable pub c_type_info : List CTypeInfo
unfolding row
c_type_info =
    row t_void "void" (lang_min lang_c_89)
    ∷ row t_auto_cpp_11 "auto" (lang_min lang_cpp_11)
    ∷ row t_bool "bool" (lang_min lang_c_89)
    ∷ row t_char "char" lang_all
    ∷ row t_char16_t "char16_t" (bit_or lang_c_11 (lang_min lang_cpp_11))
    ∷ row t_char32_t "char32_t" (bit_or lang_c_11 (lang_min lang_cpp_11))
    ∷ row t_wchar_t "wchar_t" (lang_min lang_c_95)
    ∷ row t_short "short" lang_all
    ∷ row t_int "int" lang_all
    ∷ row t_long "long" lang_all
    ∷ row t_long_long "long" (lang_min lang_c_89)
    ∷ row t_signed "signed" (lang_min lang_c_89)
    ∷ row t_unsigned "unsigned" lang_all
    ∷ row t_float "float" lang_all
    ∷ row t_double "double" lang_all
    ∷ row t_complex "complex" (lang_min lang_c_99)
    ∷ row t_enum "enum" (lang_min lang_c_89)
    ∷ row t_struct "struct" lang_all
    ∷ row t_union "union" lang_all
    ∷ row t_class "class" lang_cpp_all
    ∷ row t_typedef_type "" lang_all
    ∷ []

-- The shorthands of the two tables that follow.
abbrev __ : ℕ
__ = lang_all

abbrev xx : ℕ
xx = lang_none

abbrev kr : ℕ
kr = lang_c_knr

abbrev c8 : ℕ
c8 = lang_min lang_c_89

abbrev c5 : ℕ
c5 = lang_min lang_c_95

abbrev c9 : ℕ
c9 = lang_min lang_c_99

abbrev c1 : ℕ
c1 = lang_min lang_c_11

abbrev pp : ℕ
pp = lang_cpp_all

abbrev p3 : ℕ
p3 = lang_min lang_cpp_03

abbrev p1 : ℕ
p1 = lang_min lang_cpp_11

abbrev e1 : ℕ
e1 = bit_or lang_c_11 (lang_min lang_cpp_11)

unfoldable pub ok_storage_langs : List (List ℕ)
ok_storage_langs =
    (__ ∷ __ ∷ __ ∷ __ ∷ __ ∷ __ ∷ __ ∷ __ ∷ __ ∷ __ ∷ __ ∷ __ ∷ __ ∷ __ ∷ __ ∷ __ ∷ [])
    ∷ (__ ∷ __ ∷ __ ∷ __ ∷ __ ∷ __ ∷ __ ∷ __ ∷ __ ∷ __ ∷ __ ∷ __ ∷ __ ∷ __ ∷ __ ∷ __ ∷ [])
    ∷ (xx ∷ __ ∷ __ ∷ __ ∷ __ ∷ __ ∷ __ ∷ __ ∷ __ ∷ __ ∷ __ ∷ __ ∷ __ ∷ __ ∷ __ ∷ __ ∷ [])
    ∷ (xx ∷ __ ∷ xx ∷ __ ∷ __ ∷ __ ∷ __ ∷ __ ∷ __ ∷ __ ∷ __ ∷ __ ∷ __ ∷ __ ∷ __ ∷ __ ∷ [])
    ∷ (xx ∷ xx ∷ xx ∷ xx ∷ __ ∷ __ ∷ __ ∷ __ ∷ __ ∷ __ ∷ __ ∷ __ ∷ __ ∷ __ ∷ __ ∷ __ ∷ [])
    ∷ (xx ∷ e1 ∷ e1 ∷ xx ∷ e1 ∷ e1 ∷ __ ∷ __ ∷ __ ∷ __ ∷ __ ∷ __ ∷ __ ∷ __ ∷ __ ∷ __ ∷ [])
    ∷ (xx ∷ __ ∷ xx ∷ xx ∷ xx ∷ xx ∷ __ ∷ __ ∷ __ ∷ __ ∷ __ ∷ __ ∷ __ ∷ __ ∷ __ ∷ __ ∷ [])
    ∷ (p1 ∷ p1 ∷ p1 ∷ xx ∷ p1 ∷ xx ∷ xx ∷ p1 ∷ __ ∷ __ ∷ __ ∷ __ ∷ __ ∷ __ ∷ __ ∷ __ ∷ [])
    ∷ (xx ∷ xx ∷ xx ∷ xx ∷ xx ∷ xx ∷ xx ∷ xx ∷ p1 ∷ __ ∷ __ ∷ __ ∷ __ ∷ __ ∷ __ ∷ __ ∷ [])
    ∷ (xx ∷ xx ∷ xx ∷ xx ∷ xx ∷ xx ∷ xx ∷ p1 ∷ xx ∷ pp ∷ __ ∷ __ ∷ __ ∷ __ ∷ __ ∷ __ ∷ [])
    ∷ (xx ∷ xx ∷ c9 ∷ xx ∷ c9 ∷ xx ∷ xx ∷ p1 ∷ p1 ∷ pp ∷ c9 ∷ __ ∷ __ ∷ __ ∷ __ ∷ __ ∷ [])
    ∷ (xx ∷ xx ∷ xx ∷ xx ∷ xx ∷ xx ∷ xx ∷ xx ∷ xx ∷ xx ∷ xx ∷ p3 ∷ __ ∷ __ ∷ __ ∷ __ ∷ [])
    ∷ (xx ∷ xx ∷ c1 ∷ xx ∷ c1 ∷ xx ∷ xx ∷ xx ∷ xx ∷ xx ∷ c1 ∷ xx ∷ c1 ∷ __ ∷ __ ∷ __ ∷ [])
    ∷ (xx ∷ xx ∷ xx ∷ xx ∷ xx ∷ xx ∷ xx ∷ xx ∷ p1 ∷ xx ∷ c1 ∷ xx ∷ xx ∷ p1 ∷ __ ∷ __ ∷ [])
    ∷ (xx ∷ xx ∷ xx ∷ xx ∷ xx ∷ xx ∷ xx ∷ xx ∷ p1 ∷ xx ∷ pp ∷ xx ∷ xx ∷ p1 ∷ pp ∷ __ ∷ [])
    ∷ (xx ∷ xx ∷ xx ∷ xx ∷ xx ∷ xx ∷ xx ∷ xx ∷ xx ∷ xx ∷ pp ∷ xx ∷ xx ∷ p1 ∷ pp ∷ pp ∷ [])
    ∷ []

unfoldable pub ok_type_langs : List (List ℕ)
ok_type_langs =
    (c8 ∷ __ ∷ __ ∷ __ ∷ __ ∷ __ ∷ __ ∷ __ ∷ __ ∷ __ ∷ __ ∷ __ ∷ __ ∷ __ ∷ __ ∷ __ ∷ __ ∷ __ ∷ __
      ∷ __ ∷ __ ∷ [])
    ∷ (xx ∷ p1 ∷ __ ∷ __ ∷ __ ∷ __ ∷ __ ∷ __ ∷ __ ∷ __ ∷ __ ∷ __ ∷ __ ∷ __ ∷ __ ∷ __ ∷ __ ∷ __ ∷ __
        ∷ __ ∷ __ ∷ [])
    ∷ (xx ∷ xx ∷ c9 ∷ __ ∷ __ ∷ __ ∷ __ ∷ __ ∷ __ ∷ __ ∷ __ ∷ __ ∷ __ ∷ __ ∷ __ ∷ __ ∷ __ ∷ __ ∷ __
        ∷ __ ∷ __ ∷ [])
    ∷ (xx ∷ xx ∷ xx ∷ __ ∷ __ ∷ __ ∷ __ ∷ __ ∷ __ ∷ __ ∷ __ ∷ __ ∷ __ ∷ __ ∷ __ ∷ __ ∷ __ ∷ __ ∷ __
        ∷ __ ∷ __ ∷ [])
    ∷ (xx ∷ xx ∷ xx ∷ xx ∷ e1 ∷ __ ∷ __ ∷ __ ∷ __ ∷ __ ∷ __ ∷ __ ∷ __ ∷ __ ∷ __ ∷ __ ∷ __ ∷ __ ∷ __
        ∷ __ ∷ __ ∷ [])
    ∷ (xx ∷ xx ∷ xx ∷ xx ∷ xx ∷ e1 ∷ __ ∷ __ ∷ __ ∷ __ ∷ __ ∷ __ ∷ __ ∷ __ ∷ __ ∷ __ ∷ __ ∷ __ ∷ __
        ∷ __ ∷ __ ∷ [])
    ∷ (xx ∷ xx ∷ xx ∷ xx ∷ xx ∷ xx ∷ c5 ∷ __ ∷ __ ∷ __ ∷ __ ∷ __ ∷ __ ∷ __ ∷ __ ∷ __ ∷ __ ∷ __ ∷ __
        ∷ __ ∷ __ ∷ [])
    ∷ (xx ∷ xx ∷ xx ∷ xx ∷ xx ∷ xx ∷ xx ∷ __ ∷ __ ∷ __ ∷ __ ∷ __ ∷ __ ∷ __ ∷ __ ∷ __ ∷ __ ∷ __ ∷ __
        ∷ __ ∷ __ ∷ [])
    ∷ (xx ∷ xx ∷ xx ∷ xx ∷ xx ∷ xx ∷ xx ∷ __ ∷ __ ∷ __ ∷ __ ∷ __ ∷ __ ∷ __ ∷ __ ∷ __ ∷ __ ∷ __ ∷ __
        ∷ __ ∷ __ ∷ [])
    ∷ (xx ∷ xx ∷ xx ∷ xx ∷ xx ∷ xx ∷ xx ∷ xx ∷ __ ∷ __ ∷ __ ∷ __ ∷ __ ∷ __ ∷ __ ∷ __ ∷ __ ∷ __ ∷ __
        ∷ __ ∷ __ ∷ [])
    ∷ (xx ∷ xx ∷ xx ∷ xx ∷ xx ∷ xx ∷ xx ∷ xx ∷ c9 ∷ __ ∷ c9 ∷ __ ∷ __ ∷ __ ∷ __ ∷ __ ∷ __ ∷ __ ∷ __
        ∷ __ ∷ __ ∷ [])
    ∷ (xx ∷ xx ∷ xx ∷ c8 ∷ xx ∷ xx ∷ xx ∷ c8 ∷ c8 ∷ c8 ∷ c8 ∷ c8 ∷ __ ∷ __ ∷ __ ∷ __ ∷ __ ∷ __ ∷ __
        ∷ __ ∷ __ ∷ [])
    ∷ (xx ∷ xx ∷ xx ∷ __ ∷ xx ∷ xx ∷ xx ∷ __ ∷ __ ∷ __ ∷ c8 ∷ xx ∷ __ ∷ __ ∷ __ ∷ __ ∷ __ ∷ __ ∷ __
        ∷ __ ∷ __ ∷ [])
    ∷ (xx ∷ xx ∷ xx ∷ xx ∷ xx ∷ xx ∷ xx ∷ xx ∷ xx ∷ kr ∷ xx ∷ xx ∷ xx ∷ __ ∷ __ ∷ __ ∷ __ ∷ __ ∷ __
        ∷ __ ∷ __ ∷ [])
    ∷ (xx ∷ xx ∷ xx ∷ xx ∷ xx ∷ xx ∷ xx ∷ xx ∷ xx ∷ c8 ∷ xx ∷ xx ∷ xx ∷ xx ∷ __ ∷ __ ∷ __ ∷ __ ∷ __
        ∷ __ ∷ __ ∷ [])
    ∷ (xx ∷ xx ∷ xx ∷ xx ∷ xx ∷ xx ∷ xx ∷ xx ∷ xx ∷ xx ∷ xx ∷ xx ∷ xx ∷ c9 ∷ c9 ∷ c9 ∷ __ ∷ __ ∷ __
        ∷ __ ∷ __ ∷ [])
    ∷ (xx ∷ xx ∷ xx ∷ xx ∷ xx ∷ xx ∷ xx ∷ xx ∷ xx ∷ xx ∷ xx ∷ xx ∷ xx ∷ xx ∷ xx ∷ xx ∷ c8 ∷ __ ∷ __
        ∷ __ ∷ __ ∷ [])
    ∷ (xx ∷ xx ∷ xx ∷ xx ∷ xx ∷ xx ∷ xx ∷ xx ∷ xx ∷ xx ∷ xx ∷ xx ∷ xx ∷ xx ∷ xx ∷ xx ∷ p1 ∷ __ ∷ __
        ∷ __ ∷ __ ∷ [])
    ∷ (xx ∷ xx ∷ xx ∷ xx ∷ xx ∷ xx ∷ xx ∷ xx ∷ xx ∷ xx ∷ xx ∷ xx ∷ xx ∷ xx ∷ xx ∷ xx ∷ xx ∷ xx ∷ __
        ∷ __ ∷ __ ∷ [])
    ∷ (xx ∷ xx ∷ xx ∷ xx ∷ xx ∷ xx ∷ xx ∷ xx ∷ xx ∷ xx ∷ xx ∷ xx ∷ xx ∷ xx ∷ xx ∷ xx ∷ p1 ∷ xx ∷ xx
        ∷ pp ∷ __ ∷ [])
    ∷ (xx ∷ xx ∷ xx ∷ xx ∷ xx ∷ xx ∷ xx ∷ xx ∷ xx ∷ xx ∷ xx ∷ xx ∷ xx ∷ xx ∷ xx ∷ xx ∷ xx ∷ xx ∷ xx
        ∷ xx ∷ __ ∷ [])
    ∷ []
