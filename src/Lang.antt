-- ===== src/Lang.antt =====
-- The languages: src/c_lang.h and the table and functions of src/c_lang.c. A `c_lang_t` is a
-- 32-bit set of languages; the current one, `opt_lang`, is a set with one member.
pub mod Find
use cdecl.Prelude.{ℕ, ◌-◌, ◌==◌, bit_or, String, Option, none, some, if◌then◌else◌}
use cdecl.Bits.{compl32}

abbrev pub lang_none : ℕ
lang_none = 0

abbrev pub lang_all : ℕ
lang_all = compl32 lang_none

-- LANG_MAX(L): the language and all older ones. LANG_MIN(L): the language and all newer ones.
abbrev pub lang_max : ℕ → ℕ
lang_max l = bit_or l (l - 1)

abbrev pub lang_min : ℕ → ℕ
lang_min l = compl32 (l - 1)

abbrev pub lang_c_knr : ℕ
lang_c_knr = 0x1

abbrev pub lang_c_89 : ℕ
lang_c_89 = 0x2

abbrev pub lang_c_95 : ℕ
lang_c_95 = 0x4

abbrev pub lang_c_99 : ℕ
lang_c_99 = 0x8

abbrev pub lang_c_11 : ℕ
lang_c_11 = 0x10

abbrev pub lang_c_max : ℕ
lang_c_max = lang_c_11

abbrev pub lang_cpp_98 : ℕ
lang_cpp_98 = 0x100

abbrev pub lang_cpp_03 : ℕ
lang_cpp_03 = 0x200

abbrev pub lang_cpp_11 : ℕ
lang_cpp_11 = 0x400

abbrev pub lang_cpp_14 : ℕ
lang_cpp_14 = 0x800

abbrev pub lang_cpp_17 : ℕ
lang_cpp_17 = 0x1000

abbrev pub lang_cpp_min : ℕ
lang_cpp_min = lang_cpp_98

abbrev pub lang_cpp_max : ℕ
lang_cpp_max = lang_cpp_17

abbrev pub lang_cpp_all : ℕ
lang_cpp_all = lang_min lang_cpp_min

-- `none` stands for the internal error of the default case, which ends the program.
unfoldable pub c_lang_name : ℕ → Option String
c_lang_name lang =
    if lang == lang_none
    then some ""
    else if lang == lang_c_knr
    then some "K&R C"
    else if lang == lang_c_89
    then some "C89"
    else if lang == lang_c_95
    then some "C95"
    else if lang == lang_c_99
    then some "C99"
    else if lang == lang_c_11
    then some "C11"
    else if lang == lang_cpp_98
    then some "C++98"
    else if lang == lang_cpp_03
    then some "C++03"
    else if lang == lang_cpp_11
    then some "C++11"
    else if lang == lang_cpp_14
    then some "C++14"
    else if lang == lang_cpp_17
    then some "C++17"
    else none
