-- ===== src/Lang/Find.antt =====
-- The table of language names and the search by name of src/c_lang.c.
pub mod Laws
mod Tests
use Prim.Native.Char.{code}
use Prim.Native.String.{String}
use cdecl.Prelude.{ℕ, ◌+◌, ◌==◌, leb, Bool, true, false, ◌&&◌, List, [], ◌∷◌, map, if◌then◌else◌}
use cdecl.Lang.{
  lang_none, lang_c_knr, lang_c_max, lang_c_89, lang_c_95, lang_c_99, lang_c_11, lang_cpp_max,
  lang_cpp_98, lang_cpp_03, lang_cpp_11, lang_cpp_14, lang_cpp_17,
}

abbrev pub codes : String → List ℕ
codes String.[] = []
codes (String.◌∷◌ c s) = code c ∷ codes s

-- tolower(3) in the C locale.
unfoldable pub to_lower : ℕ → ℕ
to_lower c = if leb b'A' c && leb c b'Z' then c + 32 else c

unfoldable pub same_codes : List ℕ → List ℕ → Bool
same_codes [] [] = true
same_codes (a ∷ as') (b ∷ bs) = a == b && same_codes as' bs
same_codes _ _ = false

-- `strcasecmp( s, t ) == 0`.
unfoldable pub strcasecmp_eq : String → String → Bool
unfolding to_lower same_codes
strcasecmp_eq s t = same_codes (map to_lower (codes s)) (map to_lower (codes t))

pub record CLangInfo : Type 0 where
  pub name : String
  pub lang : ℕ

-- The table without the row of nulls that ends it.
unfoldable pub c_lang_info : List CLangInfo
c_lang_info =
    record { name = "cknr"; lang = lang_c_knr }
    ∷ record { name = "knr"; lang = lang_c_knr }
    ∷ record { name = "knrc"; lang = lang_c_knr }
    ∷ record { name = "c"; lang = lang_c_max }
    ∷ record { name = "c89"; lang = lang_c_89 }
    ∷ record { name = "c95"; lang = lang_c_95 }
    ∷ record { name = "c99"; lang = lang_c_99 }
    ∷ record { name = "c11"; lang = lang_c_11 }
    ∷ record { name = "c++"; lang = lang_cpp_max }
    ∷ record { name = "c++98"; lang = lang_cpp_98 }
    ∷ record { name = "c++03"; lang = lang_cpp_03 }
    ∷ record { name = "c++11"; lang = lang_cpp_11 }
    ∷ record { name = "c++14"; lang = lang_cpp_14 }
    ∷ record { name = "c++17"; lang = lang_cpp_17 }
    ∷ []

-- The loop over the table.
unfoldable pub find_in : String → List CLangInfo → ℕ
find_in s [] = lang_none
find_in s (info ∷ rest) = if strcasecmp_eq s info.name then info.lang else find_in s rest

unfoldable pub c_lang_find : String → ℕ
unfolding c_lang_info find_in strcasecmp_eq
c_lang_find s = find_in s c_lang_info
