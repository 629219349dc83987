-- ===== src/Types/Check.antt =====
-- c_type_check of src/c_type.c: whether every bit of a type, and every pair of its bits, is legal
-- in the current language.
pub mod Loops
pub mod Laws
mod Tests
use cdecl.Prelude.{
  ℕ, zero, suc, Bool, true, false, not, ◌&&◌, List, [], ◌∷◌, Option, none, some, if◌then◌else◌,
}
use cdecl.Bits.{has}
use cdecl.Lang.{lang_all}
use cdecl.Types.Tables.{
  CTypeInfo, c_qualifier_info, c_storage_info, c_type_info, ok_storage_langs, ok_type_langs,
}

-- An early `return langs` is `some langs`; what follows is run if there was none.
infixr 20 ◌or_else◌
abbrev pub ◌or_else◌ : Option ℕ → Option ℕ → Option ℕ
some langs or_else next = some langs
none or_else next = next

module _ (type lang : ℕ) where
  -- The loop over one table of bits.
  pub check_rows : List CTypeInfo → Option ℕ
  check_rows [] = none
  check_rows (info ∷ rest) =
      if has type info.type && not (has lang info.ok_langs)
      then some info.ok_langs
      else check_rows rest

  -- The inner loop of a table of pairs, with `left` columns to go.
  pub check_cols : ℕ → List CTypeInfo → List ℕ → Option ℕ
  check_cols zero cols oks = none
  check_cols (suc left) [] oks = none
  check_cols (suc left) (col ∷ cols) [] = none
  check_cols (suc left) (col ∷ cols) (ok_langs ∷ oks) =
      if has type col.type && not (has lang ok_langs)
      then some ok_langs
      else check_cols left cols oks

  -- The outer loop at index `row`; `rest` and `table` are what is left from that row on.
  pub check_pairs : List CTypeInfo → ℕ → List CTypeInfo → List (List ℕ) → Option ℕ
  unfolding check_cols
  check_pairs infos row [] table = none
  check_pairs infos row (info ∷ rest) [] = none
  check_pairs infos row (info ∷ rest) (oks ∷ table) =
      (if has type info.type then check_cols (suc row) infos oks else none)
      or_else check_pairs infos (suc row) rest table

-- The six loops in the order of the source; the last repeats the one before it.
unfoldable pub check_found : ℕ → ℕ → Option ℕ
unfolding check_rows check_pairs
check_found type lang =
    check_rows type lang c_storage_info
    or_else check_rows type lang c_type_info
    or_else check_rows type lang c_qualifier_info
    or_else check_pairs type lang c_storage_info zero c_storage_info ok_storage_langs
    or_else check_pairs type lang c_type_info zero c_type_info ok_type_langs
    or_else check_pairs type lang c_type_info zero c_type_info ok_type_langs

-- A loop's early return, or the LANG_ALL at the end.
abbrev pub or_lang_all : Option ℕ → ℕ
or_lang_all (some langs) = langs
or_lang_all none = lang_all

unfoldable pub c_type_check : ℕ → ℕ → ℕ
c_type_check type lang = or_lang_all (check_found type lang)
