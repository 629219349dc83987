-- ===== src/Lang/Find/Laws.antt =====
-- What c_lang_find and c_lang_name promise each other and c_lang_set.
use cdecl.Prelude.{
  ℕ, true, false, List, [], ◌∷◌, map, ◌≡◌, ◌≢◌, refl, sym, arith, String, some, ◌⊎◌, inl, inr,
  Bool-cases,
}
use cdecl.Bits.{exactly_one_bit_set, at_most_one_bit_set}
use cdecl.Lang.{
  lang_c_knr, lang_c_max, lang_cpp_max, lang_none, c_lang_name, lang_c_89, lang_c_95, lang_c_99,
  lang_c_11, lang_cpp_98, lang_cpp_03, lang_cpp_11, lang_cpp_14, lang_cpp_17,
}
use mathlib.Core.Path.{subst}
use text.Mathlib.Text.{◌==◌ as str_eq}
use text.Mathlib.TextEquality.{eq_iff}
use cdecl.Lang.Find.{
  codes, to_lower, same_codes, strcasecmp_eq, CLangInfo, c_lang_info, find_in, c_lang_find,
}

same_codes→eq : (xs ys : List ℕ) → same_codes xs ys ≡ true → xs ≡ ys
unfolding same_codes
same_codes→eq [] [] h = refl
same_codes→eq [] (y ∷ ys) h = ground arith
same_codes→eq (x ∷ xs) [] h = ground arith
same_codes→eq (x ∷ xs) (y ∷ ys) h = ground (arith, same_codes→eq xs ys)

find_in_caseless :
    (s t : String) (infos : List CLangInfo)
    → map to_lower (codes s) ≡ map to_lower (codes t)
    → find_in s infos ≡ find_in t infos
unfolding find_in strcasecmp_eq
find_in_caseless s t [] h = refl
find_in_caseless s t (info ∷ rest) h = rw (h, find_in_caseless s t rest h)

-- A language is found whatever the case of its letters: names that strcasecmp takes for equal
-- give the same language.
pub c_lang_find_caseless : (s t : String) → strcasecmp_eq s t ≡ true → c_lang_find s ≡ c_lang_find t
unfolding c_lang_find
c_lang_find_caseless s t h =
    find_in_caseless s t c_lang_info (same_codes→eq _ _ (unfold strcasecmp_eq in h))

-- What c_lang_set and the messages need of a language.
abbrev pub IsLang : ℕ → Type 0
IsLang l = (exactly_one_bit_set l ≡ true) × (n : String) × (c_lang_name l ≡ some n) × (n ≢ "")

All {ℓ} : (ℕ → Type ℓ) → List CLangInfo → Type ℓ
All P [] = Unit
All P (info ∷ rest) = P info.lang × All P rest

find_in_cases {ℓ} :
    (P : ℕ → Type ℓ) (s : String) (infos : List CLangInfo)
    → All P infos
    → (find_in s infos ≡ lang_none) ⊎ P (find_in s infos)
unfolding All find_in
find_in_cases P s [] h = inl refl
find_in_cases P s (info ∷ rest) h = elim (Bool-cases (strcasecmp_eq s info.name)) [
  | inl e ↦ rw e (inr h.0)
  | inr e ↦ rw e (find_in_cases P s rest h.1)
]

not_empty : (n : String) → str_eq n "" ≡ false → n ≢ ""
not_empty n h e = cc (h, (eq_iff n "").1 e)

is_lang :
    (l : ℕ) (n : String)
    → exactly_one_bit_set l ≡ true
    → c_lang_name l ≡ some n
    → str_eq n "" ≡ false
    → IsLang l
is_lang l n one named full = (one, n, named, not_empty n full)

table_langs : All IsLang c_lang_info
unfolding All c_lang_info exactly_one_bit_set at_most_one_bit_set c_lang_name
table_langs = (
  is_lang lang_c_knr "K&R C" refl refl refl,
  (
    is_lang lang_c_knr "K&R C" refl refl refl,
    (
      is_lang lang_c_knr "K&R C" refl refl refl,
      (
        is_lang lang_c_max "C11" refl refl refl,
        (
          is_lang lang_c_89 "C89" refl refl refl,
          (
            is_lang lang_c_95 "C95" refl refl refl,
            (
              is_lang lang_c_99 "C99" refl refl refl,
              (
                is_lang lang_c_11 "C11" refl refl refl,
                (
                  is_lang lang_cpp_max "C++17" refl refl refl,
                  (
                    is_lang lang_cpp_98 "C++98" refl refl refl,
                    (
                      is_lang lang_cpp_03 "C++03" refl refl refl,
                      (
                        is_lang lang_cpp_11 "C++11" refl refl refl,
                        (
                          is_lang lang_cpp_14 "C++14" refl refl refl,
                          (is_lang lang_cpp_17 "C++17" refl refl refl, tt),
                        ),
                      ),
                    ),
                  ),
                ),
              ),
            ),
          ),
        ),
      ),
    ),
  ),
)

-- What the search finds is a language that c_lang_set accepts (one bit) and that c_lang_name can
-- print, by a name that is not empty.
pub c_lang_find-IsLang : (s : String) → c_lang_find s ≢ lang_none → IsLang (c_lang_find s)
unfolding c_lang_find
c_lang_find-IsLang s h = elim (find_in_cases IsLang s c_lang_info table_langs) [
  | inl e ↦ absurd (h e)
  | inr p ↦ p
]

-- The languages whose printed name is also a name of the table, all but K&R C.
abbrev pub IsNamed : ℕ → Type 0
IsNamed l =
    (l ≡ lang_c_89)
    ⊎ (l ≡ lang_c_95)
    ⊎ (l ≡ lang_c_99)
    ⊎ (l ≡ lang_c_11)
    ⊎ (l ≡ lang_cpp_98)
    ⊎ (l ≡ lang_cpp_03)
    ⊎ (l ≡ lang_cpp_11)
    ⊎ (l ≡ lang_cpp_14)
    ⊎ (l ≡ lang_cpp_17)

abbrev ReadsBack : ℕ → Type 0
ReadsBack l = (n : String) × (c_lang_name l ≡ some n) × (c_lang_find n ≡ l)

reads_back : {l : ℕ} (c : ℕ) → ReadsBack c → l ≡ c → ReadsBack l
reads_back c h e = subst ReadsBack (sym e) h

-- Printing a language and searching for what was printed gives the language back. K&R C is left
-- out: its printed name is not in the table.
pub c_lang_find-c_lang_name :
    (l : ℕ) → IsNamed l → (n : String) × (c_lang_name l ≡ some n) × (c_lang_find n ≡ l)
unfolding c_lang_find c_lang_name
c_lang_find-c_lang_name l (inl e) = reads_back lang_c_89 ("C89", refl, refl) e
c_lang_find-c_lang_name l (inr (inl e)) = reads_back lang_c_95 ("C95", refl, refl) e
c_lang_find-c_lang_name l (inr (inr (inl e))) = reads_back lang_c_99 ("C99", refl, refl) e
c_lang_find-c_lang_name l (inr (inr (inr (inl e)))) = reads_back lang_c_11 ("C11", refl, refl) e
c_lang_find-c_lang_name l (inr (inr (inr (inr (inl e))))) =
    reads_back lang_cpp_98 ("C++98", refl, refl) e
c_lang_find-c_lang_name l (inr (inr (inr (inr (inr (inl e)))))) =
    reads_back lang_cpp_03 ("C++03", refl, refl) e
c_lang_find-c_lang_name l (inr (inr (inr (inr (inr (inr (inl e))))))) =
    reads_back lang_cpp_11 ("C++11", refl, refl) e
c_lang_find-c_lang_name l (inr (inr (inr (inr (inr (inr (inr (inl e)))))))) =
    reads_back lang_cpp_14 ("C++14", refl, refl) e
c_lang_find-c_lang_name l (inr (inr (inr (inr (inr (inr (inr (inr e)))))))) =
    reads_back lang_cpp_17 ("C++17", refl, refl) e
