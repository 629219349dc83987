-- ===== src/Keyword/Laws.antt =====
-- c_keyword_find against the table as a set, and the table against the one of c_type.c.
use mathlib.Core.List.Memᴰ.{head, tail}
use mathlib.Core.List.{Memᴰ}
use mathlib.Core.Path.{subst}
use mathlib.Core.Option.{some-injective}
use text.Mathlib.Text.{◌==◌ as str_eq}
use text.Mathlib.TextEquality.{eq_iff}
use cdecl.Prelude.{
  ℕ, Bool, true, false, not, ◌&&◌, ◌||◌, ◌==◌, ==_iff, bit_and, List, [], ◌∷◌, some, String, ◌≡◌,
  ◌≢◌, ◌↔◌, refl, sym, ap, ◌∙◌, arith, ◌⊎◌, inl, inr, Bool-cases,
}
use cdecl.Lang.{
  lang_none, lang_c_knr, lang_c_89, lang_c_95, lang_c_99, lang_c_11, lang_cpp_98, lang_cpp_03,
  lang_cpp_11, lang_cpp_14, lang_cpp_17,
}
use cdecl.Types.{t_none}
use cdecl.Types.Tables.{c_type_info, c_storage_info, c_qualifier_info}
use cdecl.Types.Name.{bit_name, find_literal, ok}
use cdecl.Keyword.{CKeyword, c_keywords, find_keyword, c_keyword_find}

abbrev pub languages : List ℕ
languages =
    lang_c_knr ∷ lang_c_89 ∷ lang_c_95 ∷ lang_c_99 ∷ lang_c_11 ∷ lang_cpp_98 ∷ lang_cpp_03
    ∷ lang_cpp_11 ∷ lang_cpp_14 ∷ lang_cpp_17 ∷ []

-- The row is for the language.
abbrev pub IsFor : ℕ → CKeyword → Type 0
IsFor l k = bit_and k.ok_langs l ≢ lang_none

other_language :
    (l : ℕ) (s : String) (j : CKeyword) (ks : List CKeyword)
    → (bit_and j.ok_langs l == lang_none) ≡ true
    → find_keyword l s (j ∷ ks) ≡ find_keyword l s ks
unfolding find_keyword
other_language l s j ks h = rw h refl

other_literal :
    (l : ℕ) (s : String) (j : CKeyword) (ks : List CKeyword)
    → str_eq s j.literal ≡ false
    → find_keyword l s (j ∷ ks) ≡ find_keyword l s ks
unfolding find_keyword
other_literal l s j ks h = ground arith

this_row :
    (l : ℕ) (s : String) (j : CKeyword) (ks : List CKeyword)
    → (bit_and j.ok_langs l == lang_none) ≡ false
    → str_eq s j.literal ≡ true
    → find_keyword l s (j ∷ ks) ≡ some j
unfolding find_keyword
this_row l s j ks h e = rw (h, e) refl

not_none : (l : ℕ) (j : CKeyword) → (bit_and j.ok_langs l == lang_none) ≡ false → IsFor l j
not_none l j h e = cc (h, (==_iff (bit_and j.ok_langs l) lang_none).1 e)

for_not_none : (l : ℕ) (j : CKeyword) → IsFor l j → (bit_and j.ok_langs l == lang_none) ≡ false
for_not_none l j h = ground (arith, ==_iff (bit_and j.ok_langs l) lang_none)

later_row :
    (l : ℕ) (s : String) (k j : CKeyword) (ks : List CKeyword)
    → Memᴰ k ks × (k.literal ≡ s) × IsFor l k
    → Memᴰ k (j ∷ ks) × (k.literal ≡ s) × IsFor l k
later_row l s k j ks h = (tail h.0, h.1, h.2)

found_row :
    (l : ℕ) (s : String) (k : CKeyword) (ks : List CKeyword)
    → find_keyword l s ks ≡ some k
    → Memᴰ k ks × (k.literal ≡ s) × IsFor l k
unfolding find_keyword
found_row l s k [] h = cc
found_row l s k (j ∷ ks) h = elim (Bool-cases (bit_and j.ok_langs l == lang_none)) [
  | inl other ↦ later_row l s k j ks (found_row l s k ks (sym (other_language l s j ks other) ∙ h))
  | inr mine ↦ elim (Bool-cases (str_eq s j.literal)) [
    | inr other ↦ later_row l s k j ks (found_row l s k ks (sym (other_literal l s j ks other) ∙ h))
    | inl same ↦
        let e = some-injective j k (sym (this_row l s j ks mine same) ∙ h) in
        (
          head (sym e),
          sym ((eq_iff s j.literal).0 same ∙ ap (λ r. r.literal) e),
          subst (IsFor l) e (not_none l j mine),
        )
  ]
]

-- No later row of the language has the literal.
clear : ℕ → CKeyword → List CKeyword → Bool
clear l j [] = true
clear l j (k ∷ ks) =
    ((bit_and k.ok_langs l == lang_none) || not (str_eq k.literal j.literal)) && clear l j ks

distinct : ℕ → List CKeyword → Bool
distinct l [] = true
distinct l (k ∷ ks) = ((bit_and k.ok_langs l == lang_none) || clear l k ks) && distinct l ks

clear_row :
    (l : ℕ) (j k : CKeyword) (ks : List CKeyword)
    → clear l j ks ≡ true
    → Memᴰ k ks
    → IsFor l k
    → str_eq k.literal j.literal ≡ false
unfolding clear
clear_row l j k [] h m f = elim m [ ]
clear_row l j k (i ∷ ks) h (head e) f =
    let mine = for_not_none l i (subst (IsFor l) e f) in
    ap (λ r. str_eq r.literal j.literal) e ∙ ground arith
clear_row l j k (i ∷ ks) h (tail m) f = clear_row l j k ks (ground arith) m f

row_found :
    (l : ℕ) (k : CKeyword) (ks : List CKeyword)
    → distinct l ks ≡ true
    → Memᴰ k ks
    → IsFor l k
    → find_keyword l k.literal ks ≡ some k
unfolding distinct
row_found l k [] h m f = elim m [ ]
row_found l k (j ∷ ks) h (head e) f =
    let same = (eq_iff k.literal j.literal).1 (ap (λ r. r.literal) e) in
    this_row l k.literal j ks (for_not_none l j (subst (IsFor l) e f)) same ∙ ap some (sym e)
row_found l k (j ∷ ks) h (tail m) f = elim (Bool-cases (bit_and j.ok_langs l == lang_none)) [
  | inl other ↦ other_language l k.literal j ks other ∙ row_found l k ks (ground arith) m f
  | inr mine ↦
      other_literal l k.literal j ks (clear_row l j k ks (ground arith) m f)
      ∙ row_found l k ks (ground arith) m f
]

all_distinct : List ℕ → Bool
all_distinct [] = true
all_distinct (l ∷ ls) = distinct l c_keywords && all_distinct ls

languages_distinct : all_distinct languages ≡ true
unfolding all_distinct distinct clear c_keywords
languages_distinct = refl

distinct_lem :
    (l : ℕ) (ls : List ℕ) → all_distinct ls ≡ true → Memᴰ l ls → distinct l c_keywords ≡ true
unfolding all_distinct
distinct_lem l [] h m = elim m [ ]
distinct_lem l (j ∷ ls) h (head e) = rw e (ground arith)
distinct_lem l (j ∷ ls) h (tail m) = distinct_lem l ls (ground arith) m

-- In each language the search for a word gives a keyword just if it is a row of the table that is
-- for the language and has the word as its literal: no row hides another.
pub c_keyword_find_lem :
    (l : ℕ) (word : String) (k : CKeyword)
    → Memᴰ l languages
    → (c_keyword_find l word ≡ some k) ↔ (Memᴰ k c_keywords × (k.literal ≡ word) × IsFor l k)
unfolding c_keyword_find
c_keyword_find_lem l word k m = (
  found_row l word k c_keywords,
  λ h.
      ap (λ w. find_keyword l w c_keywords) (sym h.1)
      ∙ row_found l k c_keywords (distinct_lem l languages languages_distinct m) h.0 h.2,
)

-- Each keyword with a type bit is the name that c_type_name gives the bit.
Named : List CKeyword → Type 0
Named [] = Unit
Named (k ∷ ks) = ((k.type ≡ t_none) ⊎ (bit_name k.type ≡ ok k.literal)) × Named ks

table_Named : Named c_keywords
unfolding Named c_keywords bit_name find_literal c_type_info c_storage_info c_qualifier_info
table_Named = (
  inr refl,
  (
    inr refl,
    (
      inr refl,
      (
        inr refl,
        (
          inr refl,
          (
            inr refl,
            (
              inr refl,
              (
                inr refl,
                (
                  inr refl,
                  (
                    inr refl,
                    (
                      inr refl,
                      (
                        inr refl,
                        (
                          inr refl,
                          (
                            inr refl,
                            (
                              inr refl,
                              (
                                inl refl,
                                (
                                  inr refl,
                                  (
                                    inr refl,
                                    (
                                      inr refl,
                                      (
                                        inr refl,
                                        (
                                          inr refl,
                                          (
                                            inr refl,
                                            (
                                              inr refl,
                                              (
                                                inr refl,
                                                (
                                                  inr refl,
                                                  (
                                                    inr refl,
                                                    (
                                                      inr refl,
                                                      (
                                                        inr refl,
                                                        (
                                                          inl refl,
                                                          (
                                                            inl refl,
                                                            (
                                                            inr refl,
                                                            (
                                                            inr refl,
                                                            (
                                                            inl refl,
                                                            (
                                                            inl refl,
                                                            (
                                                            inr refl,
                                                            (
                                                            inr refl,
                                                            (
                                                            inr refl,
                                                            (
                                                            inr refl,
                                                            (
                                                            inr refl,
                                                            (
                                                            inr refl,
                                                            (inr refl, (inr refl, (inr refl, tt))),
                                                            ),
                                                            ),
                                                            ),
                                                            ),
                                                            ),
                                                            ),
                                                            ),
                                                            ),
                                                            ),
                                                            ),
                                                          ),
                                                        ),
                                                      ),
                                                    ),
                                                  ),
                                                ),
                                              ),
                                            ),
                                          ),
                                        ),
                                      ),
                                    ),
                                  ),
                                ),
                              ),
                            ),
                          ),
                        ),
                      ),
                    ),
                  ),
                ),
              ),
            ),
          ),
        ),
      ),
    ),
  ),
)

Named-row :
    (k : CKeyword) (ks : List CKeyword)
    → Named ks
    → Memᴰ k ks
    → k.type ≢ t_none
    → bit_name k.type ≡ ok k.literal
unfolding Named
Named-row k [] h m f = elim m [ ]
Named-row k (j ∷ ks) h (head e) f = elim h.0 [
  | inl none' ↦ absurd (f (ap (λ r. r.type) e ∙ none'))
  | inr name ↦ ap (λ r. bit_name r.type) e ∙ name ∙ ap (λ r. ok r.literal) (sym e)
]
Named-row k (j ∷ ks) h (tail m) f = Named-row k ks h.1 m f

-- A word that is read as the type bit of a keyword is the word that the bit is written as.
pub c_keyword_find-bit_name :
    (l : ℕ) (word : String) (k : CKeyword)
    → c_keyword_find l word ≡ some k
    → k.type ≢ t_none
    → bit_name k.type ≡ ok word
unfolding c_keyword_find
c_keyword_find-bit_name l word k h f =
    let found = found_row l word k c_keywords h in
    Named-row k c_keywords table_Named found.0 f ∙ ap ok found.1
