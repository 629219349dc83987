-- ===== src/Types/Check/Laws.antt =====
-- What c_type_check decides.
use cdecl.Prelude.{
  ℕ, true, false, Option, none, some, ◌≡◌, ◌≢◌, ◌↔◌, refl, sym, ap, ◌∙◌, Option-cases, inl, inr,
}
use cdecl.Bits.{has}
use cdecl.Lang.{lang_all}
use cdecl.Types.Tables.{
  c_qualifier_info, c_storage_info, c_type_info, ok_storage_langs, ok_type_langs,
}
use cdecl.Types.Check.{◌or_else◌, check_rows, check_pairs, check_found, or_lang_all, c_type_check}
use cdecl.Types.Check.Loops.{
  RowsLegal, PairsLegalFrom, Blames, check_rows-RowsLegal, RowsLegal-check_rows, check_rows-Blames,
  check_pairs-PairsLegal, PairsLegal-check_pairs, check_pairs-Blames, or_else-Blames,
  or_else-eq-none,
}

-- A type is legal in a language: each of its bits is, and so is each pair of its storage classes
-- and each pair of its types.
pub record IsLegal (type lang : ℕ) : Type 0 where
  pub storage : RowsLegal type lang c_storage_info
  pub types : RowsLegal type lang c_type_info
  pub qualifiers : RowsLegal type lang c_qualifier_info
  pub storage_pairs : PairsLegalFrom type lang c_storage_info 0 c_storage_info ok_storage_langs
  pub type_pairs : PairsLegalFrom type lang c_type_info 0 c_type_info ok_type_langs

or_else_self : (o : Option ℕ) → (o or_else o) ≡ o
or_else_self none = refl
or_else_self (some langs) = refl

module _ (type lang : ℕ) where
  c_type_check-some :
      (langs : ℕ) → check_found type lang ≡ some langs → c_type_check type lang ≡ langs
  c_type_check-some langs e = unfold c_type_check in ap or_lang_all e

  c_type_check-none : check_found type lang ≡ none → c_type_check type lang ≡ lang_all
  c_type_check-none e = unfold c_type_check in ap or_lang_all e

  abbrev on_storage_pairs : Option ℕ
  on_storage_pairs = check_pairs type lang c_storage_info 0 c_storage_info ok_storage_langs

  abbrev on_type_pairs : Option ℕ
  on_type_pairs = check_pairs type lang c_type_info 0 c_type_info ok_type_langs

  storage_pairs-Blames : Blames type lang on_storage_pairs
  storage_pairs-Blames =
      check_pairs-Blames type lang c_storage_info 0 c_storage_info ok_storage_langs

  type_pairs-Blames : Blames type lang on_type_pairs
  type_pairs-Blames = check_pairs-Blames type lang c_type_info 0 c_type_info ok_type_langs

  found-Blames : Blames type lang (check_found type lang)
  unfolding check_found
  found-Blames =
      let pairs =
        or_else-Blames type lang on_storage_pairs (on_type_pairs or_else on_type_pairs)
          storage_pairs-Blames
          (or_else-Blames type lang on_type_pairs on_type_pairs type_pairs-Blames
            type_pairs-Blames) in
      or_else-Blames type lang (check_rows type lang c_storage_info)
        (check_rows type lang c_type_info
          or_else check_rows type lang c_qualifier_info
          or_else on_storage_pairs
          or_else on_type_pairs
          or_else on_type_pairs)
        (check_rows-Blames type lang c_storage_info)
        (or_else-Blames type lang (check_rows type lang c_type_info)
          (check_rows type lang c_qualifier_info
            or_else on_storage_pairs
            or_else on_type_pairs
            or_else on_type_pairs)
          (check_rows-Blames type lang c_type_info)
          (or_else-Blames type lang (check_rows type lang c_qualifier_info)
            (on_storage_pairs or_else on_type_pairs or_else on_type_pairs)
            (check_rows-Blames type lang c_qualifier_info) pairs))

  IsLegal-found : IsLegal type lang → check_found type lang ≡ none
  unfolding check_found
  IsLegal-found h = rw (
    RowsLegal-check_rows type lang _ h.storage,
    RowsLegal-check_rows type lang _ h.types,
    RowsLegal-check_rows type lang _ h.qualifiers,
    PairsLegal-check_pairs type lang _ _ _ _ h.storage_pairs,
    PairsLegal-check_pairs type lang _ _ _ _ h.type_pairs,
  )

  found-IsLegal : check_found type lang ≡ none → IsLegal type lang
  unfolding check_found
  found-IsLegal e =
      let e₁ = or_else-eq-none type lang _ _ e in
      let e₂ = or_else-eq-none type lang _ _ e₁.1 in
      let e₃ = or_else-eq-none type lang _ _ e₂.1 in
      let e₄ = or_else-eq-none type lang _ _ e₃.1 in
      let e₅ = or_else-eq-none type lang _ _ e₄.1 in
      record {
        storage = check_rows-RowsLegal type lang _ e₁.0;
        types = check_rows-RowsLegal type lang _ e₂.0;
        qualifiers = check_rows-RowsLegal type lang _ e₃.0;
        storage_pairs = check_pairs-PairsLegal type lang _ _ _ _ e₄.0;
        type_pairs = check_pairs-PairsLegal type lang _ _ _ _ e₅.0;
      }

  -- What the check returns for an illegal type is a set of languages without the current one.
  pub c_type_check-Blames :
      c_type_check type lang ≢ lang_all → has lang (c_type_check type lang) ≡ false
  c_type_check-Blames ne = elim (Option-cases (check_found type lang)) [
    | inl e ↦ absurd (ne (c_type_check-none e))
    | inr (langs, e) ↦ rw (c_type_check-some langs e) (rw e at found-Blames)
  ]

  pub c_type_check_iff :
      has lang lang_all ≡ true → (c_type_check type lang ≡ lang_all) ↔ IsLegal type lang
  c_type_check_iff one = (passed, λ h. c_type_check-none (IsLegal-found h))
    where
      passed : c_type_check type lang ≡ lang_all → IsLegal type lang
      passed e = elim (Option-cases (check_found type lang)) [
        | inl e' ↦ found-IsLegal e'
        | inr (langs, e') ↦
            let all : langs ≡ lang_all = sym (c_type_check-some langs e') ∙ e in
            let blame : has lang langs ≡ false = rw e' at found-Blames in cc (all, blame, one)
      ]

-- Fewer bits are no less legal: a type that the check accepts stays accepted when bits are taken
-- away from it.
pub c_type_check_mono :
    (type type' lang : ℕ)
    → has lang lang_all ≡ true
    → ((m : ℕ) → has type' m ≡ true → has type m ≡ true)
    → c_type_check type lang ≡ lang_all
    → c_type_check type' lang ≡ lang_all
c_type_check_mono type type' lang one sub e =
    let h = (c_type_check_iff type lang one).0 e in
    (c_type_check_iff type' lang one).1 (record {
      storage = λ i info at_i on. h.storage i info at_i (sub _ on);
      types = λ i info at_i on. h.types i info at_i (sub _ on);
      qualifiers = λ i info at_i on. h.qualifiers i info at_i (sub _ on);
      storage_pairs = λ r c a b oks o le p q s t on on'.
          h.storage_pairs r c a b oks o le p q s t (sub _ on) (sub _ on');
      type_pairs = λ r c a b oks o le p q s t on on'.
          h.type_pairs r c a b oks o le p q s t (sub _ on) (sub _ on');
    })

-- The repeated pass over the pairs of types changes no result: the check objects exactly where the
-- five loops before it do.
pub check_found_repeats :
    (type lang : ℕ)
    → check_found type lang ≡ (
        check_rows type lang c_storage_info
        or_else check_rows type lang c_type_info
        or_else check_rows type lang c_qualifier_info
        or_else check_pairs type lang c_storage_info 0 c_storage_info ok_storage_langs
        or_else check_pairs type lang c_type_info 0 c_type_info ok_type_langs)
unfolding check_found
check_found_repeats type lang =
    rw (or_else_self (check_pairs type lang c_type_info 0 c_type_info ok_type_langs))
