-- ===== src/Types/Check/Loops.antt =====
-- The loops of c_type_check against statements by index: a loop returns nothing exactly when every
-- entry that it reads allows the current language, and what it returns does not.
use cdecl.Prelude.{
  ℕ, zero, suc, ◌+◌, ◌≤◌, ◌<◌, true, false, List, [], ◌∷◌, Option, none, some, get_elem?, ◌≡◌, refl,
  arith, inl, inr, Bool-cases,
}
use cdecl.Bits.{has}
use cdecl.Types.Tables.{CTypeInfo}
use cdecl.Types.Check.{◌or_else◌, check_rows, check_cols, check_pairs}

module _ (type lang : ℕ) where
  -- Each bit of `type` in the table is legal.
  abbrev pub RowsLegal : List CTypeInfo → Type 0
  RowsLegal infos =
      (i : ℕ) (info : CTypeInfo)
      → get_elem? infos i ≡ some info
      → has type info.type ≡ true
      → has lang info.ok_langs ≡ true

  -- In a table whose first row is row `base`: each two bits of `type`, up to the diagonal, may be
  -- combined.
  abbrev pub PairsLegalFrom : List CTypeInfo → ℕ → List CTypeInfo → List (List ℕ) → Type 0
  PairsLegalFrom infos base rest table =
      (r c : ℕ) (a b : CTypeInfo) (oks : List ℕ) (ok_langs : ℕ)
      → c ≤ base + r
      → get_elem? rest r ≡ some a
      → get_elem? infos c ≡ some b
      → get_elem? table r ≡ some oks
      → get_elem? oks c ≡ some ok_langs
      → has type a.type ≡ true
      → has type b.type ≡ true
      → has lang ok_langs ≡ true

  abbrev ColsLegal : ℕ → List CTypeInfo → List ℕ → Type 0
  ColsLegal left cols oks =
      (c : ℕ) (b : CTypeInfo) (ok_langs : ℕ)
      → c < left
      → get_elem? cols c ≡ some b
      → get_elem? oks c ≡ some ok_langs
      → has type b.type ≡ true
      → has lang ok_langs ≡ true

  -- What a loop returned early does not contain the current language.
  abbrev pub Blames : Option ℕ → Type 0
  Blames none = Unit
  Blames (some langs) = has lang langs ≡ false

  pub check_rows-RowsLegal :
      (infos : List CTypeInfo) → check_rows type lang infos ≡ none → RowsLegal infos
  unfolding check_rows
  check_rows-RowsLegal [] e i info at_i on = ground arith
  check_rows-RowsLegal (x ∷ infos) e zero info at_i on = ground arith
  check_rows-RowsLegal (x ∷ infos) e (suc i) info at_i on =
      check_rows-RowsLegal infos (ground arith) i info at_i on

  pub RowsLegal-check_rows :
      (infos : List CTypeInfo) → RowsLegal infos → check_rows type lang infos ≡ none
  unfolding check_rows
  RowsLegal-check_rows [] legal = refl
  RowsLegal-check_rows (x ∷ infos) legal =
      ground (arith, legal 0 x refl, RowsLegal-check_rows infos (λ i. legal (suc i)))

  pub check_rows-Blames : (infos : List CTypeInfo) → Blames (check_rows type lang infos)
  unfolding check_rows
  check_rows-Blames [] = tt
  check_rows-Blames (x ∷ infos) = ground (arith, check_rows-Blames infos)

  check_cols-ColsLegal :
      (left : ℕ) (cols : List CTypeInfo) (oks : List ℕ)
      → check_cols type lang left cols oks ≡ none
      → ColsLegal left cols oks
  unfolding check_cols
  check_cols-ColsLegal zero cols oks e c b o lt at_c at_o on = absurd (omega arith)
  check_cols-ColsLegal (suc left) [] oks e c b o lt at_c at_o on = ground arith
  check_cols-ColsLegal (suc left) (x ∷ cols) [] e c b o lt at_c at_o on = ground arith
  check_cols-ColsLegal (suc left) (x ∷ cols) (y ∷ oks) e zero b o lt at_c at_o on = ground arith
  check_cols-ColsLegal (suc left) (x ∷ cols) (y ∷ oks) e (suc c) b o lt at_c at_o on =
      check_cols-ColsLegal left cols oks (ground arith) c b o (omega arith) at_c at_o on

  ColsLegal-check_cols :
      (left : ℕ) (cols : List CTypeInfo) (oks : List ℕ)
      → ColsLegal left cols oks
      → check_cols type lang left cols oks ≡ none
  unfolding check_cols
  ColsLegal-check_cols zero cols oks legal = refl
  ColsLegal-check_cols (suc left) [] oks legal = refl
  ColsLegal-check_cols (suc left) (x ∷ cols) [] legal = refl
  ColsLegal-check_cols (suc left) (x ∷ cols) (y ∷ oks) legal = ground (
    arith,
    legal 0 x y (omega arith) refl refl,
    ColsLegal-check_cols left cols oks (λ c b o lt. legal (suc c) b o (omega arith)),
  )

  check_cols-Blames :
      (left : ℕ) (cols : List CTypeInfo) (oks : List ℕ)
      → Blames (check_cols type lang left cols oks)
  unfolding check_cols
  check_cols-Blames zero cols oks = tt
  check_cols-Blames (suc left) [] oks = tt
  check_cols-Blames (suc left) (x ∷ cols) [] = tt
  check_cols-Blames (suc left) (x ∷ cols) (y ∷ oks) =
      ground (arith, check_cols-Blames left cols oks)

  pub or_else-Blames : (o p : Option ℕ) → Blames o → Blames p → Blames (o or_else p)
  or_else-Blames none p h k = k
  or_else-Blames (some langs) p h k = h

  pub check_pairs-Blames :
      (infos : List CTypeInfo) (row : ℕ) (rest : List CTypeInfo) (table : List (List ℕ))
      → Blames (check_pairs type lang infos row rest table)
  unfolding check_pairs
  check_pairs-Blames infos row [] table = tt
  check_pairs-Blames infos row (x ∷ rest) [] = tt
  check_pairs-Blames infos row (x ∷ rest) (oks ∷ table) = elim (Bool-cases (has type x.type)) [
    | inl on ↦ rw on (
        or_else-Blames _ _ (check_cols-Blames (suc row) infos oks)
          (check_pairs-Blames infos (suc row) rest table))
    | inr off ↦ rw off (check_pairs-Blames infos (suc row) rest table)
  ]

  -- Both halves of a sequence of loops returned nothing.
  pub or_else-eq-none : (o p : Option ℕ) → (o or_else p) ≡ none → (o ≡ none) × (p ≡ none)
  or_else-eq-none none p h = (refl, h)
  or_else-eq-none (some langs) p h = ground arith

  pub check_pairs-PairsLegal :
      (infos : List CTypeInfo) (row : ℕ) (rest : List CTypeInfo) (table : List (List ℕ))
      → check_pairs type lang infos row rest table ≡ none
      → PairsLegalFrom infos row rest table
  unfolding check_pairs
  check_pairs-PairsLegal infos row [] table e r c a b oks o le at_r at_c at_t at_o on on' =
      ground arith
  check_pairs-PairsLegal infos row (x ∷ rest) [] e r c a b oks o le at_r at_c at_t at_o on on' =
      ground arith
  check_pairs-PairsLegal infos row (x ∷ rest) (y ∷ table) e zero c a b oks o le at_r at_c at_t at_o
        on on' =
      check_cols-ColsLegal (suc row) infos y (ground arith) c b o (omega arith) at_c (ground arith)
        on'
  check_pairs-PairsLegal infos row (x ∷ rest) (y ∷ table) e (suc r) c a b oks o le at_r at_c at_t
        at_o on on' =
      check_pairs-PairsLegal infos (suc row) rest table (or_else-eq-none _ _ e).1 r c a b oks o
        (omega arith) at_r at_c at_t at_o on on'

  pub PairsLegal-check_pairs :
      (infos : List CTypeInfo) (row : ℕ) (rest : List CTypeInfo) (table : List (List ℕ))
      → PairsLegalFrom infos row rest table
      → check_pairs type lang infos row rest table ≡ none
  unfolding check_pairs
  PairsLegal-check_pairs infos row [] table legal = refl
  PairsLegal-check_pairs infos row (x ∷ rest) [] legal = refl
  PairsLegal-check_pairs infos row (x ∷ rest) (y ∷ table) legal =
      let later : check_pairs type lang infos (suc row) rest table ≡ none =
        PairsLegal-check_pairs infos (suc row) rest table
          (λ r c a b oks o le. legal (suc r) c a b oks o (omega arith)) in
      elim (Bool-cases (has type x.type)) [
        | inl on ↦
            rw
              (
                on,
                ColsLegal-check_cols (suc row) infos y
                    (λ c b o lt at_c at_o. legal 0 c x b y o (omega arith) refl at_c refl at_o on),
              )
              later
        | inr off ↦ rw off later
      ]
