-- ===== src/Coloring/Sgr.antt =====
-- parse_sgr against the grammar that its comment gives: numbers up to 255 with semicolons between.
use cdecl.Prelude.{
  ℕ, suc, zero, ◌+◌, ◌-◌, ◌*◌, ◌<◌, ◌≤◌, ◌==◌, leb, Bool, true, false, ◌&&◌, List, [], ◌∷◌, Option,
  some, if◌then◌else◌, length, ◌≡◌, refl, sym, ap, ◌∙◌, arith, ◌⊎◌, inl, inr, Bool-cases,
}
use cdecl.Settings.Prompt.{Text}
use cdecl.Coloring.{is_digit, saturated, strtoull_from, after_number, at_digit, sgr_loop, parse_sgr}

abbrev add_first : ℕ → List Text → List Text
add_first c [] = (c ∷ []) ∷ []
add_first c (d ∷ ds) = (c ∷ d) ∷ ds

-- The parts between semicolons.
unfoldable pub fields : Text → List Text
fields [] = [] ∷ []
fields (c ∷ s) = let rest = fields s in if c == b';' then [] ∷ rest else add_first c rest

abbrev pub digits : Text → Bool
digits [] = true
digits (c ∷ s) = is_digit c && digits s

-- The number that digits stand for after others that stand for `n`.
abbrev pub value_from : ℕ → Text → ℕ
value_from n [] = n
value_from n (c ∷ s) = value_from (n * 10 + (c - b'0')) s

-- One number.
abbrev pub sgr_number : Text → Bool
sgr_number [] = false
sgr_number (c ∷ s) = digits (c ∷ s) && leb (value_from 0 (c ∷ s)) 255

abbrev pub all_numbers : List Text → Bool
all_numbers [] = true
all_numbers (d ∷ ds) = sgr_number d && all_numbers ds

-- The same after the first digits of the first number.
abbrev further_numbers : ℕ → List Text → Bool
further_numbers n [] = leb n 255
further_numbers n (d ∷ ds) = digits d && leb (value_from n d) 255 && all_numbers ds

further_add :
    (n c : ℕ) (ds : List Text)
    → is_digit c ≡ true
    → further_numbers n (add_first c ds) ≡ further_numbers (n * 10 + (c - b'0')) ds
further_add n c [] h = ground arith
further_add n c (d ∷ ds) h = rw h refl

further_other :
    (n c : ℕ) (ds : List Text) → is_digit c ≡ false → further_numbers n (add_first c ds) ≡ false
further_other n c [] h = ground arith
further_other n c (d ∷ ds) h = rw h refl

first_digit :
    (c : ℕ) (ds : List Text)
    → is_digit c ≡ true
    → all_numbers (add_first c ds) ≡ further_numbers (0 * 10 + (c - b'0')) ds
first_digit c [] h = ground arith
first_digit c (d ∷ ds) h = ground arith

first_other : (c : ℕ) (ds : List Text) → is_digit c ≡ false → all_numbers (add_first c ds) ≡ false
first_other c [] h = ground arith
first_other c (d ∷ ds) h = ground arith

ends : (loop : Text → Option Bool) (n : ℕ) → after_number loop (saturated n []) ≡ some (leb n 255)
ends loop n = ground arith

ends_other :
    (loop : Text → Option Bool) (n c : ℕ) (s : Text)
    → (c == b';') ≡ false
    → after_number loop (saturated n (c ∷ s)) ≡ some false
ends_other loop n c s h = ground arith

ends_semicolon :
    (loop : Text → Option Bool) (n : ℕ) (s : Text) (b : Bool)
    → loop s ≡ some b
    → after_number loop (saturated n (b';' ∷ s)) ≡ some (leb n 255 && b)
ends_semicolon loop n s b h = ground arith

char_cases :
    (c : ℕ)
    → (c ≡ b';')
      ⊎ ((is_digit c ≡ true) × ((c == b';') ≡ false))
      ⊎ ((is_digit c ≡ false) × ((c == b';') ≡ false))
char_cases c = elim (Bool-cases (c == b';')) [
  | inl e ↦ inl (ground arith)
  | inr e ↦ elim (Bool-cases (is_digit c)) [ inl d ↦ inr (inl (d, e)) | inr d ↦ inr (inr (d, e)) ]
]

fields_add : (c : ℕ) (s : Text) → (c == b';') ≡ false → fields (c ∷ s) ≡ add_first c (fields s)
unfolding fields
fields_add c s e = rw e refl

starts_digit :
    (loop : Text → Option Bool) (c : ℕ) (s : Text)
    → is_digit c ≡ true
    → at_digit loop (c ∷ s) ≡ after_number loop (strtoull_from (0 * 10 + (c - b'0')) s)
unfolding strtoull_from
starts_digit loop c s d = ground arith

starts_other :
    (loop : Text → Option Bool) (c : ℕ) (s : Text)
    → is_digit c ≡ false
    → at_digit loop (c ∷ s) ≡ some false
starts_other loop c s d = ground arith

module _ (loop : Text → Option Bool) (bound : ℕ)
    (loops : (r : Text) → length r < bound → loop r ≡ some (all_numbers (fields r))) where
  -- The number and what follows it, where the loop is right on shorter texts.
  numbers_after :
      (n : ℕ) (s : Text)
      → length s ≤ bound
      → after_number loop (strtoull_from n s) ≡ some (further_numbers n (fields s))
  unfolding strtoull_from fields
  numbers_after n [] h = ends loop n ∙ ap some (ground arith)
  numbers_after n (c ∷ s) h = elim (char_cases c) [
    | inl e ↦ rw e (ends_semicolon loop n s (all_numbers (fields s)) (loops s (omega arith)))
    | inr (inl (d, e)) ↦
        rw (d, e)
          (numbers_after (n * 10 + (c - b'0')) s (omega arith)
            ∙ ap some (sym (further_add n c (fields s) d)))
    | inr (inr (d, e)) ↦
        rw (d, e) (ends_other loop n c s e ∙ ap some (sym (further_other n c (fields s) d)))
  ]

  at_digit_lem : (s : Text) → length s ≤ bound → at_digit loop s ≡ some (all_numbers (fields s))
  unfolding strtoull_from fields
  at_digit_lem [] h = refl
  at_digit_lem (c ∷ s) h = elim (char_cases c) [
    | inl e ↦ rw e refl
    | inr (inl (d, e)) ↦
        starts_digit loop c s d
        ∙ numbers_after (0 * 10 + (c - b'0')) s (omega arith)
        ∙ ap some (sym (ap all_numbers (fields_add c s e) ∙ first_digit c (fields s) d))
    | inr (inr (d, e)) ↦
        starts_other loop c s d
        ∙ ap some (sym (ap all_numbers (fields_add c s e) ∙ first_other c (fields s) d))
  ]

sgr_loop_lem :
    (rounds : ℕ) (s : Text) → length s < rounds → sgr_loop rounds s ≡ some (all_numbers (fields s))
unfolding sgr_loop
sgr_loop_lem zero s h = absurd (omega arith)
sgr_loop_lem (suc rounds) s h =
    at_digit_lem (sgr_loop rounds) rounds (sgr_loop_lem rounds) s (omega arith)

-- parse_sgr ends for every text, and accepts just those that are numbers up to 255 with semicolons
-- between them.
pub parse_sgr_lem : (s : Text) → parse_sgr (some s) ≡ some (all_numbers (fields s))
unfolding parse_sgr
parse_sgr_lem s = sgr_loop_lem (suc (length s)) s (omega arith)
