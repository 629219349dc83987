-- ===== src/Caret/Scroll.antt =====
-- The window that print_caret chooses, case by case, and the caret below the token.
use mathlib.Core.Path.{subst}
use cdecl.Prelude.{
  ℕ, ◌+◌, ◌-◌, ◌^◌, ◌≤◌, ◌<◌, ltb, Bool, true, false, if◌then◌else◌, ◌≡◌, refl, sym, ap, ◌∙◌, arith,
  ◌⊎◌, inl, inr, Bool-cases,
}
use cdecl.Caret.{Window, scrolled, limited, window}
use cdecl.Caret.Sizes.{window-limited, end_lem, plain_scrolled, scrolled_plain, limited_plain}

abbrev pub pad : Bool → ℕ
pad more = if more then 3 else 0

-- The token is in the window, its first character above the caret, and the window in the line and the
-- terminal.
pub data Shows (t len e k : ℕ) (w : Window) : Type 0 where
  shows :
      w.error_column_term + w.print_offset ≡ pad w.left + e
      → pad w.left ≤ w.error_column_term
      → w.error_column_term + k ≤ pad w.left + w.print_columns
      → w.print_offset + w.print_columns ≤ len
      → pad w.left + w.print_columns + pad w.right ≤ t
      → Shows t len e k w

Shows-plain :
    (t len e k p : ℕ) (right : Bool)
    → k + 3 ≤ p
    → p ≤ e + k
    → e + k ≤ len
    → p + pad right ≤ t
    → Shows t len e k (plain_scrolled true right p e k)
unfolding plain_scrolled
Shows-plain t len e k p right fits past inside width =
    shows (omega arith) (omega arith) (omega arith) (omega arith) (omega arith)

Shows-still :
    (t len e k p : ℕ) (right : Bool)
    → e + k ≤ p
    → p ≤ len
    → p + pad right ≤ t
    → Shows t len e k (scrolled false right p e k)
Shows-still t len e k p right fits inside width =
    shows (omega arith) (omega arith) (omega arith) (omega arith) (omega arith)

short_window :
    (t len e k : ℕ)
    → 0 < t
    → t < 2 ^ 32
    → 0 < k
    → e + k ≤ len
    → len < 2 ^ 31
    → len < t
    → window t len e k ≡ scrolled false false len e k
short_window t len e k room bound token inside small short =
    window-limited t len e k room bound
    ∙ ap (λ b. limited b (t - 1) len e k) fits
    ∙ ap (λ d. scrolled (ltb len d) false len e k) (end_lem e k token (omega arith))
    ∙ ap (λ b. scrolled b false len e k) still
  where
    fits : ltb (t - 1) len ≡ false
    fits = ground arith

    still : ltb len (e + k - 1) ≡ false
    still = ground arith

long_window :
    (t len e k : ℕ) (left right : Bool)
    → 4 ≤ t
    → t < 2 ^ 32
    → 0 < k
    → e + k ≤ len
    → len < 2 ^ 31
    → t ≤ len
    → ltb (t - 1) (e + k - 1) ≡ left
    → ltb (e + k - 1) (len - 1) ≡ right
    → window t len e k ≡ scrolled left right (if right then t - 1 - 3 else t - 1) e k
long_window t len e k left right room bound token inside small long scrolls goes_on =
    window-limited t len e k (omega arith) bound
    ∙ ap (λ b. limited b (t - 1) len e k) exceeds
    ∙ limited_plain (t - 1) len e k token inside small (omega arith) (omega arith)
    ∙ ap
        (λ b.
          scrolled b (ltb (e + k - 1) (len - 1))
            (if ltb (e + k - 1) (len - 1) then t - 1 - 3 else t - 1) e k)
        scrolls
    ∙ ap (λ b. scrolled left b (if b then t - 1 - 3 else t - 1) e k) goes_on
  where
    exceeds : ltb (t - 1) len ≡ true
    exceeds = ground arith

far_Shows :
    (t len e k : ℕ) (right : Bool)
    → k + 7 ≤ t
    → t < e + k
    → e + k ≤ len
    → len < 2 ^ 31
    → Shows (t - 1) len e k (scrolled true right (if right then t - 1 - 3 else t - 1) e k)
far_Shows t len e k right room far inside small =
    subst (Shows (t - 1) len e k)
      (sym (
        scrolled_plain true right p e k (at_most right) (at_least right) (before right)
          (omega arith)))
      (Shows-plain (t - 1) len e k p right (fits right) (before right) inside (width right))
  where
    p : ℕ
    p = if right then t - 1 - 3 else t - 1

    at_most : (b : Bool) → k ≤ (if b then t - 1 - 3 else t - 1)
    at_most true = omega arith
    at_most false = omega arith

    at_least : (b : Bool) → 3 ≤ (if b then t - 1 - 3 else t - 1)
    at_least true = omega arith
    at_least false = omega arith

    before : (b : Bool) → (if b then t - 1 - 3 else t - 1) ≤ e + k
    before true = omega arith
    before false = omega arith

    fits : (b : Bool) → k + 3 ≤ (if b then t - 1 - 3 else t - 1)
    fits true = omega arith
    fits false = omega arith

    width : (b : Bool) → (if b then t - 1 - 3 else t - 1) + pad b ≤ t - 1
    width true = omega arith
    width false = omega arith

-- The token begins with the caret's character and is printed whole, unless the line exceeds the
-- terminal and the token ends in one of the last three columns or just past them.
pub window-Shows :
    (t len e k : ℕ)
    → k + 7 ≤ t
    → t < 2 ^ 32
    → 0 < k
    → e + k ≤ len
    → len < 2 ^ 31
    → ((len < t) ⊎ ((e + k + 4 ≤ t) ⊎ (t < e + k)))
    → Shows (t - 1) len e k (window t len e k)
window-Shows t len e k room bound token inside small place = elim (Bool-cases (ltb len t)) [
  | inl short ↦
      subst (Shows (t - 1) len e k)
        (sym
          (short_window t len e k (omega arith) bound token inside small (ground (arith, short))))
        (Shows-still (t - 1) len e k len false inside (omega arith) (ground (arith, short)))
  | inr long ↦ elim (Bool-cases (ltb t (e + k))) [
    | inl far ↦
        let right = ltb (e + k - 1) (len - 1) in
        subst (Shows (t - 1) len e k)
          (sym (
            long_window t len e k true right (omega arith) bound token inside small
              (ground (arith, long)) (ground (arith, far)) refl))
          (far_Shows t len e k right room (ground (arith, far)) inside small)
    | inr within ↦
        let near : e + k + 4 ≤ t = ground (arith, long, within, place) in
        subst (Shows (t - 1) len e k)
          (sym (
            long_window t len e k false true (omega arith) bound token inside small
              (ground (arith, long)) (ground (arith, near)) (ground (arith, near, long))))
          (Shows-still (t - 1) len e k (t - 1 - 3) true (omega arith) (ground (arith, long))
            (omega arith))
  ]
]
