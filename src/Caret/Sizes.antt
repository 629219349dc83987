-- ===== src/Caret/Sizes.antt =====
-- The arithmetic of print_caret where nothing wraps around.
use cdecl.Prelude.{
  ℕ, ◌+◌, ◌-◌, ◌%◌, ◌^◌, ◌≤◌, ◌<◌, ltb, Bool, true, false, if◌then◌else◌, ◌≡◌, ap, ◌∙◌, arith,
}
use cdecl.Caret.{size_sub, to_unsigned, Window, scrolled, limited, window}

size_sub_lem : (a b : ℕ) → b ≤ a → a < 2 ^ 64 → size_sub a b ≡ a - b
size_sub_lem a b h k = omega arith

to_unsigned_lem : (n : ℕ) → n < 2 ^ 32 → to_unsigned n ≡ n
to_unsigned_lem n h = omega arith

columns_lem : (t : ℕ) → 0 < t → t < 2 ^ 32 → to_unsigned (t + (2 ^ 32 - 1)) ≡ t - 1
columns_lem t h k = omega arith

pub window-limited :
    (t len e k : ℕ)
    → 0 < t
    → t < 2 ^ 32
    → window t len e k ≡ limited (ltb (t - 1) len) (t - 1) len e k
unfolding window
window-limited t len e k h small = ap (λ c. limited (ltb c len) c len e k) (columns_lem t h small)

pub end_lem : (e k : ℕ) → 0 < k → e + k < 2 ^ 31 → to_unsigned (size_sub (e + k) 1) ≡ e + k - 1
end_lem e k h small = omega arith

-- The window in ordinary arithmetic.
unfoldable pub plain_scrolled : Bool → Bool → ℕ → ℕ → ℕ → Window
plain_scrolled left right p e k =
    if left
    then record {
      left = true;
      right = right;
      print_offset = 3 + (e - (p - k));
      print_columns = p - 3;
      error_column_term = p - k;
    }
    else record {
      left = false;
      right = right;
      print_offset = 0;
      print_columns = p;
      error_column_term = e;
    }

pub scrolled_plain :
    (left right : Bool) (p e k : ℕ)
    → k ≤ p
    → 3 ≤ p
    → p ≤ e + k
    → e + k < 2 ^ 31
    → scrolled true right p e k ≡ plain_scrolled true right p e k
unfolding plain_scrolled
scrolled_plain left right p e k fits three past small =
    ap (λ column. scrolled_at column (size_sub p 3)) (size_sub_lem p k fits (omega arith))
    ∙ ap (scrolled_at (p - k)) (size_sub_lem p 3 three (omega arith))
    ∙ ap (λ o. record_at (p - k) o (p - 3)) offset
  where
    record_at : ℕ → ℕ → ℕ → Window
    record_at column offset columns = record {
      left = true;
      right = right;
      print_offset = offset;
      print_columns = columns;
      error_column_term = column;
    }

    scrolled_at : ℕ → ℕ → Window
    scrolled_at column columns = record_at column ((3 + size_sub e column) % 2 ^ 64) columns

    offset : (3 + size_sub e (p - k)) % 2 ^ 64 ≡ 3 + (e - (p - k))
    offset = omega arith

-- A line that exceeds the terminal.
pub limited_plain :
    (t len e k : ℕ)
    → 0 < k
    → e + k ≤ len
    → len < 2 ^ 31
    → 3 ≤ t
    → t < 2 ^ 32
    → limited true t len e k
      ≡ scrolled
          (ltb t (e + k - 1))
          (ltb (e + k - 1) (len - 1))
          (if ltb (e + k - 1) (len - 1) then t - 3 else t)
          e
          k
limited_plain t len e k token inside small three bound =
    ap (λ d. end_at d (size_sub len 1) (size_sub t 3)) (end_lem e k token (omega arith))
    ∙ ap (λ l. end_at (e + k - 1) l (size_sub t 3)) (size_sub_lem len 1 (omega arith) (omega arith))
    ∙ ap (end_at (e + k - 1) (len - 1)) (size_sub_lem t 3 three (omega arith))
  where
    end_at : ℕ → ℕ → ℕ → Window
    end_at d l p = scrolled (ltb t d) (ltb d l) (if ltb d l then p else t) e k
