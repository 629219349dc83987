-- ===== src/Caret/Under.antt =====
-- The caret below the first character of the token.
use mathlib.Core.Option.{some-injective}
use cdecl.Prelude.{
  ℕ, suc, ◌+◌, ◌-◌, ◌^◌, ◌≤◌, ◌<◌, ltb, leb, Bool, true, false, ◌&&◌, [], ◌∷◌, ◌++◌, none, some,
  if◌then◌else◌, length, get_elem?, ◌≡◌, refl, ap, ◌∙◌, arith, ◌⊎◌, inl, inr, Bool-cases,
}
use cdecl.Settings.Prompt.{Text}
use cdecl.Util.{ends_with_chr}
use cdecl.Caret.{
  Window, window, take, drop, more, printed_line, token_len, with_token, print_caret, caret_at,
  line_len, class_len, isspace, isalnum,
}
use cdecl.Caret.Elements.{length_append, get_append, length-take, length-drop, get-take, get-drop}
use cdecl.Caret.Scroll.{Shows, shows, pad, window-Shows}

length-more : (b : Bool) → length (more b) ≡ pad b
length-more true = refl
length-more false = refl

get-more :
    (b : Bool) (s : Text) (i j : ℕ) → j ≡ pad b + i → get_elem? (more b ++ s) j ≡ get_elem? s i
get-more true s i j h = ap (get_elem? (more true ++ s)) shifted
  where
    shifted : j ≡ suc (suc (suc i))
    shifted = omega (arith, h)
get-more false s i j h = ap (get_elem? s) (omega (arith, h))

printed_line-fits :
    (t : ℕ) (line : Text) (e k : ℕ) (w : Window)
    → Shows t (length line) e k w
    → length (printed_line line w) ≤ t
printed_line-fits t line e k w (shows at left right inside width) = omega (
  arith,
  length_append (more w.left) (take w.print_columns (drop w.print_offset line) ++ more w.right),
  length_append (take w.print_columns (drop w.print_offset line)) (more w.right),
  length-take w.print_columns (drop w.print_offset line)
      (omega (arith, length-drop w.print_offset line (omega arith))),
  length-more w.left,
  length-more w.right,
)

printed_under :
    (t : ℕ) (line : Text) (e k : ℕ) (w : Window)
    → 0 < k
    → Shows t (length line) e k w
    → get_elem? (printed_line line w) w.error_column_term ≡ get_elem? line e
printed_under t line e k w token (shows at left right inside width) =
    get-more w.left (shown ++ more w.right) i w.error_column_term (omega arith)
    ∙ get_append shown (more w.right) i (
        omega (
          arith,
          length-take w.print_columns (drop w.print_offset line)
              (omega (arith, length-drop w.print_offset line (omega arith))),
        ))
    ∙ get-take w.print_columns (drop w.print_offset line) i (omega arith)
    ∙ get-drop w.print_offset line i
    ∙ ap (get_elem? line) (omega arith)
  where
    shown : Text
    shown = take w.print_columns (drop w.print_offset line)

    i : ℕ
    i = w.error_column_term - pad w.left

Shows-longer :
    (t len longer e k : ℕ) (w : Window) → len ≤ longer → Shows t len e k w → Shows t longer e k w
Shows-longer t len longer e k w h (shows at left right inside width) =
    shows at left right (omega arith) width

token_positive : (s : Text) (k : ℕ) → token_len s ≡ some k → 0 < k
token_positive [] k h = absurd (let clash : none ≡ some k = h in cc)
token_positive (c ∷ s) k h =
    let e = some-injective (suc (class_len (isspace c) (isalnum c) s)) k h in omega (arith, e)

line_len_bound : (line : Text) → line_len line ≤ length line
line_len_bound line = elim (Bool-cases (ends_with_chr line 10)) [
  | inl e ↦ rw e (omega arith)
  | inr e ↦ rw e (omega arith)
]

-- When the input is not interactive, the line is printed in at most all columns of the terminal but
-- one, and the character above the caret is the one at the error's column: for a line of less than
-- 2 ^ 31 characters, a token that ends in it before its newline, a terminal that is seven columns
-- wider than the token and less than 2 ^ 32, and, where the line does not fit it, a token that ends
-- before the terminal's last four columns or past its end.
pub print_caret_lem :
    (t : ℕ) (line : Text) (e k : ℕ)
    → token_len (drop e line) ≡ some k
    → e + k ≤ line_len line
    → length line < 2 ^ 31
    → k + 7 ≤ t
    → t < 2 ^ 32
    → ((line_len line < t) ⊎ ((e + k + 4 ≤ t) ⊎ (t < e + k)))
    → (out : Text) × (column : ℕ) × (print_caret t line e ≡ some (out, column))
      × (length out ≤ t - 1)
      × (get_elem? out column ≡ get_elem? line e)
unfolding print_caret
print_caret_lem t line e k token inside small room bound place = (
  printed_line line w,
  w.error_column_term,
  ap (λ column. with_token t line column (token_len (drop column line))) here
      ∙ ap (with_token t line e) token,
  printed_line-fits (t - 1) line e k w in_window,
  printed_under (t - 1) line e k w some_token in_window,
)
  where
    w : Window
    w = window t (line_len line) e k

    some_token : 0 < k
    some_token = token_positive (drop e line) k token

    here : caret_at line e ≡ e
    here = ap (λ b. if ltb 0 e && b then e - 1 else e) inner ∙ outer (ltb 0 e)
      where
        inner : leb (length line) e ≡ false
        inner = let longer = line_len_bound line in ground (arith, longer)

        outer : (b : Bool) → (if b && false then e - 1 else e) ≡ e
        outer true = refl
        outer false = refl

    in_window : Shows (t - 1) (length line) e k w
    in_window = Shows-longer (t - 1) (line_len line) (length line) e k w (line_len_bound line) (
        window-Shows t (line_len line) e k room bound some_token inside
          (let longer = line_len_bound line in omega arith) place)
