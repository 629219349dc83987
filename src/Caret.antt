-- ===== src/Caret.antt =====
-- print_caret and token_len of src/diagnostics.c: the line with the error, scrolled so that it fits the
-- terminal, and the column of the `^` below it. Texts are lists of character codes without the zero
-- that ends them; characters are those of the C locale.
pub mod Elements
pub mod Sizes
pub mod Scroll
pub mod Under
mod Tests
use cdecl.Prelude.{
  ℕ, suc, zero, ◌+◌, ◌-◌, ◌%◌, ◌^◌, ◌==◌, ltb, leb, Bool, true, false, not, ◌&&◌, ◌||◌, List, [],
  ◌∷◌, ◌++◌, Option, none, some, if◌then◌else◌, length,
}
use cdecl.Settings.Prompt.{Text}
use cdecl.Util.{ends_with_chr}

-- isspace(3) and isalnum(3).
abbrev pub isspace : ℕ → Bool
isspace c = c == 32 || (leb 9 c && leb c 13)

abbrev pub isalnum : ℕ → Bool
isalnum c = (leb b'0' c && leb c b'9') || ((leb b'A' c && leb c b'Z') || (leb b'a' c && leb c b'z'))

-- Whether the token goes on at a character, from the class of its first.
abbrev pub same_class : Bool → Bool → ℕ → Bool
same_class is_s0_space is_s0_alnum c =
    if is_s0_space
    then isspace c
    else if is_s0_alnum
    then isalnum c
    else not (isalnum c || isspace c)

unfoldable pub class_len : Bool → Bool → Text → ℕ
class_len space alnum [] = 0
class_len space alnum (c ∷ s) =
    let further = class_len space alnum s in if same_class space alnum c then suc further else 0

-- `none` for an empty text, past whose end the source reads.
abbrev pub token_len : Text → Option ℕ
token_len [] = none
token_len (c ∷ s) = some (suc (class_len (isspace c) (isalnum c) s))

-- size_t and unsigned arithmetic.
abbrev pub size_sub : ℕ → ℕ → ℕ
size_sub a b = (a + (2 ^ 64 - b)) % 2 ^ 64

abbrev pub to_unsigned : ℕ → ℕ
to_unsigned n = n % 2 ^ 32

-- more[0] and more[1], print_offset, print_columns and error_column_term.
pub record Window : Type 0 where
  pub left : Bool
  pub right : Bool
  pub print_offset : ℕ
  pub print_columns : ℕ
  pub error_column_term : ℕ

-- The scrolling to the left.
abbrev pub scrolled : Bool → Bool → ℕ → ℕ → ℕ → Window
scrolled false right print_columns error_column token_columns = record {
  left = false;
  right = right;
  print_offset = 0;
  print_columns = print_columns;
  error_column_term = error_column;
}
scrolled true right print_columns error_column token_columns =
    let column = size_sub print_columns token_columns in
    record {
      left = true;
      right = right;
      print_offset = (3 + size_sub error_column column) % 2 ^ 64;
      print_columns = size_sub print_columns 3;
      error_column_term = column;
    }

-- From more[1] on: the right end, when the line exceeds the terminal.
abbrev pub limited : Bool → ℕ → ℕ → ℕ → ℕ → Window
limited false term_columns input_line_len error_column token_columns =
    let error_end_column = to_unsigned (size_sub (error_column + token_columns) 1) in
    scrolled (ltb input_line_len error_end_column) false input_line_len error_column token_columns
limited true term_columns input_line_len error_column token_columns =
    let error_end_column = to_unsigned (size_sub (error_column + token_columns) 1) in
    let more_right = ltb error_end_column (size_sub input_line_len 1) in
    scrolled (ltb term_columns error_end_column) more_right
      (if more_right then size_sub term_columns 3 else term_columns) error_column token_columns

-- The terminal has `term_columns` columns, of which one is left free.
unfoldable pub window : ℕ → ℕ → ℕ → ℕ → Window
window term_columns input_line_len error_column token_columns =
    let columns = to_unsigned (term_columns + (2 ^ 32 - 1)) in
    limited (ltb columns input_line_len) columns input_line_len error_column token_columns

abbrev pub take : ℕ → Text → Text
take zero s = []
take (suc n) [] = []
take (suc n) (c ∷ s) = c ∷ take n s

abbrev pub drop : ℕ → Text → Text
drop zero s = s
drop (suc n) [] = []
drop (suc n) (c ∷ s) = drop n s

abbrev pub more : Bool → Text
more true = b'.' ∷ b'.' ∷ b'.' ∷ []
more false = []

-- What PRINT_ERR prints but for the newline, while print_columns is an int.
abbrev pub printed_line : Text → Window → Text
printed_line line w =
    more w.left ++ (take w.print_columns (drop w.print_offset line) ++ more w.right)

abbrev pub line_len : Text → ℕ
line_len line = if ends_with_chr line 10 then length line - 1 else length line

abbrev pub caret_at : Text → ℕ → ℕ
caret_at line error_column =
    if ltb 0 error_column && leb (length line) error_column then error_column - 1 else error_column

-- When the input is not interactive: of the lexer's line, or the command line, what is printed, and
-- the column of the caret.
abbrev pub with_token : ℕ → Text → ℕ → Option ℕ → Option (Text × ℕ)
with_token term_columns line error_column none = none
with_token term_columns line error_column (some token_columns) =
    let w = window term_columns (line_len line) error_column token_columns in
    some (printed_line line w, w.error_column_term)

unfoldable pub print_caret : ℕ → Text → ℕ → Option (Text × ℕ)
print_caret term_columns line error_column =
    let column = caret_at line error_column in
    with_token term_columns line column (token_len (drop column line))

-- When it is, the column under what was typed after the prompt.
unfoldable pub interactive_column : Bool → ℕ → ℕ → ℕ
interactive_column is_cpp term_columns error_column =
    let column = error_column + ((if is_cpp then 7 else 5) + 2) in
    if term_columns == 0 then column else column % term_columns
