-- ===== src/Settings/Prompt.antt =====
-- prompt_create of src/prompt.c and the color sequences of src/color.h. Texts are lists of character
-- codes. Parameters: whether readline is the genuine one, and its two marks for characters that take
-- no room.
pub mod Laws
mod Tests
use cdecl.Prelude.{
  ℕ, ◌+◌, ltb, leb, Bool, true, false, List, [], ◌∷◌, ◌++◌, Option, none, some, if◌then◌else◌,
  length,
}
use cdecl.Lang.{lang_cpp_min}

abbrev pub Text : Type 0
Text = List ℕ

pub record Build : Type 0 where
  pub genuine_readline : Bool
  pub start_ignore : ℕ
  pub end_ignore : ℕ

-- The variables `colorize` and `sgr_prompt`.
pub record Colors : Type 0 where
  pub colorize : Bool
  pub sgr_prompt : Option Text

abbrev pub cppdecl : Text
cppdecl = b'c' ∷ b'+' ∷ b'+' ∷ b'd' ∷ b'e' ∷ b'c' ∷ b'l' ∷ []

-- PACKAGE, which configure.ac gives.
abbrev pub package_name : Text
package_name = b'c' ∷ b'd' ∷ b'e' ∷ b'c' ∷ b'l' ∷ []

-- SGR_EL; SGR_START SGR_EL with the color in place of its "%s"; SGR_END SGR_EL.
abbrev pub sgr_el : Text
sgr_el = 27 ∷ b'[' ∷ b'K' ∷ []

abbrev pub sgr_start : Text → Text
sgr_start color = 27 ∷ b'[' ∷ (color ++ (b'm' ∷ sgr_el))

abbrev pub sgr_end : Text
sgr_end = 27 ∷ b'[' ∷ b'm' ∷ sgr_el

-- The format itself, "%s" included.
abbrev pub sgr_start_format : Text
sgr_start_format = sgr_start (b'%' ∷ b's' ∷ [])

-- `have_genuine_gnu_readline() && sgr_prompt != NULL`.
abbrev pub prompt_color : Build → Colors → Option Text
prompt_color env colors = if env.genuine_readline then colors.sgr_prompt else none

-- The length that is allocated, but for the terminating zero.
abbrev pub color_len : Option Text → ℕ
color_len none = 0
color_len (some color) = 1 + length sgr_start_format + length color + 1 + length sgr_end

unfoldable pub prompt_len : Build → Colors → ℕ
prompt_len env colors = length cppdecl + 1 + 1 + color_len (prompt_color env colors)

-- A text and its terminating zero in `color_buf[20]`; `none` where it does not fit, which C leaves
-- undefined, as it does where the buffer was not written.
abbrev pub color_buf : Bool → Text → Option Text
color_buf colorize t = if colorize then (if ltb (length t) 20 then some t else none) else none

abbrev pub marked : Build → Text → Text
marked env t = env.start_ignore ∷ (t ++ (env.end_ignore ∷ []))

abbrev pub decl_name : ℕ → Text
decl_name opt_lang = if leb lang_cpp_min opt_lang then cppdecl else package_name

abbrev pub joined : Build → ℕ → ℕ → Option Text → Option Text → Option Text
joined env opt_lang suffix (some start) (some end) =
    some (marked env start ++ decl_name opt_lang ++ (suffix ∷ []) ++ marked env end ++ (b' ' ∷ []))
joined env opt_lang suffix _ _ = none

abbrev pub prompt_text : Build → Bool → ℕ → ℕ → Option Text → Option Text
prompt_text env colorize opt_lang suffix none =
    some (decl_name opt_lang ++ (suffix ∷ []) ++ (b' ' ∷ []))
prompt_text env colorize opt_lang suffix (some color) =
    joined env opt_lang suffix (color_buf colorize (sgr_start color)) (color_buf colorize sgr_end)

-- `none` where the behavior is undefined.
unfoldable pub prompt_create : Build → Colors → ℕ → ℕ → Option Text
prompt_create env colors opt_lang suffix =
    prompt_text env colors.colorize opt_lang suffix (prompt_color env colors)
