-- ===== src/Coloring/Parse.antt =====
-- colors_parse of src/color.c, with strsep(3) and the table COLOR_CAPS.
use cdecl.Prelude.{
  ℕ, suc, zero, ◌==◌, Bool, false, ◌||◌, String, List, [], ◌∷◌, Option, none, some, if◌then◌else◌,
  length,
}
use cdecl.Lang.Find.{codes, same_codes}
use cdecl.Settings.Prompt.{Text}
use cdecl.Coloring.{
  Cap, caret, error, help_keyword, help_nonterm, help_punct, help_title, locus, prompt, warning,
  Variables, CapSet, cap_result, cap_set,
}

-- The token before the first separator, and where the pointer is left: null at the end.
pub data Token : Type 0 where
  token : Text → Option Text → Token

abbrev pub longer : ℕ → Token → Token
longer c (token t rest) = token (c ∷ t) rest

unfoldable pub strsep : ℕ → Text → Token
strsep delim [] = token [] none
strsep delim (c ∷ s) =
    let later = strsep delim s in if c == delim then token [] (some s) else longer c later

pub record ColorCap : Type 0 where
  pub cap_name : String
  pub cap_var_to_set : Cap

cap_row : String → Cap → ColorCap
cap_row name cap = record { cap_name = name; cap_var_to_set = cap }

unfoldable pub color_caps : List ColorCap
unfolding cap_row
color_caps =
    cap_row "caret" caret
    ∷ cap_row "error" error
    ∷ cap_row "HELP-keyword" help_keyword
    ∷ cap_row "HELP-nonterm" help_nonterm
    ∷ cap_row "HELP-punct" help_punct
    ∷ cap_row "HELP-title" help_title
    ∷ cap_row "locus" locus
    ∷ cap_row "PROMPT" prompt
    ∷ cap_row "warning" warning
    ∷ []

abbrev pub first_token : Token → Text
first_token (token t rest) = t

-- strsep of what `cap_name_val` points to after the name, if it is not null.
abbrev pub cap_value : Option Text → Option Text
cap_value none = none
cap_value (some s) = some (first_token (strsep b'=' s))

abbrev pub or_set : Bool → Option CapSet → Option CapSet
or_set set_something none = none
or_set set_something (some (cap_result ok vars)) = some (cap_result (ok || set_something) vars)

-- The inner loop: the first row with the name.
unfoldable pub try_caps : Text → Option Text → List ColorCap → Bool → Variables → Option CapSet
try_caps name value [] set_something vars = some (cap_result set_something vars)
try_caps name value (row ∷ rows) set_something vars =
    let later = try_caps name value rows set_something vars in
    if same_codes name (codes row.cap_name)
    then or_set set_something (cap_set row.cap_var_to_set (cap_value value) vars)
    else later

-- A capability with its value.
abbrev pub try_cap : Token → Bool → Variables → Option CapSet
try_cap (token name value) set_something vars = try_caps name value color_caps set_something vars

abbrev pub and_then : Option CapSet → (Bool → Variables → Option CapSet) → Option CapSet
and_then none f = none
and_then (some (cap_result set_something vars)) f = f set_something vars

abbrev pub cap_round :
    Token → (Option Text → Bool → Variables → Option CapSet) → Bool → Variables → Option CapSet
cap_round (token cap_name_val next_cap) loop set_something vars =
    and_then (try_cap (strsep b'=' cap_name_val) set_something vars) (loop next_cap)

-- The outer loop, for at most so many rounds.
unfoldable pub caps_loop : ℕ → Option Text → Bool → Variables → Option CapSet
caps_loop zero next_cap set_something vars = none
caps_loop (suc rounds) none set_something vars = some (cap_result set_something vars)
caps_loop (suc rounds) (some s) set_something vars =
    cap_round (strsep b':' s) (caps_loop rounds) set_something vars

unfoldable pub colors_parse : Option Text → Variables → Option CapSet
colors_parse none vars = some (cap_result false vars)
colors_parse (some capabilities) vars =
    caps_loop (suc (suc (length capabilities))) (some capabilities) false vars
