-- ===== src/Coloring/When.antt =====
-- Whether to color at all: should_colorize of src/color.c, the option's value and the start-up in
-- src/options.c. What the environment and the system answer are arguments.
pub mod Laws
mod Tests
use text.Mathlib.Text.{◌==◌ as str_eq}
use cdecl.Prelude.{
  Bool, true, false, not, ◌||◌, String, List, [], ◌∷◌, Option, none, some, if◌then◌else◌,
}
use cdecl.Lang.Find.{codes, strcasecmp_eq}
use cdecl.Settings.Prompt.{Text}
use cdecl.Coloring.{Variables, CapSet, cap_result}
use cdecl.Coloring.Parse.{colors_parse}

pub data ColorWhen : Type 0 where
  color_never color_isatty color_not_file color_always : ColorWhen

-- Of TERM.
abbrev pub term_colors : Option String → Bool
term_colors none = false
term_colors (some term) = not (str_eq term "" || str_eq term "dumb")

-- The last arguments are isatty and is_file of the output.
unfoldable pub should_colorize : ColorWhen → Option String → Bool → Bool → Bool
should_colorize color_always term tty file = true
should_colorize color_never term tty file = false
should_colorize color_isatty term tty file = if term_colors term then tty else false
should_colorize color_not_file term tty file = if term_colors term then not file else false

pub record ColorizeMap : Type 0 where
  pub map_when : String
  pub map_colorization : ColorWhen

map_row : String → ColorWhen → ColorizeMap
map_row s w = record { map_when = s; map_colorization = w }

unfoldable pub colorize_map : List ColorizeMap
unfolding map_row
colorize_map =
    map_row "always" color_always
    ∷ map_row "auto" color_isatty
    ∷ map_row "isatty" color_isatty
    ∷ map_row "never" color_never
    ∷ map_row "not_file" color_not_file
    ∷ map_row "not_isreg" color_not_file
    ∷ map_row "tty" color_isatty
    ∷ []

unfoldable pub find_when : String → List ColorizeMap → Option ColorWhen
unfolding strcasecmp_eq
find_when when [] = none
find_when when (m ∷ ms) =
    if strcasecmp_eq when m.map_when then some m.map_colorization else find_when when ms

-- `none` where the value is refused and the program ends.
unfoldable pub parse_color_when : String → Option ColorWhen
unfolding find_when colorize_map
parse_color_when when = find_when when colorize_map

abbrev pub colors_default : Text
colors_default =
    codes
      "caret=32;1:error=31;1:HELP-keyword=1:HELP-nonterm=36:HELP-punct=30;1:HELP-title=34;1:locus=1:PROMPT=32:warning=33;1"

-- `||`: the second is parsed if the first set nothing.
abbrev pub or_parse : Option CapSet → (Variables → Option CapSet) → Option CapSet
or_parse none f = none
or_parse (some (cap_result true vars)) f = some (cap_result true vars)
or_parse (some (cap_result false vars)) f = f vars

-- At the end of options_init: CDECL_COLORS, GCC_COLORS, or else the colors by default.
abbrev pub colors_of : Option Text → Option Text → Variables → Option CapSet
colors_of cdecl_colors gcc_colors vars =
    or_parse (or_parse (colors_parse cdecl_colors vars) (colors_parse gcc_colors))
      (colors_parse (some colors_default))

abbrev pub variables_of : Option CapSet → Option Variables
variables_of none = none
variables_of (some (cap_result b vars)) = some vars

-- `colorize` and the variables.
abbrev pub with_colorize : Bool → Option Variables → Option (Bool × Variables)
with_colorize colorize none = none
with_colorize colorize (some vars) = some (colorize, vars)

unfoldable pub colors_init :
    Bool → Option Text → Option Text → Variables → Option (Bool × Variables)
colors_init false cdecl_colors gcc_colors vars = some (false, vars)
colors_init true cdecl_colors gcc_colors vars =
    with_colorize true (variables_of (colors_of cdecl_colors gcc_colors vars))
