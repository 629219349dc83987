-- ===== src/Coloring/When/Tests.antt =====
-- Runs of the choice to color.
use cdecl.Prelude.{true, false, none, some, ◌≡◌, refl}
use cdecl.Lang.Find.{codes, same_codes, to_lower}
use cdecl.Coloring.{Variables}
use cdecl.Coloring.Laws.{AllColors}
use cdecl.Coloring.When.{
  color_isatty, color_not_file, should_colorize, parse_color_when, colors_init,
}
use cdecl.Coloring.When.Laws.{colors_init_lem}

abbrev unset : Variables
unset c = none

unset-AllColors : AllColors unset
unset-AllColors c = tt

piped : should_colorize color_not_file (some "xterm") false false ≡ true
unfolding should_colorize
piped = refl

dumb : should_colorize color_isatty (some "dumb") true false ≡ false
unfolding should_colorize
dumb = refl

any_case : parse_color_when "TTY" ≡ some color_isatty
unfolding parse_color_when same_codes to_lower
any_case = refl

colors_init_lem_example :
    (vars' : Variables) × (colors_init true (some (codes "PROMPT=1;")) none unset
      ≡ some (true, vars'))
    × AllColors vars'
    × (true ≡ false → vars' ≡ unset)
colors_init_lem_example = colors_init_lem true (some (codes "PROMPT=1;")) none unset unset-AllColors
