-- ===== src/Coloring/Tests.antt =====
-- Runs of the colors.
use cdecl.Prelude.{true, false, Option, none, some, ◌≡◌, refl}
use cdecl.Lang.Find.{codes, same_codes}
use cdecl.Settings.Prompt.{Text}
use cdecl.Coloring.{prompt, Variables, CapSet, cap_result, parse_sgr, cap_set}
use cdecl.Coloring.Sgr.{fields, all_numbers, parse_sgr_lem}
use cdecl.Coloring.Parse.{colors_parse, caps_loop, try_caps, strsep, color_caps}
use cdecl.Coloring.Laws.{AllColors}

abbrev unset : Variables
unset c = none

valid : parse_sgr (some (codes "38;5;214")) ≡ some true
unfolding parse_sgr
valid = refl

too_large : parse_sgr (some (codes "256")) ≡ some false
unfolding parse_sgr
too_large = refl

ends_early : parse_sgr (some (codes "1;")) ≡ some false
unfolding parse_sgr
ends_early = refl

-- What is set for a capability.
abbrev set_to : Option CapSet → Option Text
set_to none = none
set_to (some (cap_result b vars)) = vars prompt

prompt_parsed :
    set_to (colors_parse (some (codes "x=1:PROMPT=32:locus=y")) unset) ≡ some (codes "32")
unfolding colors_parse caps_loop try_caps strsep color_caps cap_set parse_sgr same_codes
prompt_parsed = refl

parse_sgr_lem_example : parse_sgr (some (codes "1;31")) ≡ some (all_numbers (fields (codes "1;31")))
parse_sgr_lem_example = parse_sgr_lem (codes "1;31")

unset-AllColors : AllColors unset
unset-AllColors c = tt
