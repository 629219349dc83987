-- ===== src/Coloring/When/Laws.antt =====
-- The colors at the start of the program.
use cdecl.Prelude.{Bool, true, false, Option, some, ◌≡◌, refl, ap, ◌∙◌}
use cdecl.Settings.Prompt.{Text}
use cdecl.Coloring.{Variables, CapSet, cap_result}
use cdecl.Coloring.Parse.{colors_parse}
use cdecl.Coloring.Laws.{AllColors, colors_parse_lem}
use cdecl.Coloring.When.{colors_default, or_parse, variables_of, with_colorize, colors_init}

-- An operation on the variables ends with colors.
abbrev SetsColors : Option CapSet → Type 0
SetsColors out = (b : Bool) × (vars : Variables) × (out ≡ some (cap_result b vars)) × AllColors vars

parse-SetsColors :
    (capabilities : Option Text) (vars : Variables)
    → AllColors vars
    → SetsColors (colors_parse capabilities vars)
parse-SetsColors capabilities vars h =
    let (b, vars', ends, colors, same) = colors_parse_lem capabilities vars h in
    (b, vars', ends, colors)

or_parse-SetsColors :
    (out : Option CapSet) (f : Variables → Option CapSet)
    → SetsColors out
    → ((vars : Variables) → AllColors vars → SetsColors (f vars))
    → SetsColors (or_parse out f)
or_parse-SetsColors out f (true, vars, ends, colors) next =
    (true, vars, ap (λ o. or_parse o f) ends, colors)
or_parse-SetsColors out f (false, vars, ends, colors) next =
    let (b, vars', ends', colors') = next vars colors in
    (b, vars', ap (λ o. or_parse o f) ends ∙ ends', colors')

-- The start ends whatever the environment says; the variables hold no color or valid ones, and are
-- left alone where nothing is to be colored.
pub colors_init_lem :
    (colorize : Bool) (cdecl_colors gcc_colors : Option Text) (vars : Variables)
    → AllColors vars
    → (vars' : Variables) × (colors_init colorize cdecl_colors gcc_colors vars
        ≡ some (colorize, vars'))
      × AllColors vars'
      × (colorize ≡ false → vars' ≡ vars)
unfolding colors_init
colors_init_lem false cdecl_colors gcc_colors vars h = (vars, refl, h, λ e. refl)
colors_init_lem true cdecl_colors gcc_colors vars h =
    let first = parse-SetsColors cdecl_colors vars h in
    let second =
      or_parse-SetsColors (colors_parse cdecl_colors vars) (colors_parse gcc_colors) first
        (parse-SetsColors gcc_colors) in
    let (b, vars', ends, colors) =
      or_parse-SetsColors (or_parse (colors_parse cdecl_colors vars) (colors_parse gcc_colors))
        (colors_parse (some colors_default)) second (parse-SetsColors (some colors_default)) in
    (vars', ap (λ out. with_colorize true (variables_of out)) ends, colors, cc)
