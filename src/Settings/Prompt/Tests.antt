-- ===== src/Settings/Prompt/Tests.antt =====
-- Runs of prompt_create.
use cdecl.Prelude.{◌≤◌, true, false, [], ◌∷◌, none, some, length, ◌≡◌, refl, arith}
use cdecl.Lang.{lang_c_99, lang_cpp_11}
use cdecl.Settings.Prompt.{Text, Build, Colors, prompt_create, prompt_len}
use cdecl.Settings.Prompt.Laws.{Fits, prompt_create_lem}

abbrev gnu : Build
gnu = record { genuine_readline = true; start_ignore = 1; end_ignore = 2 }

abbrev green : Colors
green = record { colorize = true; sgr_prompt = some (b'3' ∷ b'2' ∷ []) }

-- Bold, underlined, red on white, with a wide color after it.
abbrev long_color : Text
long_color =
    b'1' ∷ b';' ∷ b'4' ∷ b';' ∷ b'3' ∷ b'8' ∷ b';' ∷ b'5' ∷ b';' ∷ b'2' ∷ b'1' ∷ b'4' ∷ b';' ∷ b'7'
    ∷ []

abbrev gaudy : Colors
gaudy = record { colorize = true; sgr_prompt = some long_color }

plain_prompt :
    prompt_create gnu (record { colorize = false; sgr_prompt = none }) lang_c_99 b'>'
    ≡ some (b'c' ∷ b'd' ∷ b'e' ∷ b'c' ∷ b'l' ∷ b'>' ∷ b' ' ∷ [])
unfolding prompt_create
plain_prompt = refl

green-Fits : Fits gnu green
green-Fits color h = (refl, ground arith)

prompt_create_lem_example :
    (t : Text) × (prompt_create gnu green lang_cpp_11 b'>' ≡ some t)
    × (length t ≤ prompt_len gnu green)
prompt_create_lem_example = prompt_create_lem gnu green lang_cpp_11 b'>' green-Fits
