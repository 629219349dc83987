-- ===== src/Settings.antt =====
-- The settings that commands change: src/set.c, the prompts of src/prompt.c, and c_lang_set of
-- src/c_lang.c.
pub mod Prompt
pub mod Laws
mod Tests
use text.Mathlib.Text.{◌==◌ as str_eq}
use cdecl.Prelude.{
  ℕ, ◌==◌, Bool, true, false, not, ◌&&◌, List, [], ◌∷◌, Option, none, some, String, if◌then◌else◌,
}
use cdecl.Bits.{exactly_one_bit_set}
use cdecl.Lang.{lang_none}
use cdecl.Lang.Find.{c_lang_find}
use cdecl.Settings.Prompt.{Text, Build, Colors, prompt_create}

-- `prompt` and `prompt_buf`: the prompt of a command and that of its further lines.
pub data Prompts : Type 0 where
  prompts : Text → Text → Prompts

-- What a program is built with, and how it colors.
pub record Program : Type 0 where
  pub build : Build
  pub colors : Colors
  pub cdecl_debug : Bool
  pub yacc_debug : Bool

-- The variables; the null pointers of the first prompts are none.
pub record Settings : Type 0 where
  pub opt_lang : ℕ
  pub opt_debug : Bool
  pub opt_semicolon : Bool
  pub yydebug : Bool
  pub prompt : Option Prompts
  pub prompt_buf : Option Prompts

abbrev pub no_prompts : Prompts
no_prompts = prompts [] []

unfoldable pub cdecl_prompt_enable : Bool → Settings → Settings
cdecl_prompt_enable enable st =
    if enable then record st { prompt = st.prompt_buf } else record st { prompt = some no_prompts }

abbrev pub pair_prompts : Option Text → Option Text → Option Prompts
pair_prompts (some p) (some q) = some (prompts p q)
pair_prompts _ _ = none

abbrev pub created : Program → ℕ → Option Prompts
created program lang =
    pair_prompts (prompt_create program.build program.colors lang b'>')
      (prompt_create program.build program.colors lang b'+')

abbrev pub with_prompts : Settings → Option Prompts → Option Settings
with_prompts st none = none
with_prompts st (some p) = some (record st { prompt = some p; prompt_buf = some p })

-- `none` where making a prompt is undefined.
unfoldable pub cdecl_prompt_init : Program → Settings → Option Settings
unfolding prompt_create
cdecl_prompt_init program st = with_prompts st (created program st.opt_lang)

-- Whether prompts are shown; before the first ones are made they count as enabled.
abbrev pub prompt_enabled : Option Prompts → Bool
prompt_enabled none = true
prompt_enabled (some (prompts [] q)) = false
prompt_enabled (some (prompts (c ∷ p) q)) = true

abbrev pub then_enable : Bool → Option Settings → Option Settings
then_enable enable none = none
then_enable enable (some st) = some (cdecl_prompt_enable enable st)

-- `none` also where the assertion fails.
unfoldable pub c_lang_set : Program → ℕ → Settings → Option Settings
unfolding cdecl_prompt_init cdecl_prompt_enable
c_lang_set program lang st =
    if exactly_one_bit_set lang
    then then_enable (prompt_enabled st.prompt)
        (cdecl_prompt_init program (record st { opt_lang = lang }))
    else none

-- What set_option prints: nothing, the options and their values, or these after an error.
pub data SetOutput : Type 0 where
  silent options_shown unknown_option : SetOutput

pub data SetResult : Type 0 where
  result : SetOutput → Settings → SetResult

abbrev pub set_done : Option Settings → Option SetResult
set_done none = none
set_done (some st) = some (result silent st)

-- After the languages. SET_OPTION's two tests are the option and "no" before it.
abbrev pub set_named : Program → String → Settings → SetResult
set_named program opt st =
    if program.cdecl_debug && str_eq opt "debug"
    then result silent (record st { opt_debug = true })
    else if program.cdecl_debug && str_eq opt "nodebug"
    then result silent (record st { opt_debug = false })
    else if str_eq opt "prompt"
    then result silent (cdecl_prompt_enable true st)
    else if str_eq opt "noprompt"
    then result silent (cdecl_prompt_enable false st)
    else if str_eq opt "semicolon"
    then result silent (record st { opt_semicolon = true })
    else if str_eq opt "nosemicolon"
    then result silent (record st { opt_semicolon = false })
    else if program.yacc_debug && str_eq opt "yydebug"
    then result silent (record st { yydebug = true })
    else if program.yacc_debug && str_eq opt "noyydebug"
    then result silent (record st { yydebug = false })
    else if str_eq opt "options"
    then result options_shown st
    else result unknown_option st

unfoldable pub set_option : Program → Option String → Settings → Option SetResult
unfolding c_lang_find c_lang_set cdecl_prompt_enable
set_option program none st = some (result options_shown st)
set_option program (some opt) st =
    let new_lang = c_lang_find opt in
    if not (new_lang == lang_none)
    then set_done (c_lang_set program new_lang st)
    else some (set_named program opt st)
