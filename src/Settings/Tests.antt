-- ===== src/Settings/Tests.antt =====
-- Runs of the set command.
use cdecl.Prelude.{true, false, [], ◌∷◌, none, some, ◌≡◌, refl, inr}
use cdecl.Bits.{exactly_one_bit_set, at_most_one_bit_set}
use cdecl.Lang.{lang_c_99, lang_cpp_11}
use cdecl.Lang.Find.{c_lang_info, find_in, strcasecmp_eq, same_codes, to_lower}
use cdecl.Settings.Prompt.{prompt_create}
use cdecl.Settings.{
  Prompts, prompts, Program, Settings, no_prompts, prompt_enabled, c_lang_set, SetOutput, silent,
  unknown_option, result, set_option,
}
use cdecl.Settings.Laws.{
  FitsProgram, IsConsistent, SameOptions, c_lang_set_lem, set_option-IsConsistent,
}

abbrev plain_program : Program
plain_program = record {
  build = record { genuine_readline = false; start_ignore = 1; end_ignore = 2 };
  colors = record { colorize = false; sgr_prompt = none };
  cdecl_debug = false;
  yacc_debug = false;
}

abbrev c_prompts : Prompts
c_prompts =
    prompts (b'c' ∷ b'd' ∷ b'e' ∷ b'c' ∷ b'l' ∷ b'>' ∷ b' ' ∷ [])
      (b'c' ∷ b'd' ∷ b'e' ∷ b'c' ∷ b'l' ∷ b'+' ∷ b' ' ∷ [])

abbrev cpp_prompts : Prompts
cpp_prompts =
    prompts (b'c' ∷ b'+' ∷ b'+' ∷ b'd' ∷ b'e' ∷ b'c' ∷ b'l' ∷ b'>' ∷ b' ' ∷ [])
      (b'c' ∷ b'+' ∷ b'+' ∷ b'd' ∷ b'e' ∷ b'c' ∷ b'l' ∷ b'+' ∷ b' ' ∷ [])

abbrev quiet : Settings
quiet = record {
  opt_lang = lang_c_99;
  opt_debug = false;
  opt_semicolon = true;
  yydebug = false;
  prompt = some no_prompts;
  prompt_buf = some c_prompts;
}

-- Another language while the prompt is off: the new prompts are kept but not shown.
language_set :
    set_option plain_program (some "C++11") quiet
    ≡ some (result silent (record quiet { opt_lang = lang_cpp_11; prompt_buf = some cpp_prompts }))
unfolding set_option c_lang_info find_in strcasecmp_eq same_codes to_lower exactly_one_bit_set
    at_most_one_bit_set
language_set = refl

prompt_set :
    set_option plain_program (some "prompt") quiet
    ≡ some (result silent (record quiet { prompt = some c_prompts }))
unfolding set_option c_lang_info find_in strcasecmp_eq same_codes to_lower
prompt_set = refl

no_debug : set_option plain_program (some "debug") quiet ≡ some (result unknown_option quiet)
unfolding set_option c_lang_info find_in strcasecmp_eq same_codes to_lower
no_debug = refl

plain-Fits : FitsProgram plain_program
plain-Fits color h = cc

quiet-IsConsistent : IsConsistent plain_program quiet
unfolding prompt_create exactly_one_bit_set at_most_one_bit_set
quiet-IsConsistent = record { one_lang = refl; kept = (c_prompts, refl, refl); shown = inr refl }

one_lang : exactly_one_bit_set lang_cpp_11 ≡ true
unfolding exactly_one_bit_set at_most_one_bit_set
one_lang = refl

c_lang_set_lem_example :
    (st' : Settings) × (c_lang_set plain_program lang_cpp_11 quiet ≡ some st')
    × IsConsistent plain_program st'
    × (st'.opt_lang ≡ lang_cpp_11)
    × (prompt_enabled st'.prompt ≡ prompt_enabled quiet.prompt)
    × SameOptions quiet st'
c_lang_set_lem_example = c_lang_set_lem plain_program lang_cpp_11 quiet plain-Fits one_lang

set_option-IsConsistent_example :
    (out : SetOutput) × (st' : Settings) × (set_option plain_program (some "knr") quiet
      ≡ some (result out st'))
    × IsConsistent plain_program st'
set_option-IsConsistent_example =
    set_option-IsConsistent plain_program (some "knr") quiet plain-Fits quiet-IsConsistent
