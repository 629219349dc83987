-- ===== src/Settings/Laws.antt =====
-- What the settings always satisfy, and what a change of language keeps.
use text.Mathlib.Text.{◌==◌ as str_eq}
use cdecl.Prelude.{
  ◌&&◌, ℕ, ◌==◌, ==_iff, Bool, true, false, ◌∷◌, Option, none, some, String, ◌≡◌, refl, ap, ◌∙◌,
  ◌⊎◌, inl, inr, Bool-cases, if◌then◌else◌,
}
use cdecl.Bits.{exactly_one_bit_set}
use cdecl.Lang.{lang_none}
use cdecl.Lang.Find.{c_lang_find}
use cdecl.Lang.Find.Laws.{c_lang_find-IsLang}
use cdecl.Settings.Prompt.Laws.{Fits, prompt_create_first}
use cdecl.Settings.{
  Prompts, prompts, Program, Settings, no_prompts, cdecl_prompt_enable, created, with_prompts,
  cdecl_prompt_init, prompt_enabled, then_enable, c_lang_set, SetOutput, silent, options_shown,
  unknown_option, SetResult, result, set_done, set_named, set_option,
}

abbrev pub FitsProgram : Program → Type 0
FitsProgram program = Fits program.build program.colors

-- One language; the prompts kept are those of the language; the prompts shown are these or empty.
pub record IsConsistent (program : Program) (st : Settings) : Type 0 where
  pub one_lang : exactly_one_bit_set st.opt_lang ≡ true
  pub kept : (p : Prompts) × (created program st.opt_lang ≡ some p) × (st.prompt_buf ≡ some p)
  pub shown : (st.prompt ≡ st.prompt_buf) ⊎ (st.prompt ≡ some no_prompts)

created_lem :
    (program : Program) (l : ℕ)
    → FitsProgram program
    → (p : Prompts) × (created program l ≡ some p) × (prompt_enabled (some p) ≡ true)
created_lem program l h =
    let (c, t, e) = prompt_create_first program.build program.colors l b'>' h in
    let (d, u, f) = prompt_create_first program.build program.colors l b'+' h in
    (prompts (c ∷ t) (d ∷ u), rw (e, f) refl, refl)

enable-IsConsistent :
    (program : Program) (enable : Bool) (st : Settings)
    → IsConsistent program st
    → IsConsistent program (cdecl_prompt_enable enable st)
unfolding cdecl_prompt_enable
enable-IsConsistent program true st h = record {
  one_lang = h.one_lang;
  kept = h.kept;
  shown = inl refl;
}
enable-IsConsistent program false st h = record {
  one_lang = h.one_lang;
  kept = h.kept;
  shown = inr refl;
}

-- Settings that differ only in the language and the prompts.
abbrev pub SameOptions : Settings → Settings → Type 0
SameOptions st st' =
    (st'.opt_debug ≡ st.opt_debug)
    × (st'.opt_semicolon ≡ st.opt_semicolon)
    × (st'.yydebug ≡ st.yydebug)

abbrev in_lang : ℕ → Prompts → Settings → Settings
in_lang l p st = record st { opt_lang = l; prompt = some p; prompt_buf = some p }

-- After the new prompts are made.
enable_after :
    (program : Program) (l : ℕ) (st : Settings) (p : Prompts) (enable : Bool)
    → exactly_one_bit_set l ≡ true
    → created program l ≡ some p
    → prompt_enabled (some p) ≡ true
    → IsConsistent program (cdecl_prompt_enable enable (in_lang l p st))
      × ((cdecl_prompt_enable enable (in_lang l p st)).opt_lang ≡ l)
      × (prompt_enabled (cdecl_prompt_enable enable (in_lang l p st)).prompt ≡ enable)
      × SameOptions st (cdecl_prompt_enable enable (in_lang l p st))
unfolding cdecl_prompt_enable
enable_after program l st p true one e shown = (
  record { one_lang = one; kept = (p, e, refl); shown = inl refl },
  refl,
  shown,
  (refl, refl, refl),
)
enable_after program l st p false one e shown = (
  record { one_lang = one; kept = (p, e, refl); shown = inr refl },
  refl,
  refl,
  (refl, refl, refl),
)

-- From any settings, the first ones included, c_lang_set of one language ends in consistent
-- settings with that language, in which prompts are shown just if they were; no other option
-- changes.
pub c_lang_set_lem :
    (program : Program) (l : ℕ) (st : Settings)
    → FitsProgram program
    → exactly_one_bit_set l ≡ true
    → (st' : Settings) × (c_lang_set program l st ≡ some st')
      × IsConsistent program st'
      × (st'.opt_lang ≡ l)
      × (prompt_enabled st'.prompt ≡ prompt_enabled st.prompt)
      × SameOptions st st'
unfolding c_lang_set cdecl_prompt_init
c_lang_set_lem program l st fits one =
    let (p, e, shown) = created_lem program l fits in
    let enable = prompt_enabled st.prompt in
    let (consistent, lang, same, options) = enable_after program l st p enable one e shown in
    let at_lang : Settings = record st { opt_lang = l } in
    (
      cdecl_prompt_enable enable (in_lang l p st),
      ap (λ b. if b then then_enable enable (cdecl_prompt_init program at_lang) else none) one
          ∙ ap (λ made. then_enable enable (with_prompts at_lang made)) e,
      consistent,
      lang,
      same,
      options,
    )

abbrev Keeps : Program → SetResult → Type 0
Keeps program (result out st) = IsConsistent program st

Keeps-if :
    (program : Program) (b : Bool) (r s : SetResult)
    → Keeps program r
    → Keeps program s
    → Keeps program (if b then r else s)
Keeps-if program true r s h k = h
Keeps-if program false r s h k = k

set_named-Keeps :
    (program : Program) (opt : String) (st : Settings)
    → IsConsistent program st
    → Keeps program (set_named program opt st)
set_named-Keeps program opt st h =
    Keeps-if program (program.cdecl_debug && str_eq opt "debug") _ _
      (options_keep true st.opt_semicolon st.yydebug)
      (Keeps-if program (program.cdecl_debug && str_eq opt "nodebug") _ _
        (options_keep false st.opt_semicolon st.yydebug)
        (Keeps-if program (str_eq opt "prompt") _ _ (enable-IsConsistent program true st h) (
          Keeps-if program (str_eq opt "noprompt") _ _ (enable-IsConsistent program false st h) (
            Keeps-if program (str_eq opt "semicolon") _ _
              (options_keep st.opt_debug true st.yydebug)
              (Keeps-if program (str_eq opt "nosemicolon") _ _
                (options_keep st.opt_debug false st.yydebug)
                (Keeps-if program (program.yacc_debug && str_eq opt "yydebug") _ _
                  (options_keep st.opt_debug st.opt_semicolon true)
                  (Keeps-if program (program.yacc_debug && str_eq opt "noyydebug") _ _
                    (options_keep st.opt_debug st.opt_semicolon false)
                    (Keeps-if program (str_eq opt "options") (result options_shown st)
                      (result unknown_option st) h h))))))))
  where
    options_keep :
        (d s y : Bool)
        → IsConsistent program (record st { opt_debug = d; opt_semicolon = s; yydebug = y })
    options_keep d s y = record { one_lang = h.one_lang; kept = h.kept; shown = h.shown }

results :
    (program : Program) (r : SetResult)
    → Keeps program r
    → (out : SetOutput) × (st' : Settings) × (r ≡ result out st') × IsConsistent program st'
results program (result out st') h = (out, st', refl, h)

-- Every set command ends, and in consistent settings, whatever option it names.
pub set_option-IsConsistent :
    (program : Program) (opt : Option String) (st : Settings)
    → FitsProgram program
    → IsConsistent program st
    → (out : SetOutput) × (st' : Settings) × (set_option program opt st ≡ some (result out st'))
      × IsConsistent program st'
unfolding set_option
set_option-IsConsistent program none st fits h = (options_shown, st, refl, h)
set_option-IsConsistent program (some opt) st fits h =
    elim (Bool-cases (c_lang_find opt == lang_none)) [
      | inl e ↦
          let (out, st', named, keeps) =
            results program (set_named program opt st) (set_named-Keeps program opt st h) in
          (out, st', rw e (ap some named), keeps)
      | inr e ↦
          let found =
            c_lang_find-IsLang opt (λ n. cc (e, (==_iff (c_lang_find opt) lang_none).1 n)) in
          let (st', set, keeps, lang, same, options) =
            c_lang_set_lem program (c_lang_find opt) st fits found.0 in
          (silent, st', rw e (ap set_done set), keeps)
    ]
