-- ===== src/Errors/Diag.antt =====
-- Errors and their messages: print_error with the format's pieces, print_hint, and the helpers
-- error_kind_* of src/errors.c.
use cdecl.Prelude.{ℕ, [], ◌∷◌, Option, none, some, Bool, if◌then◌else◌}
use cdecl.Output.{Out, text, type_name, kind_name, lang_name}
use cdecl.Ast.{CLoc, Ast, loc_of, kind}

-- c_mode, which the parser sets.
pub data CMode : Type 0 where
  mode_english mode_gibberish : CMode

-- The globals that the checks read.
pub record Env : Type 0 where
  pub opt_lang : ℕ
  pub c_mode : CMode

-- An empty hint is none.
pub record Diag : Type 0 where
  pub loc : CLoc
  pub message : Out
  pub hint : Out

-- Why a visit stopped: an error was printed, or an assertion failed and ended the program.
pub data Stop : Type 0 where
  error : Diag → Stop
  assertion : Stop

abbrev pub error_at : CLoc → Out → Stop
error_at l m = error (record { loc = l; message = m; hint = [] })

abbrev pub print_error : CLoc → Out → Option Stop
print_error l m = some (error_at l m)

abbrev pub print_error_hint : CLoc → Out → Out → Option Stop
print_error_hint l m h = some (error (record { loc = l; message = m; hint = h }))

-- A check that is made only if its test holds.
abbrev pub when : Bool → Option Stop → Option Stop
when test stop = if test then stop else none

abbrev pub error_kind_not_type : Ast → ℕ → Option Stop
error_kind_not_type ast type =
    print_error (loc_of ast) (kind_name (kind ast) ∷ text " can not be " ∷ type_name type ∷ [])

abbrev pub error_kind_not_supported : Env → Ast → Option Stop
error_kind_not_supported env ast =
    print_error (loc_of ast)
      (kind_name (kind ast) ∷ text " not supported in " ∷ lang_name env.opt_lang ∷ [])

abbrev pub error_kind_to_type : Ast → ℕ → Out → Option Stop
error_kind_to_type ast type hint =
    print_error_hint (loc_of ast) (kind_name (kind ast) ∷ text " to " ∷ type_name type ∷ []) hint
