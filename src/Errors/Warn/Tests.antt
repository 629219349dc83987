-- ===== src/Errors/Warn/Tests.antt =====
-- Runs of c_ast_check with its warnings.
use cdecl.Prelude.{ℕ, [], ◌∷◌, none, some, ◌≡◌, refl}
use cdecl.Lang.{lang_c_knr, lang_cpp_11}
use cdecl.Types.{t_int, t_register, t_none}
use cdecl.Prelude.{bit_or}
use cdecl.Output.{text, lang_name}
use cdecl.Ast.{Ast, Node, CLoc, builtin, function, arg, no_args}
use cdecl.Errors.Diag.{Env, mode_gibberish, Stop}
use cdecl.Errors.Down.{check_decl, c_ast_check}
use cdecl.Errors.Warn.{warnings_down, builtin_warning, c_ast_checked, passed, failed}
use cdecl.Errors.Warn.Laws.{c_ast_checked_lem, leaf_warnings, leaves}

abbrev here : CLoc
here = record { first_line = 1; first_column = 1; last_line = 1; last_column = 1 }

abbrev typed : ℕ → Node
typed t = record { name = some "x"; type = t; loc = here }

abbrev cpp11 : Env
cpp11 = record { opt_lang = lang_cpp_11; c_mode = mode_gibberish }

-- int x(register int x)
abbrev registered : Ast
registered =
    function (typed t_none) (arg (builtin (typed (bit_or t_int t_register))) no_args)
      (builtin (typed t_int))

register_warned :
    c_ast_checked cpp11 registered check_decl
    ≡ passed (
        record {
          loc = here;
          message = text "register is deprecated in " ∷ lang_name lang_cpp_11 ∷ [];
        }
        ∷ [])
unfolding c_ast_checked warnings_down builtin_warning
register_warned = refl

c_ast_checked_lem_example :
    ((stop : Stop)
      → c_ast_check cpp11 registered check_decl ≡ some stop
      → c_ast_checked cpp11 registered check_decl ≡ failed stop)
    × (c_ast_check cpp11 registered check_decl ≡ none
        → c_ast_checked cpp11 registered check_decl
          ≡ passed (leaf_warnings cpp11 (leaves registered)))
    × (lang_cpp_11 ≡ lang_c_knr → leaf_warnings cpp11 (leaves registered) ≡ [])
c_ast_checked_lem_example = c_ast_checked_lem cpp11 registered check_decl
