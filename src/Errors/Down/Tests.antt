-- ===== src/Errors/Down/Tests.antt =====
-- Runs of the checks.
use cdecl.Prelude.{◌≡◌, ◌↔◌, refl, false, none, some}
use cdecl.Lang.{lang_c_99}
use cdecl.Types.{t_int}
use cdecl.Ast.{CLoc, Node, Ast, no_args, arg, array, builtin, function, pointer, size}
use cdecl.Errors.Diag.{Env, mode_english}
use cdecl.Errors.Down.{c_ast_check, c_ast_check_errors, check_decl}
use cdecl.Errors.Rules.{WellFormed}
use cdecl.Errors.Down.Complete.{c_ast_check_errors_iff}

abbrev pub here : CLoc
here = record { first_line = 1; first_column = 1; last_line = 1; last_column = 2 }

abbrev pub c99 : Env
c99 = record { opt_lang = lang_c_99; c_mode = mode_english }

abbrev pub int_node : Node
int_node = record { name = none; type = t_int; loc = here }

abbrev pub plain : Node
plain = record { name = none; type = 0; loc = here }

-- int (*f[3])(int)
abbrev pub array_of_pointers : Ast
array_of_pointers =
    array (record plain { name = some "f" }) (size 3) 0
      (pointer plain (function plain (arg (builtin int_node) no_args) (builtin int_node)))

array_of_pointers_passes : c_ast_check c99 array_of_pointers check_decl ≡ none
unfolding c_ast_check
array_of_pointers_passes = refl

c_ast_check_errors_iff_example :
    (c_ast_check_errors c99 array_of_pointers false ≡ none) ↔ WellFormed c99 false array_of_pointers
c_ast_check_errors_iff_example = c_ast_check_errors_iff c99 array_of_pointers false
