-- ===== src/English/Tests.antt =====
-- A run of c_ast_english, and the theorem of `Laws` at a concrete declaration.
use cdecl.Prelude.{ℕ, String, Option, ◌≡◌, refl, false, none, some, [], ◌∷◌}
use cdecl.CKind.{CKind}
use cdecl.Lang.{lang_c_99}
use cdecl.Types.{t_int}
use cdecl.Output.{Out, Balanced, text, number, type_name, kind_name, open_paren, close_paren}
use cdecl.Ast.{CLoc, Node, Ast, no_args, arg, array, builtin, function, pointer, size}
use cdecl.Errors.Diag.{Env, mode_english}
use cdecl.Errors.Down.{c_ast_check, c_ast_check_errors}
use cdecl.English.{c_ast_english}
use cdecl.English.Laws.{c_ast_english-Balanced}

abbrev here : CLoc
here = record { first_line = 1; first_column = 1; last_line = 1; last_column = 2 }

abbrev c99 : Env
c99 = record { opt_lang = lang_c_99; c_mode = mode_english }

abbrev typed : Option String → ℕ → Node
typed name t = record { name = name; type = t; loc = here }

-- int (*f[3])(int x)
abbrev array_of_pointers : Ast
array_of_pointers = array (typed (some "f") 0) (size 3) 0 (
    pointer (typed none 0) (
      function (typed none 0) (arg (builtin (typed (some "x") t_int)) no_args)
        (builtin (typed none t_int))))

-- array 3 of pointer to function (x as int) returning int
array_of_pointers_written :
    c_ast_english array_of_pointers
    ≡ some (
        text "array"
        ∷ text " "
        ∷ number 3
        ∷ text " "
        ∷ text "of"
        ∷ text " "
        ∷ kind_name CKind.pointer
        ∷ text " "
        ∷ text "to"
        ∷ text " "
        ∷ kind_name CKind.function
        ∷ text " "
        ∷ open_paren
        ∷ text "x"
        ∷ text " as "
        ∷ type_name t_int
        ∷ close_paren
        ∷ text " "
        ∷ text "returning"
        ∷ text " "
        ∷ type_name t_int
        ∷ [])
unfolding c_ast_english
array_of_pointers_written = refl

array_of_pointers_checked : c_ast_check_errors c99 array_of_pointers false ≡ none
unfolding c_ast_check
array_of_pointers_checked = refl

c_ast_english-Balanced_example :
    (out : Out) × (c_ast_english array_of_pointers ≡ some out) × Balanced out
c_ast_english-Balanced_example =
    c_ast_english-Balanced c99 array_of_pointers false array_of_pointers_checked
