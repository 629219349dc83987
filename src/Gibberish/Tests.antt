-- ===== src/Gibberish/Tests.antt =====
-- src/gibberish.c on small declarations.
use cdecl.Prelude.{ℕ, String, Option, some, none, [], ◌∷◌, ◌≡◌, refl}
use cdecl.Types.{t_int, t_char}
use cdecl.Output.{Out, Balanced, text, number, type_name, open_paren, close_paren}
use cdecl.Ast.{Ast, Node, CLoc, builtin, pointer, array, function, size, arg, no_args}
use cdecl.Gibberish.Balance.{c_ast_gibberish-Balanced}
use cdecl.Gibberish.Impl.{c_ast_gibberish_declare, c_ast_gibberish_cast}

abbrev here : CLoc
here = record { first_line = 0; first_column = 0; last_line = 0; last_column = 0 }

abbrev typed : Option String → ℕ → Node
typed name t = record { name = name; type = t; loc = here }

abbrev array_of_pointers : Ast
array_of_pointers = array (typed (some "a") 0) (size 10) 0 (
    pointer (typed none 0) (
      function (typed none 0) (arg (builtin (typed none t_char)) no_args)
        (builtin (typed none t_int))))

-- int (*a[10])(char)
array_of_pointers_declared :
    c_ast_gibberish_declare array_of_pointers
    ≡ some (
        type_name t_int
        ∷ text " "
        ∷ open_paren
        ∷ text "*"
        ∷ text "a"
        ∷ text "["
        ∷ number 10
        ∷ text "]"
        ∷ close_paren
        ∷ open_paren
        ∷ type_name t_char
        ∷ close_paren
        ∷ [])
unfolding c_ast_gibberish_declare
array_of_pointers_declared = refl

c_ast_gibberish-Balanced_example :
    ((out : Out) × (c_ast_gibberish_declare array_of_pointers ≡ some out) × Balanced out)
    × ((out : Out) × (c_ast_gibberish_cast array_of_pointers ≡ some out) × Balanced out)
c_ast_gibberish-Balanced_example = c_ast_gibberish-Balanced array_of_pointers (tt, ((tt, tt), tt))
