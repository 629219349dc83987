-- ===== src/Ast/Take/Tests.antt =====
-- Runs of the functions that take something from an AST.
use cdecl.Prelude.{ℕ, true, false, String, Option, none, some, ◌≡◌, refl, bit_or}
use cdecl.Types.{t_int, t_static, t_none}
use cdecl.Ast.{Ast, Node, CLoc, builtin, pointer}
use cdecl.Ast.Equiv.{c_ast_equiv}
use cdecl.Bits.{has}
use cdecl.Ast.Visit.{c_ast_visit_down}
use cdecl.Ast.Take.{update_down, c_ast_take_name, c_ast_take_typedef, c_ast_take_storage}
use cdecl.Ast.Take.Laws.{names, first, others, c_ast_take_name_lem}

abbrev here : CLoc
here = record { first_line = 1; first_column = 1; last_line = 1; last_column = 1 }

abbrev typed : Option String → ℕ → Node
typed name t = record { name = name; type = t; loc = here }

-- static int *p
abbrev static_pointer : Ast
static_pointer = pointer (typed (some "p") t_none) (builtin (typed none (bit_or t_static t_int)))

storage_taken :
    c_ast_take_storage static_pointer
    ≡ (t_static, pointer (typed (some "p") t_none) (builtin (typed none t_int)))
unfolding c_ast_take_storage update_down c_ast_visit_down has
storage_taken = refl

no_typedef : c_ast_take_typedef static_pointer ≡ (false, static_pointer)
unfolding c_ast_take_typedef update_down c_ast_visit_down has
no_typedef = refl

c_ast_take_name_lem_example :
    ((c_ast_take_name static_pointer).0 ≡ first (names static_pointer))
    × (names (c_ast_take_name static_pointer).1 ≡ others (names static_pointer))
    × (c_ast_equiv (c_ast_take_name static_pointer).1 static_pointer ≡ true)
c_ast_take_name_lem_example = c_ast_take_name_lem static_pointer
