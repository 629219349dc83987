-- ===== src/Ast/Equiv/Tests.antt =====
-- The theorems on c_ast_equiv at concrete ASTs.
use cdecl.Prelude.{ℕ, true, false, none, ◌≡◌, ◌≢◌, refl, arith}
use cdecl.Types.{t_int, t_const, t_typedef_type}
use cdecl.Ast.{Ast, Node, CLoc, builtin, typedef_type, pointer}
use cdecl.Ast.Equiv.{c_ast_equiv}
use cdecl.Ast.Equiv.Laws.{c_ast_equiv_not_transitive}
use cdecl.Ast.Equiv.Symmetry.{c_ast_equiv_symm}

abbrev here : CLoc
here = record { first_line = 1; first_column = 1; last_line = 1; last_column = 2 }

abbrev typed : ℕ → Node
typed t = record { name = none; type = t; loc = here }

abbrev int_ast : Ast
int_ast = builtin (typed t_int)

abbrev my_int : ℕ → Ast
my_int t = typedef_type (typed t) "my_int" int_ast

apart : t_typedef_type ≢ t_const
apart = ground arith

c_ast_equiv_symm_example :
    c_ast_equiv (pointer (typed 0) (my_int t_const)) (pointer (typed 0) int_ast)
    ≡ c_ast_equiv (pointer (typed 0) int_ast) (pointer (typed 0) (my_int t_const))
c_ast_equiv_symm_example =
    c_ast_equiv_symm (pointer (typed 0) (my_int t_const)) (pointer (typed 0) int_ast)

c_ast_equiv_not_transitive_example :
    (c_ast_equiv (my_int t_typedef_type) int_ast ≡ true)
    × (c_ast_equiv int_ast (my_int t_const) ≡ true)
    × (c_ast_equiv (my_int t_typedef_type) (my_int t_const) ≡ false)
c_ast_equiv_not_transitive_example =
    c_ast_equiv_not_transitive (typed t_typedef_type) (typed t_const) "my_int" int_ast refl apart
