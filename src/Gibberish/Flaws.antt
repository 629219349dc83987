-- ===== src/Gibberish/Flaws.antt =====
-- Two kinds of declaration that c_ast_gibberish_postfix of src/gibberish.c writes.
use cdecl.Prelude.{ℕ, suc, String, Option, none, some, ◌≡◌, refl}
use cdecl.Output.{Out, depth_after}
use cdecl.Ast.{
  Ast, Node, CLoc, ArraySize, builtin, array, function, pointer, pointer_to_member,
  rvalue_reference, no_args,
}
use cdecl.Gibberish.Impl.{c_ast_gibberish_declare}

abbrev pub named : Option String → ℕ → CLoc → Node
named name t loc = record { name = name; type = t; loc = loc }

abbrev pub array_of : ℕ → ArraySize → CLoc → Ast
array_of element s loc = array (named none 0 loc) s 0 (builtin (named none element loc))

-- An rvalue reference to an array of a built-in type is declared in the words of the array alone:
-- the name is lost, and so is "&&".
pub rvalue_reference-lost :
    (name : String) (element : ℕ) (s : ArraySize) (loc : CLoc)
    → c_ast_gibberish_declare (rvalue_reference (named (some name) 0 loc) (array_of element s loc))
      ≡ c_ast_gibberish_declare (array_of element s loc)
unfolding c_ast_gibberish_declare
rvalue_reference-lost name element s loc = refl

abbrev pub pointer_to_method : String → String → ℕ → CLoc → Ast
pointer_to_method name class_name ret loc = pointer (named (some name) 0 loc) (
    pointer_to_member (named none 0 loc) class_name
      (function (named none 0 loc) no_args (builtin (named none ret loc))))

-- A pointer to a pointer to member that is a function is written with a "(" that is not closed.
pub member_pointer-unclosed :
    (name class_name : String) (ret : ℕ) (loc : CLoc)
    → (out : Out) × (c_ast_gibberish_declare (pointer_to_method name class_name ret loc) ≡ some out)
      × ((d : ℕ) → depth_after d out ≡ some (suc d))
unfolding c_ast_gibberish_declare
member_pointer-unclosed name class_name ret loc = (_, refl, λ d. refl)
