-- ===== src/Ast/Equiv.antt =====
-- c_ast_equiv of src/c_ast.c: whether two ASTs stand for the same type. Two trees need no test for
-- being the same object: the relation is reflexive (`Laws`).
pub mod Laws
pub mod Symmetry
mod Tests
use text.Mathlib.Text.{◌==◌ as str_eq}
use cdecl.Prelude.{ℕ, Bool, true, false, not, ◌&&◌, ◌==◌, String, if◌then◌else◌}
use cdecl.Ast.{
  Ast, Args, ArraySize, size_none, size_variable, size, placeholder, builtin, ecsu, untyped,
  typedef_type, variadic, array, block, function, pointer, pointer_to_member, reference,
  rvalue_reference, no_args, arg, Node,
}

abbrev pub same_size : ArraySize → ArraySize → Bool
same_size size_none size_none = true
same_size size_variable size_variable = true
same_size (size m) (size n) = m == n
same_size _ _ = false

abbrev same_type : Node → Node → Bool
same_type n m = n.type == m.type

-- The recursive calls that replace the second AST, a typedef, by its own AST while the first is
-- none.
unfoldable pub resolve : Ast → Ast
resolve (typedef_type n s a) = resolve a
resolve (placeholder n) = placeholder n
resolve ast = ast

unfoldable mutual
  pub c_ast_equiv : Ast → Ast → Bool
  c_ast_equiv (typedef_type n s a) other = elim other [
    | typedef_type m t b ↦ same_type n m && c_ast_equiv a b
    | no_typedef ↦ c_ast_equiv a no_typedef
  ]
  c_ast_equiv (placeholder n) other = elim (resolve other) [
    | placeholder m ↦ same_type n m
    | _ ↦ false
  ]
  c_ast_equiv (builtin n) other = elim (resolve other) [ builtin m ↦ same_type n m | _ ↦ false ]
  c_ast_equiv (ecsu n s) other = elim (resolve other) [
    | ecsu m t ↦ same_type n m && str_eq s t
    | _ ↦ false
  ]
  c_ast_equiv (untyped n) other = elim (resolve other) [ untyped m ↦ same_type n m | _ ↦ false ]
  c_ast_equiv (variadic n) other = elim (resolve other) [ variadic m ↦ same_type n m | _ ↦ false ]
  c_ast_equiv (array n s t a) other = elim (resolve other) [
    | array m s' t' b ↦ same_type n m && same_size s s' && t == t' && c_ast_equiv a b
    | _ ↦ false
  ]
  c_ast_equiv (block n args a) other = elim (resolve other) [
    | block m args' b ↦ same_type n m && equiv_args args args' && c_ast_equiv a b
    | _ ↦ false
  ]
  c_ast_equiv (function n args a) other = elim (resolve other) [
    | function m args' b ↦ same_type n m && equiv_args args args' && c_ast_equiv a b
    | _ ↦ false
  ]
  c_ast_equiv (pointer n a) other = elim (resolve other) [
    | pointer m b ↦ same_type n m && c_ast_equiv a b
    | _ ↦ false
  ]
  c_ast_equiv (pointer_to_member n s a) other = elim (resolve other) [
    | pointer_to_member m t b ↦ same_type n m && str_eq s t && c_ast_equiv a b
    | _ ↦ false
  ]
  c_ast_equiv (reference n a) other = elim (resolve other) [
    | reference m b ↦ same_type n m && c_ast_equiv a b
    | _ ↦ false
  ]
  c_ast_equiv (rvalue_reference n a) other = elim (resolve other) [
    | rvalue_reference m b ↦ same_type n m && c_ast_equiv a b
    | _ ↦ false
  ]

  -- The loop over both lists of arguments, which must end together.
  pub equiv_args : Args → Args → Bool
  equiv_args no_args others = elim others [ no_args ↦ true | _ ↦ false ]
  equiv_args (arg a rest) others = elim others [
    | arg b rest' ↦ c_ast_equiv a b && equiv_args rest rest'
    | _ ↦ false
  ]
