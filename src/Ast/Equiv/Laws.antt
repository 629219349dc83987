-- ===== src/Ast/Equiv/Laws.antt =====
-- c_ast_equiv as a relation.
use text.Mathlib.TextPositions.{eq_refl}
use cdecl.Prelude.{Bool, true, false, ◌≡◌, ◌≢◌, refl, ◌∙◌, arith, String}
use cdecl.Ast.{
  Ast, Args, ArraySize, size_none, size_variable, size, placeholder, builtin, ecsu, untyped,
  typedef_type, variadic, array, block, function, pointer, pointer_to_member, reference,
  rvalue_reference, no_args, arg, Node,
}
use cdecl.Ast.Equiv.{same_size, resolve, c_ast_equiv, equiv_args}

pub same_size_refl : (s : ArraySize) → same_size s s ≡ true
same_size_refl size_none = refl
same_size_refl size_variable = refl
same_size_refl (size n) = ground arith

mutual
  unfolding c_ast_equiv resolve

  equiv_refl : (x : Ast) → c_ast_equiv x x ≡ true
  equiv_refl (typedef_type n s a) = ground (arith, equiv_refl a)
  equiv_refl (placeholder n) = ground arith
  equiv_refl (builtin n) = ground arith
  equiv_refl (ecsu n s) = ground (arith, eq_refl s)
  equiv_refl (untyped n) = ground arith
  equiv_refl (variadic n) = ground arith
  equiv_refl (array n s t a) = ground (arith, same_size_refl s, equiv_refl a)
  equiv_refl (block n args a) = ground (arith, args_refl args, equiv_refl a)
  equiv_refl (function n args a) = ground (arith, args_refl args, equiv_refl a)
  equiv_refl (pointer n a) = ground (arith, equiv_refl a)
  equiv_refl (pointer_to_member n s a) = ground (arith, eq_refl s, equiv_refl a)
  equiv_refl (reference n a) = ground (arith, equiv_refl a)
  equiv_refl (rvalue_reference n a) = ground (arith, equiv_refl a)

  args_refl : (args : Args) → equiv_args args args ≡ true
  args_refl no_args = refl
  args_refl (arg a rest) = ground (arith, equiv_refl a, args_refl rest)

-- An AST stands for the same type as itself, so the code's test for one object changes nothing.
pub c_ast_equiv_refl : (x : Ast) → c_ast_equiv x x ≡ true
c_ast_equiv_refl x = equiv_refl x

pub equiv_args_refl : (args : Args) → equiv_args args args ≡ true
equiv_args_refl args = args_refl args

abbrev pub is_typedef : Ast → Bool
is_typedef (typedef_type n s a) = true
is_typedef _ = false

-- Against an AST that is no typedef, a typedef stands for its own AST alone: the qualifiers written
-- beside the typedef's name do not count.
pub c_ast_equiv-typedef :
    (n : Node) (s : String) (a x : Ast)
    → is_typedef x ≡ false
    → (c_ast_equiv (typedef_type n s a) x ≡ c_ast_equiv a x)
      × (c_ast_equiv x (typedef_type n s a) ≡ c_ast_equiv x a)
unfolding c_ast_equiv resolve
c_ast_equiv-typedef n s a (placeholder m) h = ground arith
c_ast_equiv-typedef n s a x h = ground arith

-- So the relation is not transitive: both a typedef's name and the name with a qualifier stand for
-- the typedef's AST, and not for one another.
pub c_ast_equiv_not_transitive :
    (n m : Node) (s : String) (a : Ast)
    → is_typedef a ≡ false
    → n.type ≢ m.type
    → (c_ast_equiv (typedef_type n s a) a ≡ true)
      × (c_ast_equiv a (typedef_type m s a) ≡ true)
      × (c_ast_equiv (typedef_type n s a) (typedef_type m s a) ≡ false)
c_ast_equiv_not_transitive n m s a h ne = (
  (c_ast_equiv-typedef n s a a h).0 ∙ equiv_refl a,
  (c_ast_equiv-typedef m s a a h).1 ∙ equiv_refl a,
  unfold c_ast_equiv in ground arith,
)
