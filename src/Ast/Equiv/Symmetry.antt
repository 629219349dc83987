-- ===== src/Ast/Equiv/Symmetry.antt =====
-- c_ast_equiv of src/c_ast.c with its arguments exchanged.
use text.Mathlib.Text.{◌==◌ as str_eq}
use text.Mathlib.TextEquality.{eq_iff}
use cdecl.Prelude.{ℕ, false, ◌≡◌, refl, sym, ◌∙◌, arith, String}
use cdecl.Ast.{
  Ast, Args, ArraySize, size_none, size_variable, size, placeholder, builtin, ecsu, untyped,
  typedef_type, variadic, array, block, function, pointer, pointer_to_member, reference,
  rvalue_reference, no_args, arg, Node,
}
use cdecl.Ast.Equiv.{same_size, resolve, c_ast_equiv, equiv_args}
use cdecl.Ast.Equiv.Laws.{is_typedef, c_ast_equiv-typedef}

same_size_comm : (s t : ArraySize) → same_size s t ≡ same_size t s
same_size_comm size_none t = ground arith
same_size_comm size_variable t = ground arith
same_size_comm (size n) t = ground arith

str_eq_comm : (s t : String) → str_eq s t ≡ str_eq t s
str_eq_comm s t = ground (arith, eq_iff s t, eq_iff t s)

resolve-typedef : (y : Ast) → is_typedef (resolve y) ≡ false
unfolding resolve
resolve-typedef (typedef_type n s a) = resolve-typedef a
resolve-typedef (placeholder n) = refl
resolve-typedef _ = refl

equiv-resolve_right :
    (x y : Ast) → is_typedef x ≡ false → c_ast_equiv x (resolve y) ≡ c_ast_equiv x y
unfolding resolve
equiv-resolve_right x (typedef_type n s a) h =
    equiv-resolve_right x a h ∙ sym (c_ast_equiv-typedef n s a x h).1
equiv-resolve_right x (placeholder n) h = refl
equiv-resolve_right x _ h = refl

equiv-resolve_left :
    (x y : Ast) → is_typedef x ≡ false → c_ast_equiv (resolve y) x ≡ c_ast_equiv y x
unfolding resolve
equiv-resolve_left x (typedef_type n s a) h =
    equiv-resolve_left x a h ∙ sym (c_ast_equiv-typedef n s a x h).0
equiv-resolve_left x (placeholder n) h = refl
equiv-resolve_left x _ h = refl

abbrev CommutesAt : Ast → Ast → Type 0
CommutesAt x y = c_ast_equiv x y ≡ c_ast_equiv y x

-- It is enough to compare with an AST that is no typedef.
resolved :
    (x y : Ast)
    → is_typedef x ≡ false
    → ((z : Ast) → is_typedef z ≡ false → CommutesAt x z)
    → CommutesAt x y
resolved x y h core =
    sym (equiv-resolve_right x y h)
    ∙ core (resolve y) (resolve-typedef y)
    ∙ equiv-resolve_left x y h

module _ (n : Node) where
  placeholder_comm : (z : Ast) → is_typedef z ≡ false → CommutesAt (placeholder n) z
  unfolding c_ast_equiv resolve
  placeholder_comm (placeholder m) h = ground arith
  placeholder_comm z h = ground arith

  builtin_comm : (z : Ast) → is_typedef z ≡ false → CommutesAt (builtin n) z
  unfolding c_ast_equiv resolve
  builtin_comm (placeholder m) h = ground arith
  builtin_comm z h = ground arith

  untyped_comm : (z : Ast) → is_typedef z ≡ false → CommutesAt (untyped n) z
  unfolding c_ast_equiv resolve
  untyped_comm (placeholder m) h = ground arith
  untyped_comm z h = ground arith

  variadic_comm : (z : Ast) → is_typedef z ≡ false → CommutesAt (variadic n) z
  unfolding c_ast_equiv resolve
  variadic_comm (placeholder m) h = ground arith
  variadic_comm z h = ground arith

  ecsu_comm : (s : String) (z : Ast) → is_typedef z ≡ false → CommutesAt (ecsu n s) z
  unfolding c_ast_equiv resolve
  ecsu_comm s (ecsu m t) h = ground (arith, str_eq_comm s t)
  ecsu_comm s z h = ground arith

  module _ (a : Ast) (ih : (b : Ast) → CommutesAt a b) where
    array_comm :
        (s : ArraySize) (t : ℕ) (z : Ast) → is_typedef z ≡ false → CommutesAt (array n s t a) z
    unfolding c_ast_equiv resolve
    array_comm s t (array m s' t' b) h = ground (arith, ih b, same_size_comm s s')
    array_comm s t z h = ground arith

    pointer_comm : (z : Ast) → is_typedef z ≡ false → CommutesAt (pointer n a) z
    unfolding c_ast_equiv resolve
    pointer_comm (pointer m b) h = ground (arith, ih b)
    pointer_comm z h = ground arith

    reference_comm : (z : Ast) → is_typedef z ≡ false → CommutesAt (reference n a) z
    unfolding c_ast_equiv resolve
    reference_comm (reference m b) h = ground (arith, ih b)
    reference_comm z h = ground arith

    rvalue_reference_comm : (z : Ast) → is_typedef z ≡ false → CommutesAt (rvalue_reference n a) z
    unfolding c_ast_equiv resolve
    rvalue_reference_comm (rvalue_reference m b) h = ground (arith, ih b)
    rvalue_reference_comm z h = ground arith

    pointer_to_member_comm :
        (s : String) (z : Ast) → is_typedef z ≡ false → CommutesAt (pointer_to_member n s a) z
    unfolding c_ast_equiv resolve
    pointer_to_member_comm s (pointer_to_member m t b) h = ground (arith, ih b, str_eq_comm s t)
    pointer_to_member_comm s z h = ground arith

    module _ (args : Args)
        (ihs : (others : Args) → equiv_args args others ≡ equiv_args others args) where
      block_comm : (z : Ast) → is_typedef z ≡ false → CommutesAt (block n args a) z
      unfolding c_ast_equiv resolve
      block_comm (block m others b) h = ground (arith, ih b, ihs others)
      block_comm z h = ground arith

      function_comm : (z : Ast) → is_typedef z ≡ false → CommutesAt (function n args a) z
      unfolding c_ast_equiv resolve
      function_comm (function m others b) h = ground (arith, ih b, ihs others)
      function_comm z h = ground arith

typedef_comm :
    (n : Node) (s : String) (a : Ast)
    → ((b : Ast) → CommutesAt a b)
    → (y : Ast) → CommutesAt (typedef_type n s a) y
unfolding c_ast_equiv resolve
typedef_comm n s a ih (typedef_type m t b) = ground (arith, ih b)
typedef_comm n s a ih y =
    (c_ast_equiv-typedef n s a y refl).0 ∙ ih y ∙ sym (c_ast_equiv-typedef n s a y refl).1

mutual
  unfolding c_ast_equiv

  comm : (x y : Ast) → CommutesAt x y
  comm (typedef_type n s a) y = typedef_comm n s a (comm a) y
  comm (placeholder n) y = resolved (placeholder n) y refl (placeholder_comm n)
  comm (builtin n) y = resolved (builtin n) y refl (builtin_comm n)
  comm (ecsu n s) y = resolved (ecsu n s) y refl (ecsu_comm n s)
  comm (untyped n) y = resolved (untyped n) y refl (untyped_comm n)
  comm (variadic n) y = resolved (variadic n) y refl (variadic_comm n)
  comm (array n s t a) y = resolved (array n s t a) y refl (array_comm n a (comm a) s t)
  comm (block n args a) y =
      resolved (block n args a) y refl (block_comm n a (comm a) args (comm_args args))
  comm (function n args a) y =
      resolved (function n args a) y refl (function_comm n a (comm a) args (comm_args args))
  comm (pointer n a) y = resolved (pointer n a) y refl (pointer_comm n a (comm a))
  comm (pointer_to_member n s a) y =
      resolved (pointer_to_member n s a) y refl (pointer_to_member_comm n a (comm a) s)
  comm (reference n a) y = resolved (reference n a) y refl (reference_comm n a (comm a))
  comm (rvalue_reference n a) y =
      resolved (rvalue_reference n a) y refl (rvalue_reference_comm n a (comm a))

  comm_args : (xs ys : Args) → equiv_args xs ys ≡ equiv_args ys xs
  comm_args no_args no_args = refl
  comm_args no_args (arg b ys) = refl
  comm_args (arg a xs) no_args = refl
  comm_args (arg a xs) (arg b ys) = ground (arith, comm a b, comm_args xs ys)

-- Whether two ASTs stand for the same type does not depend on their order.
pub c_ast_equiv_symm : (x y : Ast) → c_ast_equiv x y ≡ c_ast_equiv y x
c_ast_equiv_symm x y = comm x y
