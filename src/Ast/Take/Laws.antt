-- ===== src/Ast/Take/Laws.antt =====
-- What c_ast_take_name leaves.
use text.Mathlib.TextPositions.{eq_refl}
use cdecl.Prelude.{Bool, true, String, List, [], ◌∷◌, Option, none, some, ◌≡◌, refl, arith}
use cdecl.Ast.{
  Ast, Node, placeholder, builtin, ecsu, untyped, typedef_type, variadic, array, block, function,
  pointer, pointer_to_member, reference, rvalue_reference, node,
}
use cdecl.Ast.Visit.{c_ast_visitor_name, c_ast_visit_down, c_ast_name_down}
use cdecl.Ast.Equiv.{c_ast_equiv, resolve}
use cdecl.Ast.Equiv.Laws.{same_size_refl, equiv_args_refl, c_ast_equiv_refl}
use cdecl.Ast.Take.{update_down, unnamed, c_ast_take_name}

module _ (p : Ast → Bool) (f : Node → Node) (keeps : (n : Node) → (f n).type ≡ n.type) where
  updated_equiv : (a : Ast) → c_ast_equiv (update_down p f a) a ≡ true
  unfolding update_down c_ast_equiv resolve
  updated_equiv (placeholder n) = ground (arith, keeps n)
  updated_equiv (builtin n) = ground (arith, keeps n)
  updated_equiv (ecsu n s) = ground (arith, keeps n, eq_refl s)
  updated_equiv (untyped n) = ground (arith, keeps n)
  updated_equiv (typedef_type n s a) = ground (arith, keeps n, c_ast_equiv_refl a)
  updated_equiv (variadic n) = ground (arith, keeps n)
  updated_equiv (array n s t a) =
      ground (arith, keeps n, updated_equiv a, c_ast_equiv_refl a, same_size_refl s)
  updated_equiv (block n args a) =
      ground (arith, keeps n, updated_equiv a, c_ast_equiv_refl a, equiv_args_refl args)
  updated_equiv (function n args a) =
      ground (arith, keeps n, updated_equiv a, c_ast_equiv_refl a, equiv_args_refl args)
  updated_equiv (pointer n a) = ground (arith, keeps n, updated_equiv a, c_ast_equiv_refl a)
  updated_equiv (pointer_to_member n s a) =
      ground (arith, keeps n, updated_equiv a, c_ast_equiv_refl a, eq_refl s)
  updated_equiv (reference n a) = ground (arith, keeps n, updated_equiv a, c_ast_equiv_refl a)
  updated_equiv (rvalue_reference n a) =
      ground (arith, keeps n, updated_equiv a, c_ast_equiv_refl a)

abbrev with_name : Node → List String → List String
with_name n ns = elim n.name [ some name ↦ name ∷ ns | none ↦ ns ]

-- The names down the chain.
unfoldable pub names : Ast → List String
names (array n s t ast) = with_name n (names ast)
names (block n args ast) = with_name n (names ast)
names (function n args ast) = with_name n (names ast)
names (pointer n ast) = with_name n (names ast)
names (pointer_to_member n s ast) = with_name n (names ast)
names (reference n ast) = with_name n (names ast)
names (rvalue_reference n ast) = with_name n (names ast)
names leaf = with_name (node leaf) []

abbrev pub first : List String → Option String
first [] = none
first (n ∷ ns) = some n

abbrev pub others : List String → List String
others [] = []
others (n ∷ ns) = ns

names_left : (a : Ast) → names (update_down c_ast_visitor_name unnamed a) ≡ others (names a)
unfolding update_down names
names_left (array n s t ast) = ground (arith, names_left ast)
names_left (block n args ast) = ground (arith, names_left ast)
names_left (function n args ast) = ground (arith, names_left ast)
names_left (pointer n ast) = ground (arith, names_left ast)
names_left (pointer_to_member n s ast) = ground (arith, names_left ast)
names_left (reference n ast) = ground (arith, names_left ast)
names_left (rvalue_reference n ast) = ground (arith, names_left ast)
names_left (placeholder n) = ground arith
names_left (builtin n) = ground arith
names_left (ecsu n s) = ground arith
names_left (untyped n) = ground arith
names_left (typedef_type n s a) = ground arith
names_left (variadic n) = ground arith

first_name : (a : Ast) → c_ast_name_down a ≡ first (names a)
unfolding c_ast_name_down c_ast_visit_down names
first_name (array n s t ast) = ground (arith, first_name ast)
first_name (block n args ast) = ground (arith, first_name ast)
first_name (function n args ast) = ground (arith, first_name ast)
first_name (pointer n ast) = ground (arith, first_name ast)
first_name (pointer_to_member n s ast) = ground (arith, first_name ast)
first_name (reference n ast) = ground (arith, first_name ast)
first_name (rvalue_reference n ast) = ground (arith, first_name ast)
first_name (placeholder n) = ground arith
first_name (builtin n) = ground arith
first_name (ecsu n s) = ground arith
first_name (untyped n) = ground arith
first_name (typedef_type n s a) = ground arith
first_name (variadic n) = ground arith

-- c_ast_take_name takes the first name of the chain, leaves the others in their order, and does not
-- change the type that the AST stands for.
pub c_ast_take_name_lem :
    (a : Ast)
    → ((c_ast_take_name a).0 ≡ first (names a))
      × (names (c_ast_take_name a).1 ≡ others (names a))
      × (c_ast_equiv (c_ast_take_name a).1 a ≡ true)
unfolding c_ast_take_name
c_ast_take_name_lem a =
    (first_name a, names_left a, updated_equiv c_ast_visitor_name unnamed (λ n. refl) a)
