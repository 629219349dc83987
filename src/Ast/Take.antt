-- ===== src/Ast/Take.antt =====
-- c_ast_take_name and c_ast_take_typedef, and c_ast_take_storage, of src/c_ast_util.c: the first node
-- down the chain that a visitor finds is changed in place. The value is what is taken and the AST
-- after it.
pub mod Laws
mod Tests
use cdecl.Prelude.{ℕ, Bool, true, false, String, Option, none, some, if◌then◌else◌, bit_and, bit_or}
use cdecl.Bits.{compl64}
use cdecl.CKind
use cdecl.CKind.{bit}
use cdecl.Types.{t_none, t_typedef, t_mask_storage}
use cdecl.Ast.{
  Ast, Node, placeholder, builtin, ecsu, untyped, typedef_type, variadic, array, block, function,
  pointer, pointer_to_member, reference, rvalue_reference, type_of,
}
use cdecl.Ast.Visit.{
  c_ast_visitor_name, c_ast_visitor_kind, c_ast_visitor_type_bits, c_ast_find_kind, c_ast_find_type,
  c_ast_name_down,
}

-- A change of the node that c_ast_visit_down finds.
unfoldable pub update_down : (Ast → Bool) → (Node → Node) → Ast → Ast
update_down p f (placeholder n) = if p (placeholder n) then placeholder (f n) else placeholder n
update_down p f (builtin n) = if p (builtin n) then builtin (f n) else builtin n
update_down p f (ecsu n s) = if p (ecsu n s) then ecsu (f n) s else ecsu n s
update_down p f (untyped n) = if p (untyped n) then untyped (f n) else untyped n
update_down p f (typedef_type n s a) =
    if p (typedef_type n s a) then typedef_type (f n) s a else typedef_type n s a
update_down p f (variadic n) = if p (variadic n) then variadic (f n) else variadic n
update_down p f (array n s t a) =
    let below = update_down p f a in
    if p (array n s t a) then array (f n) s t a else array n s t below
update_down p f (block n args a) =
    let below = update_down p f a in
    if p (block n args a) then block (f n) args a else block n args below
update_down p f (function n args a) =
    let below = update_down p f a in
    if p (function n args a) then function (f n) args a else function n args below
update_down p f (pointer n a) =
    let below = update_down p f a in if p (pointer n a) then pointer (f n) a else pointer n below
update_down p f (pointer_to_member n s a) =
    let below = update_down p f a in
    if p (pointer_to_member n s a) then pointer_to_member (f n) s a else pointer_to_member n s below
update_down p f (reference n a) =
    let below = update_down p f a in
    if p (reference n a) then reference (f n) a else reference n below
update_down p f (rvalue_reference n a) =
    let below = update_down p f a in
    if p (rvalue_reference n a) then rvalue_reference (f n) a else rvalue_reference n below

abbrev pub unnamed : Node → Node
unnamed n = record n { name = none }

unfoldable pub c_ast_take_name : Ast → Option String × Ast
unfolding c_ast_name_down
c_ast_take_name ast = (c_ast_name_down ast, update_down c_ast_visitor_name unnamed ast)

abbrev pub without : ℕ → Node → Node
without bits n = record n { type = bit_and n.type (compl64 bits) }

abbrev is_found : Option Ast → Bool
is_found none = false
is_found (some ast) = true

unfoldable pub c_ast_take_typedef : Ast → Bool × Ast
unfolding c_ast_find_type
c_ast_take_typedef ast = (
  is_found (c_ast_find_type ast t_typedef),
  update_down (c_ast_visitor_type_bits t_typedef) (without t_typedef) ast,
)

abbrev storage_of : Option Ast → ℕ
storage_of none = t_none
storage_of (some ast) = bit_and (type_of ast) t_mask_storage

abbrev pub storage_kinds : ℕ
storage_kinds = bit_or (bit CKind.builtin) (bit CKind.typedef_type)

unfoldable pub c_ast_take_storage : Ast → ℕ × Ast
unfolding c_ast_find_kind
c_ast_take_storage ast = (
  storage_of (c_ast_find_kind ast storage_kinds),
  update_down (c_ast_visitor_kind storage_kinds) (without t_mask_storage) ast,
)
