-- ===== src/Ast/Visit.antt =====
-- The traversals of src/c_ast.c and the searches of src/c_ast_util.h that use them.
use cdecl.Prelude.{ℕ, Bool, true, false, String, List, [], ◌∷◌, Option, none, some, if◌then◌else◌}
use cdecl.Bits.{has}
use cdecl.Ast.{
  Ast, array, block, function, pointer, pointer_to_member, reference, rvalue_reference, kind,
  type_of, name_of,
}
use cdecl.CKind.{bit}

-- A visitor gives `none` to go on and `some` to stop, with what it stopped for: the node itself, or
-- the error that it found there.
infixr 20 ◌or_visit◌
abbrev pub ◌or_visit◌ {ℓ} : {E : Type ℓ} → Option E → Option E → Option E
some e or_visit next = some e
none or_visit next = next

-- c_ast_visit_down: the node, then what it is a parent of.
unfoldable pub c_ast_visit_down {ℓ} : {E : Type ℓ} → (Ast → Option E) → Ast → Option E
c_ast_visit_down visitor (array n s t a) =
    visitor (array n s t a) or_visit c_ast_visit_down visitor a
c_ast_visit_down visitor (block n args a) =
    visitor (block n args a) or_visit c_ast_visit_down visitor a
c_ast_visit_down visitor (function n args a) =
    visitor (function n args a) or_visit c_ast_visit_down visitor a
c_ast_visit_down visitor (pointer n a) = visitor (pointer n a) or_visit c_ast_visit_down visitor a
c_ast_visit_down visitor (pointer_to_member n s a) =
    visitor (pointer_to_member n s a) or_visit c_ast_visit_down visitor a
c_ast_visit_down visitor (reference n a) =
    visitor (reference n a) or_visit c_ast_visit_down visitor a
c_ast_visit_down visitor (rvalue_reference n a) =
    visitor (rvalue_reference n a) or_visit c_ast_visit_down visitor a
c_ast_visit_down visitor leaf = visitor leaf

-- c_ast_visit_up: a node, then its parent, and so on; the list is the node and its ancestors.
unfoldable pub c_ast_visit_up {ℓ} : {E : Type ℓ} → (Ast → Option E) → List Ast → Option E
c_ast_visit_up visitor [] = none
c_ast_visit_up visitor (ast ∷ ancestors) = visitor ast or_visit c_ast_visit_up visitor ancestors

-- A visitor that answers true or false, as the search for a node.
abbrev pub stops : (Ast → Bool) → Ast → Option Ast
stops p ast = if p ast then some ast else none

abbrev pub c_ast_visitor_kind : ℕ → Ast → Bool
c_ast_visitor_kind kinds ast = has (bit (kind ast)) kinds

abbrev pub c_ast_visitor_type_bits : ℕ → Ast → Bool
c_ast_visitor_type_bits types ast = has (type_of ast) types

abbrev pub c_ast_visitor_name : Ast → Bool
c_ast_visitor_name ast = elim (name_of ast) [ some n ↦ true | none ↦ false ]

-- c_ast_find_kind and c_ast_find_type, down.
unfoldable pub c_ast_find_kind : Ast → ℕ → Option Ast
c_ast_find_kind ast kinds = c_ast_visit_down (stops (c_ast_visitor_kind kinds)) ast

unfoldable pub c_ast_find_type : Ast → ℕ → Option Ast
c_ast_find_type ast types = c_ast_visit_down (stops (c_ast_visitor_type_bits types)) ast

-- c_ast_find_kind up from a parent, which may be null.
unfoldable pub c_ast_find_kind_up : List Ast → ℕ → Option Ast
c_ast_find_kind_up ancestors kinds = c_ast_visit_up (stops (c_ast_visitor_kind kinds)) ancestors

abbrev name_found : Option Ast → Option String
name_found none = none
name_found (some ast) = name_of ast

-- c_ast_name, down and up.
unfoldable pub c_ast_name_down : Ast → Option String
unfolding c_ast_visit_down
c_ast_name_down ast = name_found (c_ast_visit_down (stops c_ast_visitor_name) ast)

unfoldable pub c_ast_name_up : List Ast → Option String
unfolding c_ast_visit_up
c_ast_name_up chain = name_found (c_ast_visit_up (stops c_ast_visitor_name) chain)
