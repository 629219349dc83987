-- ===== src/Ast.antt =====
-- The abstract syntax tree of src/c_ast.h as a tree: a node of each kind with what the union holds
-- for it. An AST is a chain of "parent" nodes that ends in a leaf; the arguments of a function or a
-- block are ASTs of their own. `depth`, `id` and the links of the lists are not kept: nothing that
-- reads a finished AST uses them. No node of kind K_NONE is ever made.
pub mod Visit
pub mod Equiv
pub mod Take
use cdecl.Prelude.{ℕ, String, Option, none, some, List, [], ◌∷◌}
use cdecl.CKind.{CKind}

-- c_loc_t: where a token begins and ends.
pub record CLoc : Type 0 where
  pub first_line : ℕ
  pub first_column : ℕ
  pub last_line : ℕ
  pub last_column : ℕ

-- The fields that every node has.
pub record Node : Type 0 where
  pub name : Option String
  pub type : ℕ
  pub loc : CLoc

-- C_ARRAY_SIZE_NONE, C_ARRAY_SIZE_VARIABLE, or a size that is not negative.
pub data ArraySize : Type 0 where
  size_none size_variable : ArraySize
  size : ℕ → ArraySize

-- `untyped` is K_NAME, a name with no type. A typedef node holds the name and the AST of its
-- c_typedef; a function or block holds its arguments and its return type.
mutual
  pub data Ast : Type 0 where
    placeholder : Node → Ast
    builtin : Node → Ast
    ecsu : Node → String → Ast
    untyped : Node → Ast
    typedef_type : Node → String → Ast → Ast
    variadic : Node → Ast
    array : Node → ArraySize → ℕ → Ast → Ast
    block : Node → Args → Ast → Ast
    function : Node → Args → Ast → Ast
    pointer : Node → Ast → Ast
    pointer_to_member : Node → String → Ast → Ast
    reference : Node → Ast → Ast
    rvalue_reference : Node → Ast → Ast

  pub data Args : Type 0 where
    no_args : Args
    arg : Ast → Args → Args

abbrev pub node : Ast → Node
node (placeholder n) = n
node (builtin n) = n
node (ecsu n s) = n
node (untyped n) = n
node (typedef_type n s a) = n
node (variadic n) = n
node (array n s t a) = n
node (block n args a) = n
node (function n args a) = n
node (pointer n a) = n
node (pointer_to_member n s a) = n
node (reference n a) = n
node (rvalue_reference n a) = n

abbrev pub kind : Ast → CKind
kind (placeholder n) = CKind.placeholder
kind (builtin n) = CKind.builtin
kind (ecsu n s) = CKind.enum_class_struct_union
kind (untyped n) = CKind.name
kind (typedef_type n s a) = CKind.typedef_type
kind (variadic n) = CKind.variadic
kind (array n s t a) = CKind.array
kind (block n args a) = CKind.block
kind (function n args a) = CKind.function
kind (pointer n a) = CKind.pointer
kind (pointer_to_member n s a) = CKind.pointer_to_member
kind (reference n a) = CKind.reference
kind (rvalue_reference n a) = CKind.rvalue_reference

-- `as.parent.of_ast`, for the kinds that are parents.
abbrev pub of_ast : Ast → Option Ast
of_ast (array n s t a) = some a
of_ast (block n args a) = some a
of_ast (function n args a) = some a
of_ast (pointer n a) = some a
of_ast (pointer_to_member n s a) = some a
of_ast (reference n a) = some a
of_ast (rvalue_reference n a) = some a
of_ast _ = none

-- c_ast_args, for the kinds that have arguments.
abbrev pub c_ast_args : Ast → Args
c_ast_args (block n args a) = args
c_ast_args (function n args a) = args
c_ast_args _ = no_args

abbrev pub type_of : Ast → ℕ
type_of ast = (node ast).type

abbrev pub name_of : Ast → Option String
name_of ast = (node ast).name

abbrev pub loc_of : Ast → CLoc
loc_of ast = (node ast).loc

abbrev pub arg_list : Args → List Ast
arg_list no_args = []
arg_list (arg a rest) = a ∷ arg_list rest
