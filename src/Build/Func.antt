-- ===== src/Build/Func.antt =====
-- Where c_ast_add_func of src/c_ast_util.c puts a function or a block, and what it takes from the AST
-- that is built. The return type's tree is a chain of its own, or the same as the AST.
pub mod Placeholder
use cdecl.Prelude.{
  ℕ, ◌==◌, bit_or, Bool, true, false, ◌||◌, String, List, [], ◌∷◌, Option, none, some, not, ◌&&◌,
  ◌++◌, if◌then◌else◌,
}
use cdecl.CKind.{CKind}
use cdecl.Build.{Part, Chain, storage_in, drop_storage}

-- K_ARRAY, K_POINTER, K_POINTER_TO_MEMBER, K_REFERENCE, K_RVALUE_REFERENCE.
abbrev pub is_declarator : CKind → Bool
is_declarator CKind.array = true
is_declarator CKind.pointer = true
is_declarator CKind.pointer_to_member = true
is_declarator CKind.reference = true
is_declarator CKind.rvalue_reference = true
is_declarator _ = false

abbrev pub is_placeholder : CKind → Bool
is_placeholder CKind.placeholder = true
is_placeholder _ = false

abbrev pub block_kind : CKind → Bool
block_kind CKind.block = true
block_kind _ = false

-- Where the function is after c_ast_add_func_impl: below these nodes of the AST, first in the tree
-- that is returned, or in no tree that is returned. It is above the return type in each case.
pub data FuncPlace : Type 0 where
  below : Chain → FuncPlace
  first : FuncPlace
  unlinked : FuncPlace

-- The call for a child whose result is ignored.
abbrev pub ignored : Part → Option FuncPlace → Option FuncPlace
ignored a none = none
ignored a (some (FuncPlace.below above)) = some (FuncPlace.below (a ∷ above))
ignored a (some FuncPlace.first) = some FuncPlace.unlinked
ignored a (some FuncPlace.unlinked) = some FuncPlace.unlinked

-- The inner switch, on the child `b` of `a`.
abbrev pub by_child : ℕ → ℕ → Part → Part → Option FuncPlace → Option FuncPlace
by_child ret_type_ast func a b further =
    if is_declarator b.kind
    then ignored a further
    else if is_placeholder b.kind
    then (if ret_type_ast == a.id then some FuncPlace.first else some (FuncPlace.below (a ∷ [])))
    else if block_kind b.kind
    then (if b.id == func then some (FuncPlace.below (a ∷ [])) else some FuncPlace.unlinked)
    else some FuncPlace.first

-- The arguments of the nodes' identities: of the return type and of the function.
unfoldable pub c_ast_add_func_impl : ℕ → ℕ → Chain → Option FuncPlace
c_ast_add_func_impl ret_type_ast func [] = none
c_ast_add_func_impl ret_type_ast func (a ∷ []) =
    if is_declarator a.kind then none else some FuncPlace.first
c_ast_add_func_impl ret_type_ast func (a ∷ b ∷ rest) =
    let further = c_ast_add_func_impl ret_type_ast func (b ∷ rest) in
    if is_declarator a.kind then by_child ret_type_ast func a b further else some FuncPlace.first

abbrev pub or_name : Option String → Option String → Option String
or_name none later = later
or_name (some name) later = some name

-- c_ast_take_name: what it returns, and the chain after it.
unfoldable pub name_below : Chain → Option String
name_below [] = none
name_below (a ∷ rest) = or_name a.name (name_below rest)

abbrev pub has_name : Option String → Bool
has_name none = false
has_name (some name) = true

unfoldable pub drop_name : Chain → Chain
drop_name [] = []
drop_name (a ∷ rest) =
    let further = drop_name rest in
    if has_name a.name then record a { name = none } ∷ rest else a ∷ further

-- A chain from which a name is taken, if `taken`.
abbrev pub without_name : Bool → Chain → Chain
without_name taken chain = if taken then drop_name chain else chain

-- The function with the name it takes and the storage class of the return type below it, and that
-- return type.
abbrev pub above_type : Part → Option String → Chain → Chain
above_type func name ret =
    record func { name = or_name func.name name; type = bit_or func.type (storage_in ret) }
    ∷ drop_storage ret

abbrev pub same_first : Chain → Chain → Bool
same_first (a ∷ _) (b ∷ _) = a.id == b.id
same_first _ _ = false

-- The end of c_ast_add_func, for each place.
abbrev pub give : Part → Chain → Chain → Option FuncPlace → Option Chain
give func ret chain none = none
give func ret chain (some (FuncPlace.below above)) =
    let takes = not (has_name func.name) in
    some (
      without_name takes above
      ++ above_type func (or_name (name_below above) (name_below ret))
          (without_name (takes && not (has_name (name_below above))) ret))
give func ret chain (some FuncPlace.first) =
    let takes = not (has_name func.name) in
    some (above_type func (name_below chain) (without_name (takes && same_first ret chain) ret))
give func ret chain (some FuncPlace.unlinked) = some (without_name (not (has_name func.name)) chain)

-- The chain of what is returned. A missing return type is an assertion.
unfoldable pub c_ast_add_func : Part → Chain → Chain → Option Chain
c_ast_add_func func [] chain = none
c_ast_add_func func (r ∷ ret) chain =
    give func (r ∷ ret) chain (c_ast_add_func_impl r.id func.id chain)
