-- ===== src/Build.antt =====
-- The building of a declarator's AST in src/c_ast_util.c: c_ast_add_array here, c_ast_add_func in
-- Func and c_ast_patch_placeholder in Patch. The array's own child is a placeholder. While
-- an AST is built each node is the `of_ast` of its parent only, so that a chain of nodes is a list,
-- the parent first; what comes above the first node is in the links that no function here reads but
-- through it. `none` is a failed assertion or a null pointer that is followed.
pub mod Cases
pub mod Array
pub mod Order
pub mod Patch
pub mod Func
mod Tests
use cdecl.Prelude.{
  ℕ, ltb, ◌==◌, bit_and, bit_or, Bool, true, false, ◌&&◌, ◌||◌, String, List, [], ◌∷◌, Option, none,
  some, if◌then◌else◌,
}
use cdecl.Bits.{compl64}
use cdecl.CKind
use cdecl.CKind.{CKind, c_kind_is_parent, bit}
use cdecl.Types.{t_none, t_mask_storage}

-- The fields of a node that matter to the building.
pub record Part : Type 0 where
  pub id : ℕ
  pub kind : CKind
  pub depth : ℕ
  pub name : Option String
  pub type : ℕ

abbrev pub Chain : Type 0
Chain = List Part

abbrev pub is_array : CKind → Bool
is_array CKind.array = true
is_array _ = false

abbrev pub is_pointer : CKind → Bool
is_pointer CKind.pointer = true
is_pointer _ = false

-- K_BUILTIN | K_TYPEDEF.
abbrev pub has_storage : CKind → Bool
has_storage CKind.builtin = true
has_storage CKind.typedef_type = true
has_storage _ = false

-- c_ast_take_storage: what it returns, and the chain after it.
unfoldable pub storage_in : Chain → ℕ
storage_in [] = t_none
storage_in (a ∷ below) =
    let further = storage_in below in
    if has_storage a.kind then bit_and a.type t_mask_storage else further

unfoldable pub drop_storage : Chain → Chain
drop_storage [] = []
drop_storage (a ∷ below) =
    let further = drop_storage below in
    if has_storage a.kind
    then record a { type = bit_and a.type (compl64 t_mask_storage) } ∷ below
    else a ∷ further

-- A new array above a chain, with the storage class that c_ast_add_array takes from the chain.
unfoldable pub array_over : Part → Chain → Chain
array_over array below =
    record array { type = bit_or array.type (storage_in below) } ∷ drop_storage below

-- The cases of c_ast_append_array that go on below a node: an array, or a pointer that is deeper.
abbrev pub goes_through : Part → Part → Bool
goes_through array a = is_array a.kind || (is_pointer a.kind && ltb array.depth a.depth)

abbrev pub under : Part → Option Chain → Option Chain
under a none = none
under a (some below) = some (a ∷ below)

unfoldable pub c_ast_append_array : Part → Chain → Option Chain
c_ast_append_array array [] = none
c_ast_append_array array (a ∷ below) =
    let further = c_ast_append_array array below in
    if goes_through array a then under a further else some (array_over array (a ∷ below))

-- Between a node and its child, that is asserted to exist.
abbrev pub between : Part → Part → Chain → Option Chain
between array a [] = none
between array a (b ∷ below) =
    if c_kind_is_parent a.kind then some (a ∷ array_over array (b ∷ below)) else none

-- The default case: below a deeper node, which must be a parent, or above the node.
abbrev pub beside : Part → Part → Chain → Option Chain
beside array a below =
    if ltb array.depth a.depth then between array a below else some (array_over array (a ∷ below))

-- A null AST, below a pointer, leaves the array linked to nothing.
unfoldable pub c_ast_add_array_impl : Part → Chain → Option Chain
c_ast_add_array_impl array [] = some []
c_ast_add_array_impl array (a ∷ below) =
    let further = c_ast_add_array_impl array below in
    if is_array a.kind
    then c_ast_append_array array (a ∷ below)
    else if is_pointer a.kind && ltb array.depth a.depth
    then under a further
    else beside array a below

-- The chain of what is returned.
unfoldable pub c_ast_add_array : Part → Chain → Option Chain
c_ast_add_array array [] = none
c_ast_add_array array (a ∷ below) = c_ast_add_array_impl array (a ∷ below)
