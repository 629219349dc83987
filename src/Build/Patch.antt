-- ===== src/Build/Patch.antt =====
-- c_ast_patch_placeholder of src/c_ast_util.c: the AST of a type is put into that of a declarator.
pub mod Whole
use cdecl.Prelude.{
  ℕ, ◌≤◌, leb, Bool, true, false, List, [], ◌∷◌, ◌++◌, Option, none, some, if◌then◌else◌,
}
use cdecl.Build.{Part, Chain}
use cdecl.Build.Func.{is_placeholder, or_name, name_below}

-- The nodes above the first placeholder, where there is one.
abbrev pub found_below : Part → Option Chain → Option Chain
found_below a none = none
found_below a (some above) = some (a ∷ above)

unfoldable pub above_placeholder : Chain → Option Chain
above_placeholder [] = none
above_placeholder (a ∷ below) =
    let further = above_placeholder below in
    if is_placeholder a.kind then some [] else found_below a further

-- The type's root is the type, since it has no parent; a placeholder without a parent is an assertion.
abbrev pub excised : Chain → Chain → Option Chain
excised type_ast [] = none
excised type_ast (a ∷ above) = some (a ∷ above ++ type_ast)

abbrev pub patched : Part → Chain → Part → Chain → Option Chain → Option Chain
patched type below decl decls none = some (decl ∷ decls)
patched type below decl decls (some above) =
    if leb decl.depth type.depth
    then some (record type { name = or_name type.name (name_below (decl ∷ decls)) } ∷ below)
    else excised (type ∷ below) above

-- What is returned; `has_parent` says that the type is in an AST already. A declarator `[]` is null.
unfoldable pub c_ast_patch_placeholder : Bool → Chain → Chain → Option Chain
c_ast_patch_placeholder has_parent [] decl_ast = none
c_ast_patch_placeholder has_parent (type ∷ below) [] = some (type ∷ below)
c_ast_patch_placeholder has_parent (type ∷ below) (decl ∷ decls) =
    if has_parent
    then some (decl ∷ decls)
    else patched type below decl decls (above_placeholder (decl ∷ decls))
