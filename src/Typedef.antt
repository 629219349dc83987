-- ===== src/Typedef.antt =====
-- src/c_typedef.c. The state is the set of typedefs, a red-black tree, and whether new ones are the
-- user's own. strcmp(3) is the comparison of texts.
pub mod Order
pub mod Laws
pub mod History
pub mod Init
mod Tests
use Prim.Native.Nat.{Ordering}
use Prim.Native.String.{compare}
use cdecl.Prelude.{Bool, true, false, List, [], ◌∷◌, Option, none, some, String, if◌then◌else◌}
use cdecl.Ast.{Ast}
use cdecl.Ast.Equiv.{c_ast_equiv}
use cdecl.RedBlack.{Tree, rb_tree_new, rb_tree_find, rb_tree_visit, rb_tree_free}
use cdecl.RedBlack.Insert.{rb_tree_insert}

pub record CTypedef : Type 0 where
  pub type_name : String
  pub ast : Ast
  pub user_defined : Bool

-- The file's variables; the tree is that of `typedefs`.
pub record Typedefs : Type 0 where
  pub typedefs : Tree CTypedef
  pub user_defined : Bool

abbrev pub c_typedef_cmp : CTypedef → CTypedef → Ordering
c_typedef_cmp ti tj = compare ti.type_name tj.type_name

abbrev pub c_typedef_new : String → Ast → Typedefs → CTypedef
c_typedef_new type_name ast st = record {
  type_name = type_name;
  ast = ast;
  user_defined = st.user_defined;
}

-- What c_typedef_add frees: nothing, the new struct alone, or by c_typedef_free the name and the
-- AST that it was given (with the struct left).
pub data Freed : Type 0 where
  nothing_freed struct_freed name_and_ast_freed : Freed

pub record Added : Type 0 where
  pub ok : Bool
  pub freed : Freed
  pub after : Typedefs

abbrev pub redefined : Ast → CTypedef → Typedefs → Added
redefined ast old st =
    let is_equiv = c_ast_equiv ast old.ast in
    record {
      ok = is_equiv;
      freed = if is_equiv then name_and_ast_freed else struct_freed;
      after = st;
    }

abbrev add_result : Ast → Typedefs → Option (Option CTypedef × Tree CTypedef) → Option Added
add_result ast st none = none
add_result ast st (some (none, tree)) = some (record {
  ok = true;
  freed = nothing_freed;
  after = record { typedefs = tree; user_defined = st.user_defined };
})
add_result ast st (some (some old, tree)) =
    some (redefined ast old (record { typedefs = tree; user_defined = st.user_defined }))

-- `none` where the insertion does not end.
unfoldable pub c_typedef_add : String → Ast → Typedefs → Option Added
unfolding c_ast_equiv rb_tree_insert
c_typedef_add type_name ast st =
    add_result ast st (rb_tree_insert c_typedef_cmp (c_typedef_new type_name ast st) st.typedefs)

-- `rb_find` is what the local struct holds before its name is set.
unfoldable pub c_typedef_find : CTypedef → String → Typedefs → Option CTypedef
unfolding rb_tree_find
c_typedef_find rb_find type_name st =
    rb_tree_find c_typedef_cmp
      (record { type_name = type_name; ast = rb_find.ast; user_defined = rb_find.user_defined })
      st.typedefs

-- The data pointer is part of the visitor.
unfoldable pub c_typedef_visit : (CTypedef → Bool) → Typedefs → Option CTypedef
unfolding rb_tree_visit
c_typedef_visit visitor st = rb_tree_visit visitor st.typedefs

-- What is freed: the name and the AST of each of these.
unfoldable pub c_typedef_cleanup : Typedefs → List CTypedef
unfolding rb_tree_free
c_typedef_cleanup st = rb_tree_free st.typedefs
