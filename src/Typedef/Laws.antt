-- ===== src/Typedef/Laws.antt =====
-- c_typedef_add and c_typedef_find as operations of a set of typedefs by name, whatever the tree.
use Prim.Native.Nat.Ordering.{lt, eq, gt}
use Prim.Native.String.{compare}
use text.Mathlib.TextEquality.{path_by_compare}
use cdecl.Prelude.{
  true, List, [], ◌∷◌, Option, none, some, String, ◌≡◌, ◌≢◌, refl, sym, ap, ◌∙◌, arith,
  if◌then◌else◌,
}
use cdecl.Ast.{Ast}
use cdecl.Ast.Equiv.{c_ast_equiv}
use cdecl.RedBlack.{Tree, items}
use cdecl.RedBlack.Insert.{rb_tree_insert}
use cdecl.RedBlack.Order.{Sorted, find_item, insert_item, find_item-insert_item, find_other}
use cdecl.RedBlack.Search.{find_lem}
use cdecl.RedBlack.Laws.{IsRedBlack, items_after, rb_tree_insert_lem}
use cdecl.Typedef.{
  CTypedef, Typedefs, c_typedef_cmp, c_typedef_new, nothing_freed, struct_freed, name_and_ast_freed,
  Added, c_typedef_add, c_typedef_find, redefined,
}
use cdecl.Typedef.Order.{c_typedef_cmp-IsOrder}

abbrev pub IsWellFormed : Typedefs → Type 0
IsWellFormed st = IsRedBlack st.typedefs × Sorted c_typedef_cmp (items st.typedefs)

-- The typedef of a name in a list.
pub lookup : String → List CTypedef → Option CTypedef
lookup name [] = none
lookup name (t ∷ ts) = elim (compare name t.type_name) [
  | eq ↦ some t
  | lt ↦ lookup name ts
  | gt ↦ lookup name ts
]

lookup_lem :
    (t : CTypedef) (ts : List CTypedef) → find_item c_typedef_cmp t ts ≡ lookup t.type_name ts
unfolding find_item lookup
lookup_lem t [] = refl
lookup_lem t (u ∷ ts) = ground (arith, lookup_lem t ts)

-- The search reads nothing of the struct that it is given but the name.
pub c_typedef_find_lem :
    (rb_find : CTypedef) (name : String) (st : Typedefs)
    → IsWellFormed st
    → c_typedef_find rb_find name st ≡ lookup name (items st.typedefs)
unfolding c_typedef_find
c_typedef_find_lem rb_find name st h =
    let sought : CTypedef = record {
      type_name = name;
      ast = rb_find.ast;
      user_defined = rb_find.user_defined;
    } in
    find_lem c_typedef_cmp c_typedef_cmp-IsOrder sought st.typedefs h.1
    ∙ lookup_lem sought (items st.typedefs)

-- What an addition does, for what the name stood for before it.
abbrev pub AddsTo : String → Ast → Typedefs → Option CTypedef → Added → Type 0
AddsTo name ast st none out =
    (out.ok ≡ true)
    × (out.freed ≡ nothing_freed)
    × (items out.after.typedefs
        ≡ insert_item c_typedef_cmp (c_typedef_new name ast st) (items st.typedefs))
AddsTo name ast st (some old) out =
    (out.ok ≡ c_ast_equiv ast old.ast)
    × (out.freed ≡ (if c_ast_equiv ast old.ast then name_and_ast_freed else struct_freed))
    × (items out.after.typedefs ≡ items st.typedefs)

-- In a well-formed set an addition ends, and the set stays well-formed. A new name is added, marked
-- as the user's or not as the state says. For a name that is there, the set keeps its typedefs, the
-- answer is whether the AST is equivalent to the old one, and the name and the AST are freed if so.
pub c_typedef_add_lem :
    (name : String) (ast : Ast) (st : Typedefs)
    → IsWellFormed st
    → (out : Added) × (c_typedef_add name ast st ≡ some out)
      × IsWellFormed out.after
      × (out.after.user_defined ≡ st.user_defined)
      × AddsTo name ast st (lookup name (items st.typedefs)) out
unfolding c_typedef_add
c_typedef_add_lem name ast st h =
    let new = c_typedef_new name ast st in
    let (tree, inserts, keeps, sorted, order) =
      rb_tree_insert_lem c_typedef_cmp c_typedef_cmp-IsOrder new st.typedefs h.0 h.1 in
    split (find_item c_typedef_cmp new (items st.typedefs)) refl tree inserts keeps sorted order
  where
    split :
        (found : Option CTypedef)
        → find_item c_typedef_cmp (c_typedef_new name ast st) (items st.typedefs) ≡ found
        → (tree : Tree CTypedef)
        → rb_tree_insert c_typedef_cmp (c_typedef_new name ast st) st.typedefs ≡ some (found, tree)
        → IsRedBlack tree
        → Sorted c_typedef_cmp (items tree)
        → items tree
          ≡ items_after c_typedef_cmp (c_typedef_new name ast st) (items st.typedefs) found
        → (out : Added) × (c_typedef_add name ast st ≡ some out)
          × IsWellFormed out.after
          × (out.after.user_defined ≡ st.user_defined)
          × AddsTo name ast st (lookup name (items st.typedefs)) out
    split none e tree inserts keeps sorted order =
        let out : Added = record {
          ok = true;
          freed = nothing_freed;
          after = record { typedefs = tree; user_defined = st.user_defined };
        } in
        let same = sym (lookup_lem (c_typedef_new name ast st) (items st.typedefs)) ∙ e in
        (out, rw inserts refl, (keeps, sorted), refl, rw same (refl, refl, order))
    split (some old) e tree inserts keeps sorted order =
        let out : Added =
          redefined ast old (record { typedefs = tree; user_defined = st.user_defined }) in
        let same = sym (lookup_lem (c_typedef_new name ast st) (items st.typedefs)) ∙ e in
        (out, rw inserts refl, (keeps, sorted), refl, rw same (refl, refl, order))

pub or_new : Option CTypedef → CTypedef → Option CTypedef
or_new none new = some new
or_new (some old) new = some old

names_differ : (s t : String) → s ≢ t → compare s t ≢ eq
names_differ s t h e = h (path_by_compare s t e)

pub lookup_added :
    (name : String) (ast : Ast) (st : Typedefs) (found : Option CTypedef) (out : Added)
    → lookup name (items st.typedefs) ≡ found
    → AddsTo name ast st found out
    → lookup name (items out.after.typedefs) ≡ or_new found (c_typedef_new name ast st)
unfolding or_new
lookup_added name ast st none out e h =
    let new = c_typedef_new name ast st in
    let found =
      find_item-insert_item c_typedef_cmp c_typedef_cmp-IsOrder new (items st.typedefs)
        (lookup_lem new (items st.typedefs) ∙ e) in
    ap (lookup name) h.2
    ∙ sym (lookup_lem new (insert_item c_typedef_cmp new (items st.typedefs)))
    ∙ found
lookup_added name ast st (some old) out e h = ap (lookup name) h.2 ∙ e

pub lookup_kept :
    (name other : String) (ast : Ast) (st : Typedefs) (found : Option CTypedef) (out : Added)
    → other ≢ name
    → AddsTo name ast st found out
    → lookup other (items out.after.typedefs) ≡ lookup other (items st.typedefs)
lookup_kept name other ast st none out ne h =
    let new = c_typedef_new name ast st in
    let sought = c_typedef_new other ast st in
    let same =
      find_other c_typedef_cmp c_typedef_cmp-IsOrder sought new (items st.typedefs)
        (names_differ other name ne) in
    ap (lookup other) h.2
    ∙ sym (lookup_lem sought (insert_item c_typedef_cmp new (items st.typedefs)))
    ∙ same
    ∙ lookup_lem sought (items st.typedefs)
lookup_kept name other ast st (some old) out ne h = ap (lookup other) h.2
