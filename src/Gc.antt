-- ===== src/Gc.antt =====
-- The allocation of AST nodes in src/c_ast.c: c_ast_new, c_ast_set_parent, c_ast_list_append, the
-- garbage collection that frees what a command has built, the release of a typedef's AST from it, and
-- c_ast_cleanup, which reports what was never freed. Pointers are the nodes' identities; `none` is a
-- failed assertion, or the use of a node that is not allocated.
pub mod Kept
pub mod Collect
pub mod Chain
pub mod Fresh
pub mod Free
mod Tests
use cdecl.Prelude.{
  ℕ, suc, zero, ◌+◌, ◌-◌, ◌==◌, ltb, Bool, true, false, List, [], ◌∷◌, ◌++◌, Option, none, some,
  if◌then◌else◌,
}
use cdecl.CKind.{CKind, c_kind_is_parent}

-- An allocated node. `free_recursive` says that gc_next is the address of c_ast_free_recursive.
pub record Cell : Type 0 where
  pub id : ℕ
  pub kind : CKind
  pub of_ast : Option ℕ
  pub args : List ℕ
  pub free_recursive : Bool

-- The allocated nodes, the last one first, c_ast_count, the list that begins at c_ast_gc_head, and the
-- static next_id of c_ast_new.
pub record Store : Type 0 where
  pub cells : List Cell
  pub c_ast_count : ℕ
  pub c_ast_gc_head : List ℕ
  pub next_id : ℕ

-- The node that a pointer points to.
unfoldable pub at : ℕ → List Cell → Option Cell
at id [] = none
at id (c ∷ cells) = let further = at id cells in if c.id == id then some c else further

unfoldable pub update : ℕ → (Cell → Cell) → List Cell → List Cell
update id f [] = []
update id f (c ∷ cells) =
    let further = update id f cells in if c.id == id then f c ∷ cells else c ∷ further

-- FREE( ast ).
unfoldable pub remove : ℕ → List Cell → List Cell
remove id [] = []
remove id (c ∷ cells) = let further = remove id cells in if c.id == id then cells else c ∷ further

abbrev pub new_cell : ℕ → CKind → Cell
new_cell id kind = record { id = id; kind = kind; of_ast = none; args = []; free_recursive = false }

unfoldable pub c_ast_new : CKind → Store → Store
c_ast_new kind s =
    let id = suc s.next_id in
    record {
      cells = new_cell id kind ∷ s.cells;
      c_ast_count = suc s.c_ast_count;
      c_ast_gc_head = id ∷ s.c_ast_gc_head;
      next_id = id;
    }

abbrev pub ask : {A B : Type 0} → Option A → (A → Option B) → Option B
ask none next = none
ask (some x) next = next x

-- The link to the child; nothing here reads the link to the parent.
unfoldable pub c_ast_set_parent : ℕ → ℕ → Store → Option Store
c_ast_set_parent child parent s = ask (at child s.cells) (λ _. ask (at parent s.cells) (λ c.
    if c_kind_is_parent c.kind
    then some (record s { cells = update parent (λ c. record c { of_ast = some child }) s.cells })
    else none))

-- The list is that of a function or a block. The assertions on the links of the list are left out,
-- as is the one of c_ast_set_parent that there is no cycle.
unfoldable pub c_ast_list_append : ℕ → ℕ → Store → Option Store
c_ast_list_append func arg s = ask (at arg s.cells) (λ _. ask (at func s.cells) (λ _.
    some (record s { cells = update func (λ c. record c { args = c.args ++ arg ∷ [] }) s.cells })))

abbrev pub has_args : CKind → Bool
has_args CKind.block = true
has_args CKind.function = true
has_args _ = false

unfoldable pub free_each : (ℕ → Store → Option Store) → List ℕ → Store → Option Store
free_each free [] s = some s
free_each free (id ∷ ids) s = ask (free id s) (free_each free ids)

-- The children of a freed node, by `free`, whose Boolean is free_recursive: c_ast_free of each
-- argument, and c_ast_free_impl of the child.
unfoldable pub free_args : (ℕ → Bool → Store → Option Store) → Cell → Store → Option Store
free_args free cell s =
    if has_args cell.kind
    then free_each (λ id s. ask (at id s.cells) (λ c. free id c.free_recursive s)) cell.args s
    else some s

unfoldable pub free_child : (ℕ → Bool → Store → Option Store) → Option ℕ → Store → Option Store
free_child free none s = some s
free_child free (some child) s = free child true s

unfoldable pub free_children : (ℕ → Bool → Store → Option Store) → Cell → Store → Option Store
free_children free cell s =
    ask (free_args free cell s)
      (λ s. if c_kind_is_parent cell.kind then free_child free cell.of_ast s else some s)

-- FREE( ast ) with c_ast_count.
unfoldable pub one_freed : ℕ → Store → Option Store
one_freed id s =
    if ltb 0 s.c_ast_count
    then some (record s { cells = remove id s.cells; c_ast_count = s.c_ast_count - 1 })
    else none

-- The fuel bounds the depth of the calls: each frees a node. The source frees the node itself after
-- its children.
unfoldable pub c_ast_free_impl : ℕ → ℕ → Bool → Store → Option Store
c_ast_free_impl zero id recursive s = none
c_ast_free_impl (suc fuel) id recursive s = ask (at id s.cells) (λ cell.
    ask (one_freed id s)
      (λ s. if recursive then free_children (c_ast_free_impl fuel) cell s else some s))

unfoldable pub c_ast_free : ℕ → Store → Option Store
c_ast_free id s = ask (at id s.cells) (λ c. c_ast_free_impl s.c_ast_count id c.free_recursive s)

unfoldable pub c_ast_gc : Store → Option Store
c_ast_gc s =
    ask (free_each (λ id s. c_ast_free_impl 1 id false s) s.c_ast_gc_head s)
      (λ s. some (record s { c_ast_gc_head = [] }))

abbrev pub mark : Cell → Cell
mark c = record c { free_recursive = true }

abbrev pub release_head : ℕ → Store → Store
release_head head s = record s { cells = update head mark s.cells; c_ast_gc_head = [] }

-- The first node of the list only is marked.
abbrev pub released : Store → List ℕ → Option Store
released s [] = some s
released s (head ∷ rest) = ask (at head s.cells) (λ _. some (release_head head s))

unfoldable pub c_ast_gc_release : Store → Option Store
c_ast_gc_release s = released s s.c_ast_gc_head

-- The count that c_ast_cleanup reports as an internal error.
unfoldable pub c_ast_cleanup : Store → Option ℕ
c_ast_cleanup s = if ltb 0 s.c_ast_count then some s.c_ast_count else none
