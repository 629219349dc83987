-- ===== src/Gc/Tests.antt =====
-- The nodes of `typedef int *P` and `typedef int A[3]`, and of a command that defines nothing.
use cdecl.Prelude.{false, [], ◌∷◌, none, some, ◌≡◌, refl}
use cdecl.CKind.{CKind}
use cdecl.Gc.{
  Cell, Store, at, update, remove, c_ast_new, ask, c_ast_set_parent, free_each, free_args,
  free_child, free_children, one_freed, c_ast_free_impl, c_ast_free, c_ast_gc, c_ast_gc_release,
  c_ast_cleanup,
}
use cdecl.Gc.Kept.{ids, Built, built_nothing, built_node, built_parent}
use cdecl.Gc.Collect.{c_ast_gc_lem}
use cdecl.Gc.Free.{c_ast_free-c_ast_gc_release, c_ast_free_other}

abbrev no_nodes : Store
no_nodes = record { cells = []; c_ast_count = 0; c_ast_gc_head = []; next_id = 0 }

abbrev builtin_cell : Cell
builtin_cell = record {
  id = 1;
  kind = CKind.builtin;
  of_ast = none;
  args = [];
  free_recursive = false;
}

abbrev placeholder_cell : Cell
placeholder_cell = record {
  id = 3;
  kind = CKind.placeholder;
  of_ast = none;
  args = [];
  free_recursive = false;
}

abbrev pointer_cell : Cell
pointer_cell = record {
  id = 2;
  kind = CKind.pointer;
  of_ast = some 1;
  args = [];
  free_recursive = false;
}

abbrev array_cell : Cell
array_cell = record {
  id = 2;
  kind = CKind.array;
  of_ast = some 1;
  args = [];
  free_recursive = false;
}

abbrev pointer_nodes : Store
pointer_nodes = record {
  cells = pointer_cell ∷ builtin_cell ∷ [];
  c_ast_count = 2;
  c_ast_gc_head = 2 ∷ 1 ∷ [];
  next_id = 2;
}

abbrev array_nodes : Store
array_nodes = record {
  cells = placeholder_cell ∷ array_cell ∷ builtin_cell ∷ [];
  c_ast_count = 3;
  c_ast_gc_head = 3 ∷ 2 ∷ 1 ∷ [];
  next_id = 3;
}

-- The parser's calls give these nodes.
pointer_calls :
    c_ast_set_parent 1 2 (c_ast_new CKind.pointer (c_ast_new CKind.builtin no_nodes))
    ≡ some pointer_nodes
unfolding c_ast_set_parent c_ast_new at update
pointer_calls = refl

array_calls :
    ask
      (c_ast_set_parent 3 2
        (c_ast_new CKind.placeholder (c_ast_new CKind.array (c_ast_new CKind.builtin no_nodes))))
      (c_ast_set_parent 1 2)
    ≡ some array_nodes
unfolding c_ast_set_parent c_ast_new at update
array_calls = refl

pointer-Built : Built no_nodes pointer_nodes
pointer-Built =
    built_parent 1 2 (built_node CKind.pointer (built_node CKind.builtin built_nothing))
      pointer_calls

c_ast_gc_lem_example :
    (u : Store) × (c_ast_gc pointer_nodes ≡ some u)
    × (ids u.cells ≡ [])
    × (u.c_ast_count ≡ 0)
    × (u.c_ast_gc_head ≡ [])
c_ast_gc_lem_example = c_ast_gc_lem no_nodes pointer_nodes refl refl pointer-Built

c_ast_free-c_ast_gc_release_example :
    (t : Store) × (ask (c_ast_gc_release pointer_nodes) (c_ast_free 2) ≡ some t)
    × (t.c_ast_count ≡ 0)
    × (t.c_ast_gc_head ≡ [])
    × (at 1 t.cells ≡ none)
unfolding at
c_ast_free-c_ast_gc_release_example =
    c_ast_free-c_ast_gc_release pointer_nodes 2 (1 ∷ []) (1 ∷ []) 0 ((refl, tt), (tt, tt)) refl
      ((pointer_cell, refl, refl, refl, refl), (builtin_cell, refl, refl, refl))
      ((refl, tt), (tt, tt)) refl 1

c_ast_free_other_example :
    (t : Store) × (ask (c_ast_gc_release array_nodes) (c_ast_free 2) ≡ some t)
    × (t.c_ast_count ≡ 2)
    × (at 1 t.cells ≡ some builtin_cell)
unfolding at
c_ast_free_other_example =
    c_ast_free_other array_nodes 3 2 (2 ∷ 1 ∷ []) array_cell placeholder_cell 2
      ((refl, (refl, tt)), ((refl, tt), (tt, tt))) refl refl refl refl refl refl 1

-- Two nodes are left when the typedef of an array is freed, and c_ast_cleanup reports them.
array_reported :
    ask (ask (c_ast_gc_release array_nodes) (c_ast_free 2)) (λ s. c_ast_cleanup s) ≡ some 2
unfolding c_ast_free c_ast_gc_release c_ast_cleanup at update remove one_freed c_ast_free_impl
    free_children free_args free_each free_child
array_reported = refl

-- A second `typedef int *P` is equivalent to the first: c_typedef_add frees its AST, and the node that
-- c_ast_gc_release then writes to is gone.
freed_then_released : ask (c_ast_free 2 pointer_nodes) (λ s. c_ast_gc_release s) ≡ none
unfolding c_ast_free c_ast_gc_release at remove one_freed c_ast_free_impl
freed_then_released = refl
