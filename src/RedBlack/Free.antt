-- ===== src/RedBlack/Free.antt =====
-- rb_tree_free against the items of the tree.
use mathlib.Core.List.Perm
use mathlib.Core.List.{Perm, perm_append_singleton}
use cdecl.RedBlack.{Tree, nil, node, items, rb_tree_free}

module _ {ℓ} {A : Type ℓ} where
  -- Freeing a tree frees the data of each of its nodes once, and no other data.
  pub rb_tree_free-items : (t : Tree A) → Perm (rb_tree_free t) (items t)
  unfolding rb_tree_free
  rb_tree_free-items nil = Perm.nil
  rb_tree_free-items (node c l x r) =
      let right_first = perm_append_singleton x (rb_tree_free r) in
      Perm.append (rb_tree_free-items l)
        (Perm.trans right_first (Perm.cons x (rb_tree_free-items r)))
