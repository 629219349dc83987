-- ===== src/RedBlack.antt =====
-- src/red_black.c. A tree is what its nodes' `left` and `right` make of it, RB_NIL being the leaf;
-- the first node of the tree is RB_FIRST. A place in a tree is a node with the way up from it: for
-- each `parent`, on which side of it the node stands, the parent's own fields and its other child.
-- The way up ends at RB_ROOT, which is black. So `node->parent` is the first part of the way.
pub mod Shape
pub mod Search
pub mod Laws
pub mod Height
pub mod Free
mod Tests
pub mod Order
pub mod Insert
use Prim.Native.Nat.{Ordering}
use cdecl.Prelude.{
  ℕ, zero, suc, Bool, true, false, List, [], ◌∷◌, Option, none, some, if◌then◌else◌, length, ◌++◌,
}

-- rb_color_t.
pub data Color : Type 0 where
  red black : Color

abbrev pub is_red : Color → Bool
is_red red = true
is_red black = false

pub data Tree {ℓ} (A : Type ℓ) : Type ℓ where
  nil : Tree A
  node : Color → Tree A → A → Tree A → Tree A

-- RB_NIL is black.
abbrev pub color_of {ℓ} : {A : Type ℓ} → Tree A → Color
color_of nil = black
color_of (node c l x r) = c

pub data Side : Type 0 where
  left right : Side

-- A parent seen from one of its children: the child's side, the parent's color and data, and the
-- other child.
pub data Parent {ℓ} (A : Type ℓ) : Type ℓ where
  parent : Side → Color → A → Tree A → Parent A

-- A node with the way up from it.
pub data Place {ℓ} (A : Type ℓ) : Type ℓ where
  at : Tree A → List (Parent A) → Place A

module _ {ℓ} {A : Type ℓ} where
  -- The parent's node.
  abbrev pub join : Parent A → Tree A → Tree A
  join (parent left c x other) t = node c t x other
  join (parent right c x other) t = node c other x t

  -- The whole tree.
  unfoldable pub rebuild : Tree A → List (Parent A) → Tree A
  rebuild t [] = t
  rebuild t (p ∷ up) = rebuild (join p t) up

  -- `node->parent`; RB_ROOT is no node of the tree.
  abbrev pub to_parent : Place A → Option (Place A)
  to_parent (at t []) = none
  to_parent (at t (p ∷ up)) = some (at (join p t) up)

  -- The other child of the parent.
  abbrev pub to_sibling : Place A → Option (Place A)
  to_sibling (at t []) = none
  to_sibling (at t (parent left c x other ∷ up)) = some (at other (parent right c x t ∷ up))
  to_sibling (at t (parent right c x other ∷ up)) = some (at other (parent left c x t ∷ up))

  -- rb_rotate_left: the right child takes the place of the node, which becomes its left child; the
  -- place is the node's new one. `none` where the right child is RB_NIL, which is not to be moved.
  abbrev pub rb_rotate_left : Place A → Option (Place A)
  rb_rotate_left (at (node c l x (node c' l' x' r')) up) =
      some (at (node c l x l') (parent left c' x' r' ∷ up))
  rb_rotate_left _ = none

  abbrev pub rb_rotate_right : Place A → Option (Place A)
  rb_rotate_right (at (node c (node c' l' x' r') x r) up) =
      some (at (node c r' x r) (parent right c' x' l' ∷ up))
  rb_rotate_right _ = none

  -- In order.
  abbrev pub items : Tree A → List A
  items nil = []
  items (node c l x r) = items l ++ (x ∷ items r)

  -- rb_tree_new, but for the comparison, which is an argument of what follows.
  abbrev pub rb_tree_new : Tree A
  rb_tree_new = nil

  -- rb_node_visit: the first node in order at which the visitor stops.
  unfoldable pub rb_node_visit : (A → Bool) → Tree A → Option A
  rb_node_visit visitor nil = none
  rb_node_visit visitor (node c l x r) = elim (rb_node_visit visitor l) [
    | some stopped ↦ some stopped
    | none ↦ elim (visitor x) [ true ↦ some x | false ↦ rb_node_visit visitor r ]
  ]

  -- rb_tree_free_impl: the nodes' data in the order in which they are freed.
  unfoldable pub rb_tree_free : Tree A → List A
  rb_tree_free nil = []
  rb_tree_free (node c l x r) = rb_tree_free l ++ (rb_tree_free r ++ (x ∷ []))

  unfoldable pub rb_tree_visit : (A → Bool) → Tree A → Option A
  unfolding rb_node_visit
  rb_tree_visit visitor tree = rb_node_visit visitor tree

  -- rb_tree_find, down one branch.
  unfoldable pub rb_tree_find : (A → A → Ordering) → A → Tree A → Option A
  rb_tree_find cmp item nil = none
  rb_tree_find cmp item (node c l x r) = elim (cmp item x) [
    | Ordering.eq ↦ some x
    | Ordering.lt ↦ rb_tree_find cmp item l
    | Ordering.gt ↦ rb_tree_find cmp item r
  ]
