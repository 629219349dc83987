-- ===== src/RedBlack/Insert.antt =====
-- rb_tree_insert of src/red_black.c.
use Prim.Native.Nat.{Ordering}
use cdecl.Prelude.{
  ℕ, zero, suc, Bool, true, false, List, [], ◌∷◌, Option, none, some, if◌then◌else◌, length,
}
use cdecl.RedBlack.{
  Color, red, black, is_red, Tree, nil, node, color_of, Side, left, right, Parent, parent, Place,
  at, rebuild, to_parent, to_sibling, rb_rotate_left, rb_rotate_right,
}

-- How the search for the insertion point ends: at a node that is equal, or at RB_NIL.
pub data Spot {ℓ} (A : Type ℓ) : Type ℓ where
  equal_node : A → Spot A
  free_spot : List (Parent A) → Spot A

module _ {ℓ} {A : Type ℓ} where
  infixl 20 ◌then_go◌
  abbrev pub ◌then_go◌ : Option (Place A) → (Place A → Option (Place A)) → Option (Place A)
  none then_go f = none
  some p then_go f = f p

  -- The first loop. The comparison with the parent that follows it in the code is the one that was
  -- made last, and chooses the side that was taken.
  unfoldable pub find_spot : (A → A → Ordering) → A → Tree A → List (Parent A) → Spot A
  find_spot cmp item nil up = free_spot up
  find_spot cmp item (node c l x r) up = elim (cmp item x) [
    | Ordering.eq ↦ equal_node x
    | Ordering.lt ↦ find_spot cmp item l (parent left c x r ∷ up)
    | Ordering.gt ↦ find_spot cmp item r (parent right c x l ∷ up)
  ]

  -- `is_red( node->parent )`.
  abbrev pub parent_is_red : Place A → Bool
  parent_is_red (at t []) = false
  parent_is_red (at t (parent s c x other ∷ up)) = is_red c

  abbrev pub paint_node : Color → Tree A → Tree A
  paint_node c nil = nil
  paint_node c (node d l x r) = node c l x r

  -- The colors of the parent and the grandparent.
  abbrev pub recolor : Place A → Option (Place A)
  recolor (at t (parent s c x o ∷ parent s' c' x' o' ∷ up)) =
      some (at t (parent s black x o ∷ parent s' red x' o' ∷ up))
  recolor _ = none

  -- The end of a round at a black uncle: the colors are set and the grandparent is rotated, away
  -- from the node, which is then the other child of its parent.
  abbrev pub lifted : (Place A → Option (Place A)) → Place A → Option (Place A)
  lifted rotate p = recolor p then_go to_parent then_go to_parent then_go rotate then_go to_sibling

  -- Behind `else` in each half of the loop: the roles of the node and its parent are exchanged
  -- first where the node stands on the inner side.
  abbrev pub uncle_black : Side → Side → Place A → Option (Place A)
  uncle_black left left p = lifted rb_rotate_right p
  uncle_black left right p = to_parent p then_go rb_rotate_left then_go lifted rb_rotate_right
  uncle_black right right p = lifted rb_rotate_left p
  uncle_black right left p = to_parent p then_go rb_rotate_right then_go lifted rb_rotate_left

  -- A red uncle: the place moves up to the grandparent.
  abbrev pub uncle_red : Place A → Option (Place A)
  uncle_red (at t (parent s c x o ∷ parent s' c' x' uncle ∷ up)) =
      to_parent (at t (parent s black x o ∷ parent s' red x' (paint_node black uncle) ∷ up))
      then_go to_parent
  uncle_red _ = none

  -- The body of the second loop. `none` where it would go above RB_ROOT.
  unfoldable pub repair_round : Place A → Option (Place A)
  repair_round (at t (parent s c x o ∷ parent s' c' x' uncle ∷ up)) =
      let here = at t (parent s c x o ∷ parent s' c' x' uncle ∷ up) in
      if is_red (color_of uncle) then uncle_red here else uncle_black s' s here
  repair_round _ = none

  -- The second loop; `none` also when the rounds given are too few.
  unfoldable pub repair : ℕ → Place A → Option (Place A)
  repair zero p = none
  repair (suc rounds) p = elim (parent_is_red p) [
    | true ↦ repair_round p then_go repair rounds
    | false ↦ some p
  ]

  abbrev new_node : A → Tree A
  new_node item = node red nil item nil

  abbrev whole : Option (Place A) → Option (Tree A)
  whole none = none
  whole (some (at t up)) = some (paint_node black (rebuild t up))

  -- From the insertion point on.
  unfoldable pub insert_at : A → List (Parent A) → Option (Tree A)
  insert_at item up = whole (repair (suc (length up)) (at (new_node item) up))

  abbrev inserted : Tree A → Option (Tree A) → Option (Option A × Tree A)
  inserted tree none = none
  inserted tree (some tree') = some (none, tree')

  abbrev insert_spot : A → Tree A → Spot A → Option (Option A × Tree A)
  insert_spot item tree (equal_node x) = some (some x, tree)
  insert_spot item tree (free_spot up) = inserted tree (insert_at item up)

  -- What is returned, `none` for the null pointer, with the tree.
  unfoldable pub rb_tree_insert : (A → A → Ordering) → A → Tree A → Option (Option A × Tree A)
  unfolding find_spot insert_at repair repair_round rebuild
  rb_tree_insert cmp item tree = insert_spot item tree (find_spot cmp item tree [])
