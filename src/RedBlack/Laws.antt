-- ===== src/RedBlack/Laws.antt =====
-- rb_tree_find and rb_tree_insert against search and insertion in a sorted list.
use Prim.Native.Nat.{Ordering}
use Prim.Native.Nat.Ordering.{lt, eq, gt}
use mathlib.Core.Path.{subst}
use cdecl.Prelude.{
  ℕ, suc, false, List, [], ◌∷◌, ◌++◌, Option, none, some, ◌≡◌, refl, sym, ap, ◌∙◌, arith, length,
}
use cdecl.RedBlack.{
  red, black, Tree, nil, node, left, right, Parent, parent, Place, at, rebuild, items,
}
use cdecl.RedBlack.Insert.{
  Spot, equal_node, free_spot, find_spot, parent_is_red, paint_node, repair, insert_at,
  rb_tree_insert,
}
use cdecl.RedBlack.Order.{
  IsOrder, Before, After, Sorted, find_item, insert_item, Before-++, After-++, insert_item-between,
  insert_item-Sorted, After-lt, Before-gt, Sorted-Split,
}
use cdecl.RedBlack.Shape.{IsBlack, Shape, ShapeAbove, Repairing, whole_items, repair_ends}
use cdecl.RedBlack.Search.{
  before, after, items-rebuild, spot_item, find_spot-find, SpotShape, find_spot-SpotShape, find_lem,
}

module _ {ℓ} {A : Type ℓ} where
  -- The first node is black, no red node has a red child, and all ways down have equally many black
  -- nodes.
  abbrev pub IsRedBlack : Tree A → Type 0
  IsRedBlack t = IsBlack t × ((n : ℕ) × Shape n t)

  -- Under a red parent only a black node.
  abbrev Fits : Tree A → List (Parent A) → Type 0
  Fits t (parent s red x other ∷ up) = IsBlack t
  Fits t _ = Unit

  red_apart :
      (l : Tree A) (x : A) (r : Tree A) (up : List (Parent A))
      → parent_is_red (at (node red l x r) up) ≡ false
      → Fits (node red l x r) up
  red_apart l x r [] h = tt
  red_apart l x r (parent s black y other ∷ up) h = tt
  red_apart l x r (parent s red y other ∷ up) h = cc

  abbrev pub IsShaped : Tree A → Type 0
  IsShaped t = (n : ℕ) × Shape n t

  black_anywhere :
      (l : Tree A) (x : A) (r : Tree A) (up : List (Parent A)) → Fits (node black l x r) up
  black_anywhere l x r [] = tt
  black_anywhere l x r (parent s black y other ∷ up) = tt
  black_anywhere l x r (parent s red y other ∷ up) = refl

  rebuild-IsShaped :
      (n : ℕ) (t : Tree A) (up : List (Parent A))
      → Shape n t
      → Fits t up
      → ShapeAbove n up
      → IsShaped (rebuild t up)
  unfolding rebuild
  rebuild-IsShaped n t [] h f a = (n, h)
  rebuild-IsShaped n t (parent left red x o ∷ parent s black y p ∷ up) h f a =
      rebuild-IsShaped n (node red t x o) (parent s black y p ∷ up) (f, a.0, h, a.2) tt a.3
  rebuild-IsShaped n t (parent right red x o ∷ parent s black y p ∷ up) h f a =
      rebuild-IsShaped n (node red o x t) (parent s black y p ∷ up) (a.0, f, a.2, h) tt a.3
  rebuild-IsShaped n t (parent s red x o ∷ []) h f a = absurd a.1
  rebuild-IsShaped n t (parent s red x o ∷ parent s' red y p ∷ up) h f a = absurd a.1
  rebuild-IsShaped n t (parent left black x o ∷ up) h f a =
      rebuild-IsShaped (suc n) (node black t x o) up (h, a.0) (black_anywhere t x o up) a.1
  rebuild-IsShaped n t (parent right black x o ∷ up) h f a =
      rebuild-IsShaped (suc n) (node black o x t) up (a.0, h) (black_anywhere o x t up) a.1

  paint-IsRedBlack : (t : Tree A) → IsShaped t → IsRedBlack (paint_node black t)
  paint-IsRedBlack nil h = (refl, h)
  paint-IsRedBlack (node red l x r) h = (refl, (suc h.0, (h.1.2, h.1.3)))
  paint-IsRedBlack (node black l x r) h = (refl, h)

  items-paint : (t : Tree A) → items (paint_node black t) ≡ items t
  items-paint nil = refl
  items-paint (node c l x r) = refl

  repaired :
      (t : Tree A) (up : List (Parent A))
      → Repairing (at t up)
      → parent_is_red (at t up) ≡ false
      → IsShaped (rebuild t up)
  repaired nil up h e = absurd h.1
  repaired (node black l x r) up h e = absurd h.1
  repaired (node red l x r) up h e =
      rebuild-IsShaped h.0 (node red l x r) up h.1 (red_apart l x r up e) h.2

  -- From the insertion point the insertion ends, in a red-black tree with the item in its place.
  insert_at_lem :
      (item : A) (up : List (Parent A))
      → ShapeAbove 0 up
      → (t : Tree A) × (insert_at item up ≡ some t)
        × IsRedBlack t
        × (items t ≡ before up ++ (item ∷ after up))
  unfolding insert_at
  insert_at_lem item up a =
      let (q, ends, keeps, top, order) =
        repair_ends (suc (length up)) (at (node red nil item nil) up)
          (0, (refl, refl, refl, refl), a) (omega arith) in
      final q ends keeps top order
    where
      final :
          (q : Place A)
          → repair (suc (length up)) (at (node red nil item nil) up) ≡ some q
          → Repairing q
          → parent_is_red q ≡ false
          → whole_items q ≡ items (rebuild (node red nil item nil) up)
          → (t : Tree A) × (insert_at item up ≡ some t)
            × IsRedBlack t
            × (items t ≡ before up ++ (item ∷ after up))
      final (at t above) ends keeps top order = (
        paint_node black (rebuild t above),
        rw ends refl,
        paint-IsRedBlack (rebuild t above) (repaired t above keeps top),
        items-paint (rebuild t above) ∙ order ∙ items-rebuild (node red nil item nil) up,
      )

  module _ (cmp : A → A → Ordering) where
    -- The way up from the insertion point is a way up in the tree that was searched.
    find_spot-rebuild :
        (d : A) (t : Tree A) (up up' : List (Parent A))
        → find_spot cmp d t up ≡ free_spot up'
        → rebuild nil up' ≡ rebuild t up
    unfolding find_spot rebuild
    find_spot-rebuild d nil up up' h = ground arith
    find_spot-rebuild d (node c l x r) up up' h = ground (
      arith,
      find_spot-rebuild d l (parent left c x r ∷ up) up',
      find_spot-rebuild d r (parent right c x l ∷ up) up',
    )

    -- The list after an insertion.
    abbrev pub items_after : A → List A → Option A → List A
    items_after d xs none = insert_item cmp d xs
    items_after d xs (some x) = xs

    module _ (o : IsOrder cmp) where
      -- It lies between the lesser and the greater items.
      find_spot-between :
          (d : A) (t : Tree A) (up up' : List (Parent A))
          → find_spot cmp d t up ≡ free_spot up'
          → Sorted cmp (items t)
          → Before cmp d (before up)
          → After cmp d (after up)
          → Before cmp d (before up') × After cmp d (after up')
      unfolding find_spot
      find_spot-between d nil up up' h s b a = ground arith
      find_spot-between d (node c l x r) up up' h s b a =
          let parts = Sorted-Split cmp o (items l) x (items r) s in
          let go_left = λ (e : cmp d x ≡ lt).
            find_spot-between d l (parent left c x r ∷ up) up' (ground arith) parts.left b (
              e,
              After-++ cmp d (items r) (after up) (After-lt cmp o d x (items r) e parts.after) a,
            ) in
          let go_right = λ (e : cmp d x ≡ gt).
            find_spot-between d r (parent right c x l ∷ up) up' (ground arith) parts.right
              (Before-++ cmp d (before up) (items l ++ (x ∷ [])) b (
                Before-++ cmp d (items l) (x ∷ []) (Before-gt cmp o d x (items l) e parts.before)
                  (e, tt)))
              a in
          split (cmp d x) refl h go_left go_right
        where
          split :
              (c' : Ordering)
              → cmp d x ≡ c'
              → (elim c' [
                | eq ↦ equal_node x
                | lt ↦ find_spot cmp d l (parent left c x r ∷ up)
                | gt ↦ find_spot cmp d r (parent right c x l ∷ up)
              ])
                ≡ free_spot up'
              → (cmp d x ≡ lt → Before cmp d (before up') × After cmp d (after up'))
              → (cmp d x ≡ gt → Before cmp d (before up') × After cmp d (after up'))
              → Before cmp d (before up') × After cmp d (after up')
          split lt e k f g = f e
          split gt e k f g = g e
          split eq e k f g = cc

      -- A free insertion point: the new tree has the item between the lesser and the greater ones.
      free_spot_items :
          (d : A) (t : Tree A) (up : List (Parent A))
          → IsRedBlack t
          → Sorted cmp (items t)
          → find_spot cmp d t [] ≡ free_spot up
          → (t' : Tree A) × (insert_at d up ≡ some t')
            × IsRedBlack t'
            × (items t' ≡ insert_item cmp d (items t))
      unfolding rebuild
      free_spot_items d t up h s e =
          let shape = find_spot-SpotShape cmp h.1.0 d t [] h.1.1 h.0 tt in
          let (t', ends, keeps, order) = insert_at_lem d up (subst (SpotShape cmp) e shape) in
          let sides = find_spot-between d t [] up e s tt tt in
          let all = sym (items-rebuild nil up) ∙ ap items (find_spot-rebuild d t [] up e) in
          let put = sym (insert_item-between cmp d (before up) (after up) sides.0 sides.1) in
          (t', ends, keeps, order ∙ put ∙ ap (insert_item cmp d) all)

      inserted_lem :
          (d : A) (t : Tree A)
          → IsRedBlack t
          → Sorted cmp (items t)
          → (spot : Spot A) → find_spot cmp d t [] ≡ spot
          → (t' : Tree A) × (rb_tree_insert cmp d t ≡ some (spot_item cmp spot, t'))
            × IsRedBlack t'
            × (items t' ≡ items_after d (items t) (spot_item cmp spot))
      unfolding rb_tree_insert
      inserted_lem d t h s (equal_node x) e = (t, rw e refl, h, refl)
      inserted_lem d t h s (free_spot up) e =
          let (t', ends, keeps, order) = free_spot_items d t up h s e in
          (t', rw (e, ends) refl, keeps, order)

      items_after-Sorted :
          (d : A) (xs : List A) (found : Option A)
          → found ≡ find_item cmp d xs
          → Sorted cmp xs
          → Sorted cmp (items_after d xs found)
      items_after-Sorted d xs none e s = insert_item-Sorted cmp o d xs s (sym e)
      items_after-Sorted d xs (some x) e s = s

      -- An insertion into a red-black tree whose items are in order ends, returns the item of the
      -- tree that compares equal, if there is one, and leaves a red-black tree whose items are in
      -- order: the ones before the insertion, and the new item among them where none was equal.
      pub rb_tree_insert_lem :
          (d : A) (t : Tree A)
          → IsRedBlack t
          → Sorted cmp (items t)
          → (t' : Tree A) × (rb_tree_insert cmp d t ≡ some (find_item cmp d (items t), t'))
            × IsRedBlack t'
            × Sorted cmp (items t')
            × (items t' ≡ items_after d (items t) (find_item cmp d (items t)))
      rb_tree_insert_lem d t h s =
          let found = find_spot-find cmp d t [] ∙ find_lem cmp o d t s in
          let (t', done, keeps, order) = inserted_lem d t h s (find_spot cmp d t []) refl in
          let order' = order ∙ ap (items_after d (items t)) found in
          (
            t',
            done ∙ ap (λ r. some (r, t')) found,
            keeps,
            subst (Sorted cmp) (sym order')
                (items_after-Sorted d (items t) (find_item cmp d (items t)) refl s),
            order',
          )
