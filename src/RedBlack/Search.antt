-- ===== src/RedBlack/Search.antt =====
-- rb_tree_find, rb_tree_visit and the search for the insertion point against the list of items.
use Prim.Native.Nat.{Ordering}
use mathlib.Core.List.{append_assoc, append-nil}
use cdecl.Prelude.{
  ℕ, zero, suc, Bool, true, false, List, [], ◌∷◌, ◌++◌, Option, none, some, ◌≡◌, refl, sym, ◌∙◌,
  arith,
}
use cdecl.RedBlack.{
  red, black, Tree, nil, node, left, right, Parent, parent, rebuild, items, rb_node_visit,
  rb_tree_visit, rb_tree_find,
}
use cdecl.RedBlack.Insert.{Spot, equal_node, free_spot, find_spot}
use cdecl.RedBlack.Order.{
  IsOrder, Sorted, find_item, find_item-Before, find_item-After, After-lt, Before-gt, Before-eq,
  Sorted-Split,
}
use cdecl.RedBlack.Shape.{IsBlack, Shape, BlackAbove, ShapeAbove}

module _ {ℓ} {A : Type ℓ} where
  -- The items on the left and on the right of a way up.
  abbrev pub before : List (Parent A) → List A
  before [] = []
  before (parent left c x other ∷ up) = before up
  before (parent right c x other ∷ up) = before up ++ (items other ++ (x ∷ []))

  abbrev pub after : List (Parent A) → List A
  after [] = []
  after (parent left c x other ∷ up) = x ∷ (items other ++ after up)
  after (parent right c x other ∷ up) = after up

  pub items-rebuild :
      (t : Tree A) (up : List (Parent A))
      → items (rebuild t up) ≡ before up ++ (items t ++ after up)
  unfolding rebuild
  items-rebuild t [] = sym (append-nil (items t))
  items-rebuild t (parent left c x other ∷ up) =
      items-rebuild (node c t x other) up ∙ simp append_assoc
  items-rebuild t (parent right c x other ∷ up) =
      items-rebuild (node c other x t) up ∙ simp append_assoc

  -- The first item in order at which a visitor stops.
  unfoldable pub first_stop : (A → Bool) → List A → Option A
  first_stop visitor [] = none
  first_stop visitor (x ∷ xs) = elim (visitor x) [ true ↦ some x | false ↦ first_stop visitor xs ]

  abbrev or_else : Option A → Option A → Option A
  or_else none o = o
  or_else (some x) o = some x

  first_stop-++ :
      (f : A → Bool) (xs ys : List A)
      → first_stop f (xs ++ ys) ≡ or_else (first_stop f xs) (first_stop f ys)
  unfolding first_stop
  first_stop-++ f [] ys = refl
  first_stop-++ f (x ∷ xs) ys = ground (arith, first_stop-++ f xs ys)

  visit_lem : (f : A → Bool) (t : Tree A) → rb_node_visit f t ≡ first_stop f (items t)
  unfolding rb_node_visit first_stop
  visit_lem f nil = refl
  visit_lem f (node c l x r) =
      ground (arith, visit_lem f l, visit_lem f r, first_stop-++ f (items l) (x ∷ items r))

  -- A visit stops at the first item in order at which the visitor returns true.
  pub rb_tree_visit_lem :
      (visitor : A → Bool) (tree : Tree A)
      → rb_tree_visit visitor tree ≡ first_stop visitor (items tree)
  unfolding rb_tree_visit
  rb_tree_visit_lem visitor tree = visit_lem visitor tree

  module _ (cmp : A → A → Ordering) where
    abbrev pub spot_item : Spot A → Option A
    spot_item (equal_node x) = some x
    spot_item (free_spot up) = none

    pub find_spot-find :
        (d : A) (t : Tree A) (up : List (Parent A))
        → spot_item (find_spot cmp d t up) ≡ rb_tree_find cmp d t
    unfolding find_spot rb_tree_find
    find_spot-find d nil up = refl
    find_spot-find d (node c l x r) up = ground (
      arith,
      find_spot-find d l (parent left c x r ∷ up),
      find_spot-find d r (parent right c x l ∷ up),
    )

    -- The way up to the insertion point keeps the red-black shape.
    abbrev pub SpotShape : Spot A → Type 0
    SpotShape (equal_node x) = Unit
    SpotShape (free_spot up) = ShapeAbove 0 up

    -- A red node has a black parent, and the first node is black.
    abbrev Descending : Tree A → List (Parent A) → Type 0
    Descending t (parent s black x other ∷ up) = Unit
    Descending t _ = IsBlack t

    red_BlackAbove :
        (l : Tree A) (x : A) (r : Tree A) (up : List (Parent A))
        → Descending (node red l x r) up
        → BlackAbove up
    red_BlackAbove l x r [] h = cc
    red_BlackAbove l x r (parent s red y other ∷ up) h = cc
    red_BlackAbove l x r (parent s black y other ∷ up) h = tt

    pub find_spot-SpotShape :
        (n : ℕ) (d : A) (t : Tree A) (up : List (Parent A))
        → Shape n t
        → Descending t up
        → ShapeAbove n up
        → SpotShape (find_spot cmp d t up)
    unfolding find_spot
    find_spot-SpotShape n d nil up h k a = rw (← h) a
    find_spot-SpotShape n d (node red l x r) up h k a =
        let b = red_BlackAbove l x r up k in
        ground (
          arith,
          find_spot-SpotShape n d l (parent left red x r ∷ up) h.2 h.0 (h.1, b, h.3, a),
          find_spot-SpotShape n d r (parent right red x l ∷ up) h.3 h.1 (h.0, b, h.2, a),
        )
    find_spot-SpotShape zero d (node black l x r) up h k a = absurd h
    find_spot-SpotShape (suc n) d (node black l x r) up h k a = ground (
      arith,
      find_spot-SpotShape n d l (parent left black x r ∷ up) h.0 tt (h.1, a),
      find_spot-SpotShape n d r (parent right black x l ∷ up) h.1 tt (h.0, a),
    )

    module _ (o : IsOrder cmp) where
      -- In a search tree the search for an item is the search in the list.
      pub find_lem :
          (d : A) (t : Tree A)
          → Sorted cmp (items t)
          → rb_tree_find cmp d t ≡ find_item cmp d (items t)
      unfolding rb_tree_find find_item
      find_lem d nil s = refl
      find_lem d (node c l x r) s =
          let parts = Sorted-Split cmp o (items l) x (items r) s in
          ground (
            arith,
            find_lem d l parts.left,
            find_lem d r parts.right,
            find_item-After cmp d (items l) (x ∷ items r),
            find_item-Before cmp d (items l) (x ∷ items r),
            After-lt cmp o d x (items r),
            Before-gt cmp o d x (items l),
            Before-eq cmp o d x (items l),
            parts.before,
            parts.after,
          )
