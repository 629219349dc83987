-- ===== src/RedBlack/Tests.antt =====
-- Runs of the red-black tree on numbers.
use Prim.Native.Nat.{compare}
use cdecl.Prelude.{
  ℕ, false, List, [], ◌∷◌, Option, none, some, ◌≡◌, refl, arith, ◌≤◌, ◌^◌, ◌*◌, suc, length, leb,
}
use cdecl.RedBlack.{
  Parent, Place, Tree, nil, node, red, black, items, rb_tree_find, rb_tree_visit, at, parent, left,
  rb_tree_new, rb_tree_free,
}
use cdecl.RedBlack.Insert.{rb_tree_insert, repair, parent_is_red}
use cdecl.RedBlack.Order.{IsOrder, Sorted, find_item}
use cdecl.RedBlack.Shape.{Repairing, repair_ends, whole_items}
use cdecl.RedBlack.Search.{find_lem}
use cdecl.RedBlack.Laws.{IsRedBlack, rb_tree_insert_lem, items_after}
use cdecl.RedBlack.Height.{find_rounds, rb_tree_find-rounds}

compare-IsOrder : IsOrder compare
compare-IsOrder = record {
  flip = λ a b. ground arith;
  lt_trans = λ a b c h k. ground arith;
  eq_left = λ a b c h. ground arith;
}

abbrev insert_all : List ℕ → Tree ℕ → Option (Tree ℕ)
insert_all [] t = some t
insert_all (x ∷ xs) t = elim (rb_tree_insert compare x t) [
  | none ↦ none
  | some (found, t') ↦ insert_all xs t'
]

-- Ascending items: the tree stays balanced.
six :
    insert_all (1 ∷ 2 ∷ 3 ∷ 4 ∷ 5 ∷ 6 ∷ []) rb_tree_new
    ≡ some (
        node black
          (node black nil 1 nil)
          2
          (node red (node black nil 3 nil) 4 (node black nil 5 (node red nil 6 nil))))
unfolding rb_tree_insert
six = refl

freed :
    rb_tree_free {A = ℕ} (node black (node red nil 1 nil) 2 (node red nil 3 nil)) ≡ 1 ∷ 3 ∷ 2 ∷ []
unfolding rb_tree_free
freed = refl

abbrev three : Tree ℕ
three = node black (node red nil 2 nil) 4 (node red nil 6 nil)

three-IsRedBlack : IsRedBlack three
three-IsRedBlack = (refl, (1, ((refl, refl, refl, refl), (refl, refl, refl, refl))))

three-Sorted : Sorted compare (items three)
three-Sorted = ((refl, (refl, tt)), ((refl, tt), (tt, tt)))

-- 5 goes between 4 and 6.
rb_tree_insert_lem_example :
    (t' : Tree ℕ) × (rb_tree_insert compare 5 three ≡ some (find_item compare 5 (items three), t'))
    × IsRedBlack t'
    × Sorted compare (items t')
    × (items t' ≡ items_after compare 5 (items three) (find_item compare 5 (items three)))
rb_tree_insert_lem_example =
    rb_tree_insert_lem compare compare-IsOrder 5 three three-IsRedBlack three-Sorted

find_lem_example : rb_tree_find compare 6 three ≡ find_item compare 6 (items three)
find_lem_example = find_lem compare compare-IsOrder 6 three three-Sorted

rb_tree_find-rounds_example :
    2 ^ find_rounds compare 6 three ≤ suc (length (items three)) * suc (length (items three))
rb_tree_find-rounds_example = rb_tree_find-rounds compare 6 three three-IsRedBlack

-- A red node under a red parent.
abbrev red_chain : List (Parent ℕ)
red_chain = parent left red 2 nil ∷ parent left black 3 nil ∷ []

repair_ends_example :
    (q : Place ℕ) × (repair 3 (at (node red nil 1 nil) red_chain) ≡ some q)
    × Repairing q
    × (parent_is_red q ≡ false)
    × (whole_items q ≡ whole_items (at (node red nil 1 nil) red_chain))
repair_ends_example =
    repair_ends 3 (at (node red nil 1 nil) red_chain)
      (0, (refl, refl, refl, refl), (refl, tt, refl, (refl, tt))) (omega arith)

-- The first item in order that is at least 4.
visited : rb_tree_visit (leb 4) three ≡ some 4
unfolding rb_tree_visit
visited = refl
