-- ===== src/RedBlack/Height.antt =====
-- How high a red-black tree is, for the number of its items.
use Prim.Native.Nat.{Ordering}
use Prim.Native.Nat.Ordering.{lt, eq, gt}
use native.Mathlib.Nat.{pow-suc, pow-le-pow_right, mul-le-mul, le_trans}
use cdecl.Prelude.{ℕ, zero, suc, List, [], ◌∷◌, ◌++◌, ◌+◌, ◌*◌, ◌^◌, ◌≤◌, ◌≡◌, refl, arith, length}
use cdecl.RedBlack.{red, black, Tree, nil, node, items}
use cdecl.RedBlack.Shape.{IsBlack, Shape}
use cdecl.RedBlack.Laws.{IsRedBlack}

four_times : (a : ℕ) → a * a * 2 * 2 ≡ a * 2 * (a * 2)
four_times a = grind arith

pow_double : (n : ℕ) → 2 ^ (n + n) ≡ 2 ^ n * 2 ^ n
pow_double zero = refl
pow_double (suc n) =
    let e : suc n + suc n ≡ suc (suc (n + n)) = omega arith in
    rw (e, pow-suc 2 (suc (n + n)), pow-suc 2 (n + n), pow_double n, pow-suc 2 n)
      (four_times (2 ^ n))

module _ {ℓ} {A : Type ℓ} where
  -- The comparisons that rb_tree_find makes: the rounds of its loop.
  unfoldable pub find_rounds : (A → A → Ordering) → A → Tree A → ℕ
  find_rounds cmp item nil = 0
  find_rounds cmp item (node c l x r) = elim (cmp item x) [
    | eq ↦ 1
    | lt ↦ suc (find_rounds cmp item l)
    | gt ↦ suc (find_rounds cmp item r)
  ]

  -- One more where the first node is red.
  abbrev red_one : Tree A → ℕ
  red_one (node red l x r) = 1
  red_one _ = 0

  red_one-IsBlack : (t : Tree A) → IsBlack t → red_one t ≡ 0
  red_one-IsBlack nil h = refl
  red_one-IsBlack (node black l x r) h = refl
  red_one-IsBlack (node red l x r) h = cc

  red_one_bound : (t : Tree A) → red_one t ≤ 1
  red_one_bound nil = omega arith
  red_one_bound (node black l x r) = omega arith
  red_one_bound (node red l x r) = omega arith

  -- No two red nodes in a row: at most one round in two is at a red node.
  find_rounds_bound :
      (cmp : A → A → Ordering) (d : A) (n : ℕ) (t : Tree A)
      → Shape n t
      → find_rounds cmp d t ≤ n + n + red_one t
  unfolding find_rounds
  find_rounds_bound cmp d n nil h = omega arith
  find_rounds_bound cmp d n (node red l x r) h = ground (
    arith,
    find_rounds_bound cmp d n l h.2,
    find_rounds_bound cmp d n r h.3,
    red_one-IsBlack l h.0,
    red_one-IsBlack r h.1,
  )
  find_rounds_bound cmp d zero (node black l x r) h = absurd h
  find_rounds_bound cmp d (suc n) (node black l x r) h = ground (
    arith,
    find_rounds_bound cmp d n l h.0,
    find_rounds_bound cmp d n r h.1,
    red_one_bound l,
    red_one_bound r,
  )

  length-middle :
      (xs : List A) (x : A) (ys : List A) → length (xs ++ (x ∷ ys)) ≡ suc (length xs + length ys)
  length-middle [] x ys = omega arith
  length-middle (z ∷ xs) x ys = rw (length-middle xs x ys) (omega arith)

  -- All ways down have the black height.
  items_bound : (n : ℕ) (t : Tree A) → Shape n t → 2 ^ n ≤ suc (length (items t))
  items_bound n nil h = rw h (omega arith)
  items_bound n (node red l x r) h =
      ground (arith, items_bound n l h.2, length-middle (items l) x (items r))
  items_bound zero (node black l x r) h = absurd h
  items_bound (suc n) (node black l x r) h =
      ground (arith, items_bound n l h.0, items_bound n r h.1, length-middle (items l) x (items r))

  -- In a red-black tree a search makes at most 2 lg (n + 1) comparisons for n items.
  pub rb_tree_find-rounds :
      (cmp : A → A → Ordering) (item : A) (t : Tree A)
      → IsRedBlack t
      → 2 ^ find_rounds cmp item t ≤ suc (length (items t)) * suc (length (items t))
  rb_tree_find-rounds cmp item t h =
      let n = h.1.0 in
      let few = find_rounds_bound cmp item n t h.1.1 in
      let no_red = red_one-IsBlack t h.0 in
      let many = items_bound n t h.1.1 in
      le_trans (pow-le-pow_right (omega arith) {j = n + n} (omega arith))
        (rw (pow_double n) (mul-le-mul many many))
