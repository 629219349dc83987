-- ===== src/RedBlack/Order.antt =====
-- Lists in the order of a comparison: what a red-black tree stands for, whatever its shape.
use Prim.Native.Nat.{Ordering}
use Prim.Native.Nat.Ordering.{lt, eq, gt}
use cdecl.Prelude.{◌≢◌, List, [], ◌∷◌, ◌++◌, Option, none, some, ◌≡◌, refl, ◌∙◌, arith}

abbrev pub opposite : Ordering → Ordering
opposite lt = gt
opposite eq = eq
opposite gt = lt

-- What is asked of the comparison that a tree is made with.
pub record IsOrder {ℓ} {A : Type ℓ} (cmp : A → A → Ordering) : Type ℓ where
  pub flip : (a b : A) → cmp b a ≡ opposite (cmp a b)
  pub lt_trans : (a b c : A) → cmp a b ≡ lt → cmp b c ≡ lt → cmp a c ≡ lt
  pub eq_left : (a b c : A) → cmp a b ≡ eq → cmp a c ≡ cmp b c

module _ {ℓ} {A : Type ℓ} (cmp : A → A → Ordering) where
  -- Every item is less, or every item is greater.
  abbrev pub Before : A → List A → Type 0
  Before d [] = Unit
  Before d (x ∷ xs) = (cmp d x ≡ gt) × Before d xs

  abbrev pub After : A → List A → Type 0
  After d [] = Unit
  After d (x ∷ xs) = (cmp d x ≡ lt) × After d xs

  abbrev pub Sorted : List A → Type 0
  Sorted [] = Unit
  Sorted (x ∷ xs) = After x xs × Sorted xs

  -- Search and insertion, with no tree.
  unfoldable pub find_item : A → List A → Option A
  find_item d [] = none
  find_item d (x ∷ xs) = elim (cmp d x) [ eq ↦ some x | lt ↦ find_item d xs | gt ↦ find_item d xs ]

  unfoldable pub insert_item : A → List A → List A
  insert_item d [] = d ∷ []
  insert_item d (x ∷ xs) = elim (cmp d x) [
    | lt ↦ d ∷ x ∷ xs
    | eq ↦ x ∷ insert_item d xs
    | gt ↦ x ∷ insert_item d xs
  ]

  pub Before-++ : (d : A) (xs ys : List A) → Before d xs → Before d ys → Before d (xs ++ ys)
  Before-++ d [] ys h k = k
  Before-++ d (x ∷ xs) ys h k = (h.0, Before-++ d xs ys h.1 k)

  pub After-++ : (d : A) (xs ys : List A) → After d xs → After d ys → After d (xs ++ ys)
  After-++ d [] ys h k = k
  After-++ d (x ∷ xs) ys h k = (h.0, After-++ d xs ys h.1 k)

  pub find_item-Before :
      (d : A) (xs ys : List A) → Before d xs → find_item d (xs ++ ys) ≡ find_item d ys
  unfolding find_item
  find_item-Before d [] ys h = refl
  find_item-Before d (x ∷ xs) ys h = rw h.0 (find_item-Before d xs ys h.1)

  pub find_item-After :
      (d : A) (xs ys : List A) → After d ys → find_item d (xs ++ ys) ≡ find_item d xs
  unfolding find_item
  find_item-After d [] [] h = refl
  find_item-After d [] (y ∷ ys) h = rw h.0 (find_item-After d [] ys h.1)
  find_item-After d (x ∷ xs) ys h = ground (arith, find_item-After d xs ys h)

  pub insert_item-between :
      (d : A) (xs ys : List A)
      → Before d xs
      → After d ys
      → insert_item d (xs ++ ys) ≡ xs ++ (d ∷ ys)
  unfolding insert_item
  insert_item-between d [] [] h k = refl
  insert_item-between d [] (y ∷ ys) h k = rw k.0 refl
  insert_item-between d (x ∷ xs) ys h k = rw (h.0, insert_item-between d xs ys h.1 k) refl

  module _ (o : IsOrder cmp) where
    greater_turned : (a b : A) → cmp a b ≡ gt → cmp b a ≡ lt
    greater_turned a b h = ground (arith, o.flip a b)

    less_turned : (a b : A) → cmp a b ≡ lt → cmp b a ≡ gt
    less_turned a b h = ground (arith, o.flip a b)

    pub After-lt : (d x : A) (ys : List A) → cmp d x ≡ lt → After x ys → After d ys
    After-lt d x [] h k = tt
    After-lt d x (y ∷ ys) h k = (o.lt_trans d x y h k.0, After-lt d x ys h k.1)

    pub After-eq : (d x : A) (ys : List A) → cmp d x ≡ eq → After x ys → After d ys
    After-eq d x [] h k = tt
    After-eq d x (y ∷ ys) h k = (o.eq_left d x y h ∙ k.0, After-eq d x ys h k.1)

    pub Before-gt : (d x : A) (ys : List A) → cmp d x ≡ gt → Before x ys → Before d ys
    Before-gt d x [] h k = tt
    Before-gt d x (y ∷ ys) h k = (
      less_turned y d (o.lt_trans y x d (greater_turned x y k.0) (greater_turned d x h)),
      Before-gt d x ys h k.1,
    )

    pub Before-eq : (d x : A) (ys : List A) → cmp d x ≡ eq → Before x ys → Before d ys
    Before-eq d x [] h k = tt
    Before-eq d x (y ∷ ys) h k = (o.eq_left d x y h ∙ k.0, Before-eq d x ys h k.1)

    -- A sorted list with an item in the middle.
    pub record Split (xs : List A) (x : A) (ys : List A) : Type 0 where
      pub left : Sorted xs
      pub before : Before x xs
      pub after : After x ys
      pub right : Sorted ys

    After-middle :
        (d : A) (xs : List A) (x : A) (ys : List A)
        → After d (xs ++ (x ∷ ys))
        → (cmp d x ≡ lt) × After d xs
    After-middle d [] x ys h = (h.0, tt)
    After-middle d (z ∷ xs) x ys h =
        let rest = After-middle d xs x ys h.1 in (rest.0, (h.0, rest.1))

    pub Sorted-Split : (xs : List A) (x : A) (ys : List A) → Sorted (xs ++ (x ∷ ys)) → Split xs x ys
    Sorted-Split [] x ys h = record { left = tt; before = tt; after = h.0; right = h.1 }
    Sorted-Split (z ∷ xs) x ys h =
        let rest = Sorted-Split xs x ys h.1 in
        let first = After-middle z xs x ys h.0 in
        record {
          left = (first.1, rest.left);
          before = (less_turned z x first.0, rest.before);
          after = rest.after;
          right = rest.right;
        }

    After-insert_item :
        (d a : A) (xs : List A) → cmp a d ≡ lt → After a xs → After a (insert_item d xs)
    unfolding insert_item
    After-insert_item d a [] h k = (h, tt)
    After-insert_item d a (x ∷ xs) h k = ground (arith, After-insert_item d a xs h)

    -- Insertion where nothing is equal keeps the order.
    pub insert_item-Sorted :
        (d : A) (xs : List A) → Sorted xs → find_item d xs ≡ none → Sorted (insert_item d xs)
    unfolding insert_item find_item
    insert_item-Sorted d [] h k = (tt, tt)
    insert_item-Sorted d (x ∷ xs) h k = ground (
      arith,
      insert_item-Sorted d xs h.1,
      After-insert_item d x xs,
      After-lt d x xs,
      greater_turned d x,
    )

    cmp_self : (d : A) → cmp d d ≡ eq
    cmp_self d = ground (arith, o.flip d d)

    -- What was inserted is found, and nothing else changes.
    pub find_item-insert_item :
        (d : A) (xs : List A) → find_item d xs ≡ none → find_item d (insert_item d xs) ≡ some d
    unfolding insert_item find_item
    find_item-insert_item d [] h = rw (cmp_self d) refl
    find_item-insert_item d (x ∷ xs) h = ground (arith, find_item-insert_item d xs, cmp_self d)

    pub find_other :
        (e d : A) (xs : List A) → cmp e d ≢ eq → find_item e (insert_item d xs) ≡ find_item e xs
    unfolding insert_item find_item
    find_other e d [] h = ground arith
    find_other e d (x ∷ xs) h = ground (arith, find_other e d xs h)
