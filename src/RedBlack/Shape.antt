-- ===== src/RedBlack/Shape.antt =====
-- The red-black shape of a tree and of a way up, and that a round of the repair keeps both.
use cdecl.Prelude.{
  ℕ, zero, suc, ◌<◌, true, false, List, [], ◌∷◌, ◌++◌, some, length, ◌≡◌, refl, ◌∙◌, ap, arith,
  Bool-cases, inl, inr,
}
use mathlib.Core.List.{append_assoc}
use cdecl.RedBlack.{
  red, black, Tree, nil, node, color_of, Side, left, right, Parent, parent, Place, at, rebuild,
  items,
}
use cdecl.RedBlack.Insert.{parent_is_red, repair_round, repair}

module _ {ℓ} {A : Type ℓ} where
  abbrev pub IsBlack : Tree A → Type 0
  IsBlack t = color_of t ≡ black

  -- No red node has a red child, and every way down has `n` black nodes.
  abbrev pub Shape : ℕ → Tree A → Type 0
  Shape n nil = n ≡ 0
  Shape n (node red l x r) = IsBlack l × IsBlack r × Shape n l × Shape n r
  Shape zero (node black l x r) = ⊥
  Shape (suc n) (node black l x r) = Shape n l × Shape n r

  -- A black node is next on the way up.
  abbrev pub BlackAbove : List (Parent A) → Type 0
  BlackAbove (parent s black x other ∷ up) = Unit
  BlackAbove _ = ⊥

  -- The same of a way up, from a place for a tree of that height. The first node is black.
  abbrev pub ShapeAbove : ℕ → List (Parent A) → Type 0
  ShapeAbove n [] = Unit
  ShapeAbove n (parent s red x other ∷ up) =
      IsBlack other × BlackAbove up × Shape n other × ShapeAbove n up
  ShapeAbove n (parent s black x other ∷ up) = Shape n other × ShapeAbove (suc n) up

  -- A red node of the shape, under a parent of any color.
  abbrev pub RedNode : ℕ → Tree A → Type 0
  RedNode n (node red l x r) = IsBlack l × IsBlack r × Shape n l × Shape n r
  RedNode n _ = ⊥

  -- What holds at the head of the loop.
  abbrev pub Repairing : Place A → Type 0
  Repairing (at t up) = (n : ℕ) × RedNode n t × ShapeAbove n up

  abbrev pub whole_items : Place A → List A
  whole_items (at t up) = items (rebuild t up)

  abbrev pub height_above : Place A → ℕ
  height_above (at t up) = length up

  rebuilt_alike :
      (t t' : Tree A) (up : List (Parent A))
      → items t ≡ items t'
      → items (rebuild t up) ≡ items (rebuild t' up)
  unfolding rebuild
  rebuilt_alike t t' [] e = e
  rebuilt_alike t t' (parent left c x other ∷ up) e =
      rebuilt_alike (node c t x other) (node c t' x other) up (ap (λ xs. xs ++ (x ∷ items other)) e)
  rebuilt_alike t t' (parent right c x other ∷ up) e =
      rebuilt_alike (node c other x t) (node c other x t') up (ap (λ xs. items other ++ (x ∷ xs)) e)

  -- A round: it goes on at a place nearer to the root, and neither the shape nor the order changes.
  abbrev Round : Place A → Type ℓ
  Round p =
      (q : Place A) × (repair_round p ≡ some q)
      × Repairing q
      × (height_above q < height_above p)
      × (whole_items q ≡ whole_items p)

  -- The uncle is red.
  red_uncle :
      (n : ℕ) (l r po ul ur : Tree A) (x px gx ux : A) (s s' : Side) (up : List (Parent A))
      → RedNode n (node red l x r)
      → ShapeAbove n (parent s red px po ∷ parent s' black gx (node red ul ux ur) ∷ up)
      → Round
          (at (node red l x r) (parent s red px po ∷ parent s' black gx (node red ul ux ur) ∷ up))
  unfolding repair_round rebuild
  red_uncle n l r po ul ur x px gx ux left left up t a = (
    at (node red (node black (node red l x r) px po) gx (node black ul ux ur)) up,
    refl,
    (suc n, (refl, refl, (t, a.2), (a.3.0.2, a.3.0.3)), a.3.1),
    omega arith,
    rebuilt_alike (node red (node black (node red l x r) px po) gx (node black ul ux ur))
        (node black (node red (node red l x r) px po) gx (node red ul ux ur)) up refl,
  )
  red_uncle n l r po ul ur x px gx ux left right up t a = (
    at (node red (node black ul ux ur) gx (node black (node red l x r) px po)) up,
    refl,
    (suc n, (refl, refl, (a.3.0.2, a.3.0.3), (t, a.2)), a.3.1),
    omega arith,
    rebuilt_alike (node red (node black ul ux ur) gx (node black (node red l x r) px po))
        (node black (node red ul ux ur) gx (node red (node red l x r) px po)) up refl,
  )
  red_uncle n l r po ul ur x px gx ux right left up t a = (
    at (node red (node black po px (node red l x r)) gx (node black ul ux ur)) up,
    refl,
    (suc n, (refl, refl, (a.2, t), (a.3.0.2, a.3.0.3)), a.3.1),
    omega arith,
    rebuilt_alike (node red (node black po px (node red l x r)) gx (node black ul ux ur))
        (node black (node red po px (node red l x r)) gx (node red ul ux ur)) up refl,
  )
  red_uncle n l r po ul ur x px gx ux right right up t a = (
    at (node red (node black ul ux ur) gx (node black po px (node red l x r))) up,
    refl,
    (suc n, (refl, refl, (a.3.0.2, a.3.0.3), (a.2, t)), a.3.1),
    omega arith,
    rebuilt_alike (node red (node black ul ux ur) gx (node black po px (node red l x r)))
        (node black (node red ul ux ur) gx (node red po px (node red l x r))) up refl,
  )

  -- The uncle is black. The node ends under its black parent, whose other child is the old
  -- grandparent.
  black_uncle :
      (n : ℕ) (l r po u : Tree A) (x px gx : A) (s s' : Side) (up : List (Parent A))
      → IsBlack u
      → RedNode n (node red l x r)
      → ShapeAbove n (parent s red px po ∷ parent s' black gx u ∷ up)
      → Round (at (node red l x r) (parent s red px po ∷ parent s' black gx u ∷ up))
  unfolding repair_round rebuild
  black_uncle n l r po nil x px gx left left up b t a = (
    at (node red l x r) (parent left black px (node red po gx nil) ∷ up),
    refl,
    (n, t, ((a.0, b, a.2, a.3.0), a.3.1)),
    omega arith,
    rebuilt_alike (node black (node red l x r) px (node red po gx nil))
        (node black (node red (node red l x r) px po) gx nil) up (simp append_assoc),
  )
  black_uncle n l r po (node black ul ux ur) x px gx left left up b t a = (
    at (node red l x r) (parent left black px (node red po gx (node black ul ux ur)) ∷ up),
    refl,
    (n, t, ((a.0, b, a.2, a.3.0), a.3.1)),
    omega arith,
    rebuilt_alike (node black (node red l x r) px (node red po gx (node black ul ux ur)))
        (node black (node red (node red l x r) px po) gx (node black ul ux ur)) up
        (simp append_assoc),
  )
  black_uncle n l r po nil x px gx right left up b t a = (
    at (node red po px l) (parent left black x (node red r gx nil) ∷ up),
    refl,
    (n, (a.0, t.0, a.2, t.2), ((t.1, b, t.3, a.3.0), a.3.1)),
    omega arith,
    rebuilt_alike (node black (node red po px l) x (node red r gx nil))
        (node black (node red po px (node red l x r)) gx nil) up (simp append_assoc),
  )
  black_uncle n l r po (node black ul ux ur) x px gx right left up b t a = (
    at (node red po px l) (parent left black x (node red r gx (node black ul ux ur)) ∷ up),
    refl,
    (n, (a.0, t.0, a.2, t.2), ((t.1, b, t.3, a.3.0), a.3.1)),
    omega arith,
    rebuilt_alike (node black (node red po px l) x (node red r gx (node black ul ux ur)))
        (node black (node red po px (node red l x r)) gx (node black ul ux ur)) up
        (simp append_assoc),
  )
  black_uncle n l r po nil x px gx right right up b t a = (
    at (node red l x r) (parent right black px (node red nil gx po) ∷ up),
    refl,
    (n, t, ((b, a.0, a.3.0, a.2), a.3.1)),
    omega arith,
    rebuilt_alike (node black (node red nil gx po) px (node red l x r))
        (node black nil gx (node red po px (node red l x r))) up (simp append_assoc),
  )
  black_uncle n l r po (node black ul ux ur) x px gx right right up b t a = (
    at (node red l x r) (parent right black px (node red (node black ul ux ur) gx po) ∷ up),
    refl,
    (n, t, ((b, a.0, a.3.0, a.2), a.3.1)),
    omega arith,
    rebuilt_alike (node black (node red (node black ul ux ur) gx po) px (node red l x r))
        (node black (node black ul ux ur) gx (node red po px (node red l x r))) up
        (simp append_assoc),
  )
  black_uncle n l r po nil x px gx left right up b t a = (
    at (node red r px po) (parent right black x (node red nil gx l) ∷ up),
    refl,
    (n, (t.1, a.0, t.3, a.2), ((b, t.0, a.3.0, t.2), a.3.1)),
    omega arith,
    rebuilt_alike (node black (node red nil gx l) x (node red r px po))
        (node black nil gx (node red (node red l x r) px po)) up (simp append_assoc),
  )
  black_uncle n l r po (node black ul ux ur) x px gx left right up b t a = (
    at (node red r px po) (parent right black x (node red (node black ul ux ur) gx l) ∷ up),
    refl,
    (n, (t.1, a.0, t.3, a.2), ((b, t.0, a.3.0, t.2), a.3.1)),
    omega arith,
    rebuilt_alike (node black (node red (node black ul ux ur) gx l) x (node red r px po))
        (node black (node black ul ux ur) gx (node red (node red l x r) px po)) up
        (simp append_assoc),
  )
  black_uncle n l r po (node red ul ux ur) x px gx s s' up b t a = cc

  round_lem : (p : Place A) → Repairing p → parent_is_red p ≡ true → Round p
  round_lem (at t []) h e = cc
  round_lem (at t (parent s black x o ∷ up)) h e = cc
  round_lem (at t (parent s red x o ∷ [])) h e = absurd h.2.1
  round_lem (at t (parent s red x o ∷ parent s' red x' u ∷ up)) h e = absurd h.2.1
  round_lem (at nil (parent s red x o ∷ parent s' black x' u ∷ up)) h e = absurd h.1
  round_lem (at (node black l y r) (parent s red x o ∷ parent s' black x' u ∷ up)) h e = absurd h.1
  round_lem (at (node red l y r) (parent s red x o ∷ parent s' black x' nil ∷ up)) h e =
      black_uncle h.0 l r o nil y x x' s s' up refl h.1 h.2
  round_lem (at (node red l y r) (parent s red x o ∷ parent s' black x' (node black ul ux ur) ∷ up))
        h e =
      black_uncle h.0 l r o (node black ul ux ur) y x x' s s' up refl h.1 h.2
  round_lem (at (node red l y r) (parent s red x o ∷ parent s' black x' (node red ul ux ur) ∷ up)) h
        e =
      red_uncle h.0 l r o ul ur y x x' ux s s' up h.1 h.2

  repair_again :
      (rounds : ℕ) (p q q' : Place A)
      → parent_is_red p ≡ true
      → repair_round p ≡ some q
      → repair rounds q ≡ some q'
      → repair (suc rounds) p ≡ some q'
  unfolding repair
  repair_again rounds p q q' e h k = ground arith

  repair_stops :
      (rounds : ℕ) (p : Place A) → parent_is_red p ≡ false → repair (suc rounds) p ≡ some p
  unfolding repair
  repair_stops rounds p e = ground arith

  -- The loop ends, with one round for each node above at most, and keeps the shape and the order.
  pub repair_ends :
      (rounds : ℕ) (p : Place A)
      → Repairing p
      → height_above p < rounds
      → (q : Place A) × (repair rounds p ≡ some q)
        × Repairing q
        × (parent_is_red q ≡ false)
        × (whole_items q ≡ whole_items p)
  repair_ends zero p h lt = absurd (omega arith)
  repair_ends (suc rounds) p h lt = elim (Bool-cases (parent_is_red p)) [
    | inl e ↦
        let (q, passed, keeps, nearer, order) = round_lem p h e in
        let (q', ends, keeps', top, order') = repair_ends rounds q keeps (omega arith) in
        (q', repair_again rounds p q q' e passed ends, keeps', top, order' ∙ order)
    | inr e ↦ (p, repair_stops rounds p e, h, e, refl)
  ]
