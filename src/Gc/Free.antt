-- ===== src/Gc/Free.antt =====
-- What c_ast_free frees of an AST that c_ast_gc_release has taken from the garbage collection.
use mathlib.Core.Path.{subst}
use cdecl.Prelude.{
  none, sym, ==_iff, ◌||◌, ◌⊎◌, ℕ, suc, zero, ◌+◌, ◌≤◌, ◌==◌, Bool, true, false, length, List, [],
  ◌∷◌, Option, some, if◌then◌else◌, ◌≡◌, refl, ap, ◌∙◌, arith, Bool-cases, inl, inr,
}
use cdecl.CKind.{c_kind_is_parent}
use cdecl.Gc.{
  Cell, Store, at, update, remove, ask, free_each, free_args, free_child, free_children, has_args,
  c_ast_free_impl, c_ast_free, mark, release_head, released, c_ast_gc_release,
}
use cdecl.Gc.Kept.{ids, ids-update}
use cdecl.Gc.Collect.{taken, free_step}
use cdecl.Gc.Chain.{
  Linked, Distinct, remove_all, at-remove, at_unmarked, Linked-agree, Linked-mark, at_marked, is_in,
  at_removed, Distinct-remove,
}

no_args :
    (free : ℕ → Bool → Store → Option Store) (c : Cell) (s : Store)
    → c.args ≡ []
    → free_args free c s ≡ some s
unfolding free_args free_each
no_args free c s h = elim (Bool-cases (has_args c.kind)) [
  | inl e ↦ rw (e, h) refl
  | inr e ↦ rw e refl
]

last_child :
    (free : ℕ → Bool → Store → Option Store) (c : Cell) (s : Store)
    → c.args ≡ []
    → c_kind_is_parent c.kind ≡ false
    → free_children free c s ≡ some s
unfolding free_children
last_child free c s h leaf =
    ap (λ o. ask o (λ s. if c_kind_is_parent c.kind then free_child free c.of_ast s else some s))
      (no_args free c s h)
    ∙ ap (λ b. if b then free_child free c.of_ast s else some s) leaf

one_child :
    (free : ℕ → Bool → Store → Option Store) (c : Cell) (y : ℕ) (s : Store)
    → c.args ≡ []
    → c_kind_is_parent c.kind ≡ true
    → c.of_ast ≡ some y
    → free_children free c s ≡ free y true s
unfolding free_children free_child
one_child free c y s h parent child =
    ap (λ o. ask o (λ s. if c_kind_is_parent c.kind then free_child free c.of_ast s else some s))
      (no_args free c s h)
    ∙ ap (λ b. if b then free_child free c.of_ast s else some s) parent
    ∙ ap (λ o. free_child free o s) child

-- The store after the nodes of a chain are freed.
abbrev gone : List ℕ → ℕ → Store → Store
gone xs n s = record s { cells = remove_all xs s.cells; c_ast_count = n }

chain_freed :
    (fuel x : ℕ) (xs : List ℕ) (s : Store) (n : ℕ)
    → Linked s.cells (x ∷ xs)
    → Distinct (x ∷ xs)
    → s.c_ast_count ≡ length (x ∷ xs) + n
    → length (x ∷ xs) ≤ fuel
    → c_ast_free_impl fuel x true s ≡ some (gone (x ∷ xs) n s)
unfolding remove_all
chain_freed zero x xs s n l d count enough = absurd (omega arith)
chain_freed (suc fuel) x [] s n l d count enough =
    free_step fuel x true s l.0 n l.1 (omega (arith, count))
    ∙ last_child (c_ast_free_impl fuel) l.0 (taken x n s) l.2 l.3
chain_freed (suc fuel) x (y ∷ ys) s n l d count enough =
    let (c, here, empty, parent, child) = l.0 in
    let left = length (y ∷ ys) + n in
    free_step fuel x true s c left here (omega (arith, count))
    ∙ one_child (c_ast_free_impl fuel) c y (taken x left s) empty parent child
    ∙ chain_freed fuel y ys (taken x left s) n
        (Linked-agree x s.cells (remove x s.cells) (λ z. at-remove x z s.cells) y ys d.0 l.1) d.1
        refl (omega arith)

root_of :
    (x : ℕ) (xs : List ℕ) (cells : List Cell)
    → Linked cells (x ∷ xs)
    → (c : Cell) × (at x cells ≡ some c)
root_of x [] cells l = (l.0, l.1)
root_of x (y ∷ ys) cells l = (l.0.0, l.0.1)

none_twice : (b : Bool) (o : Option Cell) → o ≡ none → (if b then none else o) ≡ none
none_twice true o h = refl
none_twice false o h = h

at-remove_all :
    (xs : List ℕ) (y : ℕ) (cells : List Cell)
    → Distinct (ids cells)
    → at y (remove_all xs cells) ≡ (if is_in y xs then none else at y cells)
unfolding remove_all
at-remove_all [] y cells d = refl
at-remove_all (x ∷ xs) y cells d = elim (Bool-cases (x == y)) [
  | inl e ↦
      let same = (==_iff x y).0 e in
      rw e (
        at-remove_all xs y (remove x cells) (Distinct-remove x cells d)
        ∙ none_twice (is_in y xs) (at y (remove x cells))
            (subst (λ z. at z (remove x cells) ≡ none) same (at_removed x cells d)))
  | inr e ↦ rw e (
      at-remove_all xs y (remove x cells) (Distinct-remove x cells d)
      ∙ ap (λ o. if is_in y xs then none else o) (at-remove x y cells e))
]

-- Marking changes which nodes are there for no identity but that of the node.
Distinct-mark :
    (x : ℕ) (cells : List Cell) → Distinct (ids cells) → Distinct (ids (update x mark cells))
Distinct-mark x cells d = subst Distinct (sym (ids-update x mark (λ c. refl) cells)) d

-- In a store whose nodes have different identities: after c_ast_gc_release, c_ast_free of the node
-- that was allocated last frees the whole AST below it, if the AST has no arguments and its nodes
-- are distinct and counted: none of them is allocated any more, each other node is as it was, the
-- count is that of the other nodes, and there is nothing to collect.
pub c_ast_free-c_ast_gc_release :
    (s : Store) (x : ℕ) (rest xs : List ℕ) (n : ℕ)
    → Distinct (ids s.cells)
    → s.c_ast_gc_head ≡ x ∷ rest
    → Linked s.cells (x ∷ xs)
    → Distinct (x ∷ xs)
    → s.c_ast_count ≡ length (x ∷ xs) + n
    → (y : ℕ)
    → (t : Store) × (ask (c_ast_gc_release s) (c_ast_free x) ≡ some t)
      × (t.c_ast_count ≡ n)
      × (t.c_ast_gc_head ≡ [])
      × (at y t.cells ≡ (if is_in y (x ∷ xs) then none else at y s.cells))
unfolding c_ast_gc_release c_ast_free
c_ast_free-c_ast_gc_release s x rest xs n apart head l d count y =
    let (c, here) = root_of x xs s.cells l in
    let u = release_head x s in
    (
      gone (x ∷ xs) n u,
      ap (λ gc. ask (released s gc) (c_ast_free x)) head
          ∙ ap (λ o. ask (ask o (λ _. some u)) (c_ast_free x)) here
          ∙ ap (λ o. ask o (λ c. c_ast_free_impl u.c_ast_count x c.free_recursive u))
              (at_marked x s.cells c here)
          ∙ chain_freed u.c_ast_count x xs u n (Linked-mark x xs s.cells d.0 l) d count
              (omega (arith, count)),
      refl,
      refl,
      at-remove_all (x ∷ xs) y u.cells (Distinct-mark x s.cells apart)
          ∙ others (Bool-cases (x == y)),
    )
  where
    others :
        (((x == y) ≡ true) ⊎ ((x == y) ≡ false))
        → (if is_in y (x ∷ xs) then none else at y (update x mark s.cells))
          ≡ (if is_in y (x ∷ xs) then none else at y s.cells)
    others (inl e) = rw e refl
    others (inr e) = ap (λ o. if is_in y (x ∷ xs) then none else o) (at_unmarked x y s.cells e)

-- In a store whose nodes have different identities, with a list whose first node is allocated:
-- after c_ast_gc_release, c_ast_free of any other allocated node, that was not released before,
-- frees this node only, whatever is below it: it is not allocated any more, each other node is as it
-- was, but for the mark of the list's first, and the count, not zero before, goes down by one.
pub c_ast_free_other :
    (s : Store) (head x : ℕ) (rest : List ℕ) (c d : Cell) (n : ℕ)
    → Distinct (ids s.cells)
    → s.c_ast_gc_head ≡ head ∷ rest
    → (head == x) ≡ false
    → at x s.cells ≡ some c
    → at head s.cells ≡ some d
    → c.free_recursive ≡ false
    → s.c_ast_count ≡ suc n
    → (y : ℕ)
    → (t : Store) × (ask (c_ast_gc_release s) (c_ast_free x) ≡ some t)
      × (t.c_ast_count ≡ n)
      × (at y t.cells
          ≡ (if x == y then none else if head == y then some (mark d) else at y s.cells))
unfolding c_ast_gc_release c_ast_free remove_all
c_ast_free_other s head x rest c d n apart first other here there plain count y =
    let u = release_head head s in
    (
      taken x n u,
      ap (λ gc. ask (released s gc) (c_ast_free x)) first
          ∙ ap (λ o. ask (ask o (λ _. some u)) (c_ast_free x)) there
          ∙ ap (λ o. ask o (λ c. c_ast_free_impl u.c_ast_count x c.free_recursive u))
              (at_unmarked head x s.cells other ∙ here)
          ∙ ap (λ k. c_ast_free_impl k x c.free_recursive u) count
          ∙ free_step n x c.free_recursive u c n (at_unmarked head x s.cells other ∙ here) count
          ∙ ap
              (λ b.
                if b then free_children (c_ast_free_impl n) c (taken x n u) else some (taken x n u))
              plain,
      refl,
      at-remove_all (x ∷ []) y u.cells (Distinct-mark head s.cells apart)
          ∙ single (x == y)
          ∙ ap (λ o. if x == y then none else o) head_marked,
    )
  where
    single :
        (b : Bool)
        → (if b || false then none else at y (update head mark s.cells))
          ≡ (if b then none else at y (update head mark s.cells))
    single true = refl
    single false = refl

    head_marked :
        at y (update head mark s.cells) ≡ (if head == y then some (mark d) else at y s.cells)
    head_marked = elim (Bool-cases (head == y)) [
      | inl e ↦ rw e (
          subst (λ z. at z (update head mark s.cells) ≡ some (mark d)) ((==_iff head y).0 e)
            (at_marked head s.cells d there))
      | inr e ↦ rw e (at_unmarked head y s.cells e)
    ]
