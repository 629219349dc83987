-- ===== src/Gc/Chain.antt =====
-- The nodes of an AST as a chain of identities, and the stores that have them.
use mathlib.Core.Path.{subst}
use mathlib.Core.Option.{some-injective}
use cdecl.Prelude.{
  ℕ, ◌==◌, ==_iff, ◌||◌, Bool, none, true, false, List, [], ◌∷◌, some, if◌then◌else◌, ◌≡◌, refl,
  sym, ap, ◌∙◌, arith, Bool-cases, inl, inr,
}
use cdecl.CKind.{c_kind_is_parent}
use cdecl.Gc.{Cell, at, update, remove, mark}
use cdecl.Gc.Kept.{ids}

-- The nodes of an AST without arguments, from its root to a node that is no parent.
abbrev pub Linked : List Cell → List ℕ → Type 0
Linked cells [] = ⊥
Linked cells (x ∷ []) =
    (c : Cell) × (at x cells ≡ some c) × (c.args ≡ []) × (c_kind_is_parent c.kind ≡ false)
Linked cells (x ∷ y ∷ ys) =
    ((c : Cell) × (at x cells ≡ some c)
      × (c.args ≡ [])
      × (c_kind_is_parent c.kind ≡ true)
      × (c.of_ast ≡ some y))
    × Linked cells (y ∷ ys)

abbrev pub NotIn : ℕ → List ℕ → Type 0
NotIn x [] = Unit
NotIn x (y ∷ ys) = ((x == y) ≡ false) × NotIn x ys

abbrev pub Distinct : List ℕ → Type 0
Distinct [] = Unit
Distinct (x ∷ xs) = NotIn x xs × Distinct xs

unfoldable pub remove_all : List ℕ → List Cell → List Cell
remove_all [] cells = cells
remove_all (x ∷ xs) cells = remove_all xs (remove x cells)

pub at-remove :
    (x y : ℕ) (cells : List Cell) → (x == y) ≡ false → at y (remove x cells) ≡ at y cells
unfolding at remove
at-remove x y [] h = refl
at-remove x y (c ∷ cells) h = elim (Bool-cases (c.id == x)) [
  | inl e ↦ let other : (c.id == y) ≡ false = ground (arith, e, h) in rw (e, other) refl
  | inr e ↦ rw (e, at-remove x y cells h) refl
]

pub at_marked :
    (x : ℕ) (cells : List Cell) (c : Cell)
    → at x cells ≡ some c
    → at x (update x mark cells) ≡ some (mark c)
unfolding at update
at_marked x [] c h = cc
at_marked x (d ∷ cells) c h = elim (Bool-cases (d.id == x)) [
  | inl e ↦ rw (e, e) (ap (λ c. some (mark c)) (some-injective d c (first e)))
  | inr e ↦ rw (e, e) (at_marked x cells c (later e))
]
  where
    first : (d.id == x) ≡ true → some d ≡ some c
    first e = ap (λ b. if b then some d else at x cells) (sym e) ∙ h

    later : (d.id == x) ≡ false → at x cells ≡ some c
    later e = ap (λ b. if b then some d else at x cells) (sym e) ∙ h

pub at_unmarked :
    (x y : ℕ) (cells : List Cell) → (x == y) ≡ false → at y (update x mark cells) ≡ at y cells
unfolding at update
at_unmarked x y [] h = refl
at_unmarked x y (c ∷ cells) h = elim (Bool-cases (c.id == x)) [
  | inl e ↦ let other : (c.id == y) ≡ false = ground (arith, e, h) in rw (e, other) refl
  | inr e ↦ rw (e, at_unmarked x y cells h) refl
]

-- A chain is in every store that agrees with its own but for a node outside it.
pub Linked-agree :
    (x : ℕ) (cells changed : List Cell)
    → ((y : ℕ) → (x == y) ≡ false → at y changed ≡ at y cells)
    → (y : ℕ) (ys : List ℕ) → NotIn x (y ∷ ys)
    → Linked cells (y ∷ ys)
    → Linked changed (y ∷ ys)
Linked-agree x cells changed agree y [] h (c, here, empty, leaf) =
    (c, agree y h.0 ∙ here, empty, leaf)
Linked-agree x cells changed agree y (z ∷ zs) h ((c, here, empty, parent, child), l) =
    ((c, agree y h.0 ∙ here, empty, parent, child), Linked-agree x cells changed agree z zs h.1 l)

pub Linked-mark :
    (x : ℕ) (xs : List ℕ) (cells : List Cell)
    → NotIn x xs
    → Linked cells (x ∷ xs)
    → Linked (update x mark cells) (x ∷ xs)
Linked-mark x [] cells h (c, here, empty, leaf) = (mark c, at_marked x cells c here, empty, leaf)
Linked-mark x (y ∷ ys) cells h ((c, here, empty, parent, child), l) = (
  (mark c, at_marked x cells c here, empty, parent, child),
  Linked-agree x cells (update x mark cells) (λ z. at_unmarked x z cells) y ys h l,
)

abbrev pub is_in : ℕ → List ℕ → Bool
is_in y [] = false
is_in y (x ∷ xs) = x == y || is_in y xs

at_missing : (y : ℕ) (cells : List Cell) → NotIn y (ids cells) → at y cells ≡ none
unfolding at
at_missing y [] h = refl
at_missing y (c ∷ cells) h =
    let other : (c.id == y) ≡ false = ground (arith, h.0) in rw (other, at_missing y cells h.1) refl

-- A node that is freed is not there any more, when no two nodes have its identity.
pub at_removed : (x : ℕ) (cells : List Cell) → Distinct (ids cells) → at x (remove x cells) ≡ none
unfolding at remove
at_removed x [] d = refl
at_removed x (c ∷ cells) d = elim (Bool-cases (c.id == x)) [
  | inl e ↦ rw e (subst (λ z. at z cells ≡ none) ((==_iff c.id x).0 e) (at_missing c.id cells d.0))
  | inr e ↦ rw (e, e) (at_removed x cells d.1)
]

NotIn-remove : (y x : ℕ) (cells : List Cell) → NotIn y (ids cells) → NotIn y (ids (remove x cells))
unfolding remove
NotIn-remove y x [] h = tt
NotIn-remove y x (c ∷ cells) h = elim (Bool-cases (c.id == x)) [
  | inl e ↦ rw e h.1
  | inr e ↦ rw e (h.0, NotIn-remove y x cells h.1)
]

pub Distinct-remove :
    (x : ℕ) (cells : List Cell) → Distinct (ids cells) → Distinct (ids (remove x cells))
unfolding remove
Distinct-remove x [] d = tt
Distinct-remove x (c ∷ cells) d = elim (Bool-cases (c.id == x)) [
  | inl e ↦ rw e d.1
  | inr e ↦ rw e (NotIn-remove c.id x cells d.0, Distinct-remove x cells d.1)
]
