-- ===== src/Build/Array.antt =====
-- Where c_ast_add_array puts an array.
pub mod Storage
use mathlib.Core.Path.{subst}
use cdecl.Prelude.{
  ltb, ◌≤◌, ◌<◌, Bool, true, false, ◌&&◌, [], ◌∷◌, ◌++◌, Option, some, if◌then◌else◌, ◌≡◌, refl,
  ◌≢◌, sym, ap, ◌∙◌, arith, Bool-cases, inl, inr, ◌⊎◌,
}
use cdecl.CKind.{CKind, c_kind_is_parent}
use cdecl.Build.{
  Part, Chain, is_array, is_pointer, array_over, goes_through, under, c_ast_append_array, between,
  beside, c_ast_add_array_impl, c_ast_add_array,
}
use cdecl.Build.Cases.{
  no_array, deeper, array_kind, no_array_kind, pointer_kind, no_pointer_kind, append_through,
  append_here, stays_above, impl_array, impl_under, impl_beside,
}

-- A chain that ends as it should: in a node that is no parent, and no deeper than the array.
abbrev pub IsComplete : Part → Chain → Type 0
IsComplete array [] = ⊥
IsComplete array (a ∷ []) = (c_kind_is_parent a.kind ≡ false) × (a.depth ≤ array.depth)
IsComplete array (a ∷ b ∷ below) = (c_kind_is_parent a.kind ≡ true) × IsComplete array (b ∷ below)

-- What an array goes below wherever it comes to it: an array, or a pointer that is deeper.
abbrev pub Passed : Part → Part → Type 0
Passed array a = (a.kind ≡ CKind.array) ⊎ ((a.kind ≡ CKind.pointer) × (array.depth < a.depth))

-- What it does not.
abbrev pub NotPassed : Part → Part → Type 0
NotPassed array a = (a.kind ≢ CKind.array) × ((a.kind ≢ CKind.pointer) ⊎ (a.depth ≤ array.depth))

abbrev pub AllPassed : Part → Chain → Type 0
AllPassed array [] = Unit
AllPassed array (a ∷ above) = Passed array a × AllPassed array above

abbrev pub HasArray : Chain → Type 0
HasArray [] = ⊥
HasArray (a ∷ above) = (a.kind ≡ CKind.array) ⊎ HasArray above

abbrev pub AllDeepPointers : Part → Chain → Type 0
AllDeepPointers array [] = Unit
AllDeepPointers array (a ∷ above) =
    ((a.kind ≡ CKind.pointer) × (array.depth < a.depth)) × AllDeepPointers array above

-- Where an array belongs, above a node `b`: below all arrays and deeper pointers that come first,
-- where there is an array among them or the node is no deeper; else, below deeper pointers only, one
-- deeper node of another kind is passed too.
pub data Belongs (array : Part) (b : Part) : Chain → Type 0 where
  after_arrays :
      (above : Chain)
      → AllPassed array above
      → HasArray above
      → NotPassed array b
      → Belongs array b above
  at_level :
      (above : Chain)
      → AllDeepPointers array above
      → b.kind ≢ CKind.array
      → b.depth ≤ array.depth
      → Belongs array b above
  below_deeper :
      (above : Chain) (a : Part)
      → AllDeepPointers array above
      → a.kind ≢ CKind.array
      → a.kind ≢ CKind.pointer
      → array.depth < a.depth
      → Belongs array b (above ++ a ∷ [])

passes : (array a : Part) → goes_through array a ≡ true → Passed array a
passes array a h = elim (Bool-cases (is_array a.kind)) [
  | inl e ↦ inl (array_kind a.kind e)
  | inr e ↦ inr (pointer_kind a.kind (ground (arith, e, h)), deeper array a (ground (arith, e, h)))
]

stops : (array a : Part) → goes_through array a ≡ false → NotPassed array a
stops array a h = elim (Bool-cases (is_pointer a.kind)) [
  | inl e ↦ (no_array_kind a.kind (ground (arith, h)), inr (ground (arith, e, h)))
  | inr e ↦ (no_array_kind a.kind (ground (arith, h)), inl (no_pointer_kind a.kind e))
]

-- Where the arrays at the beginning of a chain end.
abbrev AppendPut : Part → Chain → Option Chain → Type 0
AppendPut array chain out =
    (xs : Chain) × (b : Part) × (ys : Chain) × (chain ≡ xs ++ b ∷ ys)
    × (out ≡ some (xs ++ array_over array (b ∷ ys)))
    × AllPassed array xs
    × NotPassed array b

append-AppendPut :
    (array : Part) (chain : Chain)
    → IsComplete array chain
    → AppendPut array chain (c_ast_append_array array chain)
append-AppendPut array [] h = absurd h
append-AppendPut array (a ∷ []) h =
    let here = stays_above array a h.0 in
    ([], a, [], refl, append_here array a [] here, tt, stops array a here)
append-AppendPut array (a ∷ b ∷ below) h = elim (Bool-cases (goes_through array a)) [
  | inl e ↦
      let (xs, c, ys, whole, put, passed, stop) = append-AppendPut array (b ∷ below) h.1 in
      (
        a ∷ xs,
        c,
        ys,
        ap (λ c. a ∷ c) whole,
        append_through array a (b ∷ below) e ∙ ap (under a) put,
        (passes array a e, passed),
        stop,
      )
  | inr e ↦ ([], a, b ∷ below, refl, append_here array a (b ∷ below) e, tt, stops array a e)
]

-- Where the array ends up, above a node that is there.
abbrev pub Put : Part → Chain → Option Chain → Type 0
Put array chain out =
    (xs : Chain) × (b : Part) × (ys : Chain) × (chain ≡ xs ++ b ∷ ys)
    × (out ≡ some (xs ++ array_over array (b ∷ ys)))
    × Belongs array b xs

array-Put :
    (array a : Part) (below : Chain)
    → is_array a.kind ≡ true
    → IsComplete array (a ∷ below)
    → Put array (a ∷ below) (c_ast_append_array array (a ∷ below))
array-Put array a [] e h = absurd (let first = (no_array a h.0).0 in ground (arith, e, first))
array-Put array a (b ∷ below) e h =
    let (xs, c, ys, whole, put, passed, stop) = append-AppendPut array (b ∷ below) h.1 in
    let kind = array_kind a.kind e in
    (
      a ∷ xs,
      c,
      ys,
      ap (λ c. a ∷ c) whole,
      append_through array a (b ∷ below) (ground (arith, e)) ∙ ap (under a) put,
      after_arrays (a ∷ xs) (inl kind, passed) (inl kind) stop,
    )

Belongs-under :
    (array a b : Part) (xs : Chain)
    → ((a.kind ≡ CKind.pointer) × (array.depth < a.depth))
    → Belongs array b xs
    → Belongs array b (a ∷ xs)
Belongs-under array a b xs h (after_arrays above passed array_there stop) =
    after_arrays (a ∷ above) (inr h, passed) (inr array_there) stop
Belongs-under array a b xs h (at_level above deep other flat) =
    at_level (a ∷ above) (h, deep) other flat
Belongs-under array a b xs h (below_deeper above c deep other another more) =
    below_deeper (a ∷ above) c (h, deep) other another more

beside-Put :
    (array a : Part) (below : Chain)
    → is_array a.kind ≡ false
    → (is_pointer a.kind && ltb array.depth a.depth) ≡ false
    → IsComplete array (a ∷ below)
    → Put array (a ∷ below) (beside array a below)
beside-Put array a below e f h = elim (Bool-cases (ltb array.depth a.depth)) [
  | inl deep ↦
      subst (Put array (a ∷ below)) (sym (rw deep refl)) (
        between-Put below h (deeper array a deep)
          (no_pointer_kind a.kind (ground (arith, deep, f))))
  | inr flat ↦
      subst (Put array (a ∷ below)) (sym (rw flat refl))
        ([], a, below, refl, refl, at_level [] tt (no_array_kind a.kind e) (ground (arith, flat)))
]
  where
    between-Put :
        (below : Chain)
        → IsComplete array (a ∷ below)
        → array.depth < a.depth
        → a.kind ≢ CKind.pointer
        → Put array (a ∷ below) (between array a below)
    between-Put [] h deep other = absurd (omega arith)
    between-Put (b ∷ below) h deep other = (
      a ∷ [],
      b,
      below,
      refl,
      rw h.0 refl,
      below_deeper [] a tt (no_array_kind a.kind e) other deep,
    )

pub impl-Put :
    (array : Part) (chain : Chain)
    → IsComplete array chain
    → Put array chain (c_ast_add_array_impl array chain)
impl-Put array [] h = absurd h
impl-Put array (a ∷ below) h = elim (Bool-cases (is_array a.kind)) [
  | inl e ↦
      subst (Put array (a ∷ below)) (sym (impl_array array a below e)) (array-Put array a below e h)
  | inr e ↦ elim (Bool-cases (is_pointer a.kind && ltb array.depth a.depth)) [
    | inl f ↦
        let deep = deeper array a (ground (arith, f)) in
        let (xs, b, ys, whole, put, belongs) = impl-Put array below (rest below h deep) in
        (
          a ∷ xs,
          b,
          ys,
          ap (λ c. a ∷ c) whole,
          impl_under array a below e f ∙ ap (under a) put,
          Belongs-under array a b xs (pointer_kind a.kind (ground (arith, f)), deep) belongs,
        )
    | inr f ↦
        subst (Put array (a ∷ below)) (sym (impl_beside array a below e f))
          (beside-Put array a below e f h)
  ]
]
  where
    rest :
        (below : Chain)
        → IsComplete array (a ∷ below)
        → array.depth < a.depth
        → IsComplete array below
    rest [] h deep = absurd (omega arith)
    rest (b ∷ below) h deep = h.1
