-- ===== src/Build/Array/Storage.antt =====
-- The chain that c_ast_add_array returns, with the storage class of its last node.
use mathlib.Core.Path.{subst}
use cdecl.Prelude.{
  ℕ, ◌≤◌, true, false, [], ◌∷◌, ◌++◌, some, if◌then◌else◌, bit_and, bit_or, ◌≡◌, refl, sym, ap, ◌∙◌,
}
use cdecl.Bits.{compl64}
use cdecl.CKind.{CKind, c_kind_is_parent}
use cdecl.Types.{t_none, t_mask_storage}
use cdecl.Build.{Part, Chain, has_storage, storage_in, drop_storage, array_over, c_ast_add_array}
use cdecl.Build.Array.{IsComplete, Belongs, Put, impl-Put}

-- The storage classes in a type of this kind, and the type without them.
abbrev pub class_of : CKind → ℕ → ℕ
class_of CKind.builtin type = bit_and type t_mask_storage
class_of CKind.typedef_type type = bit_and type t_mask_storage
class_of _ type = 0

abbrev pub class_gone : CKind → ℕ → ℕ
class_gone CKind.builtin type = bit_and type (compl64 t_mask_storage)
class_gone CKind.typedef_type type = bit_and type (compl64 t_mask_storage)
class_gone _ type = type

abbrev pub given : Part → Part → Part
given array leaf = record array { type = bit_or array.type (class_of leaf.kind leaf.type) }

abbrev pub left_of : Part → Part
left_of leaf = record leaf { type = class_gone leaf.kind leaf.type }

abbrev pub AllParents : Chain → Type 0
AllParents [] = Unit
AllParents (a ∷ nodes) = (c_kind_is_parent a.kind ≡ true) × AllParents nodes

abbrev pub first_of : Chain → Part → Part
first_of [] leaf = leaf
first_of (a ∷ nodes) leaf = a

no_storage : (k : CKind) → c_kind_is_parent k ≡ true → has_storage k ≡ false
no_storage CKind.builtin h = cc
no_storage CKind.typedef_type h = cc
no_storage k h = refl

storage_of_kind :
    (k : CKind) (type : ℕ)
    → (if has_storage k then bit_and type t_mask_storage else t_none) ≡ class_of k type
storage_of_kind CKind.builtin type = refl
storage_of_kind CKind.typedef_type type = refl
storage_of_kind k type = refl

storage_last :
    (mid : Chain) (leaf : Part)
    → AllParents mid
    → storage_in (mid ++ leaf ∷ []) ≡ class_of leaf.kind leaf.type
unfolding storage_in
storage_last [] leaf h = storage_of_kind leaf.kind leaf.type
storage_last (a ∷ mid) leaf h = rw (no_storage a.kind h.0) (storage_last mid leaf h.1)

left_of_kind :
    (leaf : Part) (k : CKind)
    → (if has_storage k
        then record leaf { type = bit_and leaf.type (compl64 t_mask_storage) } ∷ []
        else leaf ∷ [])
      ≡ record leaf { type = class_gone k leaf.type } ∷ []
left_of_kind leaf CKind.builtin = refl
left_of_kind leaf CKind.typedef_type = refl
left_of_kind leaf k = refl

dropped_last :
    (mid : Chain) (leaf : Part)
    → AllParents mid
    → drop_storage (mid ++ leaf ∷ []) ≡ mid ++ left_of leaf ∷ []
unfolding drop_storage
dropped_last [] leaf h = left_of_kind leaf leaf.kind
dropped_last (a ∷ mid) leaf h =
    rw (no_storage a.kind h.0) (ap (λ c. a ∷ c) (dropped_last mid leaf h.1))

array_over_last :
    (array : Part) (mid : Chain) (leaf : Part)
    → AllParents mid
    → array_over array (mid ++ leaf ∷ []) ≡ given array leaf ∷ mid ++ left_of leaf ∷ []
unfolding array_over
array_over_last array mid leaf h =
    ap (λ t. record array { type = bit_or array.type t } ∷ drop_storage (mid ++ leaf ∷ []))
      (storage_last mid leaf h)
    ∙ ap (λ c. given array leaf ∷ c) (dropped_last mid leaf h)

-- The last node of a chain is that of the end of the chain.
last_part :
    (nodes : Chain) (leaf : Part) (xs : Chain) (b : Part) (ys : Chain)
    → nodes ++ leaf ∷ [] ≡ xs ++ b ∷ ys
    → (mid : Chain) × (nodes ≡ xs ++ mid) × (b ∷ ys ≡ mid ++ leaf ∷ [])
last_part nodes leaf [] b ys e = (nodes, refl, sym e)
last_part [] leaf (x ∷ []) b ys e = cc
last_part [] leaf (x ∷ y ∷ xs) b ys e = cc
last_part (n ∷ nodes) leaf (x ∷ xs) b ys e =
    let same : n ≡ x = cc in
    let (mid, whole, end) = last_part nodes leaf xs b ys cc in
    (mid, ap (λ a. a ∷ nodes) same ∙ ap (λ c. x ∷ c) whole, end)

first_node :
    (b : Part) (ys mid : Chain) (leaf : Part) → b ∷ ys ≡ mid ++ leaf ∷ [] → b ≡ first_of mid leaf
first_node b ys [] leaf e = cc
first_node b ys (a ∷ mid) leaf e = cc

AllParents-end : (xs mid : Chain) → AllParents (xs ++ mid) → AllParents mid
AllParents-end [] mid h = h
AllParents-end (x ∷ xs) mid h = AllParents-end xs mid h.1

complete :
    (array : Part) (nodes : Chain) (leaf : Part)
    → AllParents nodes
    → c_kind_is_parent leaf.kind ≡ false
    → leaf.depth ≤ array.depth
    → IsComplete array (nodes ++ leaf ∷ [])
complete array [] leaf h ends flat = (ends, flat)
complete array (a ∷ []) leaf h ends flat = (h.0, (ends, flat))
complete array (a ∷ b ∷ nodes) leaf h ends flat =
    (h.0, complete array (b ∷ nodes) leaf h.1 ends flat)

chain-Put :
    (array : Part) (nodes : Chain) (leaf : Part)
    → IsComplete array (nodes ++ leaf ∷ [])
    → Put array (nodes ++ leaf ∷ []) (c_ast_add_array array (nodes ++ leaf ∷ []))
unfolding c_ast_add_array
chain-Put array [] leaf h = impl-Put array (leaf ∷ []) h
chain-Put array (a ∷ nodes) leaf h = impl-Put array (a ∷ nodes ++ leaf ∷ []) h

-- An array is added to every chain that ends in a node that is no parent and no deeper than the
-- array, the nodes above that one being parents. It goes above the node below all arrays and deeper
-- pointers that come first, where there is an array among them or that node is no deeper; else, below
-- deeper pointers only, one deeper node of another kind is above it too. It takes the storage class
-- of the last node, if this is a builtin or a typedef, and nothing else changes.
pub c_ast_add_array_lem :
    (array : Part) (nodes : Chain) (leaf : Part)
    → AllParents nodes
    → c_kind_is_parent leaf.kind ≡ false
    → leaf.depth ≤ array.depth
    → (xs : Chain) × (mid : Chain) × (nodes ≡ xs ++ mid)
      × (c_ast_add_array array (nodes ++ leaf ∷ [])
          ≡ some (xs ++ (given array leaf ∷ mid ++ left_of leaf ∷ [])))
      × Belongs array (first_of mid leaf) xs
c_ast_add_array_lem array nodes leaf h ends flat =
    let (xs, b, ys, whole, put, belongs) =
      chain-Put array nodes leaf (complete array nodes leaf h ends flat) in
    let (mid, parts, end) = last_part nodes leaf xs b ys whole in
    let below = AllParents-end xs mid (subst AllParents parts h) in
    (
      xs,
      mid,
      parts,
      put
          ∙ ap (λ c. some (xs ++ array_over array c)) end
          ∙ ap (λ c. some (xs ++ c)) (array_over_last array mid leaf below),
      subst (λ z. Belongs array z xs) (first_node b ys mid leaf end) belongs,
    )
