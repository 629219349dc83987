-- ===== src/Build/Order.antt =====
-- Arrays of the same depth, in the order in which c_ast_add_array gets them.
use cdecl.Prelude.{
  ltb, ◌≤◌, ℕ, true, false, List, [], ◌∷◌, ◌++◌, Option, none, some, if◌then◌else◌, ◌≡◌, refl, sym,
  ap, ◌∙◌, arith, bit_and, bit_or,
}
use cdecl.Bits.{compl64}
use cdecl.Bits.Laws.{bit_and-zero}
use cdecl.Bits.Assoc.{bit_and_assoc, bit_or-zero}
use cdecl.CKind.{CKind, c_kind_is_parent}
use cdecl.Types.{t_mask_storage}
use cdecl.Build.{
  Part, Chain, is_array, has_storage, storage_in, drop_storage, array_over, goes_through, under,
  c_ast_append_array, c_ast_add_array,
}
use cdecl.Build.Cases.{append_through, append_here, stays_above, impl_array, impl_beside, no_array}

-- The storage class that a declaration's base type has, and the type without it.
taken : (x : ℕ) → bit_and (bit_and x (compl64 t_mask_storage)) t_mask_storage ≡ 0
taken x = bit_and_assoc x (compl64 t_mask_storage) t_mask_storage ∙ bit_and-zero x

taken_once :
    (x : ℕ)
    → bit_and (bit_and x (compl64 t_mask_storage)) (compl64 t_mask_storage)
      ≡ bit_and x (compl64 t_mask_storage)
taken_once x = bit_and_assoc x (compl64 t_mask_storage) (compl64 t_mask_storage)

-- The type and the array that the first array leaves.
abbrev pub stripped : Part → Part
stripped a = record a { type = bit_and a.type (compl64 t_mask_storage) }

abbrev pub with_storage : Part → Part → Part
with_storage array a = record array { type = bit_or array.type (bit_and a.type t_mask_storage) }

abbrev pub AllArrays : List Part → Type 0
AllArrays [] = Unit
AllArrays (a ∷ arrays) = (is_array a.kind ≡ true) × AllArrays arrays

abbrev pub put_next : Option Chain → (Chain → Option Chain) → Option Chain
put_next none next = none
put_next (some chain) next = next chain

-- One array after another, the outermost of the declaration first, as array_decl_c of src/parser.y
-- adds them.
unfoldable pub add_all : List Part → Chain → Option Chain
add_all [] chain = some chain
add_all (array ∷ arrays) chain = put_next (c_ast_add_array array chain) (add_all arrays)

through :
    (array leaf : Part) (above : Chain)
    → AllArrays above
    → c_kind_is_parent leaf.kind ≡ false
    → c_ast_append_array array (above ++ leaf ∷ []) ≡ some (above ++ array_over array (leaf ∷ []))
through array leaf [] all ends = append_here array leaf [] (stays_above array leaf ends)
through array leaf (a ∷ above) all ends =
    append_through array a (above ++ leaf ∷ []) (goes a all.0)
    ∙ ap (under a) (through array leaf above all.1 ends)
  where
    goes : (a : Part) → is_array a.kind ≡ true → goes_through array a ≡ true
    goes a e = ground (arith, e)

AllArrays-append : (xs ys : List Part) → AllArrays xs → AllArrays ys → AllArrays (xs ++ ys)
AllArrays-append [] ys h k = k
AllArrays-append (x ∷ xs) ys h k = (h.0, AllArrays-append xs ys h.1 k)

shift : (xs : Chain) (y : Part) (ys : Chain) → (xs ++ y ∷ []) ++ ys ≡ xs ++ y ∷ ys
shift [] y ys = refl
shift (x ∷ xs) y ys = ap (λ c. x ∷ c) (shift xs y ys)

-- Below the first array the others follow, when the base type has no storage class left.
follow :
    (leaf : Part)
    → ((array : Part) → array_over array (leaf ∷ []) ≡ array ∷ leaf ∷ [])
    → c_kind_is_parent leaf.kind ≡ false
    → (arrays : List Part) → AllArrays arrays
    → (x : Part) (above : Chain) → AllArrays (x ∷ above)
    → add_all arrays (x ∷ above ++ leaf ∷ []) ≡ some (x ∷ above ++ (arrays ++ leaf ∷ []))
unfolding add_all c_ast_add_array
follow leaf clean ends [] all x above h = refl
follow leaf clean ends (array ∷ arrays) all x above h =
    ap (λ out. put_next out (add_all arrays))
      (added ∙ ap (λ c. some (x ∷ c)) (sym (shift above array (leaf ∷ []))))
    ∙ follow leaf clean ends arrays all.1 x (above ++ array ∷ [])
        (h.0, AllArrays-append above (array ∷ []) h.1 (all.0, tt))
    ∙ ap (λ c. some (x ∷ c)) (shift above array (arrays ++ leaf ∷ []))
  where
    added : c_ast_add_array array (x ∷ above ++ leaf ∷ []) ≡ some (x ∷ above ++ array ∷ leaf ∷ [])
    added =
        impl_array array x (above ++ leaf ∷ []) h.0
        ∙ through array leaf (x ∷ above) h ends
        ∙ ap (λ c. some (x ∷ above ++ c)) (clean array)

last_of :
    (array leaf : Part)
    → has_storage leaf.kind ≡ true
    → array_over array (leaf ∷ []) ≡ with_storage array leaf ∷ stripped leaf ∷ []
unfolding array_over storage_in drop_storage
last_of array leaf h = rw h refl

stripped_clean :
    (leaf : Part)
    → has_storage leaf.kind ≡ true
    → (array : Part) → array_over array (stripped leaf ∷ []) ≡ array ∷ stripped leaf ∷ []
stripped_clean leaf h array =
    last_of array (stripped leaf) h
    ∙ ap (λ t. record array { type = bit_or array.type t } ∷ stripped (stripped leaf) ∷ [])
        (taken leaf.type)
    ∙ ap (λ t. record array { type = t } ∷ stripped (stripped leaf) ∷ []) (bit_or-zero array.type)
    ∙ ap (λ t. array ∷ record leaf { type = t } ∷ []) (taken_once leaf.type)

-- Arrays added one after another to a builtin or typedef type, that is no deeper than the first of
-- them, end up nested in the order in which they were added, and the storage class of the type
-- moves to the first.
pub add_all_lem :
    (array : Part) (arrays : List Part) (leaf : Part)
    → AllArrays (array ∷ arrays)
    → has_storage leaf.kind ≡ true
    → leaf.depth ≤ array.depth
    → add_all (array ∷ arrays) (leaf ∷ [])
      ≡ some (with_storage array leaf ∷ arrays ++ stripped leaf ∷ [])
unfolding add_all c_ast_add_array
add_all_lem array arrays leaf all h depth =
    ap (λ out. put_next out (add_all arrays)) first
    ∙ follow (stripped leaf) (stripped_clean leaf h) (ends leaf.kind h) arrays all.1
        (with_storage array leaf) [] (all.0, tt)
  where
    ends : (k : CKind) → has_storage k ≡ true → c_kind_is_parent k ≡ false
    ends CKind.builtin e = refl
    ends CKind.typedef_type e = refl
    ends k e = cc

    flat : ltb array.depth leaf.depth ≡ false
    flat = ground arith

    first : c_ast_add_array array (leaf ∷ []) ≡ some (with_storage array leaf ∷ stripped leaf ∷ [])
    first =
        impl_beside array leaf [] (no_array leaf (ends leaf.kind h)).0
          (simp (no_array leaf (ends leaf.kind h)).1)
        ∙ ap (λ t. if t then none else some (array_over array (leaf ∷ []))) flat
        ∙ ap some (last_of array leaf h)
