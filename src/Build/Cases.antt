-- ===== src/Build/Cases.antt =====
-- The cases of c_ast_append_array and c_ast_add_array_impl, and the kinds they tell apart.
use cdecl.Prelude.{
  ltb, ◌<◌, Bool, true, false, ◌&&◌, ◌∷◌, Option, some, if◌then◌else◌, ◌≡◌, refl, ◌≢◌, sym, ap, ◌∙◌,
  arith,
}
use cdecl.CKind.{CKind, c_kind_is_parent}
use cdecl.Build.{
  Part, Chain, is_array, is_pointer, array_over, goes_through, under, c_ast_append_array, beside,
  c_ast_add_array_impl,
}

pub no_array :
    (a : Part)
    → c_kind_is_parent a.kind ≡ false
    → (is_array a.kind ≡ false) × (is_pointer a.kind ≡ false)
no_array a h = kinds a.kind h
  where
    kinds : (k : CKind) → c_kind_is_parent k ≡ false → (is_array k ≡ false) × (is_pointer k ≡ false)
    kinds CKind.array h = cc
    kinds CKind.pointer h = cc
    kinds k h = (refl, refl)

pub deeper : (array a : Part) → ltb array.depth a.depth ≡ true → array.depth < a.depth
deeper array a h = ground arith

pub array_kind : (k : CKind) → is_array k ≡ true → k ≡ CKind.array
array_kind CKind.array h = refl
array_kind k h = cc

pub no_array_kind : (k : CKind) → is_array k ≡ false → k ≢ CKind.array
no_array_kind k h e = let clash : true ≡ false = ap is_array (sym e) ∙ h in cc

pub pointer_kind : (k : CKind) → is_pointer k ≡ true → k ≡ CKind.pointer
pointer_kind CKind.pointer h = refl
pointer_kind k h = cc

pub no_pointer_kind : (k : CKind) → is_pointer k ≡ false → k ≢ CKind.pointer
no_pointer_kind k h e = let clash : true ≡ false = ap is_pointer (sym e) ∙ h in cc

pub append_through :
    (array a : Part) (below : Chain)
    → goes_through array a ≡ true
    → c_ast_append_array array (a ∷ below) ≡ under a (c_ast_append_array array below)
unfolding c_ast_append_array
append_through array a below e =
    ap
      (λ t.
        if t then under a (c_ast_append_array array below) else some (array_over array (a ∷ below)))
      e

pub append_here :
    (array a : Part) (below : Chain)
    → goes_through array a ≡ false
    → c_ast_append_array array (a ∷ below) ≡ some (array_over array (a ∷ below))
unfolding c_ast_append_array
append_here array a below e =
    ap
      (λ t.
        if t then under a (c_ast_append_array array below) else some (array_over array (a ∷ below)))
      e

pub stays_above : (array a : Part) → c_kind_is_parent a.kind ≡ false → goes_through array a ≡ false
stays_above array a h = let (first, second) = no_array a h in ground (arith, first, second)

-- The three cases of c_ast_add_array_impl.
choose : Part → Part → Chain → Bool → Bool → Option Chain
choose array a below first second =
    if first
    then c_ast_append_array array (a ∷ below)
    else if second
    then under a (c_ast_add_array_impl array below)
    else beside array a below

impl_choose :
    (array a : Part) (below : Chain) (first second : Bool)
    → is_array a.kind ≡ first
    → (is_pointer a.kind && ltb array.depth a.depth) ≡ second
    → c_ast_add_array_impl array (a ∷ below) ≡ choose array a below first second
unfolding c_ast_add_array_impl choose
impl_choose array a below first second e f =
    ap (λ t. choose array a below t (is_pointer a.kind && ltb array.depth a.depth)) e
    ∙ ap (choose array a below first) f

pub impl_array :
    (array a : Part) (below : Chain)
    → is_array a.kind ≡ true
    → c_ast_add_array_impl array (a ∷ below) ≡ c_ast_append_array array (a ∷ below)
unfolding choose
impl_array array a below e =
    impl_choose array a below true (is_pointer a.kind && ltb array.depth a.depth) e refl

pub impl_under :
    (array a : Part) (below : Chain)
    → is_array a.kind ≡ false
    → (is_pointer a.kind && ltb array.depth a.depth) ≡ true
    → c_ast_add_array_impl array (a ∷ below) ≡ under a (c_ast_add_array_impl array below)
unfolding choose
impl_under array a below e f = impl_choose array a below false true e f

pub impl_beside :
    (array a : Part) (below : Chain)
    → is_array a.kind ≡ false
    → (is_pointer a.kind && ltb array.depth a.depth) ≡ false
    → c_ast_add_array_impl array (a ∷ below) ≡ beside array a below
unfolding choose
impl_beside array a below e f = impl_choose array a below false false e f
