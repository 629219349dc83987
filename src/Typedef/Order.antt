-- ===== src/Typedef/Order.antt =====
-- The order of names, and so of typedefs: what the red-black tree asks of c_typedef_cmp.
use Prim.Native.Nat.{compare as compare_ℕ}
use Prim.Native.Nat.Ordering.{lt, eq, gt}
use Prim.Native.Char.{code}
use Prim.Native.String.compare
use Prim.Native.String.{compare, then}
use text.Mathlib.TextEquality.{path_by_compare}
use cdecl.Prelude.{String, ◌≡◌, refl, sym, ap, ◌∙◌, arith}
use cdecl.RedBlack.Order.{opposite, IsOrder}
use cdecl.Typedef.{c_typedef_cmp}

flip_compare : (s t : String) → compare t s ≡ opposite (compare s t)
flip_compare String.[] String.[] = rw compare.nil-nil refl
flip_compare String.[] (String.◌∷◌ d t) = rw (compare.nil-cons d t, compare.cons-nil d t) refl
flip_compare (String.◌∷◌ c s) String.[] = rw (compare.nil-cons c s, compare.cons-nil c s) refl
flip_compare (String.◌∷◌ c s) (String.◌∷◌ d t) =
    rw (compare.cons-cons d c t s, compare.cons-cons c d s t) (ground (arith, flip_compare s t))

compare-lt_trans : (s t u : String) → compare s t ≡ lt → compare t u ≡ lt → compare s u ≡ lt
compare-lt_trans String.[] String.[] u h k = let no : eq ≡ lt = sym compare.nil-nil ∙ h in cc
compare-lt_trans (String.◌∷◌ c s) String.[] u h k =
    let no : gt ≡ lt = sym (compare.cons-nil c s) ∙ h in cc
compare-lt_trans s (String.◌∷◌ d t) String.[] h k =
    let no : gt ≡ lt = sym (compare.cons-nil d t) ∙ k in cc
compare-lt_trans String.[] (String.◌∷◌ d t) (String.◌∷◌ e u) h k = compare.nil-cons e u
compare-lt_trans (String.◌∷◌ c s) (String.◌∷◌ d t) (String.◌∷◌ e u) h k =
    let first : then (compare_ℕ (code c) (code d)) (compare s t) ≡ lt =
      sym (compare.cons-cons c d s t) ∙ h in
    let second : then (compare_ℕ (code d) (code e)) (compare t u) ≡ lt =
      sym (compare.cons-cons d e t u) ∙ k in
    rw (compare.cons-cons c e s u) (ground (arith, compare-lt_trans s t u))

pub c_typedef_cmp-IsOrder : IsOrder c_typedef_cmp
c_typedef_cmp-IsOrder = record {
  flip = λ a b. flip_compare a.type_name b.type_name;
  lt_trans = λ a b c. compare-lt_trans a.type_name b.type_name c.type_name;
  eq_left = λ a b c h. ap (λ s. compare s c.type_name) (path_by_compare a.type_name b.type_name h);
}
