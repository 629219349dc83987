-- ===== src/Gibberish/Steps.antt =====
-- The parts of c_ast_gibberish_impl of src/gibberish.c: the depth of the parentheses, and the leaf.
use cdecl.Prelude.{
  ℕ, Bool, true, false, not, List, [], ◌∷◌, ◌++◌, Option, none, some, String, ◌≡◌, refl, ◌∙◌, sym,
  ◌==◌, if◌then◌else◌, bit_and,
}
use mathlib.Core.Path.{subst}
use cdecl.Bits.{has}
use cdecl.Types.{
  t_mask_qualifier, t_mask_ref_qualifier, t_final, t_override, t_pure_virtual, t_reference,
  t_typedef_type,
}
use cdecl.Output.{Out, text, type_name, depth_after, Balanced}
use cdecl.Output.Laws.{++-Balanced}
use cdecl.Ast.{Ast, name_of}
use cdecl.Gibberish.{
  set_leaf, GKind, is_cast, Entry, GParam, write, shown_name, c_ast_gibberish_space_name,
  ◌and_then◌, is_nonempty, c_ast_gibberish_qual_name,
}
use cdecl.Gibberish.Impl.{
  out_when, ref_text, cv_text, late_text, from_leaf, unless_postfix, maybe_space, postfix_at,
  begin_postfix, beside_name, end_pointer, end_pointer_to_member, typedef_text, postfixed,
  leaf_text,
}
use cdecl.Gibberish.Laws.{
  GoodUp, Goes, Signed, At, write-At, g_param_space-At, g_param_space-leaf, space_name-At,
  space_name-leaf, qual_name-Goes, postfix-Goes,
}

out_when-Balanced : (b : Bool) → (o : Out) → Balanced o → Balanced (out_when b o)
out_when-Balanced true o h = h
out_when-Balanced false o h = λ d. refl

if-Balanced : (b : Bool) → (o p : Out) → Balanced o → Balanced p → Balanced (if b then o else p)
if-Balanced true o p h k = h
if-Balanced false o p h k = k

pub late_text-Balanced : (t : ℕ) → Balanced (late_text t)
late_text-Balanced t =
    let cv = cv_text (bit_and t t_mask_qualifier) in
    let ref = ref_text (bit_and t t_mask_ref_qualifier) in
    let over = out_when (has t t_override) (text " " ∷ text "override" ∷ []) in
    let fin = out_when (has t t_final) (text " " ∷ text "final" ∷ []) in
    let pure = out_when (has t t_pure_virtual) (text " = 0" ∷ []) in
    ++-Balanced (cv ++ ref ++ over ++ fin) pure
      (++-Balanced (cv ++ ref ++ over) fin
        (++-Balanced (cv ++ ref) over
          (++-Balanced cv ref
            (if-Balanced (bit_and t t_mask_qualifier == 0) []
              (text " " ∷ type_name (bit_and t t_mask_qualifier) ∷ []) (λ d. refl) (λ d. refl))
            (if-Balanced (bit_and t t_mask_ref_qualifier == 0) [] _ (λ d. refl)
              (if-Balanced (has (bit_and t t_mask_ref_qualifier) t_reference) (text " &" ∷ [])
                (text " &&" ∷ []) (λ d. refl) (λ d. refl))))
          (out_when-Balanced (has t t_override) (text " " ∷ text "override" ∷ []) (λ d. refl)))
        (out_when-Balanced (has t t_final) (text " " ∷ text "final" ∷ []) (λ d. refl)))
      (out_when-Balanced (has t t_pure_virtual) (text " = 0" ∷ []) (λ d. refl))

pub typedef_text-Balanced :
    (t : ℕ) → (name : String) → Balanced (typedef_text t ++ (text name ∷ []))
typedef_text-Balanced t name =
    ++-Balanced (typedef_text t) (text name ∷ [])
      (if-Balanced (t == t_typedef_type) [] (type_name t ∷ text " " ∷ []) (λ d. refl) (λ d. refl))
      (λ d. refl)

-- The list of the nodes above the leaf was kept, one for each node above.
abbrev pub LeafOk : Bool → Option (List Entry) → Type 0
LeafOk above none = ⊥
LeafOk above (some chain) = GoodUp chain × (above ≡ true → is_nonempty chain ≡ true)

module _ (g : GKind) (d : ℕ) where
  -- A printing that met its leaf, every parenthesis closed.
  abbrev pub Printed : Bool → Option GParam → Type 0
  Printed above none = ⊥
  Printed above (some p) = (depth_after d p.out ≡ some d) × LeafOk above p.leaf

  Goes-Printed :
      (above : Bool)
      → (r : Option GParam) → (leaf : Option (List Entry)) → Goes d d leaf r
      → LeafOk above leaf
      → Printed above r
  Goes-Printed above none leaf h k = h
  Goes-Printed above (some p) leaf h k = (h.0, subst (λ x. LeafOk above x) (sym h.1) k)

  pub and_then-Printed :
      (above below : Bool)
      → (r : Option GParam) → (f : GParam → Option GParam) → Printed below r
      → ((q : GParam) → At g d d q → LeafOk below q.leaf → Printed above (f q))
      → Printed above (r and_then f)
  and_then-Printed above below none f h k = h
  and_then-Printed above below (some q) f h k = k q h.0 h.1

  pub set_leaf-Printed :
      (leaf : Option (List Entry))
      → (up : List Entry) → (p : GParam) → leaf ≡ none
      → At g d d p
      → GoodUp up
      → Printed (is_nonempty up) (set_leaf leaf up p)
  set_leaf-Printed none up p l h good = (h, (good, λ k. k))
  set_leaf-Printed (some chain) up p l h good = cc

  pub leaf_text-Printed :
      (ast : Ast)
      → (up : List Entry) → (o : Out) → (p : GParam) → Balanced o
      → p.leaf ≡ none
      → At g d d p
      → GoodUp up
      → Printed (is_nonempty up) (leaf_text g ast up o p)
  leaf_text-Printed ast up o p b l h good =
      let name = shown_name g (name_of ast) in
      let q = write o p in
      set_leaf-Printed (c_ast_gibberish_space_name g ast q).leaf up
        (c_ast_gibberish_space_name g ast q) (space_name-leaf g d name q ∙ l)
        (space_name-At g d name d q (write-At g d d o p b h)) good

  maybe_space-At : (b : Bool) → (p : GParam) → At g d d p → At g d d (maybe_space b p)
  maybe_space-At true p h = g_param_space-At g d d p h
  maybe_space-At false p h = h

  maybe_space-leaf : (b : Bool) → (p : GParam) → (maybe_space b p).leaf ≡ p.leaf
  maybe_space-leaf true p = g_param_space-leaf g d p
  maybe_space-leaf false p = refl

  unless_postfix-Goes :
      (b : Bool)
      → (f : GParam → Option GParam) → (p : GParam) → At g d d p
      → Goes d d p.leaf (f p)
      → Goes d d p.leaf (unless_postfix b f p)
  unless_postfix-Goes true f p h k = (h, refl)
  unless_postfix-Goes false f p h k = k

  from_leaf-Goes :
      (leaf : Option (List Entry))
      → (p : GParam) → At g d d p
      → LeafOk true leaf
      → Goes d d p.leaf (from_leaf g leaf p)
  from_leaf-Goes none p h k = absurd k
  from_leaf-Goes (some chain) p h k = postfix-Goes g d d chain p k.0 (k.1 refl) h

  postfix_at-Goes :
      (e : Entry)
      → (up : List Entry) → (p : GParam) → GoodUp (e ∷ up)
      → At g d d p
      → LeafOk true p.leaf
      → Goes d d p.leaf (postfix_at g e up p)
  postfix_at-Goes e [] p good h k = from_leaf-Goes p.leaf p h k
  postfix_at-Goes e (above ∷ up) p good h k = postfix-Goes g d d (e ∷ above ∷ up) p good refl h

  begin_postfix-Goes :
      (e : Entry)
      → (up : List Entry) → (p : GParam) → GoodUp (e ∷ up)
      → At g d d p
      → LeafOk true p.leaf
      → Goes d d p.leaf (begin_postfix g e up p)
  begin_postfix-Goes e up p good h k =
      let begun = record p { postfix = true } in
      let spaced = maybe_space (not (is_cast g)) begun in
      let same = maybe_space-leaf (not (is_cast g)) begun in
      unless_postfix-Goes p.postfix _ p h (
        subst (λ leaf. Goes d d leaf (postfix_at g e up spaced)) same
          (postfix_at-Goes e up spaced good (maybe_space-At (not (is_cast g)) begun h)
            (subst (λ leaf. LeafOk true leaf) (sym same) k)))

  weaker : (above : Bool) → (leaf : Option (List Entry)) → LeafOk true leaf → LeafOk above leaf
  weaker above none k = k
  weaker above (some chain) k = (k.0, λ x. k.1 refl)

  pub postfixed-Printed :
      (e : Entry) (up : List Entry) (inner : GParam → Option GParam) (before behind : Out)
      (p : GParam)
      → Balanced before
      → Balanced behind
      → GoodUp (e ∷ up)
      → p.leaf ≡ none
      → At g d d p
      → ((q : GParam) → q.leaf ≡ none → At g d d q → Printed true (inner q))
      → Printed (is_nonempty up) (postfixed g e up inner before behind p)
  postfixed-Printed e up inner before behind p b c good l h k =
      and_then-Printed (is_nonempty up) (is_nonempty up) _ _
        (and_then-Printed (is_nonempty up) true (inner (write before p)) (begin_postfix g e up)
          (k (write before p) l (write-At g d d before p b h))
          (λ q m n.
            Goes-Printed (is_nonempty up) (begin_postfix g e up q) q.leaf
              (begin_postfix-Goes e up q good m n) (weaker (is_nonempty up) q.leaf n)))
        (λ q m n. (write-At g d d behind q c m, n))

  pub end_pointer-Printed :
      (ast : Ast)
      → (up : List Entry) → (p : GParam) → Signed ast
      → At g d d p
      → LeafOk true p.leaf
      → Printed (is_nonempty up) (end_pointer g ast up p)
  end_pointer-Printed ast up p s h k =
      let b = beside_name g ast up in
      let spaced = maybe_space b p in
      let at = maybe_space-At b p h in
      Goes-Printed (is_nonempty up) (end_pointer g ast up p) spaced.leaf
        (unless_postfix-Goes spaced.postfix (c_ast_gibberish_qual_name g ast) spaced at
          (qual_name-Goes g d d ast spaced s at))
        (weaker (is_nonempty up) spaced.leaf
          (subst (λ leaf. LeafOk true leaf) (sym (maybe_space-leaf b p)) k))

  pub end_member-Printed :
      (ast : Ast)
      → (up : List Entry) → (p : GParam) → Signed ast
      → At g d d p
      → LeafOk true p.leaf
      → Printed (is_nonempty up) (end_pointer_to_member g ast p)
  end_member-Printed ast up p s h k =
      Goes-Printed (is_nonempty up) (end_pointer_to_member g ast p) p.leaf
        (unless_postfix-Goes p.postfix _ p h (
          qual_name-Goes g d d ast (write (text " " ∷ []) p) s
            (write-At g d d (text " " ∷ []) p (λ x. refl) h)))
        (weaker (is_nonempty up) p.leaf k)
