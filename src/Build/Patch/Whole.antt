-- ===== src/Build/Patch/Whole.antt =====
-- Where the type goes, and that no placeholder is left.
use cdecl.Prelude.{
  ◌≤◌, ◌<◌, leb, Bool, true, false, [], ◌∷◌, ◌++◌, Option, some, if◌then◌else◌, ◌≡◌, refl, ap, ◌∙◌,
  arith, ◌⊎◌, inl, inr, Bool-cases,
}
use cdecl.Build.{Part, Chain}
use cdecl.Build.Func.{is_placeholder, or_name, name_below}
use cdecl.Build.Patch.{above_placeholder, patched, c_ast_patch_placeholder}

abbrev pub NoPlaceholder : Chain → Type 0
NoPlaceholder [] = Unit
NoPlaceholder (a ∷ below) = (is_placeholder a.kind ≡ false) × NoPlaceholder below

above_found :
    (above : Chain) (p : Part)
    → NoPlaceholder above
    → is_placeholder p.kind ≡ true
    → above_placeholder (above ++ p ∷ []) ≡ some above
unfolding above_placeholder
above_found [] p h ends = rw ends refl
above_found (a ∷ above) p h ends = rw (h.0, above_found above p h.1 ends) refl

NoPlaceholder-append :
    (xs ys : Chain) → NoPlaceholder xs → NoPlaceholder ys → NoPlaceholder (xs ++ ys)
NoPlaceholder-append [] ys h k = k
NoPlaceholder-append (x ∷ xs) ys h k = (h.0, NoPlaceholder-append xs ys h.1 k)

-- A type without a parent and a declarator whose last node, and no other, is a placeholder become one
-- AST without a placeholder: the type itself, with the declarator's name if it had none, where it is at
-- least as deep as the declarator; the declarator with the type in the placeholder's place else.
pub c_ast_patch_placeholder_lem :
    (type : Part) (below : Chain) (a : Part) (above : Chain) (p : Part)
    → NoPlaceholder (type ∷ below)
    → NoPlaceholder (a ∷ above)
    → is_placeholder p.kind ≡ true
    → (out : Chain) × (c_ast_patch_placeholder false (type ∷ below) (a ∷ above ++ p ∷ [])
        ≡ some out)
      × NoPlaceholder out
      × (((a.depth ≤ type.depth)
            × (out
                ≡ record type { name = or_name type.name (name_below (a ∷ above ++ p ∷ [])) }
                  ∷ below))
          ⊎ ((type.depth < a.depth) × (out ≡ a ∷ above ++ (type ∷ below))))
unfolding c_ast_patch_placeholder
c_ast_patch_placeholder_lem type below a above p h k ends =
    elim (Bool-cases (leb a.depth type.depth)) [
      | inl deep ↦ (
        record type { name = or_name type.name (name_below (a ∷ above ++ p ∷ [])) } ∷ below,
        found ∙ ap choose deep,
        h,
        inl (ground (arith, deep), refl),
      )
      | inr flat ↦ (
        a ∷ above ++ (type ∷ below),
        found ∙ ap choose flat,
        NoPlaceholder-append (a ∷ above) (type ∷ below) k h,
        inr (ground (arith, flat), refl),
      )
    ]
  where
    found :
        patched type below a (above ++ p ∷ []) (above_placeholder (a ∷ above ++ p ∷ []))
        ≡ patched type below a (above ++ p ∷ []) (some (a ∷ above))
    found = ap (patched type below a (above ++ p ∷ [])) (above_found (a ∷ above) p k ends)

    choose : Bool → Option Chain
    choose b =
        if b
        then some
            (record type { name = or_name type.name (name_below (a ∷ above ++ p ∷ [])) } ∷ below)
        else some (a ∷ above ++ (type ∷ below))
