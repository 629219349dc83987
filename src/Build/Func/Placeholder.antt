-- ===== src/Build/Func/Placeholder.antt =====
-- Where a function goes in a declarator that ends in a placeholder.
use cdecl.Prelude.{
  ℕ, ◌==◌, true, false, String, [], ◌∷◌, ◌++◌, none, some, if◌then◌else◌, ◌≡◌, refl, ap, ◌∙◌, not,
  ◌&&◌,
}
use cdecl.CKind.{CKind}
use cdecl.Build.{Part, Chain}
use cdecl.Build.Func.{
  FuncPlace, is_declarator, is_placeholder, block_kind, ignored, by_child, c_ast_add_func_impl,
  c_ast_add_func, give, above_type, or_name, name_below, drop_name, has_name, without_name,
}

-- Pointers, references and arrays that are not the return type.
abbrev pub AllDeclarators : ℕ → Chain → Type 0
AllDeclarators ret [] = Unit
AllDeclarators ret (a ∷ rest) =
    (is_declarator a.kind ≡ true) × ((ret == a.id) ≡ false) × AllDeclarators ret rest

not_declarator : (p : Part) → is_placeholder p.kind ≡ true → is_declarator p.kind ≡ false
not_declarator p h = kinds p.kind h
  where
    kinds : (k : CKind) → is_placeholder k ≡ true → is_declarator k ≡ false
    kinds CKind.placeholder h = refl
    kinds k h = cc

at_placeholder :
    (ret func : ℕ) (a p : Part)
    → is_declarator a.kind ≡ true
    → (ret == a.id) ≡ false
    → is_placeholder p.kind ≡ true
    → c_ast_add_func_impl ret func (a ∷ p ∷ []) ≡ some (FuncPlace.below (a ∷ []))
unfolding c_ast_add_func_impl
at_placeholder ret func a p h other ends = rw (h, not_declarator p ends, ends, other) refl

at_declarator :
    (ret func : ℕ) (a b : Part) (rest : Chain)
    → is_declarator a.kind ≡ true
    → is_declarator b.kind ≡ true
    → c_ast_add_func_impl ret func (a ∷ b ∷ rest)
      ≡ ignored a (c_ast_add_func_impl ret func (b ∷ rest))
unfolding c_ast_add_func_impl
at_declarator ret func a b rest h k =
    ap
      (λ t.
        if t
        then by_child ret func a b (c_ast_add_func_impl ret func (b ∷ rest))
        else some FuncPlace.first)
      h
    ∙ ap
        (λ t.
          if t
          then ignored a (c_ast_add_func_impl ret func (b ∷ rest))
          else if is_placeholder b.kind
          then (if ret == a.id then some FuncPlace.first else some (FuncPlace.below (a ∷ [])))
          else if block_kind b.kind
          then (if b.id == func then some (FuncPlace.below (a ∷ [])) else some FuncPlace.unlinked)
          else some FuncPlace.first)
        k

placed :
    (ret func : ℕ) (a : Part) (xs : Chain) (p : Part)
    → AllDeclarators ret (a ∷ xs)
    → is_placeholder p.kind ≡ true
    → c_ast_add_func_impl ret func (a ∷ xs ++ p ∷ []) ≡ some (FuncPlace.below (a ∷ xs))
placed ret func a [] p h ends = at_placeholder ret func a p h.0 h.1 ends
placed ret func a (b ∷ xs) p h ends =
    at_declarator ret func a b (xs ++ p ∷ []) h.0 h.2.0
    ∙ ap (ignored a) (placed ret func b xs p h.2 ends)

-- In a declarator of pointers, references and arrays that ends in a placeholder, a function without a
-- name takes the placeholder's place: above it are the declarators, of which the first that has a
-- name loses it, below it is the return type without its storage class, and it has that name and that
-- storage class.
pub c_ast_add_func_lem :
    (func a : Part) (xs : Chain) (p r : Part) (ret : Chain) (name : String)
    → func.name ≡ none
    → AllDeclarators r.id (a ∷ xs)
    → is_placeholder p.kind ≡ true
    → name_below (a ∷ xs) ≡ some name
    → c_ast_add_func func (r ∷ ret) (a ∷ xs ++ p ∷ [])
      ≡ some (drop_name (a ∷ xs) ++ above_type func (some name) (r ∷ ret))
unfolding c_ast_add_func
c_ast_add_func_lem func a xs p r ret name unnamed h ends named =
    ap (give func (r ∷ ret) (a ∷ xs ++ p ∷ [])) (placed r.id func.id a xs p h ends)
    ∙ ap
        (λ own. some (
          without_name (not (has_name own)) (a ∷ xs)
          ++ above_type func (or_name (name_below (a ∷ xs)) (name_below (r ∷ ret))) (
              without_name (not (has_name own) && not (has_name (name_below (a ∷ xs)))) (r ∷ ret))))
        unnamed
    ∙ ap
        (λ found. some (
          drop_name (a ∷ xs)
          ++ above_type func (or_name found (name_below (r ∷ ret)))
              (without_name (not (has_name found)) (r ∷ ret))))
        named
