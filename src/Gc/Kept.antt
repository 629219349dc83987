-- ===== src/Gc/Kept.antt =====
-- What the building of ASTs keeps of the list of nodes to collect, and of their number.
use mathlib.Core.Path.{subst}
use mathlib.Core.Option.{some-injective}
use cdecl.Prelude.{
  ℕ, suc, ◌==◌, Bool, true, false, length, List, [], ◌∷◌, ◌++◌, Option, none, some, if◌then◌else◌,
  ◌≡◌, refl, sym, ap, ◌∙◌, Bool-cases, inl, inr,
}
use cdecl.CKind.{CKind, c_kind_is_parent}
use cdecl.Gc.{Cell, Store, at, update, c_ast_new, ask, c_ast_set_parent, c_ast_list_append}

abbrev pub ids : List Cell → List ℕ
ids [] = []
ids (c ∷ cells) = c.id ∷ ids cells

-- The store that the building of ASTs makes of a store.
pub data Built (s : Store) : Store → Type 0 where
  built_nothing : Built s s
  built_node : {t : Store} (kind : CKind) → Built s t → Built s (c_ast_new kind t)
  built_parent :
      {t u : Store} (child parent : ℕ)
      → Built s t
      → c_ast_set_parent child parent t ≡ some u
      → Built s u
  built_arg :
      {t u : Store} (func arg : ℕ) → Built s t → c_ast_list_append func arg t ≡ some u → Built s u

-- Every node is counted, and those that are not to be collected come last.
abbrev pub IsKept : List ℕ → Store → Type 0
IsKept kept s = (ids s.cells ≡ s.c_ast_gc_head ++ kept) × (s.c_ast_count ≡ length (ids s.cells))

pub ids-update :
    (id : ℕ) (f : Cell → Cell)
    → ((c : Cell) → (f c).id ≡ c.id)
    → (cells : List Cell) → ids (update id f cells) ≡ ids cells
unfolding update
ids-update id f same [] = refl
ids-update id f same (c ∷ cells) = elim (Bool-cases (c.id == id)) [
  | inl e ↦ rw (e, same c) refl
  | inr e ↦ rw (e, ids-update id f same cells) refl
]

IsKept-update :
    (kept : List ℕ) (id : ℕ) (f : Cell → Cell)
    → ((c : Cell) → (f c).id ≡ c.id)
    → (s : Store) → IsKept kept s
    → IsKept kept (record s { cells = update id f s.cells })
IsKept-update kept id f same s h =
    (ids-update id f same s.cells ∙ h.0, h.1 ∙ ap length (sym (ids-update id f same s.cells)))

pub asked :
    {A B : Type 0} (o : Option A) (next : A → Option B) (b : B)
    → ask o next ≡ some b
    → (a : A) × (next a ≡ some b)
asked none next b h = cc
asked (some a) next b h = (a, h)

IsKept-set_parent :
    (kept : List ℕ) (child parent : ℕ) (s t : Store)
    → IsKept kept s
    → c_ast_set_parent child parent s ≡ some t
    → IsKept kept t
unfolding c_ast_set_parent
IsKept-set_parent kept child parent s t h e =
    let (_, e) = asked (at child s.cells) _ t e in
    let (c, e) = asked (at parent s.cells) _ t e in by_parent c (c_kind_is_parent c.kind) e
  where
    next : Store
    next = record s { cells = update parent (λ c. record c { of_ast = some child }) s.cells }

    by_parent : (c : Cell) (b : Bool) → (if b then some next else none) ≡ some t → IsKept kept t
    by_parent c true e =
        subst (IsKept kept) (some-injective next t e) (IsKept-update kept parent _ (λ c. refl) s h)
    by_parent c false e = cc

IsKept-list_append :
    (kept : List ℕ) (func arg : ℕ) (s t : Store)
    → IsKept kept s
    → c_ast_list_append func arg s ≡ some t
    → IsKept kept t
unfolding c_ast_list_append
IsKept-list_append kept func arg s t h e =
    let (_, e) = asked (at arg s.cells) _ t e in
    let (c, e) = asked (at func s.cells) _ t e in
    subst (IsKept kept) (some-injective _ t e) (IsKept-update kept func _ (λ c. refl) s h)

pub Built-IsKept : (kept : List ℕ) (s t : Store) → IsKept kept s → Built s t → IsKept kept t
unfolding c_ast_new
Built-IsKept kept s t h built_nothing = h
Built-IsKept kept s t h (built_node {t = u} kind b) =
    let k = Built-IsKept kept s u h b in (ap (λ x. suc u.next_id ∷ x) k.0, ap suc k.1)
Built-IsKept kept s t h (built_parent {t = u} child parent b e) =
    IsKept-set_parent kept child parent u t (Built-IsKept kept s u h b) e
Built-IsKept kept s t h (built_arg {t = u} func arg b e) =
    IsKept-list_append kept func arg u t (Built-IsKept kept s u h b) e
