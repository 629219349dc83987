-- ===== src/Gc/Collect.antt =====
-- What c_ast_gc frees of what the building of ASTs allocates.
use cdecl.Prelude.{
  ℕ, suc, ◌-◌, ltb, ==_iff, Bool, true, false, length, List, [], ◌∷◌, ◌++◌, Option, none, some,
  if◌then◌else◌, ◌≡◌, refl, sym, ap, ◌∙◌, arith,
}
use cdecl.Gc.{
  Cell, Store, at, remove, ask, free_each, one_freed, free_children, c_ast_free_impl, c_ast_gc,
}
use cdecl.Gc.Kept.{ids, Built, IsKept, Built-IsKept}

-- The store with these nodes and nothing to report wrong.
abbrev counted : List Cell → List ℕ → ℕ → Store
counted cells gc next = record {
  cells = cells;
  c_ast_count = length (ids cells);
  c_ast_gc_head = gc;
  next_id = next;
}

at_first : (c : Cell) (cells : List Cell) → at c.id (c ∷ cells) ≡ some c
unfolding at
at_first c cells = rw ((==_iff c.id c.id).1 refl) refl

remove_first : (c : Cell) (cells : List Cell) → remove c.id (c ∷ cells) ≡ cells
unfolding remove
remove_first c cells = rw ((==_iff c.id c.id).1 refl) refl

-- A store without a node.
abbrev pub taken : ℕ → ℕ → Store → Store
taken id n s = record s { cells = remove id s.cells; c_ast_count = n }

freed_step : (id n : ℕ) (s : Store) → s.c_ast_count ≡ suc n → one_freed id s ≡ some (taken id n s)
unfolding one_freed
freed_step id n s e =
    ap (λ b. if b then some (taken id (s.c_ast_count - 1) s) else none) positive
    ∙ ap (λ k. some (taken id k s)) (omega (arith, e))
  where
    positive : ltb 0 s.c_ast_count ≡ true
    positive = ground (arith, e)

-- One node, then what is below it.
pub free_step :
    (fuel id : ℕ) (recursive : Bool) (s : Store) (cell : Cell) (n : ℕ)
    → at id s.cells ≡ some cell
    → s.c_ast_count ≡ suc n
    → c_ast_free_impl (suc fuel) id recursive s ≡ (
        if recursive
        then free_children (c_ast_free_impl fuel) cell (taken id n s)
        else some (taken id n s))
unfolding c_ast_free_impl
free_step fuel id recursive s cell n here e =
    ap
      (λ o. ask o (λ cell.
        ask (one_freed id s)
          (λ s. if recursive then free_children (c_ast_free_impl fuel) cell s else some s)))
      here
    ∙ ap
        (λ o.
          ask o (λ s. if recursive then free_children (c_ast_free_impl fuel) cell s else some s))
        (freed_step id n s e)

free_first :
    (c : Cell) (cells : List Cell) (gc : List ℕ) (next : ℕ)
    → c_ast_free_impl 1 c.id false (counted (c ∷ cells) gc next) ≡ some (counted cells gc next)
free_first c cells gc next =
    free_step 0 c.id false (counted (c ∷ cells) gc next) c (length (ids cells)) (at_first c cells)
      refl
    ∙ ap
        (λ left. some (record {
          cells = left;
          c_ast_count = length (ids cells);
          c_ast_gc_head = gc;
          next_id = next;
        }))
        (remove_first c cells)

free_all :
    (fresh old : List Cell) (gc : List ℕ) (next : ℕ)
    → free_each (λ id s. c_ast_free_impl 1 id false s) (ids fresh) (counted (fresh ++ old) gc next)
      ≡ some (counted old gc next)
unfolding free_each
free_all [] old gc next = refl
free_all (c ∷ fresh) old gc next =
    ap (λ o. ask o (free_each (λ id s. c_ast_free_impl 1 id false s) (ids fresh)))
      (free_first c (fresh ++ old) gc next)
    ∙ free_all fresh old gc next

split :
    (cells : List Cell) (xs ys : List ℕ)
    → ids cells ≡ xs ++ ys
    → (fresh : List Cell) × (old : List Cell) × (cells ≡ fresh ++ old)
      × (ids fresh ≡ xs)
      × (ids old ≡ ys)
split cells [] ys e = ([], cells, refl, refl, e)
split [] (x ∷ xs) ys e = cc
split (c ∷ cells) (x ∷ xs) ys e =
    let (fresh, old, cells_whole, first, second) = split cells xs ys cc in
    (c ∷ fresh, old, ap (λ l. c ∷ l) cells_whole, cc, second)

length-ids : (cells : List Cell) → length (ids cells) ≡ length cells
length-ids [] = refl
length-ids (c ∷ cells) = ap suc (length-ids cells)

abbrev with_count : Store → ℕ → Store
with_count s n = record s { c_ast_count = n }

abbrev none_left : Store → Option Store
none_left s = some (record s { c_ast_gc_head = [] })

collect :
    (t : Store) (fresh old : List Cell)
    → t.cells ≡ fresh ++ old
    → ids fresh ≡ t.c_ast_gc_head
    → t.c_ast_count ≡ length (ids t.cells)
    → c_ast_gc t ≡ some (counted old [] t.next_id)
unfolding c_ast_gc
collect t fresh old cells_whole first count =
    ap c_ast_gc store ∙ ap (λ o. ask o none_left) (free_all fresh old (ids fresh) t.next_id)
  where
    store : t ≡ counted (fresh ++ old) (ids fresh) t.next_id
    store =
        ap (with_count t) count
        ∙ ap (λ l. counted l t.c_ast_gc_head t.next_id) cells_whole
        ∙ ap (λ g. counted (fresh ++ old) g t.next_id) (sym first)

-- From a store that counts its nodes and has none to collect: whatever nodes a command allocates
-- and links, c_ast_gc frees those nodes and no others; it never fails, and leaves the nodes that
-- were allocated before and their number, and nothing to collect.
pub c_ast_gc_lem :
    (s t : Store)
    → s.c_ast_gc_head ≡ []
    → s.c_ast_count ≡ length s.cells
    → Built s t
    → (u : Store) × (c_ast_gc t ≡ some u)
      × (ids u.cells ≡ ids s.cells)
      × (u.c_ast_count ≡ s.c_ast_count)
      × (u.c_ast_gc_head ≡ [])
c_ast_gc_lem s t empty count b =
    let kept = Built-IsKept (ids s.cells) s t start b in
    let (fresh, old, cells_whole, first, second) =
      split t.cells t.c_ast_gc_head (ids s.cells) kept.0 in
    (
      counted old [] t.next_id,
      collect t fresh old cells_whole first kept.1,
      second,
      ap length second ∙ length-ids s.cells ∙ sym count,
      refl,
    )
  where
    start : IsKept (ids s.cells) s
    start = (ap (λ gc. gc ++ ids s.cells) (sym empty), count ∙ sym (length-ids s.cells))
