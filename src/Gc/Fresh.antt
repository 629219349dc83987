-- ===== src/Gc/Fresh.antt =====
-- The identities that c_ast_new gives.
use cdecl.Prelude.{ℕ, ◌≤◌, List, [], ◌∷◌}
use cdecl.Gc.{Store}
use cdecl.Gc.Kept.{ids}
use cdecl.Gc.Chain.{Distinct}

abbrev pub AllUpTo : ℕ → List ℕ → Type 0
AllUpTo n [] = Unit
AllUpTo n (x ∷ xs) = (x ≤ n) × AllUpTo n xs

-- No two nodes have the same identity, and none has one that is still to come.
abbrev pub IsFresh : Store → Type 0
IsFresh s = Distinct (ids s.cells) × AllUpTo s.next_id (ids s.cells)
