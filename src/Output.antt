-- ===== src/Output.antt =====
-- What the program writes, as the pieces that it hands to the output functions one after the other:
-- a text, a number printed by "%d", or what c_type_name, c_kind_name or c_lang_name give. A written
-- "(" or ")" is a piece of its own.
pub mod Laws
use cdecl.Prelude.{ℕ, zero, suc, String, List, [], ◌∷◌, Option, none, some, ◌≡◌}
use cdecl.CKind.{CKind}

pub data Piece : Type 0 where
  text : String → Piece
  number : ℕ → Piece
  type_name : ℕ → Piece
  kind_name : CKind → Piece
  lang_name : ℕ → Piece
  open_paren close_paren : Piece

abbrev pub Out : Type 0
Out = List Piece

-- How many parentheses are open after an output, `d` of them open before it; `none` when one is
-- closed that is not open.
abbrev pub depth_after : ℕ → Out → Option ℕ
depth_after d [] = some d
depth_after d (open_paren ∷ o) = depth_after (suc d) o
depth_after zero (close_paren ∷ o) = none
depth_after (suc d) (close_paren ∷ o) = depth_after d o
depth_after d (text s ∷ o) = depth_after d o
depth_after d (number n ∷ o) = depth_after d o
depth_after d (type_name t ∷ o) = depth_after d o
depth_after d (kind_name k ∷ o) = depth_after d o
depth_after d (lang_name l ∷ o) = depth_after d o

-- Every parenthesis is closed, and none is closed that is not open.
abbrev pub Balanced : Out → Type 0
Balanced o = (d : ℕ) → depth_after d o ≡ some d

-- Something is written, and its parentheses match.
abbrev pub Fine : Option Out → Type 0
Fine none = ⊥
Fine (some o) = Balanced o
