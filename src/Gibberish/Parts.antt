-- ===== src/Gibberish/Parts.antt =====
-- Parentheses in the texts that src/gibberish.c writes.
use cdecl.Prelude.{
  ℕ, Bool, true, false, [], ◌∷◌, ◌++◌, Option, none, some, String, refl, ◌==◌, if◌then◌else◌,
  bit_and,
}
use cdecl.Types.{t_mask_qualifier}
use cdecl.Output.{Out, text, type_name, Balanced}
use cdecl.Output.Laws.{++-Balanced}
use cdecl.Ast.{Node, ArraySize, size_none, size_variable, size}
use cdecl.Gibberish.{
  GKind, g_cast, g_declare, is_cast, shown_name, size_text, type_if, c_ast_gibberish_array_size,
  name_text, qual_rest,
}

pub type_if-Balanced : (t : ℕ) → (o : Out) → Balanced o → Balanced (type_if t o)
type_if-Balanced t o h = if_part (t == 0)
  where
    if_part : (b : Bool) → Balanced (if b then [] else (type_name t ∷ o))
    if_part true = λ d. refl
    if_part false = h

pub name_text-Balanced : (name : Option String) → Balanced (name_text name)
name_text-Balanced none = λ d. refl
name_text-Balanced (some name) = λ d. refl

pub size_text-Balanced : (s : ArraySize) → Balanced (size_text s)
size_text-Balanced size_none = λ d. refl
size_text-Balanced size_variable = λ d. refl
size_text-Balanced (size k) = λ d. refl

pub array_size-Balanced : (s : ArraySize) → (t : ℕ) → Balanced (c_ast_gibberish_array_size s t)
array_size-Balanced s t =
    ++-Balanced ((text "[" ∷ type_if t (text " " ∷ [])) ++ size_text s) (text "]" ∷ [])
      (++-Balanced (text "[" ∷ type_if t (text " " ∷ [])) (size_text s)
        (type_if-Balanced t (text " " ∷ []) (λ d. refl)) (size_text-Balanced s))
      (λ d. refl)

pub qual_rest-Balanced : (g : GKind) → (n : Node) → Balanced (qual_rest g n)
qual_rest-Balanced g n =
    ++-Balanced
      (type_if (bit_and n.type t_mask_qualifier) (if is_cast g then [] else (text " " ∷ [])))
      (name_text (shown_name g n.name))
      (type_if-Balanced (bit_and n.type t_mask_qualifier)
        (if is_cast g then [] else (text " " ∷ [])) (space g))
      (name_text-Balanced (shown_name g n.name))
  where
    space : (g : GKind) → Balanced (if is_cast g then [] else (text " " ∷ []))
    space g_cast = λ d. refl
    space g_declare = λ d. refl
