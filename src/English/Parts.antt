-- ===== src/English/Parts.antt =====
-- Parentheses in what c_ast_visitor_english of src/english.c writes at one node.
use cdecl.Prelude.{
  ℕ, suc, Bool, true, false, [], ◌∷◌, ◌++◌, Option, none, some, refl, ◌∙◌, String, not, ◌==◌,
  bit_and,
}
use cdecl.Bits.{compl64}
use cdecl.Types.{t_mask_qualifier}
use cdecl.Output.{Fine, Out, text, type_name, kind_name, open_paren, close_paren, Balanced}
use cdecl.Output.Laws.{++-Balanced, depth_after-++}
use cdecl.Ast.{
  Ast, Node, ArraySize, size_none, size_variable, size, placeholder, builtin, ecsu, untyped,
  typedef_type, variadic, array, block, function, pointer, pointer_to_member, reference,
  rvalue_reference, kind,
}
use cdecl.Ast.Visit.{c_ast_name_down}
use cdecl.CKind.{CKind}
use cdecl.English.{
  ◌then_write◌, out_if, type_space, print_name, name_or_nothing, variable_length, array_size,
  name_as, argument_name, qualifier_of, pointing, member_of,
}

pub then_write-Fine : (x y : Option Out) → Fine x → Fine y → Fine (x then_write y)
then_write-Fine none y f g = f
then_write-Fine (some o) none f g = g
then_write-Fine (some o) (some p) f g = ++-Balanced o p f g

pub out_if-Balanced : (b : Bool) → (o : Out) → Balanced o → Balanced (out_if b o)
out_if-Balanced true o h = h
out_if-Balanced false o h = λ d. refl

pub type_space-Balanced : (type : ℕ) → Balanced (type_space type)
type_space-Balanced type =
    out_if-Balanced (not (type == 0)) (type_name type ∷ text " " ∷ []) (λ d. refl)

pub print_name-Balanced : (b : Bool) → (name : Option String) → Balanced (print_name b name)
print_name-Balanced true (some name) = λ d. refl
print_name-Balanced true none = λ d. refl
print_name-Balanced false name = λ d. refl

pub name_or_nothing-Balanced : (name : Option String) → Balanced (name_or_nothing name)
name_or_nothing-Balanced (some name) = λ d. refl
name_or_nothing-Balanced none = λ d. refl

pub variable_length-Balanced : (s : ArraySize) → Balanced (variable_length s)
variable_length-Balanced size_none = λ d. refl
variable_length-Balanced size_variable = λ d. refl
variable_length-Balanced (size k) = λ d. refl

pub array_size-Balanced : (s : ArraySize) → Balanced (array_size s)
array_size-Balanced size_none = λ d. refl
array_size-Balanced size_variable = λ d. refl
array_size-Balanced (size k) = λ d. refl

pub name_as-Balanced : (name : Option String) → Balanced (name_as name)
name_as-Balanced (some name) = λ d. refl
name_as-Balanced none = λ d. refl

pub argument_name-Balanced : (a : Ast) → Balanced (argument_name a)
argument_name-Balanced (untyped n) = λ d. refl
argument_name-Balanced (placeholder n) = name_as-Balanced (c_ast_name_down (placeholder n))
argument_name-Balanced (builtin n) = name_as-Balanced (c_ast_name_down (builtin n))
argument_name-Balanced (ecsu n s) = name_as-Balanced (c_ast_name_down (ecsu n s))
argument_name-Balanced (typedef_type n s a) =
    name_as-Balanced (c_ast_name_down (typedef_type n s a))
argument_name-Balanced (variadic n) = name_as-Balanced (c_ast_name_down (variadic n))
argument_name-Balanced (array n s t a) = name_as-Balanced (c_ast_name_down (array n s t a))
argument_name-Balanced (block n args a) = name_as-Balanced (c_ast_name_down (block n args a))
argument_name-Balanced (function n args a) = name_as-Balanced (c_ast_name_down (function n args a))
argument_name-Balanced (pointer n a) = name_as-Balanced (c_ast_name_down (pointer n a))
argument_name-Balanced (pointer_to_member n s a) =
    name_as-Balanced (c_ast_name_down (pointer_to_member n s a))
argument_name-Balanced (reference n a) = name_as-Balanced (c_ast_name_down (reference n a))
argument_name-Balanced (rvalue_reference n a) =
    name_as-Balanced (c_ast_name_down (rvalue_reference n a))

pub array-Balanced :
    (n : Node)
    → (s : ArraySize) → (t : ℕ)
    → Balanced (
        type_space n.type
        ++ variable_length s
        ++ (text "array" ∷ text " " ∷ [])
        ++ type_space t
        ++ array_size s
        ++ (text "of" ∷ text " " ∷ []))
array-Balanced n s t =
    let start = type_space n.type ++ variable_length s in
    let array_part = start ++ (text "array" ∷ text " " ∷ []) in
    let type_part = array_part ++ type_space t in
    let size_part = type_part ++ array_size s in
    ++-Balanced size_part (text "of" ∷ text " " ∷ [])
      (++-Balanced type_part (array_size s)
        (++-Balanced array_part (type_space t)
          (++-Balanced start (text "array" ∷ text " " ∷ [])
            (++-Balanced (type_space n.type) (variable_length s) (type_space-Balanced n.type)
              (variable_length-Balanced s))
            (λ d. refl))
          (type_space-Balanced t))
        (array_size-Balanced s))
      (λ d. refl)

pub pointing-Balanced : (ast : Ast) → (n : Node) → Balanced (pointing ast n)
pointing-Balanced ast n =
    ++-Balanced (type_space (qualifier_of n))
      (kind_name (kind ast) ∷ text " " ∷ text "to" ∷ text " " ∷ [])
      (type_space-Balanced (qualifier_of n)) (λ d. refl)

pub member_of-Balanced : (n : Node) → (s : String) → Balanced (member_of n s)
member_of-Balanced n s =
    let qualifier_part = type_space (qualifier_of n) in
    let member =
      text "pointer"
      ∷ text " "
      ∷ text "to"
      ∷ text " "
      ∷ text "member"
      ∷ text " "
      ∷ text "of"
      ∷ text " "
      ∷ [] in
    let class_part = type_space (bit_and n.type (compl64 t_mask_qualifier)) in
    ++-Balanced (qualifier_part ++ member ++ class_part) (text s ∷ text " " ∷ [])
      (++-Balanced (qualifier_part ++ member) class_part
        (++-Balanced qualifier_part member (type_space-Balanced (qualifier_of n)) (λ d. refl))
        (type_space-Balanced (bit_and n.type (compl64 t_mask_qualifier))))
      (λ d. refl)

-- A function or a block, its arguments written between what is before and behind them.
pub returning-Fine :
    (n : Node)
    → (k : CKind) → (x y : Option Out) → Fine x
    → Fine y
    → Fine (
        some (type_space n.type ++ (kind_name k ∷ []))
        then_write x
        then_write some (text " " ∷ text "returning" ∷ text " " ∷ [])
        then_write y)
returning-Fine n k x y f g =
    let last = some (text " " ∷ text "returning" ∷ text " " ∷ []) then_write y in
    let last_fine =
      then_write-Fine (some (text " " ∷ text "returning" ∷ text " " ∷ [])) y (λ d. refl) g in
    then_write-Fine (some (type_space n.type ++ (kind_name k ∷ []))) (x then_write last)
      (++-Balanced (type_space n.type) (kind_name k ∷ []) (type_space-Balanced n.type) (λ d. refl))
      (then_write-Fine x last f last_fine)

-- The arguments in parentheses.
pub args_part-Fine :
    (a : Ast)
    → (x y : Option Out) → Fine x
    → Fine y
    → Fine (
        some (text " " ∷ open_paren ∷ argument_name a)
        then_write x
        then_write y
        then_write some (close_paren ∷ []))
args_part-Fine a none y f g = f
args_part-Fine a (some o) none f g = g
args_part-Fine a (some o) (some p) f g = λ d.
    depth_after-++ (suc d) (suc d) (argument_name a) (o ++ (p ++ (close_paren ∷ [])))
      (argument_name-Balanced a (suc d))
    ∙ depth_after-++ (suc d) (suc d) o (p ++ (close_paren ∷ [])) (f (suc d))
    ∙ depth_after-++ (suc d) (suc d) p (close_paren ∷ []) (g (suc d))

-- An argument behind another.
pub next_arg-Fine :
    (a : Ast)
    → (x y : Option Out) → Fine x
    → Fine y
    → Fine (some (text ", " ∷ argument_name a) then_write x then_write y)
next_arg-Fine a x y f g =
    then_write-Fine (some (text ", " ∷ argument_name a)) (x then_write y) (argument_name-Balanced a)
      (then_write-Fine x y f g)
