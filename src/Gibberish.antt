-- ===== src/Gibberish.antt =====
-- src/gibberish.c: an AST as a C or C++ declaration. `ast->parent` is the list of the nodes above;
-- the root of a declaration, a cast or an argument has none. What the program prints of a node's
-- arguments hangs on the node and on what is printed, a cast or a declaration, and on nothing else:
-- it is made with the node's entry in that list.
pub mod Impl
mod Parts
pub mod Laws
pub mod Steps
pub mod Balance
pub mod Flaws
mod Tests
use cdecl.Prelude.{
  ℕ, ◌==◌, Bool, true, false, not, ◌&&◌, List, [], ◌∷◌, ◌++◌, map, Option, none, some, String,
  if◌then◌else◌, bit_and, bit_or,
}
use cdecl.Bits.{compl64, has}
use cdecl.Types.{
  t_mask_qualifier, t_mask_storage, t_mask_ref_qualifier, t_final, t_override, t_pure_virtual,
  t_reference, t_enum, t_struct, t_class, t_typedef_type,
}
use cdecl.CKind.{CKind, bit}
use cdecl.Output.{Out, text, number, type_name, kind_name, open_paren, close_paren}
use cdecl.Ast.{
  Ast, Args, Node, ArraySize, size_none, size_variable, size, placeholder, builtin, ecsu, untyped,
  typedef_type, variadic, array, block, function, pointer, pointer_to_member, reference,
  rvalue_reference, no_args, arg, kind, node, type_of, name_of,
}
use cdecl.Ast.Visit.{c_ast_name_up, c_ast_find_kind_up}

-- g_kind_t.
pub data GKind : Type 0 where
  g_cast g_declare : GKind

abbrev pub is_cast : GKind → Bool
is_cast g_cast = true
is_cast g_declare = false

-- A node that is a parent, with what c_ast_gibberish_func_args prints for it: `none` when that
-- fails an assertion.
pub record Entry : Type 0 where
  pub ast : Ast
  pub args_out : Option Out

abbrev pub entry : Ast → Option Out → Entry
entry ast o = record { ast = ast; args_out = o }

-- g_param_t. `leaf` is the leaf's parent with the nodes above it; `gkind` and the root are
-- arguments of the functions.
pub record GParam : Type 0 where
  pub out : Out
  pub leaf : Option (List Entry)
  pub postfix : Bool
  pub space : Bool

abbrev pub g_param_init : GParam
g_param_init = record { out = []; leaf = none; postfix = false; space = false }

abbrev pub write : Out → GParam → GParam
write o p = record p { out = p.out ++ o }

abbrev pub set_leaf : Option (List Entry) → List Entry → GParam → Option GParam
set_leaf none up p = some (record p { leaf = some up })
set_leaf (some chain) up p = none

-- The assertion of g_param_leaf: no leaf was met yet.
abbrev pub g_param_leaf : List Entry → GParam → Option GParam
g_param_leaf up p = set_leaf p.leaf up p

abbrev pub g_param_space : GParam → GParam
g_param_space p = if p.space then p else record p { out = p.out ++ (text " " ∷ []); space = true }

-- The test `ast->name != NULL && param->gkind != G_CAST`.
abbrev pub shown_name : GKind → Option String → Option String
shown_name g_cast name = none
shown_name g_declare name = name

abbrev pub space_name : Option String → GParam → GParam
space_name none p = p
space_name (some name) p = write (text name ∷ []) (g_param_space p)

abbrev pub c_ast_gibberish_space_name : GKind → Ast → GParam → GParam
c_ast_gibberish_space_name g ast p = space_name (shown_name g (name_of ast)) p

abbrev pub size_text : ArraySize → Out
size_text size_none = []
size_text size_variable = text "*" ∷ []
size_text (size k) = number k ∷ []

abbrev pub type_if : ℕ → Out → Out
type_if type o = if type == 0 then [] else (type_name type ∷ o)

abbrev pub c_ast_gibberish_array_size : ArraySize → ℕ → Out
c_ast_gibberish_array_size s t =
    (text "[" ∷ type_if t (text " " ∷ [])) ++ size_text s ++ (text "]" ∷ [])

-- What stands for the node itself in c_ast_gibberish_qual_name; `none` fails the assertion.
abbrev pub qual_sign : Ast → Option Out
qual_sign (pointer n a) = some (text "*" ∷ [])
qual_sign (pointer_to_member n s a) = some (text s ∷ text "::*" ∷ [])
qual_sign (reference n a) = some (text "&" ∷ [])
qual_sign (rvalue_reference n a) = some (text "&&" ∷ [])
qual_sign _ = none

abbrev pub name_text : Option String → Out
name_text none = []
name_text (some name) = text name ∷ []

abbrev pub qual_rest : GKind → Node → Out
qual_rest g n =
    type_if (bit_and n.type t_mask_qualifier) (if is_cast g then [] else (text " " ∷ []))
    ++ name_text (shown_name g n.name)

abbrev pub c_ast_gibberish_qual_name : GKind → Ast → GParam → Option GParam
c_ast_gibberish_qual_name g ast p = elim (qual_sign ast) [
  | some sign ↦ some (write (sign ++ qual_rest g (node ast)) p)
  | none ↦ none
]

-- What c_ast_gibberish_postfix prints on its way back: an array's size, a function's arguments.
abbrev pub own_part : Ast → Option Out → Option Out
own_part (array n s t a) o = some (c_ast_gibberish_array_size s t)
own_part (block n args a) o = o
own_part (function n args a) o = o
own_part _ o = some []

abbrev pub write_some : Option Out → GParam → Option GParam
write_some none p = none
write_some (some o) p = some (write o p)

abbrev pub own_postfix : Entry → GParam → Option GParam
own_postfix e p = write_some (own_part e.ast e.args_out) p

infixl 20 ◌and_then◌
abbrev pub ◌and_then◌ : Option GParam → (GParam → Option GParam) → Option GParam
none and_then f = none
some p and_then f = f p

abbrev pub is_block : Ast → Bool
is_block (block n args a) = true
is_block _ = false

abbrev pub root_part : Bool → GKind → Ast → GParam → GParam
root_part true g ast p =
    write (close_paren ∷ [])
      (c_ast_gibberish_space_name g ast (write (open_paren ∷ text "^" ∷ []) p))
root_part false g ast p = c_ast_gibberish_space_name g ast p

-- The root has the name.
abbrev pub root_name : GKind → Ast → GParam → GParam
root_name g ast p = root_part (is_block ast) g ast p

-- The parenthesis before what a pointer or a reference points to, and the one behind it.
abbrev pub opening : Ast → Out
opening (block n args a) = open_paren ∷ text "^" ∷ []
opening (pointer n a) = []
opening _ = open_paren ∷ []

abbrev pub closing : Ast → Out
closing (pointer n a) = []
closing (pointer_to_member n s a) = []
closing _ = close_paren ∷ []

-- The three ways of c_ast_gibberish_postfix at a parent.
pub data Way : Type 0 where
  further between nowhere : Way

abbrev pub way : Ast → Way
way (array n s t a) = further
way (block n args a) = further
way (function n args a) = further
way (pointer n a) = between
way (pointer_to_member n s a) = between
way (reference n a) = between
way _ = nowhere

-- `rest` is what the call for the parent does, made only where the parent has a parent for a
-- pointer or a reference.
abbrev pub at_parent :
    GKind → Way → Ast → Ast → Bool → (GParam → Option GParam) → GParam → Option GParam
at_parent g further ast parent has_parent rest p = rest p
at_parent g between ast parent has_parent rest p =
    c_ast_gibberish_qual_name g parent (write (opening ast) p)
    and_then (λ q. elim has_parent [ true ↦ rest q | false ↦ some q ])
    and_then (λ q. some (write (closing ast) q))
at_parent g nowhere ast parent has_parent rest p = some p

abbrev pub is_nonempty : List Entry → Bool
is_nonempty [] = false
is_nonempty (e ∷ es) = true

-- c_ast_gibberish_postfix at the first node of a list, the nodes above it behind it. The empty list
-- is the null pointer, which fails the assertion.
unfoldable pub c_ast_gibberish_postfix : GKind → List Entry → GParam → Option GParam
c_ast_gibberish_postfix g [] p = none
c_ast_gibberish_postfix g (e ∷ []) p = own_postfix e (root_name g e.ast p)
c_ast_gibberish_postfix g (e ∷ parent ∷ up) p =
    at_parent g (way parent.ast) e.ast parent.ast (is_nonempty up)
      (λ q. c_ast_gibberish_postfix g (parent ∷ up) q) p
    and_then own_postfix e
