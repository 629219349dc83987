-- ===== src/English.antt =====
-- src/english.c: an AST as pseudo-English. A visitor writes its node and the visit goes down the
-- chain; an argument is written by a visit of its own.
mod Parts
pub mod Laws
mod Tests
use cdecl.Prelude.{
  ℕ, ◌==◌, Bool, true, false, not, List, [], ◌∷◌, ◌++◌, Option, none, some, String, if◌then◌else◌,
  bit_and,
}
use cdecl.Bits.{compl64}
use cdecl.Types.{t_mask_qualifier}
use cdecl.Output.{Out, text, number, type_name, kind_name, open_paren, close_paren}
use cdecl.Ast.{
  Ast, Args, Node, ArraySize, size_none, size_variable, size, placeholder, builtin, ecsu, untyped,
  typedef_type, variadic, array, block, function, pointer, pointer_to_member, reference,
  rvalue_reference, no_args, arg, kind,
}
use cdecl.Ast.Visit.{c_ast_name_down}

-- A visitor that fails an assertion ends the program: `none`.
infixr 20 ◌then_write◌
abbrev pub ◌then_write◌ : Option Out → Option Out → Option Out
none then_write next = none
some o then_write none = none
some o then_write some p = some (o ++ p)

abbrev pub out_if : Bool → Out → Out
out_if test o = if test then o else []

-- `if ( type != T_NONE ) FPRINTF( "%s ", c_type_name( type ) )`.
abbrev pub type_space : ℕ → Out
type_space type = out_if (not (type == 0)) (type_name type ∷ text " " ∷ [])

abbrev pub variable_length : ArraySize → Out
variable_length size_variable = text "variable" ∷ text " " ∷ text "length" ∷ text " " ∷ []
variable_length _ = []

abbrev pub array_size : ArraySize → Out
array_size (size k) = number k ∷ text " " ∷ []
array_size _ = []

-- `if ( param->print_names && ast->name != NULL ) FPRINTF( " %s", ast->name )`.
abbrev pub print_name : Bool → Option String → Out
print_name true (some name) = text " " ∷ text name ∷ []
print_name print_names _ = []

abbrev pub qualifier_of : Node → ℕ
qualifier_of n = bit_and n.type t_mask_qualifier

abbrev pub name_as : Option String → Out
name_as (some name) = text name ∷ text " as " ∷ []
name_as none = []

-- The name of an argument, unless it is K_NAME.
abbrev pub argument_name : Ast → Out
argument_name (untyped n) = []
argument_name a = name_as (c_ast_name_down a)

abbrev pub name_or_nothing : Option String → Out
name_or_nothing (some name) = text name ∷ []
name_or_nothing none = []

abbrev pub member_of : Node → String → Out
member_of n class_name =
    type_space (qualifier_of n)
    ++ (text "pointer"
        ∷ text " "
        ∷ text "to"
        ∷ text " "
        ∷ text "member"
        ∷ text " "
        ∷ text "of"
        ∷ text " "
        ∷ [])
    ++ type_space (bit_and n.type (compl64 t_mask_qualifier))
    ++ (text class_name ∷ text " " ∷ [])

abbrev pub pointing : Ast → Node → Out
pointing ast n =
    type_space (qualifier_of n) ++ (kind_name (kind ast) ∷ text " " ∷ text "to" ∷ text " " ∷ [])

-- c_ast_visitor_english at a node, and the visit of what is below it. The first argument is
-- written with no ", " before it.
unfoldable mutual
  pub english_down : Bool → Ast → Option Out
  english_down print_names (array n s t a) =
      some (
        type_space n.type
        ++ variable_length s
        ++ (text "array" ∷ text " " ∷ [])
        ++ type_space t
        ++ array_size s
        ++ (text "of" ∷ text " " ∷ []))
      then_write english_down print_names a
  english_down print_names (block n args a) =
      some (type_space n.type ++ (kind_name (kind (block n args a)) ∷ []))
      then_write english_args_part args
      then_write some (text " " ∷ text "returning" ∷ text " " ∷ [])
      then_write english_down print_names a
  english_down print_names (function n args a) =
      some (type_space n.type ++ (kind_name (kind (function n args a)) ∷ []))
      then_write english_args_part args
      then_write some (text " " ∷ text "returning" ∷ text " " ∷ [])
      then_write english_down print_names a
  english_down print_names (builtin n) = some (type_name n.type ∷ print_name print_names n.name)
  english_down print_names (ecsu n ecsu_name) =
      some (type_name n.type ∷ text " " ∷ text ecsu_name ∷ print_name print_names n.name)
  english_down print_names (untyped n) = some (name_or_nothing n.name)
  english_down print_names (placeholder n) = none
  english_down print_names (pointer n a) =
      some (pointing (pointer n a) n) then_write english_down print_names a
  english_down print_names (reference n a) =
      some (pointing (reference n a) n) then_write english_down print_names a
  english_down print_names (rvalue_reference n a) =
      some (pointing (rvalue_reference n a) n) then_write english_down print_names a
  english_down print_names (pointer_to_member n class_name a) =
      some (member_of n class_name) then_write english_down print_names a
  english_down print_names (typedef_type n typedef_name a) = some (text typedef_name ∷ [])
  english_down print_names (variadic n) = some (kind_name (kind (variadic n)) ∷ [])

  -- The arguments in parentheses, if there are any.
  pub english_args_part : Args → Option Out
  english_args_part no_args = some []
  english_args_part (arg a rest) =
      some (text " " ∷ open_paren ∷ argument_name a)
      then_write english_down false a
      then_write english_args rest
      then_write some (close_paren ∷ [])

  -- The arguments after the first.
  pub english_args : Args → Option Out
  english_args no_args = some []
  english_args (arg a rest) =
      some (text ", " ∷ argument_name a)
      then_write english_down false a
      then_write english_args rest

unfoldable pub c_ast_english : Ast → Option Out
unfolding english_down c_ast_name_down
c_ast_english ast = english_down true ast
