-- ===== src/Errors/Down.antt =====
-- The visits of a whole AST in src/errors.c: the error visitor and the type visitor down the chain
-- and into arguments, the warnings, the checks of a cast, and c_ast_check.

pub mod Types
pub mod Sound
mod Rounds
pub mod Complete
mod Tests
use cdecl.Prelude.{
  ℕ, ◌==◌, ltb, leb, Bool, true, false, not, ◌&&◌, List, [], ◌∷◌, ◌++◌, Option, none, some,
  if◌then◌else◌, bit_and,
}
use cdecl.Bits.{has}
use cdecl.Lang.{lang_none, lang_all, lang_c_knr, lang_cpp_11}
use cdecl.Types.Tables.{
  c_storage_info, c_type_info, c_qualifier_info, ok_storage_langs, ok_type_langs,
}
use cdecl.Types.{t_noreturn, t_register, t_mask_storage}
use cdecl.Types.Check.{check_found, c_type_check}
use cdecl.Output.{text, type_name, lang_name}
use cdecl.Ast.{
  Ast, Args, Node, placeholder, builtin, ecsu, untyped, typedef_type, variadic, array, block,
  function, pointer, pointer_to_member, reference, rvalue_reference, no_args, arg, loc_of, type_of,
}
use cdecl.Ast.Visit.{◌or_visit◌, c_ast_visit_down, c_ast_find_type}
use cdecl.Errors.Diag.{Env, Diag, Stop, error, assertion, print_error, print_error_hint, when}
use cdecl.Errors.FuncArgs.{
  CheckedArg, check_arg, builtin_arg, name_arg, variadic_arg_step, by_kind, arg_step, after_args,
  check_args_from, c_ast_check_func_args, c_ast_check_func_args_knr,
}
use cdecl.Errors.Nodes.{
  array_size_error, array_type_error, array_of_error, builtin_error, ecsu_error, function_error,
  return_error, args_error, block_error, pointer_error, reference_error, c_ast_visitor_error,
}

-- The part of c_ast_visitor_type before the switch.
unfoldable pub type_bits_error : Env → Node → Option Stop
type_bits_error env n =
    let ok_langs = c_type_check n.type env.opt_lang in
    if ok_langs == lang_all
    then none
    else if ok_langs == lang_none
    then print_error n.loc (text "\"" ∷ type_name n.type ∷ text "\" is illegal" ∷ [])
    else print_error n.loc
        (text "\"" ∷ type_name n.type ∷ text "\" is illegal in " ∷ lang_name env.opt_lang ∷ [])

-- The default case of the switch.
unfoldable pub noreturn_error : Node → Option Stop
noreturn_error n = when (has n.type t_noreturn) (
    print_error n.loc
      (text "\"" ∷ type_name t_noreturn ∷ text "\" can only appear on functions" ∷ []))

abbrev pub type_error : Env → Node → Option Stop
type_error env n = type_bits_error env n or_visit noreturn_error n

-- c_ast_visitor_type, sent down the chain from a node.
unfoldable mutual
  pub types_down : Env → Ast → Option Stop
  types_down env (function n args a) =
      type_bits_error env n or_visit types_args env args or_visit types_down env a
  types_down env (block n args a) =
      type_bits_error env n
      or_visit types_args env args
      or_visit noreturn_error n
      or_visit types_down env a
  types_down env (array n s t a) = type_error env n or_visit types_down env a
  types_down env (pointer n a) = type_error env n or_visit types_down env a
  types_down env (pointer_to_member n s a) = type_error env n or_visit types_down env a
  types_down env (reference n a) = type_error env n or_visit types_down env a
  types_down env (rvalue_reference n a) = type_error env n or_visit types_down env a
  types_down env (placeholder n) = type_error env n
  types_down env (builtin n) = type_error env n
  types_down env (ecsu n s) = type_error env n
  types_down env (untyped n) = type_error env n
  types_down env (typedef_type n s a) = type_error env n
  types_down env (variadic n) = type_error env n

  -- The loop over the arguments of a function or block.
  pub types_args : Env → Args → Option Stop
  types_args env no_args = none
  types_args env (arg a rest) = types_down env a or_visit types_args env rest

-- c_ast_visitor_error, sent down the chain from a node. An argument's verdict is that of
-- c_ast_check_errors: its errors, then its types.
unfoldable mutual
  pub errors_down : Env → Bool → Bool → Ast → Option Stop
  errors_down env is_func_arg at_root (function n args a) =
      c_ast_visitor_error env is_func_arg at_root (function n args a) (checked_args env args)
      or_visit errors_down env is_func_arg false a
  errors_down env is_func_arg at_root (block n args a) =
      c_ast_visitor_error env is_func_arg at_root (block n args a) (checked_args env args)
      or_visit errors_down env is_func_arg false a
  errors_down env is_func_arg at_root (array n s t a) =
      c_ast_visitor_error env is_func_arg at_root (array n s t a) []
      or_visit errors_down env is_func_arg false a
  errors_down env is_func_arg at_root (pointer n a) =
      c_ast_visitor_error env is_func_arg at_root (pointer n a) []
      or_visit errors_down env is_func_arg false a
  errors_down env is_func_arg at_root (pointer_to_member n s a) =
      c_ast_visitor_error env is_func_arg at_root (pointer_to_member n s a) []
      or_visit errors_down env is_func_arg false a
  errors_down env is_func_arg at_root (reference n a) =
      c_ast_visitor_error env is_func_arg at_root (reference n a) []
      or_visit errors_down env is_func_arg false a
  errors_down env is_func_arg at_root (rvalue_reference n a) =
      c_ast_visitor_error env is_func_arg at_root (rvalue_reference n a) []
      or_visit errors_down env is_func_arg false a
  errors_down env is_func_arg at_root (placeholder n) =
      c_ast_visitor_error env is_func_arg at_root (placeholder n) []
  errors_down env is_func_arg at_root (builtin n) =
      c_ast_visitor_error env is_func_arg at_root (builtin n) []
  errors_down env is_func_arg at_root (ecsu n s) =
      c_ast_visitor_error env is_func_arg at_root (ecsu n s) []
  errors_down env is_func_arg at_root (untyped n) =
      c_ast_visitor_error env is_func_arg at_root (untyped n) []
  errors_down env is_func_arg at_root (typedef_type n s a) =
      c_ast_visitor_error env is_func_arg at_root (typedef_type n s a) []
  errors_down env is_func_arg at_root (variadic n) =
      c_ast_visitor_error env is_func_arg at_root (variadic n) []

  pub checked_args : Env → Args → List CheckedArg
  checked_args env no_args = []
  checked_args env (arg a rest) =
      record { ast = a; verdict = errors_down env true true a or_visit types_down env a }
      ∷ checked_args env rest

unfoldable pub c_ast_check_errors : Env → Ast → Bool → Option Stop
c_ast_check_errors env ast is_func_arg =
    errors_down env is_func_arg true ast or_visit types_down env ast

abbrev cast_kind_error : Ast → Option Stop
cast_kind_error (array n s t a) =
    print_error_hint n.loc (text "can not cast into array" ∷ []) (text "cast into pointer" ∷ [])
cast_kind_error (function n args a) =
    print_error_hint n.loc (text "can not cast into function" ∷ [])
      (text "cast into pointer to function" ∷ [])
cast_kind_error _ = none

unfoldable pub c_ast_check_cast : Ast → Option Stop
c_ast_check_cast ast = elim (c_ast_find_type ast t_mask_storage) [
  | some storage_ast ↦
      print_error (loc_of ast)
        (text "can not cast into " ∷ type_name (bit_and (type_of storage_ast) t_mask_storage) ∷ [])
  | none ↦ cast_kind_error ast
]

pub data CCheck : Type 0 where
  check_cast check_decl : CCheck

-- What c_ast_check does for errors: `none` if it goes on to the warnings and returns true.
unfoldable pub c_ast_check : Env → Ast → CCheck → Option Stop
unfolding c_ast_check_errors c_ast_check_cast errors_down types_down type_bits_error noreturn_error
    c_ast_visitor_error array_size_error array_type_error array_of_error builtin_error ecsu_error
    function_error return_error args_error block_error pointer_error reference_error
    c_ast_check_func_args check_args_from arg_step after_args by_kind builtin_arg name_arg
    variadic_arg_step check_arg c_ast_check_func_args_knr c_ast_find_type c_ast_visit_down has
    c_type_check check_found c_storage_info c_type_info c_qualifier_info ok_storage_langs
    ok_type_langs
c_ast_check env ast check_decl = c_ast_check_errors env ast false
c_ast_check env ast check_cast = c_ast_check_cast ast or_visit c_ast_check_errors env ast false
