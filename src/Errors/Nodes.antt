-- ===== src/Errors/Nodes.antt =====
-- The checks of one node, c_ast_visitor_error of src/errors.c: a function for each case of its
-- switch. The arguments of a function come with their verdicts (`FuncArgs`).
pub mod Sound
pub mod Complete
use cdecl.Prelude.{
  ℕ, ◌==◌, ltb, leb, Bool, true, false, not, ◌&&◌, ◌||◌, List, [], ◌∷◌, Option, none, some,
  if◌then◌else◌, bit_and, bit_or,
}
use cdecl.Bits.{has, compl32}
use cdecl.Lang.{
  lang_min, lang_c_knr, lang_c_99, lang_cpp_all, lang_cpp_min, lang_cpp_11, lang_cpp_14,
  lang_cpp_17,
}
use cdecl.Types.{
  t_void, t_register, t_mask_type, t_inline, t_struct, t_union, t_class, t_enum, t_reference,
  t_rvalue_reference, t_extern, t_static, t_pure_virtual, t_virtual, t_mask_qualifier, t_auto_c,
  t_block, t_mutable, t_thread_local, t_auto_cpp_11,
}
use cdecl.CKind.{CKind}
use cdecl.Output.{text, type_name, kind_name, lang_name}
use cdecl.Ast.{
  Ast, Node, ArraySize, size_none, size_variable, size, placeholder, builtin, ecsu, untyped,
  typedef_type, variadic, array, block, function, pointer, pointer_to_member, reference,
  rvalue_reference, type_of, loc_of, kind,
}
use cdecl.Ast.Visit.{◌or_visit◌}
use cdecl.Errors.Diag.{
  Env, CMode, mode_english, mode_gibberish, Stop, assertion, print_error, print_error_hint, when,
  error_kind_not_type, error_kind_not_supported, error_kind_to_type,
}
use cdecl.Errors.FuncArgs.{CheckedArg, c_ast_check_func_args, c_ast_check_func_args_knr}

-- The languages that have variable length arrays.
abbrev pub vla_langs : ℕ
vla_langs = bit_and (lang_min lang_c_99) (compl32 lang_cpp_all)

abbrev is_variable : ArraySize → Bool
is_variable size_variable = true
is_variable _ = false

unfoldable pub array_size_error : Env → Bool → Ast → ArraySize → Option Stop
array_size_error env is_func_arg ast s =
    if is_variable s
    then (if not (has env.opt_lang vla_langs)
        then print_error (loc_of ast)
            (text "variable length arrays not supported in " ∷ lang_name env.opt_lang ∷ [])
        else when (not is_func_arg) (
            print_error (loc_of ast)
              (text "variable length arrays are illegal outside of function arguments" ∷ [])))
    else none

unfoldable pub array_type_error : Env → Bool → Ast → ℕ → Option Stop
array_type_error env is_func_arg ast type =
    if not (type == 0)
    then (if not (has env.opt_lang vla_langs)
        then print_error (loc_of ast) (
            text "\""
            ∷ type_name type
            ∷ text "\" arrays not supported in "
            ∷ lang_name env.opt_lang
            ∷ [])
        else when (not is_func_arg) (
            print_error (loc_of ast) (
              text "\""
              ∷ type_name type
              ∷ text "\" arrays are illegal outside of function arguments"
              ∷ [])))
    else none

unfoldable pub array_of_error : Ast → Ast → Option Stop
array_of_error ast (builtin n) =
    if has n.type t_void
    then print_error_hint (loc_of ast) (text "array of void" ∷ [])
        (text "array of pointer to void" ∷ [])
    else when (has n.type t_register) (error_kind_not_type ast t_register)
array_of_error ast (function n args a) =
    print_error_hint (loc_of ast) (text "array of function" ∷ [])
      (text "array of pointer to function" ∷ [])
array_of_error ast _ = none

-- `at_root` is `ast->parent == NULL`.
unfoldable pub builtin_error : Env → Bool → Node → Option Stop
builtin_error env at_root n =
    if bit_and n.type t_mask_type == 0
    then print_error n.loc (text "implicit \"int\" is illegal in " ∷ lang_name env.opt_lang ∷ [])
    else if has n.type t_void && at_root
    then print_error_hint n.loc (text "variable of void" ∷ []) (text "pointer to void" ∷ [])
    else when (has n.type t_inline && ltb env.opt_lang lang_cpp_17)
        (print_error n.loc (text "inline variables illegal in " ∷ lang_name env.opt_lang ∷ []))

abbrev pub is_gibberish : CMode → Bool
is_gibberish mode_gibberish = true
is_gibberish mode_english = false

unfoldable pub ecsu_error : Env → Ast → Option Stop
ecsu_error env ast =
    let type = type_of ast in
    if has type (bit_or t_struct (bit_or t_union t_class)) && has type t_register
    then error_kind_not_type ast t_register
    else when (is_gibberish env.c_mode && has type t_enum && has type (bit_or t_struct t_class)) (
        print_error (loc_of ast)
          (text "\"" ∷ type_name type ∷ text "\": enum classes must just use \"enum\"" ∷ []))

-- The case of K_FUNCTION, up to the part that it shares with K_BLOCK.
unfoldable pub function_error : Env → Ast → Option Stop
function_error env ast =
    let type = type_of ast in
    when (has type (bit_or t_reference t_rvalue_reference)) (
      if ltb env.opt_lang lang_cpp_11
      then print_error (loc_of ast)
          (text "reference qualified functions illegal in " ∷ lang_name env.opt_lang ∷ [])
      else when (has type (bit_or t_extern t_static)) (
          print_error (loc_of ast) (
            text "reference qualified functions can not be "
            ∷ type_name (bit_and type (bit_or t_extern t_static))
            ∷ [])))
    or_visit (if leb lang_cpp_min env.opt_lang
        then when (has type t_pure_virtual && not (has type t_virtual))
            (print_error (loc_of ast) (text "non-virtual functions can not be pure" ∷ []))
        else when (has type t_mask_qualifier) (
            print_error (loc_of ast) (
              text "\""
              ∷ type_name (bit_and type t_mask_qualifier)
              ∷ text "\" functions illegal in "
              ∷ lang_name env.opt_lang
              ∷ [])))

abbrev pub func_storage : ℕ
func_storage =
    bit_or t_auto_c (bit_or t_block (bit_or t_mutable (bit_or t_register t_thread_local)))

unfoldable pub return_error : Env → CKind → Ast → Option Stop
return_error env k (array n s t a) =
    print_error_hint n.loc (kind_name k ∷ text " returning array" ∷ [])
      (kind_name k ∷ text " returning pointer" ∷ [])
return_error env k (builtin n) = when (ltb env.opt_lang lang_cpp_14 && has n.type t_auto_cpp_11) (
    print_error n.loc (text "\"auto\" return type not supported in " ∷ lang_name env.opt_lang ∷ []))
return_error env k (function n args a) =
    print_error_hint n.loc (kind_name k ∷ text " returning function" ∷ [])
      (kind_name k ∷ text " returning pointer to function" ∷ [])
return_error env k _ = none

unfoldable pub args_error : Env → Ast → List CheckedArg → Option Stop
args_error env ast args =
    if env.opt_lang == lang_c_knr
    then c_ast_check_func_args_knr (loc_of ast) args
    else c_ast_check_func_args env args

-- The case of K_BLOCK, and the rest of K_FUNCTION.
unfoldable pub block_error : Env → Ast → Ast → List CheckedArg → Option Stop
block_error env ast ret args =
    let tmp_type = bit_and (type_of ast) func_storage in
    when (not (tmp_type == 0)) (error_kind_not_type ast tmp_type)
    or_visit return_error env (kind ast) ret
    or_visit args_error env ast args

abbrev pub is_any_reference : Ast → Bool
is_any_reference (reference n a) = true
is_any_reference (rvalue_reference n a) = true
is_any_reference _ = false

unfoldable pub pointer_error : Ast → Ast → Option Stop
pointer_error ast to =
    if is_any_reference to
    then print_error (loc_of ast) (kind_name (kind ast) ∷ text " to " ∷ kind_name (kind to) ∷ [])
    else when (has (type_of to) t_register) (error_kind_to_type ast t_register [])

unfoldable pub reference_error : Env → Ast → Ast → Option Stop
reference_error env ast to =
    if ltb env.opt_lang lang_cpp_min
    then error_kind_not_supported env ast
    else if has (type_of to) t_register
    then error_kind_to_type ast t_register []
    else when (has (type_of to) t_void)
        (error_kind_to_type ast t_void (text "pointer to void" ∷ []))

-- `is_func_arg` is what the visitor is handed, `at_root` whether the node has no parent.
unfoldable pub c_ast_visitor_error : Env → Bool → Bool → Ast → List CheckedArg → Option Stop
c_ast_visitor_error env is_func_arg at_root (array n s t a) args =
    array_size_error env is_func_arg (array n s t a) s
    or_visit array_type_error env is_func_arg (array n s t a) t
    or_visit array_of_error (array n s t a) a
c_ast_visitor_error env is_func_arg at_root (builtin n) args = builtin_error env at_root n
c_ast_visitor_error env is_func_arg at_root (ecsu n s) args = ecsu_error env (ecsu n s)
c_ast_visitor_error env is_func_arg at_root (function n as' a) args =
    function_error env (function n as' a) or_visit block_error env (function n as' a) a args
c_ast_visitor_error env is_func_arg at_root (block n as' a) args =
    block_error env (block n as' a) a args
c_ast_visitor_error env is_func_arg at_root (placeholder n) args = some assertion
c_ast_visitor_error env is_func_arg at_root (pointer_to_member n s a) args =
    if ltb env.opt_lang lang_cpp_min
    then error_kind_not_supported env (pointer_to_member n s a)
    else pointer_error (pointer_to_member n s a) a
c_ast_visitor_error env is_func_arg at_root (pointer n a) args = pointer_error (pointer n a) a
c_ast_visitor_error env is_func_arg at_root (rvalue_reference n a) args =
    if ltb env.opt_lang lang_cpp_11
    then error_kind_not_supported env (rvalue_reference n a)
    else reference_error env (rvalue_reference n a) a
c_ast_visitor_error env is_func_arg at_root (reference n a) args =
    reference_error env (reference n a) a
c_ast_visitor_error env is_func_arg at_root _ args = none
