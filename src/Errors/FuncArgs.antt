-- ===== src/Errors/FuncArgs.antt =====
-- The loops over the arguments of a function or a block: c_ast_check_func_args and
-- c_ast_check_func_args_knr of src/errors.c. An argument comes with the verdict of
-- c_ast_check_errors on it, which the loop asks for only where the code does.
pub mod Sound
use cdecl.Prelude.{
  ℕ, zero, suc, ◌==◌, ltb, leb, Bool, true, false, not, ◌&&◌, List, [], ◌∷◌, Option, none, some,
  if◌then◌else◌, bit_and,
}
use cdecl.Bits.{has, compl64}
use cdecl.Lang.{lang_cpp_min}
use cdecl.Types.{t_auto_cpp_11, t_void, t_mask_storage, t_register}
use cdecl.Output.{text, type_name}
use cdecl.Ast.{
  Ast, CLoc, placeholder, builtin, ecsu, untyped, typedef_type, variadic, array, block, function,
  pointer, pointer_to_member, reference, rvalue_reference, name_of, type_of, loc_of,
}
use cdecl.Errors.Diag.{Env, Stop, assertion, error_at, print_error}

pub record CheckedArg : Type 0 where
  pub ast : Ast
  pub verdict : Option Stop

-- The loop's variables; of `void_arg` and `variadic_arg` the code uses only the location.
pub record ArgState : Type 0 where
  pub n_args : ℕ
  pub void_arg : Option CLoc
  pub variadic_arg : Option CLoc

pub data ArgStep : Type 0 where
  stop : Stop → ArgStep
  next : ArgState → ArgStep

abbrev pub is_some {ℓ} : {A : Type ℓ} → Option A → Bool
is_some none = false
is_some (some a) = true

abbrev only_void : CLoc → ArgStep
only_void loc = stop (error_at loc (text "\"void\" must be only parameter if specified" ∷ []))

-- After the switch: the storage class, then the errors of the argument itself.
unfoldable pub check_arg : ArgState → CheckedArg → ArgStep
check_arg st a =
    let storage = bit_and (type_of a.ast) (bit_and t_mask_storage (compl64 t_register)) in
    if not (storage == 0)
    then stop
        (error_at (loc_of a.ast) (text "function arguments can not be " ∷ type_name storage ∷ []))
    else elim a.verdict [ none ↦ next st | some e ↦ stop e ]

-- The case of K_BUILTIN.
unfoldable pub builtin_arg : ArgState → CheckedArg → ArgStep
builtin_arg st a =
    if has (type_of a.ast) t_auto_cpp_11
    then stop (error_at (loc_of a.ast) (text "arguments can not be auto" ∷ []))
    else if has (type_of a.ast) t_void
    then (if is_some (name_of a.ast)
        then stop (error_at (loc_of a.ast) (text "arguments can not be void" ∷ []))
        else if ltb 1 st.n_args
        then only_void (loc_of a.ast)
        else next (record st { void_arg = some (loc_of a.ast) }))
    else check_arg st a

-- The case of K_NAME.
unfoldable pub name_arg : Env → ArgState → CheckedArg → ArgStep
name_arg env st a =
    if leb lang_cpp_min env.opt_lang
    then stop (error_at (loc_of a.ast) (text "C++ requires type specifier" ∷ []))
    else check_arg st a

-- The case of K_VARIADIC.
unfoldable pub variadic_arg_step : ArgState → CheckedArg → Bool → ArgStep
variadic_arg_step st a is_last =
    if not is_last
    then stop (error_at (loc_of a.ast) (text "variadic specifier must be last" ∷ []))
    else next (record st { variadic_arg = some (loc_of a.ast) })

unfoldable pub by_kind : Env → ArgState → CheckedArg → Bool → Ast → ArgStep
by_kind env st a is_last (builtin n) = builtin_arg st a
by_kind env st a is_last (untyped n) = name_arg env st a
by_kind env st a is_last (variadic n) = variadic_arg_step st a is_last
by_kind env st a is_last _ = check_arg st a

-- The body of the loop; `n_args` is counted first.
unfoldable pub arg_step : Env → ArgState → CheckedArg → Bool → ArgStep
arg_step env st a is_last =
    let st' = record st { n_args = suc st.n_args } in
    elim st.void_arg [
      | some loc ↦ if ltb 1 (suc st.n_args) then only_void loc else by_kind env st' a is_last a.ast
      | none ↦ by_kind env st' a is_last a.ast
    ]

abbrev pub is_empty {ℓ} : {A : Type ℓ} → List A → Bool
is_empty [] = true
is_empty (x ∷ xs) = false

-- After the loop.
unfoldable pub after_args : ArgState → Option Stop
after_args st = elim st.variadic_arg [
  | none ↦ none
  | some loc ↦
      if st.n_args == 1
      then print_error loc (text "variadic specifier can not be only argument" ∷ [])
      else none
]

unfoldable pub check_args_from : Env → ArgState → List CheckedArg → Option Stop
check_args_from env st [] = after_args st
check_args_from env st (a ∷ rest) = elim (arg_step env st a (is_empty rest)) [
  | stop e ↦ some e
  | next st' ↦ check_args_from env st' rest
]

abbrev pub no_args_yet : ArgState
no_args_yet = record { n_args = zero; void_arg = none; variadic_arg = none }

unfoldable pub c_ast_check_func_args : Env → List CheckedArg → Option Stop
c_ast_check_func_args env args = check_args_from env no_args_yet args

-- In K&R C only names are arguments; the error is at the function.
unfoldable pub c_ast_check_func_args_knr : CLoc → List CheckedArg → Option Stop
c_ast_check_func_args_knr loc [] = none
c_ast_check_func_args_knr loc (a ∷ rest) = elim a.ast [
  | untyped n ↦ c_ast_check_func_args_knr loc rest
  | placeholder n ↦ some assertion
  | _ ↦ print_error loc (text "function prototypes" ∷ [])
]
