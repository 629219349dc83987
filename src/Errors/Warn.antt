-- ===== src/Errors/Warn.antt =====
-- The warnings of c_ast_visitor_warning in src/errors.c, which never stops a visit, and what
-- c_ast_check does in the end: its errors, and the warnings where it finds none.
pub mod Laws
mod Tests
use cdecl.Prelude.{
  ℕ, ltb, leb, Bool, true, false, List, [], ◌∷◌, ◌++◌, Option, none, some, if◌then◌else◌,
}
use cdecl.Bits.{has}
use cdecl.Lang.{lang_c_knr, lang_cpp_11}
use cdecl.Types.{t_register}
use cdecl.Output.{Out, text, lang_name}
use cdecl.Ast.{
  CLoc, Ast, Args, placeholder, builtin, ecsu, untyped, typedef_type, variadic, array, block,
  function, pointer, pointer_to_member, reference, rvalue_reference, no_args, arg,
}
use cdecl.Errors.Diag.{Env, Stop}
use cdecl.Errors.Down.{CCheck, c_ast_check}

pub record Warning : Type 0 where
  pub loc : CLoc
  pub message : Out

abbrev register_warning : Env → CLoc → List Warning
register_warning env l =
    record { loc = l; message = text "register is deprecated in " ∷ lang_name env.opt_lang ∷ [] }
    ∷ []

abbrev name_warning : CLoc → List Warning
name_warning l = record { loc = l; message = text "missing type specifier" ∷ [] } ∷ []

-- The cases of K_BUILTIN and K_NAME.
unfoldable pub builtin_warning : Env → ℕ → CLoc → List Warning
builtin_warning env type l =
    if has type t_register
    then (if leb lang_cpp_11 env.opt_lang then register_warning env l else [])
    else []

unfoldable pub untyped_warning : Env → CLoc → List Warning
untyped_warning env l = if ltb lang_c_knr env.opt_lang then name_warning l else []

-- The visitor at a node and on to what it is a parent of. A function or a block visits its
-- arguments first. A placeholder fails an assertion, which c_ast_visitor_error does before.
unfoldable mutual
  pub warnings_down : Env → Ast → List Warning
  warnings_down env (placeholder n) = []
  warnings_down env (builtin n) = builtin_warning env n.type n.loc
  warnings_down env (ecsu n s) = []
  warnings_down env (untyped n) = untyped_warning env n.loc
  warnings_down env (typedef_type n s a) = []
  warnings_down env (variadic n) = []
  warnings_down env (array n s t a) = warnings_down env a
  warnings_down env (block n args a) = warnings_args env args ++ warnings_down env a
  warnings_down env (function n args a) = warnings_args env args ++ warnings_down env a
  warnings_down env (pointer n a) = warnings_down env a
  warnings_down env (pointer_to_member n s a) = warnings_down env a
  warnings_down env (reference n a) = warnings_down env a
  warnings_down env (rvalue_reference n a) = warnings_down env a

  pub warnings_args : Env → Args → List Warning
  warnings_args env no_args = []
  warnings_args env (arg a rest) = warnings_down env a ++ warnings_args env rest

-- The answer of c_ast_check and all it prints.
pub data Checked : Type 0 where
  failed : Stop → Checked
  passed : List Warning → Checked

abbrev pub after_errors : Env → Ast → Option Stop → Checked
after_errors env ast (some stop) = failed stop
after_errors env ast none = passed (warnings_down env ast)

unfoldable pub c_ast_checked : Env → Ast → CCheck → Checked
unfolding c_ast_check
c_ast_checked env ast check = after_errors env ast (c_ast_check env ast check)
