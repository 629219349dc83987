-- ===== src/Errors/FuncArgs/Sound.antt =====
-- One round of the loop over arguments: what it has made sure of when it goes on.
use cdecl.Prelude.{suc, ◌<◌, Bool, true, false, none, ◌≡◌, ◌≢◌, arith, bit_and}
use cdecl.Bits.{has}
use cdecl.Lang.{lang_cpp_min}
use cdecl.Types.{t_auto_cpp_11, t_void}
use cdecl.Ast.{Ast, builtin, untyped, variadic, type_of, node}
use cdecl.Errors.Diag.{Env}
use cdecl.Errors.Rules.{arg_storage}
use cdecl.Errors.FuncArgs.{
  CheckedArg, ArgState, next, is_some, check_arg, builtin_arg, name_arg, variadic_arg_step, by_kind,
  arg_step, after_args,
}

abbrev pub Passed : CheckedArg → Type 0
Passed a = (bit_and (type_of a.ast) arg_storage ≡ 0) × (a.verdict ≡ none)

-- By the argument's kind; `st` is the state before the round, its argument counted.
abbrev pub KindPassed : Env → ArgState → CheckedArg → Bool → ArgState → Ast → Type 0
KindPassed env st a is_last st' (builtin n) =
    (has (type_of a.ast) t_auto_cpp_11 ≡ false)
    × (has (type_of a.ast) t_void ≡ true
        → ((st.n_args < 2) × (is_some (st'.void_arg) ≡ true) × ((node a.ast).name ≡ none)))
    × (has (type_of a.ast) t_void ≡ false → Passed a)
KindPassed env st a is_last st' (variadic n) =
    (is_last ≡ true) × (is_some (st'.variadic_arg) ≡ true)
KindPassed env st a is_last st' (untyped n) = (env.opt_lang < lang_cpp_min) × Passed a
KindPassed env st a is_last st' _ = Passed a

check_arg-Passed :
    (st : ArgState) (a : CheckedArg) (st' : ArgState)
    → check_arg st a ≡ next st'
    → Passed a × (st' ≡ st)
unfolding check_arg
check_arg-Passed st a st' h = ground arith

by_kind-KindPassed :
    (env : Env) (st : ArgState) (a : CheckedArg) (is_last : Bool) (ast : Ast) (st' : ArgState)
    → by_kind env st a is_last ast ≡ next st'
    → KindPassed env st a is_last st' ast × (st'.n_args ≡ st.n_args)
unfolding by_kind
by_kind-KindPassed env st a is_last (builtin n) st' h = unfold builtin_arg check_arg in ground arith
by_kind-KindPassed env st a is_last (untyped n) st' h = unfold name_arg check_arg in ground arith
by_kind-KindPassed env st a is_last (variadic n) st' h = unfold variadic_arg_step in ground arith
by_kind-KindPassed env st a is_last _ st' h =
    let p = check_arg-Passed st a st' h in (p.0, ground arith)

-- A round that goes on: the arguments are counted, no `void` came before unless this is the first
-- argument, and the argument passed by its kind.
pub arg_step-next :
    (env : Env) (st : ArgState) (a : CheckedArg) (is_last : Bool) (st' : ArgState)
    → arg_step env st a is_last ≡ next st'
    → (st'.n_args ≡ suc st.n_args)
      × (is_some st.void_arg ≡ true → st.n_args ≡ 0)
      × KindPassed env (record st { n_args = suc st.n_args }) a is_last st' a.ast
arg_step-next env st a is_last st' h = (passed.1, ground (arith, first), passed.0)
  where
    first :
        (is_some st.void_arg ≡ true → st.n_args ≡ 0)
        × (by_kind env (record st { n_args = suc st.n_args }) a is_last a.ast ≡ next st')
    first = unfold arg_step in ground arith

    passed :
        KindPassed env (record st { n_args = suc st.n_args }) a is_last st' a.ast
        × (st'.n_args ≡ suc st.n_args)
    passed =
        by_kind-KindPassed env (record st { n_args = suc st.n_args }) a is_last a.ast st' first.1

pub after_args-some :
    (st : ArgState) → after_args st ≡ none → is_some st.variadic_arg ≡ true → st.n_args ≢ 1
unfolding after_args
after_args-some st h v = ground arith
