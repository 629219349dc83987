-- ===== src/Errors/Down/Rounds.antt =====
-- One round of the loop over arguments that goes on, for each kind of argument.
use cdecl.Prelude.{suc, Bool, true, false, none, ◌≡◌, ◌≢◌, ◌∙◌, sym, refl, arith, bit_and, ◌<◌}
use cdecl.Bits.{has}
use cdecl.Types.{t_void, t_auto_cpp_11}
use mathlib.Core.Path.{subst}
use cdecl.Lang.{lang_c_knr, lang_cpp_min}
use cdecl.Ast.{
  Node, Ast, Args, placeholder, builtin, untyped, variadic, no_args, arg, CLoc, loc_of, type_of,
}
use cdecl.Errors.Diag.{Env}
use cdecl.Errors.FuncArgs.{
  check_arg, by_kind, builtin_arg, name_arg, variadic_arg_step, CheckedArg, ArgState, next,
  is_empty, arg_step, after_args, check_args_from, no_args_yet, c_ast_check_func_args,
  c_ast_check_func_args_knr,
}
use cdecl.Errors.Nodes.{args_error}
use cdecl.Errors.Rules.{arg_storage, KnrArgs, WellTyped}
use cdecl.Errors.Down.{errors_down, checked_args}
use cdecl.Errors.Down.Types.{types_down_iff}
use cdecl.Errors.Nodes.Complete.{or_visit_none}
use cdecl.Errors.Down.Sound.{checked}

abbrev pub Counted : ArgState → ArgState
Counted st = record st { n_args = suc st.n_args }

module _ (env : Env) where
  pub knr_none_error :
      (loc : CLoc) (args : Args)
      → KnrArgs args
      → c_ast_check_func_args_knr loc (checked_args env args) ≡ none
  unfolding c_ast_check_func_args_knr checked_args
  knr_none_error loc no_args h = refl
  knr_none_error loc (arg (untyped n) rest) h = knr_none_error loc rest h
  knr_none_error loc (arg a rest) h = absurd h

  -- Arguments of either style.
  pub args_none_error :
      (ast : Ast) (args : Args)
      → (env.opt_lang ≡ lang_c_knr → KnrArgs args)
      → (env.opt_lang ≢ lang_c_knr → check_args_from env no_args_yet (checked_args env args) ≡ none)
      → args_error env ast (checked_args env args) ≡ none
  unfolding args_error c_ast_check_func_args
  args_none_error ast args h k = ground (arith, h, k, knr_none_error (loc_of ast) args)

  -- One round that goes on, and the rounds behind it.
  pub round_none :
      (st st' : ArgState) (a : Ast) (rest : Args)
      → arg_step env st (checked env a) (is_empty (checked_args env rest)) ≡ next st'
      → check_args_from env st' (checked_args env rest) ≡ none
      → check_args_from env st (checked_args env (arg a rest)) ≡ none
  unfolding check_args_from checked_args checked
  round_none st st' a rest h k = ground arith

  -- An argument that is neither void nor "...".
  pub plain_step :
      (st : ArgState) (a : Ast)
      → bit_and (type_of a) arg_storage ≡ 0
      → (checked env a).verdict ≡ none
      → check_arg st (checked env a) ≡ next st
  unfolding check_arg checked
  plain_step st a h k = ground arith

  pub by_kind_step :
      (st st' : ArgState) (a : Ast) (last : Bool)
      → st.void_arg ≡ none
      → by_kind env (Counted st) (checked env a) last a ≡ next st'
      → arg_step env st (checked env a) last ≡ next st'
  unfolding arg_step checked
  by_kind_step st st' a last h k = ground arith

  -- "void" alone, and "..." at the end.
  pub void_none :
      (st : ArgState) (n : Node)
      → has n.type t_auto_cpp_11 ≡ false
      → has n.type t_void ≡ true
      → n.name ≡ none
      → st.n_args ≡ 0
      → st.void_arg ≡ none
      → st.variadic_arg ≡ none
      → check_args_from env st (checked_args env (arg (builtin n) no_args)) ≡ none
  unfolding check_args_from checked_args arg_step by_kind builtin_arg after_args
  void_none st n h k l m v w = ground arith

  pub variadic_none :
      (st : ArgState) (n : Node)
      → st.n_args ≢ 0
      → st.void_arg ≡ none
      → check_args_from env st (checked_args env (arg (variadic n) no_args)) ≡ none
  unfolding check_args_from checked_args arg_step by_kind variadic_arg_step after_args
  variadic_none st n m v = ground arith

  -- Any other argument.
  pub builtin_step :
      (st : ArgState) (n : Node) (last : Bool)
      → has n.type t_auto_cpp_11 ≡ false
      → has n.type t_void ≡ false
      → check_arg st (checked env (builtin n)) ≡ next st
      → by_kind env st (checked env (builtin n)) last (builtin n) ≡ next st
  unfolding by_kind builtin_arg checked
  builtin_step st n last h k l = ground arith

  pub name_step :
      (st : ArgState) (n : Node) (last : Bool)
      → env.opt_lang < lang_cpp_min
      → check_arg st (checked env (untyped n)) ≡ next st
      → by_kind env st (checked env (untyped n)) last (untyped n) ≡ next st
  unfolding by_kind name_arg checked
  name_step st n last h l = ground arith

  abbrev Unlisted : Ast → Type 0
  Unlisted (builtin n) = ⊥
  Unlisted (untyped n) = ⊥
  Unlisted (variadic n) = ⊥
  Unlisted a = Unit

  pub other_step :
      (st : ArgState) (x : CheckedArg) (a : Ast) (last : Bool)
      → Unlisted a
      → by_kind env st x last a ≡ check_arg st x
  unfolding by_kind
  other_step st x (builtin n) last o = absurd o
  other_step st x (untyped n) last o = absurd o
  other_step st x (variadic n) last o = absurd o
  other_step st x (placeholder n) last o = refl
  other_step st x a last o = refl

  pub verdict_none :
      (a : Ast)
      → errors_down env true true a ≡ none
      → WellTyped env a
      → (checked env a).verdict ≡ none
  unfolding checked
  verdict_none a h t = or_visit_none _ _ h ((types_down_iff env a).1 t)

  -- A round for an argument that is no builtin type, name or "...".
  pub other_round :
      (st : ArgState) (a : Ast) (rest : Args)
      → Unlisted a
      → bit_and (type_of a) arg_storage ≡ 0
      → errors_down env true true a ≡ none
      → WellTyped env a
      → st.void_arg ≡ none
      → check_args_from env (Counted st) (checked_args env rest) ≡ none
      → check_args_from env st (checked_args env (arg a rest)) ≡ none
  other_round st a rest o s e t v k =
      round_none st (Counted st) a rest
        (by_kind_step st (Counted st) a (is_empty (checked_args env rest)) v (
          other_step (Counted st) (checked env a) a (is_empty (checked_args env rest)) o
          ∙ plain_step (Counted st) a s (verdict_none a e t)))
        k

  pub no_more_none :
      (st : ArgState)
      → st.variadic_arg ≡ none
      → check_args_from env st (checked_args env no_args) ≡ none
  unfolding check_args_from checked_args after_args
  no_more_none st w = ground arith

  pub void_round :
      (st : ArgState) (n : Node) (rest : Args)
      → rest ≡ no_args
      → check_args_from env st (checked_args env (arg (builtin n) no_args)) ≡ none
      → check_args_from env st (checked_args env (arg (builtin n) rest)) ≡ none
  void_round st n rest e h =
      subst (λ r. check_args_from env st (checked_args env (arg (builtin n) r)) ≡ none) (sym e) h

  pub variadic_round :
      (st : ArgState) (n : Node) (rest : Args)
      → rest ≡ no_args
      → check_args_from env st (checked_args env (arg (variadic n) no_args)) ≡ none
      → check_args_from env st (checked_args env (arg (variadic n) rest)) ≡ none
  variadic_round st n rest e h =
      subst (λ r. check_args_from env st (checked_args env (arg (variadic n) r)) ≡ none) (sym e) h
