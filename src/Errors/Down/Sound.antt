-- ===== src/Errors/Down/Sound.antt =====
-- The visits of c_ast_check_errors of src/errors.c against the rules.
use cdecl.Prelude.{ℕ, suc, ◌<◌, Bool, true, false, List, [], none, some, ◌≡◌, ◌≢◌, refl, arith}
use mathlib.Core.Path.{subst}
use cdecl.Lang.{lang_c_knr}
use cdecl.Ast.{
  Ast, Args, placeholder, builtin, ecsu, untyped, typedef_type, variadic, array, block, function,
  pointer, pointer_to_member, reference, rvalue_reference, no_args, arg, CLoc, loc_of,
}
use cdecl.Ast.Visit.{◌or_visit◌}
use cdecl.Errors.Diag.{Env}
use cdecl.Errors.FuncArgs.{
  CheckedArg, ArgState, ArgStep, stop, next, is_some, is_empty, arg_step, after_args,
  check_args_from, no_args_yet, c_ast_check_func_args, c_ast_check_func_args_knr,
}
use cdecl.Errors.FuncArgs.Sound.{KindPassed, arg_step-next, after_args-some}
use cdecl.Errors.Nodes.{args_error, c_ast_visitor_error}
use cdecl.Errors.Nodes.Sound.{or_visit-eq-none, ArgsChecked, visitor-NodeRule}
use cdecl.Errors.Rules.{
  NodeRule, ArgRule, KnrArgs, WellTyped, WellShaped, WellShapedArgs, WellFormed,
}
use cdecl.Errors.Down.{types_down, errors_down, checked_args, c_ast_check_errors}
use cdecl.Errors.Down.Types.{types_down_iff}

module _ (env : Env) where
  -- Arguments whose verdict is that of c_ast_check_errors.
  unfoldable pub checked : Ast → CheckedArg
  checked a = record { ast = a; verdict = errors_down env true true a or_visit types_down env a }

  no_more :
      (st : ArgState) (rest : Args)
      → 0 < st.n_args
      → is_some st.void_arg ≡ true
      → check_args_from env st (checked_args env rest) ≡ none
      → rest ≡ no_args
  unfolding check_args_from checked_args
  no_more st no_args pos void h = refl
  no_more st (arg a rest) pos void h =
      absurd (later (arg_step env st first (is_empty (checked_args env rest))) refl h)
    where
      first : CheckedArg
      first = record { ast = a; verdict = errors_down env true true a or_visit types_down env a }

      later :
          (step : ArgStep)
          → arg_step env st first (is_empty (checked_args env rest)) ≡ step
          → elim step [
            | stop e ↦ some e
            | next st' ↦ check_args_from env st' (checked_args env rest)
          ]
            ≡ none
          → ⊥
      later (stop e) q k = cc
      later (next st') q k =
          let passed = arg_step-next env st first _ st' q in absurd (omega (arith, passed.1 void))

  is_empty-checked : (rest : Args) → is_empty (checked_args env rest) ≡ true → rest ≡ no_args
  unfolding checked_args
  is_empty-checked no_args h = refl
  is_empty-checked (arg a rest) h = cc

  knr_rule :
      (loc : CLoc) (args : Args)
      → c_ast_check_func_args_knr loc (checked_args env args) ≡ none
      → KnrArgs args
  unfolding c_ast_check_func_args_knr checked_args
  knr_rule loc no_args h = tt
  knr_rule loc (arg (untyped n) rest) h = knr_rule loc rest h
  knr_rule loc (arg _ rest) h = cc

  after_last :
      (st : ArgState) (rest : Args)
      → rest ≡ no_args
      → check_args_from env st (checked_args env rest) ≡ none
      → after_args st ≡ none
  unfolding check_args_from checked_args
  after_last st no_args e h = h
  after_last st (arg a rest) e h = cc

  -- A round that went on, and the rounds behind it, give the argument's rule.
  arg_rule :
      (Fine : Type 0) (a : Ast) (rest : Args) (i : ℕ) (st st' : ArgState)
      → st.n_args ≡ i
      → st'.n_args ≡ suc i
      → KindPassed env
          (record st { n_args = suc st.n_args })
          (checked a)
          (is_empty (checked_args env rest))
          st'
          a
      → check_args_from env st' (checked_args env rest) ≡ none
      → ((checked a).verdict ≡ none → Fine)
      → ArgRule env i a rest Fine
  unfolding checked
  arg_rule Fine (builtin n) rest i st st' e e' k h fine = (
    k.0,
    λ v. (omega (arith, (k.1 v).0), no_more st' rest (omega arith) (k.1 v).1 h, (k.1 v).2),
    λ v. ((k.2 v).0, fine (k.2 v).1),
  )
  arg_rule Fine (variadic n) rest i st st' e e' k h fine =
      let last = is_empty-checked rest k.0 in
      let two = after_args-some st' (after_last st' rest last h) k.1 in
      (last, λ (z : i ≡ 0). two (omega arith))
  arg_rule Fine (untyped n) rest i st st' e e' k h fine = (k.0, k.1.0, fine k.1.1)
  arg_rule Fine _ rest i st st' e e' k h fine = (k.0, fine k.1)

  -- The first of the remaining rounds.
  check_args_from-next :
      (st : ArgState) (a : Ast) (rest : Args)
      → check_args_from env st (checked_args env (arg a rest)) ≡ none
      → (st' : ArgState) × (arg_step env st (checked a) (is_empty (checked_args env rest))
          ≡ next st')
        × (check_args_from env st' (checked_args env rest) ≡ none)
  unfolding check_args_from checked_args checked
  check_args_from-next st a rest h = ground arith

  knr_part :
      (ast : Ast) (args : Args)
      → args_error env ast (checked_args env args) ≡ none
      → env.opt_lang ≡ lang_c_knr
      → KnrArgs args
  knr_part ast args h e = knr_rule (loc_of ast) args (unfold args_error in ground arith)

  other_part :
      (ast : Ast) (args : Args)
      → args_error env ast (checked_args env args) ≡ none
      → env.opt_lang ≢ lang_c_knr
      → check_args_from env no_args_yet (checked_args env args) ≡ none
  unfolding args_error
  other_part ast args h e = unfold c_ast_check_func_args in ground arith

  -- A node's own check and the rest of its chain.
  split_node :
      (b r : Bool) (ast a : Ast) (args : List CheckedArg)
      → (c_ast_visitor_error env b r ast args or_visit errors_down env b false a) ≡ none
      → (NodeRule env b r ast × ArgsChecked env ast args) × (errors_down env b false a ≡ none)
  split_node b r ast a args h =
      let both =
        or_visit-eq-none (c_ast_visitor_error env b r ast args) (errors_down env b false a) h in
      (visitor-NodeRule env b r ast args both.0, both.1)

  mutual
    unfolding errors_down checked

    errors-WellShaped :
        (b r : Bool) (ast : Ast) → errors_down env b r ast ≡ none → WellShaped env b r ast
    errors-WellShaped b r (function n args a) h =
        let p = split_node b r (function n args a) a (checked_args env args) h in
        (
          p.0.0,
          knr_part (function n args a) args p.0.1,
          λ e. args-WellShaped no_args_yet args (other_part (function n args a) args p.0.1 e),
          errors-WellShaped b false a p.1,
        )
    errors-WellShaped b r (block n args a) h =
        let p = split_node b r (block n args a) a (checked_args env args) h in
        (
          p.0.0,
          knr_part (block n args a) args p.0.1,
          λ e. args-WellShaped no_args_yet args (other_part (block n args a) args p.0.1 e),
          errors-WellShaped b false a p.1,
        )
    errors-WellShaped b r (array n s t a) h =
        let p = split_node b r (array n s t a) a [] h in (p.0.0, errors-WellShaped b false a p.1)
    errors-WellShaped b r (pointer n a) h =
        let p = split_node b r (pointer n a) a [] h in (p.0.0, errors-WellShaped b false a p.1)
    errors-WellShaped b r (pointer_to_member n s a) h =
        let p = split_node b r (pointer_to_member n s a) a [] h in
        (p.0.0, errors-WellShaped b false a p.1)
    errors-WellShaped b r (reference n a) h =
        let p = split_node b r (reference n a) a [] h in (p.0.0, errors-WellShaped b false a p.1)
    errors-WellShaped b r (rvalue_reference n a) h =
        let p = split_node b r (rvalue_reference n a) a [] h in
        (p.0.0, errors-WellShaped b false a p.1)
    errors-WellShaped b r (placeholder n) h = (visitor-NodeRule env b r (placeholder n) [] h).0
    errors-WellShaped b r (builtin n) h = (visitor-NodeRule env b r (builtin n) [] h).0
    errors-WellShaped b r (ecsu n s) h = (visitor-NodeRule env b r (ecsu n s) [] h).0
    errors-WellShaped b r (untyped n) h = tt
    errors-WellShaped b r (typedef_type n s a) h = tt
    errors-WellShaped b r (variadic n) h = tt

    args-WellShaped :
        (st : ArgState) (args : Args)
        → check_args_from env st (checked_args env args) ≡ none
        → WellShapedArgs env st.n_args args
    args-WellShaped st no_args h = tt
    args-WellShaped st (arg a rest) h =
        let round = check_args_from-next st a rest h in
        let passed =
          arg_step-next env st (checked a) (is_empty (checked_args env rest)) round.0 round.1 in
        (
          arg_rule (WellShaped env true true a × WellTyped env a) a rest st.n_args st round.0 refl
              passed.0 passed.2 round.2
              (λ v.
                let both = or_visit-eq-none (errors_down env true true a) (types_down env a) v in
                (errors-WellShaped true true a both.0, (types_down_iff env a).0 both.1)),
          subst (λ k. WellShapedArgs env k rest) passed.0 (args-WellShaped round.0 rest round.2),
        )

-- Whatever c_ast_check_errors passes keeps every rule, at each node and in each argument.
pub c_ast_check_errors-WellFormed :
    (env : Env) (ast : Ast) (is_func_arg : Bool)
    → c_ast_check_errors env ast is_func_arg ≡ none
    → WellFormed env is_func_arg ast
unfolding c_ast_check_errors
c_ast_check_errors-WellFormed env ast is_func_arg h =
    let both = or_visit-eq-none (errors_down env is_func_arg true ast) (types_down env ast) h in
    (errors-WellShaped env is_func_arg true ast both.0, (types_down_iff env ast).0 both.1)
