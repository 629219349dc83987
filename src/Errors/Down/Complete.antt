-- ===== src/Errors/Down/Complete.antt =====
-- The visits of c_ast_check_errors of src/errors.c at an AST that keeps the rules.
use cdecl.Prelude.{Bool, true, false, [], none, ◌≡◌, ◌↔◌, refl, Bool-cases, inl, inr}
use cdecl.Bits.{has}
use cdecl.Types.{t_void}
use cdecl.Ast.{
  Ast, Args, placeholder, builtin, ecsu, untyped, typedef_type, variadic, array, block, function,
  pointer, pointer_to_member, reference, rvalue_reference, no_args, arg,
}
use cdecl.Errors.Diag.{Env}
use cdecl.Errors.FuncArgs.{ArgState, is_empty, check_args_from, no_args_yet}
use cdecl.Errors.Rules.{WellShaped, WellShapedArgs, WellFormed}
use cdecl.Errors.Down.{errors_down, checked_args, c_ast_check_errors}
use cdecl.Errors.Down.Types.{types_down_iff}
use cdecl.Errors.Nodes.Complete.{or_visit_none, NodeRule-visitor}
use cdecl.Errors.Down.Sound.{c_ast_check_errors-WellFormed}
use cdecl.Errors.Down.Rounds.{
  Counted, args_none_error, round_none, plain_step, by_kind_step, void_none, variadic_none,
  builtin_step, name_step, verdict_none, other_round, no_more_none, void_round, variadic_round,
}

module _ (env : Env) where
  mutual
    unfolding errors_down

    errors-of : (b r : Bool) (ast : Ast) → WellShaped env b r ast → errors_down env b r ast ≡ none
    errors-of b r (function n args a) h =
        or_visit_none _ _
          (NodeRule-visitor env b r (function n args a) (checked_args env args) h.0 (
            args_none_error env (function n args a) args h.1
              (λ e. errors-of_args no_args_yet args (h.2 e) refl refl)))
          (errors-of b false a h.3)
    errors-of b r (block n args a) h =
        or_visit_none _ _
          (NodeRule-visitor env b r (block n args a) (checked_args env args) h.0 (
            args_none_error env (block n args a) args h.1
              (λ e. errors-of_args no_args_yet args (h.2 e) refl refl)))
          (errors-of b false a h.3)
    errors-of b r (array n s t a) h =
        or_visit_none _ _ (NodeRule-visitor env b r (array n s t a) [] h.0 tt)
          (errors-of b false a h.1)
    errors-of b r (pointer n a) h =
        or_visit_none _ _ (NodeRule-visitor env b r (pointer n a) [] h.0 tt)
          (errors-of b false a h.1)
    errors-of b r (pointer_to_member n s a) h =
        or_visit_none _ _ (NodeRule-visitor env b r (pointer_to_member n s a) [] h.0 tt)
          (errors-of b false a h.1)
    errors-of b r (reference n a) h =
        or_visit_none _ _ (NodeRule-visitor env b r (reference n a) [] h.0 tt)
          (errors-of b false a h.1)
    errors-of b r (rvalue_reference n a) h =
        or_visit_none _ _ (NodeRule-visitor env b r (rvalue_reference n a) [] h.0 tt)
          (errors-of b false a h.1)
    errors-of b r (placeholder n) h = absurd h
    errors-of b r (builtin n) h = NodeRule-visitor env b r (builtin n) [] h tt
    errors-of b r (ecsu n s) h = NodeRule-visitor env b r (ecsu n s) [] h tt
    errors-of b r (untyped n) h = NodeRule-visitor env b r (untyped n) [] tt tt
    errors-of b r (typedef_type n s a) h = NodeRule-visitor env b r (typedef_type n s a) [] tt tt
    errors-of b r (variadic n) h = NodeRule-visitor env b r (variadic n) [] tt tt

    errors-of_args :
        (st : ArgState) (args : Args)
        → WellShapedArgs env st.n_args args
        → st.void_arg ≡ none
        → st.variadic_arg ≡ none
        → check_args_from env st (checked_args env args) ≡ none
    errors-of_args st no_args h v w = no_more_none env st w
    errors-of_args st (arg (builtin n) rest) h v w =
        let shape =
          λ (q : has n.type t_void ≡ false). errors-of true true (builtin n) (h.0.2 q).1.0 in
        let behind = errors-of_args (Counted st) rest h.1 v w in
        elim (Bool-cases (has n.type t_void)) [
          | inl q ↦
              let rule = h.0.1 q in
              void_round env st n rest rule.1 (void_none env st n h.0.0 q rule.2 rule.0 v w)
          | inr q ↦
              round_none env st (Counted st) (builtin n) rest
                (by_kind_step env st (Counted st) (builtin n) (is_empty (checked_args env rest)) v (
                  builtin_step env (Counted st) n (is_empty (checked_args env rest)) h.0.0 q (
                    plain_step env (Counted st) (builtin n) (h.0.2 q).0
                      (verdict_none env (builtin n) (shape q) (h.0.2 q).1.1))))
                behind
        ]
    errors-of_args st (arg (variadic n) rest) h v w =
        variadic_round env st n rest h.0.0 (variadic_none env st n h.0.1 v)
    errors-of_args st (arg (untyped n) rest) h v w =
        round_none env st (Counted st) (untyped n) rest
          (by_kind_step env st (Counted st) (untyped n) (is_empty (checked_args env rest)) v (
            name_step env (Counted st) n (is_empty (checked_args env rest)) h.0.0 (
              plain_step env (Counted st) (untyped n) h.0.1
                (verdict_none env (untyped n) (errors-of true true (untyped n) h.0.2.0) h.0.2.1))))
          (errors-of_args (Counted st) rest h.1 v w)
    errors-of_args st (arg (placeholder n) rest) h v w =
        other_round env st (placeholder n) rest tt h.0.0
          (errors-of true true (placeholder n) h.0.1.0) h.0.1.1 v
          (errors-of_args (Counted st) rest h.1 v w)
    errors-of_args st (arg (ecsu n s) rest) h v w =
        other_round env st (ecsu n s) rest tt h.0.0 (errors-of true true (ecsu n s) h.0.1.0) h.0.1.1
          v (errors-of_args (Counted st) rest h.1 v w)
    errors-of_args st (arg (typedef_type n s a) rest) h v w =
        other_round env st (typedef_type n s a) rest tt h.0.0
          (errors-of true true (typedef_type n s a) h.0.1.0) h.0.1.1 v
          (errors-of_args (Counted st) rest h.1 v w)
    errors-of_args st (arg (array n s t a) rest) h v w =
        other_round env st (array n s t a) rest tt h.0.0
          (errors-of true true (array n s t a) h.0.1.0) h.0.1.1 v
          (errors-of_args (Counted st) rest h.1 v w)
    errors-of_args st (arg (block n args a) rest) h v w =
        other_round env st (block n args a) rest tt h.0.0
          (errors-of true true (block n args a) h.0.1.0) h.0.1.1 v
          (errors-of_args (Counted st) rest h.1 v w)
    errors-of_args st (arg (function n args a) rest) h v w =
        other_round env st (function n args a) rest tt h.0.0
          (errors-of true true (function n args a) h.0.1.0) h.0.1.1 v
          (errors-of_args (Counted st) rest h.1 v w)
    errors-of_args st (arg (pointer n a) rest) h v w =
        other_round env st (pointer n a) rest tt h.0.0 (errors-of true true (pointer n a) h.0.1.0)
          h.0.1.1 v (errors-of_args (Counted st) rest h.1 v w)
    errors-of_args st (arg (pointer_to_member n s a) rest) h v w =
        other_round env st (pointer_to_member n s a) rest tt h.0.0
          (errors-of true true (pointer_to_member n s a) h.0.1.0) h.0.1.1 v
          (errors-of_args (Counted st) rest h.1 v w)
    errors-of_args st (arg (reference n a) rest) h v w =
        other_round env st (reference n a) rest tt h.0.0
          (errors-of true true (reference n a) h.0.1.0) h.0.1.1 v
          (errors-of_args (Counted st) rest h.1 v w)
    errors-of_args st (arg (rvalue_reference n a) rest) h v w =
        other_round env st (rvalue_reference n a) rest tt h.0.0
          (errors-of true true (rvalue_reference n a) h.0.1.0) h.0.1.1 v
          (errors-of_args (Counted st) rest h.1 v w)

-- c_ast_check_errors finds no error in an AST exactly when the AST keeps every rule, at each node
-- and in each argument.
pub c_ast_check_errors_iff :
    (env : Env) (ast : Ast) (is_func_arg : Bool)
    → (c_ast_check_errors env ast is_func_arg ≡ none) ↔ WellFormed env is_func_arg ast
unfolding c_ast_check_errors
c_ast_check_errors_iff env ast is_func_arg = (
  λ h. unfold c_ast_check_errors in c_ast_check_errors-WellFormed env ast is_func_arg h,
  λ h. or_visit_none _ _ (errors-of env is_func_arg true ast h.0) ((types_down_iff env ast).1 h.1),
)
