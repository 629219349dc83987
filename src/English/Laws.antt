-- ===== src/English/Laws.antt =====
-- c_ast_english of src/english.c at an AST that the error check accepts.
use cdecl.Prelude.{
  ℕ, suc, Bool, true, false, Option, none, some, ◌≡◌, ◌≢◌, ==_iff, Bool-cases, arith, refl, ◌⊎◌,
  inl, inr, ◌==◌,
}
use cdecl.Output.{Fine, Out, Balanced}
use cdecl.Ast.{
  Ast, Args, placeholder, builtin, ecsu, untyped, typedef_type, variadic, array, block, function,
  pointer, pointer_to_member, reference, rvalue_reference, no_args, arg,
}
use cdecl.CKind.{CKind}
use cdecl.Lang.{lang_c_knr}
use cdecl.Errors.Diag.{Env}
use cdecl.Errors.Rules.{KnrArgs, ArgRule, WellShaped, WellShapedArgs, WellTyped}
use cdecl.Errors.Down.{c_ast_check_errors}
use cdecl.Errors.Down.Sound.{c_ast_check_errors-WellFormed}
use cdecl.English.{name_or_nothing, english_down, english_args, english_args_part, c_ast_english}
use cdecl.English.Parts.{
  then_write-Fine, print_name-Balanced, name_or_nothing-Balanced, array-Balanced, pointing-Balanced,
  member_of-Balanced, returning-Fine, args_part-Fine, next_arg-Fine,
}

module _ (env : Env) where
  -- An argument that keeps its rule is written when its shape makes it so.
  arg-Fine :
      (i : ℕ)
      → (a : Ast) → (rest : Args)
      → ArgRule env i a rest (WellShaped env true true a × WellTyped env a)
      → (WellShaped env true true a → Fine (english_down false a))
      → Fine (english_down false a)
  unfolding english_down
  arg-Fine i (builtin n) rest rule f = λ d. refl
  arg-Fine i (variadic n) rest rule f = λ d. refl
  arg-Fine i (untyped n) rest rule f = f rule.2.0
  arg-Fine i _ rest rule f = f rule.1.0

  either_args :
      (args : Args)
      → (env.opt_lang ≡ lang_c_knr → KnrArgs args)
      → (env.opt_lang ≢ lang_c_knr → WellShapedArgs env 0 args)
      → KnrArgs args ⊎ WellShapedArgs env 0 args
  either_args args k h = elim (Bool-cases (env.opt_lang == lang_c_knr)) [
    | inl e ↦ inl (k ((==_iff env.opt_lang lang_c_knr).0 e))
    | inr e ↦ inr (h (λ q. ground (arith, (==_iff env.opt_lang lang_c_knr).1 q)))
  ]

  mutual
    unfolding english_down

    english_down-Fine : (b r p : Bool) → (a : Ast) → WellShaped env b r a → Fine (english_down p a)
    english_down-Fine b r p (array n s t a) h =
        then_write-Fine (some _) (english_down p a) (array-Balanced n s t)
          (english_down-Fine b false p a h.1)
    english_down-Fine b r p (function n args a) h =
        returning-Fine n CKind.function (english_args_part args) (english_down p a)
          (english_args_part-Fine args (either_args args h.1 h.2))
          (english_down-Fine b false p a h.3)
    english_down-Fine b r p (block n args a) h =
        returning-Fine n CKind.block (english_args_part args) (english_down p a)
          (english_args_part-Fine args (either_args args h.1 h.2))
          (english_down-Fine b false p a h.3)
    english_down-Fine b r p (pointer n a) h =
        then_write-Fine (some _) (english_down p a) (pointing-Balanced (pointer n a) n)
          (english_down-Fine b false p a h.1)
    english_down-Fine b r p (pointer_to_member n s a) h =
        then_write-Fine (some _) (english_down p a) (member_of-Balanced n s)
          (english_down-Fine b false p a h.1)
    english_down-Fine b r p (reference n a) h =
        then_write-Fine (some _) (english_down p a) (pointing-Balanced (reference n a) n)
          (english_down-Fine b false p a h.1)
    english_down-Fine b r p (rvalue_reference n a) h =
        then_write-Fine (some _) (english_down p a) (pointing-Balanced (rvalue_reference n a) n)
          (english_down-Fine b false p a h.1)
    english_down-Fine b r p (placeholder n) h = h
    english_down-Fine b r p (builtin n) h = print_name-Balanced p n.name
    english_down-Fine b r p (ecsu n s) h = print_name-Balanced p n.name
    english_down-Fine b r p (untyped n) h = name_or_nothing-Balanced n.name
    english_down-Fine b r p (typedef_type n s a) h = λ d. refl
    english_down-Fine b r p (variadic n) h = λ d. refl

    english_args_part-Fine :
        (args : Args) → KnrArgs args ⊎ WellShapedArgs env 0 args → Fine (english_args_part args)
    english_args_part-Fine no_args h = λ d. refl
    english_args_part-Fine (arg (untyped n) rest) (inl k) =
        args_part-Fine (untyped n) (some (name_or_nothing n.name)) (english_args rest)
          (name_or_nothing-Balanced n.name) (english_args-Fine 1 rest (inl k))
    english_args_part-Fine (arg a rest) (inl k) = absurd k
    english_args_part-Fine (arg a rest) (inr h) =
        args_part-Fine a (english_down false a) (english_args rest)
          (arg-Fine 0 a rest h.0 (english_down-Fine true true false a))
          (english_args-Fine 1 rest (inr h.1))

    english_args-Fine :
        (i : ℕ)
        → (args : Args) → KnrArgs args ⊎ WellShapedArgs env i args
        → Fine (english_args args)
    english_args-Fine i no_args h = λ d. refl
    english_args-Fine i (arg (untyped n) rest) (inl k) =
        next_arg-Fine (untyped n) (some (name_or_nothing n.name)) (english_args rest)
          (name_or_nothing-Balanced n.name) (english_args-Fine (suc i) rest (inl k))
    english_args-Fine i (arg a rest) (inl k) = absurd k
    english_args-Fine i (arg a rest) (inr h) =
        next_arg-Fine a (english_down false a) (english_args rest)
          (arg-Fine i a rest h.0 (english_down-Fine true true false a))
          (english_args-Fine (suc i) rest (inr h.1))

written : (o : Option Out) → Fine o → (out : Out) × (o ≡ some out) × Balanced out
written none f = absurd f
written (some out) f = (out, refl, f)

-- An AST that c_ast_check_errors passes is written by c_ast_english to its end, without a failed
-- assertion, and what is written closes each parenthesis that it opens.
pub c_ast_english-Balanced :
    (env : Env) (ast : Ast) (is_func_arg : Bool)
    → c_ast_check_errors env ast is_func_arg ≡ none
    → (out : Out) × (c_ast_english ast ≡ some out) × Balanced out
unfolding c_ast_english
c_ast_english-Balanced env ast is_func_arg h =
    let well = c_ast_check_errors-WellFormed env ast is_func_arg h in
    written (english_down true ast) (english_down-Fine env is_func_arg true true ast well.0)
