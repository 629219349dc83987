-- ===== src/Errors/Warn/Laws.antt =====
-- The warnings of an AST against the list of its leaves.
use mathlib.Core.List.{append_assoc, append-nil}
use cdecl.Prelude.{none, some, List, [], ◌∷◌, ◌++◌, ◌≡◌, refl, sym, ap, ◌∙◌, arith}
use cdecl.Lang.{lang_c_knr}
use cdecl.Ast.{
  Ast, Args, placeholder, builtin, ecsu, untyped, typedef_type, variadic, array, block, function,
  pointer, pointer_to_member, reference, rvalue_reference, no_args, arg,
}
use cdecl.Errors.Diag.{Env, Stop}
use cdecl.Errors.Down.{CCheck, c_ast_check}
use cdecl.Errors.Warn.{
  Warning, builtin_warning, untyped_warning, warnings_down, warnings_args, failed, passed,
  after_errors, c_ast_checked,
}

-- The nodes that are the parent of no other, in the order of a declaration in English.
mutual
  pub leaves : Ast → List Ast
  leaves (array n s t a) = leaves a
  leaves (block n args a) = leaves_args args ++ leaves a
  leaves (function n args a) = leaves_args args ++ leaves a
  leaves (pointer n a) = leaves a
  leaves (pointer_to_member n s a) = leaves a
  leaves (reference n a) = leaves a
  leaves (rvalue_reference n a) = leaves a
  leaves leaf = leaf ∷ []

  leaves_args : Args → List Ast
  leaves_args no_args = []
  leaves_args (arg a rest) = leaves a ++ leaves_args rest

abbrev pub leaf_warnings : Env → List Ast → List Warning
leaf_warnings env [] = []
leaf_warnings env (builtin n ∷ rest) = builtin_warning env n.type n.loc ++ leaf_warnings env rest
leaf_warnings env (untyped n ∷ rest) = untyped_warning env n.loc ++ leaf_warnings env rest
leaf_warnings env (leaf ∷ rest) = leaf_warnings env rest

leaf_warnings_append :
    (env : Env) (xs ys : List Ast)
    → leaf_warnings env (xs ++ ys) ≡ leaf_warnings env xs ++ leaf_warnings env ys
leaf_warnings_append env [] ys = refl
leaf_warnings_append env (builtin n ∷ xs) ys =
    ap (λ ws. builtin_warning env n.type n.loc ++ ws) (leaf_warnings_append env xs ys)
    ∙ simp append_assoc
leaf_warnings_append env (untyped n ∷ xs) ys =
    ap (λ ws. untyped_warning env n.loc ++ ws) (leaf_warnings_append env xs ys) ∙ simp append_assoc
leaf_warnings_append env (leaf ∷ xs) ys = leaf_warnings_append env xs ys

both :
    (env : Env) (ws vs : List Warning) (xs ys : List Ast)
    → ws ≡ leaf_warnings env xs
    → vs ≡ leaf_warnings env ys
    → ws ++ vs ≡ leaf_warnings env (xs ++ ys)
both env ws vs xs ys h k = rw (h, k) (sym (leaf_warnings_append env xs ys))

one : (env : Env) (ws : List Warning) → ws ≡ ws ++ []
one env ws = sym (append-nil ws)

mutual
  unfolding warnings_down leaves

  warned : (env : Env) (a : Ast) → warnings_down env a ≡ leaf_warnings env (leaves a)
  warned env (placeholder n) = refl
  warned env (builtin n) = one env (builtin_warning env n.type n.loc)
  warned env (ecsu n s) = refl
  warned env (untyped n) = one env (untyped_warning env n.loc)
  warned env (typedef_type n s a) = refl
  warned env (variadic n) = refl
  warned env (array n s t a) = warned env a
  warned env (block n args a) =
      both env (warnings_args env args) (warnings_down env a) (leaves_args args) (leaves a)
        (warned_args env args) (warned env a)
  warned env (function n args a) =
      both env (warnings_args env args) (warnings_down env a) (leaves_args args) (leaves a)
        (warned_args env args) (warned env a)
  warned env (pointer n a) = warned env a
  warned env (pointer_to_member n s a) = warned env a
  warned env (reference n a) = warned env a
  warned env (rvalue_reference n a) = warned env a

  warned_args :
      (env : Env) (args : Args) → warnings_args env args ≡ leaf_warnings env (leaves_args args)
  warned_args env no_args = refl
  warned_args env (arg a rest) =
      both env (warnings_down env a) (warnings_args env rest) (leaves a) (leaves_args rest)
        (warned env a) (warned_args env rest)

quiet_leaves : (env : Env) (ls : List Ast) → env.opt_lang ≡ lang_c_knr → leaf_warnings env ls ≡ []
unfolding builtin_warning untyped_warning
quiet_leaves env [] h = refl
quiet_leaves env (builtin n ∷ ls) h = ground (arith, quiet_leaves env ls h)
quiet_leaves env (untyped n ∷ ls) h = ground (arith, quiet_leaves env ls h)
quiet_leaves env (leaf ∷ ls) h = quiet_leaves env ls h

-- c_ast_check fails with the first error; without one it passes, and its warnings are those of the
-- builtin and the untyped leaves, arguments included, in their order. In K&R C there are none.
pub c_ast_checked_lem :
    (env : Env) (a : Ast) (check : CCheck)
    → ((stop : Stop)
        → c_ast_check env a check ≡ some stop
        → c_ast_checked env a check ≡ failed stop)
      × (c_ast_check env a check ≡ none
          → c_ast_checked env a check ≡ passed (leaf_warnings env (leaves a)))
      × (env.opt_lang ≡ lang_c_knr → leaf_warnings env (leaves a) ≡ [])
unfolding c_ast_checked
c_ast_checked_lem env a check = (
  λ stop h. ap (after_errors env a) h,
  λ h. ap (after_errors env a) h ∙ ap passed (warned env a),
  quiet_leaves env (leaves a),
)
