-- ===== src/Errors/Nodes/Complete.antt =====
-- The checks of one node that keeps its rule.
use cdecl.Prelude.{ℕ, ◌≤◌, Bool, List, Option, none, some, ◌≡◌, ◌≢◌, refl, arith, bit_and}
use cdecl.Lang.{lang_cpp_min}
use cdecl.Ast.{
  Ast, Args, Node, ArraySize, size_none, size_variable, size, placeholder, builtin, ecsu, untyped,
  typedef_type, variadic, array, block, function, pointer, pointer_to_member, reference,
  rvalue_reference, kind, type_of,
}
use cdecl.Ast.Visit.{◌or_visit◌}
use cdecl.Errors.Diag.{Env, Stop}
use cdecl.Errors.FuncArgs.{CheckedArg}
use cdecl.Errors.Nodes.{
  func_storage, c_ast_visitor_error, array_size_error, array_type_error, array_of_error,
  builtin_error, ecsu_error, function_error, return_error, block_error, args_error, pointer_error,
  reference_error,
}
use cdecl.Errors.Rules.{
  ArrayElement, ReturnType, Pointee, Referee, SizeRule, OnlyParameter, FunctionRule, NodeRule,
}
use cdecl.Errors.Nodes.Sound.{ArgsChecked}

-- A visit that goes on twice goes on.
pub or_visit_none : (x y : Option Stop) → x ≡ none → y ≡ none → (x or_visit y) ≡ none
or_visit_none none y h k = k
or_visit_none (some e) y h k = cc

module _ (env : Env) where
  size_none_error :
      (b : Bool) (ast : Ast) (s : ArraySize)
      → SizeRule env b s
      → array_size_error env b ast s ≡ none
  unfolding array_size_error
  size_none_error b ast size_none h = refl
  size_none_error b ast size_variable h = ground arith
  size_none_error b ast (size k) h = refl

  type_none_error :
      (b : Bool) (ast : Ast) (t : ℕ)
      → (t ≢ 0 → OnlyParameter env b)
      → array_type_error env b ast t ≡ none
  unfolding array_type_error
  type_none_error b ast t h = ground arith

  element_none_error : (ast a : Ast) → ArrayElement a → array_of_error ast a ≡ none
  unfolding array_of_error
  element_none_error ast (builtin n) h = ground arith
  element_none_error ast (function n args a) h = absurd h
  element_none_error ast (placeholder n) h = refl
  element_none_error ast a h = refl

  return_none_error : (ast a : Ast) → ReturnType env a → return_error env (kind ast) a ≡ none
  unfolding return_error
  return_none_error ast (builtin n) h = ground arith
  return_none_error ast (function n args a) h = absurd h
  return_none_error ast (array n s t a) h = absurd h
  return_none_error ast (placeholder n) h = refl
  return_none_error ast a h = refl

  pointed_none_error : (ast a : Ast) → Pointee a → pointer_error ast a ≡ none
  unfolding pointer_error
  pointed_none_error ast (reference n a) h = absurd h
  pointed_none_error ast (rvalue_reference n a) h = absurd h
  pointed_none_error ast (placeholder n) h = ground arith
  pointed_none_error ast a h = ground arith

  referred_none_error :
      (ast a : Ast) → lang_cpp_min ≤ env.opt_lang → Referee a → reference_error env ast a ≡ none
  unfolding reference_error
  referred_none_error ast a l h = ground arith

  function_none_error :
      (n : Node) (args : Args) (a : Ast)
      → FunctionRule env n
      → function_error env (function n args a) ≡ none
  unfolding function_error
  function_none_error n args a h = ground (arith, h.reference_qualified, h.pure, h.qualified)

  block_none_error :
      (ast a : Ast) (args : List CheckedArg)
      → bit_and (type_of ast) func_storage ≡ 0
      → ReturnType env a
      → args_error env ast args ≡ none
      → block_error env ast a args ≡ none
  unfolding block_error
  block_none_error ast a args h k l =
      or_visit_none _ _ (ground arith) (or_visit_none _ _ (return_none_error ast a k) l)

  -- A node that keeps its rule, its arguments checked, passes the visitor.
  pub NodeRule-visitor :
      (b r : Bool) (ast : Ast) (args : List CheckedArg)
      → NodeRule env b r ast
      → ArgsChecked env ast args
      → c_ast_visitor_error env b r ast args ≡ none
  unfolding c_ast_visitor_error
  NodeRule-visitor b r (array n s t a) args h k =
      or_visit_none _ _ (size_none_error b (array n s t a) s h.0) (
        or_visit_none _ _ (type_none_error b (array n s t a) t h.1)
          (element_none_error (array n s t a) a h.2))
  NodeRule-visitor b r (builtin n) args h k = unfold builtin_error in ground arith
  NodeRule-visitor b r (ecsu n s) args h k = unfold ecsu_error in ground arith
  NodeRule-visitor b r (function n as' a) args h k =
      or_visit_none _ _ (function_none_error n as' a h.0)
        (block_none_error (function n as' a) a args h.1 h.2 k)
  NodeRule-visitor b r (block n as' a) args h k = block_none_error (block n as' a) a args h.0 h.1 k
  NodeRule-visitor b r (pointer n a) args h k = pointed_none_error (pointer n a) a h
  NodeRule-visitor b r (pointer_to_member n s a) args h k =
      ground (arith, pointed_none_error (pointer_to_member n s a) a h.1)
  NodeRule-visitor b r (reference n a) args h k = referred_none_error (reference n a) a h.0 h.1
  NodeRule-visitor b r (rvalue_reference n a) args h k =
      ground (arith, referred_none_error (rvalue_reference n a) a (omega arith) h.1)
  NodeRule-visitor b r (placeholder n) args h k = absurd h
  NodeRule-visitor b r (untyped n) args h k = refl
  NodeRule-visitor b r (typedef_type n s a) args h k = refl
  NodeRule-visitor b r (variadic n) args h k = refl
