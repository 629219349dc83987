-- ===== src/Errors/Nodes/Sound.antt =====
-- The checks of one node against the rules.
use cdecl.Prelude.{
  ℕ, ◌≤◌, ltb, Bool, List, Option, none, some, ◌≡◌, ◌≢◌, refl, arith, bit_and, Bool-cases, inl, inr,
}
use cdecl.Lang.{lang_cpp_min, lang_cpp_11}
use cdecl.Ast.{
  Ast, Args, Node, ArraySize, size_none, size_variable, size, placeholder, builtin, ecsu, untyped,
  typedef_type, variadic, array, block, function, pointer, pointer_to_member, reference,
  rvalue_reference, kind, type_of,
}
use cdecl.Ast.Visit.{◌or_visit◌}
use cdecl.Errors.Diag.{Env}
use cdecl.Errors.FuncArgs.{CheckedArg}
use cdecl.Errors.Nodes.{
  func_storage, c_ast_visitor_error, array_size_error, array_type_error, array_of_error,
  builtin_error, ecsu_error, function_error, return_error, block_error, args_error, pointer_error,
  reference_error,
}
use cdecl.Errors.Rules.{
  ArrayElement, ReturnType, Pointee, Referee, SizeRule, OnlyParameter, FunctionRule, NodeRule,
}

pub or_visit-eq-none {ℓ} :
    {E : Type ℓ} (o p : Option E) → (o or_visit p) ≡ none → (o ≡ none) × (p ≡ none)
or_visit-eq-none none p h = (refl, h)
or_visit-eq-none (some e) p h = ground arith

module _ (env : Env) where
  size_rule :
      (b : Bool) (ast : Ast) (s : ArraySize)
      → array_size_error env b ast s ≡ none
      → SizeRule env b s
  unfolding array_size_error
  size_rule b ast size_none h = tt
  size_rule b ast size_variable h = ground arith
  size_rule b ast (size k) h = tt

  type_rule :
      (b : Bool) (ast : Ast) (t : ℕ)
      → array_type_error env b ast t ≡ none
      → t ≢ 0
      → OnlyParameter env b
  unfolding array_type_error
  type_rule b ast t h ne = ground arith

  element_rule : (ast a : Ast) → array_of_error ast a ≡ none → ArrayElement a
  unfolding array_of_error
  element_rule ast (builtin n) h = ground arith
  element_rule ast (function n args a) h = ground arith
  element_rule ast _ h = tt

  return_rule : (ast a : Ast) → return_error env (kind ast) a ≡ none → ReturnType env a
  unfolding return_error
  return_rule ast (builtin n) h = λ lt. ground arith
  return_rule ast (function n args a) h = ground arith
  return_rule ast (array n s t a) h = ground arith
  return_rule ast _ h = tt

  pointed_rule : (ast a : Ast) → pointer_error ast a ≡ none → Pointee a
  unfolding pointer_error
  pointed_rule ast (reference n a) h = ground arith
  pointed_rule ast (rvalue_reference n a) h = ground arith
  pointed_rule ast _ h = ground arith

  referred_rule :
      (ast a : Ast) → reference_error env ast a ≡ none → (lang_cpp_min ≤ env.opt_lang) × Referee a
  unfolding reference_error
  referred_rule ast a h = ground arith

  function_rule :
      (n : Node) (args : Args) (a : Ast)
      → function_error env (function n args a) ≡ none
      → FunctionRule env n
  unfolding function_error
  function_rule n args a h = record {
    reference_qualified = λ q. ground arith;
    pure = λ cpp p. ground arith;
    qualified = λ c. ground arith;
  }

  -- What a node owes besides its rule: its arguments were checked.
  abbrev pub ArgsChecked : Ast → List CheckedArg → Type 0
  ArgsChecked (function n as' a) args = args_error env (function n as' a) args ≡ none
  ArgsChecked (block n as' a) args = args_error env (block n as' a) args ≡ none
  ArgsChecked _ args = Unit

  block_rule :
      (ast a : Ast) (args : List CheckedArg)
      → block_error env ast a args ≡ none
      → (bit_and (type_of ast) func_storage ≡ 0)
        × ReturnType env a
        × (args_error env ast args ≡ none)
  unfolding block_error
  block_rule ast a args h =
      let first = or_visit-eq-none _ _ h in
      let second = or_visit-eq-none _ _ first.1 in
      (ground arith, return_rule ast a second.0, second.1)

  -- A node that the visitor passes keeps its rule.
  pub visitor-NodeRule :
      (b r : Bool) (ast : Ast) (args : List CheckedArg)
      → c_ast_visitor_error env b r ast args ≡ none
      → NodeRule env b r ast × ArgsChecked ast args
  unfolding c_ast_visitor_error
  visitor-NodeRule b r (array n s t a) args h =
      let first = or_visit-eq-none _ _ h in
      let second = or_visit-eq-none _ _ first.1 in
      ((size_rule b _ s first.0, type_rule b _ t second.0, element_rule _ a second.1), tt)
  visitor-NodeRule b r (builtin n) args h = unfold builtin_error in ground arith
  visitor-NodeRule b r (ecsu n s) args h = unfold ecsu_error in ground arith
  visitor-NodeRule b r (function n as' a) args h =
      let halves = or_visit-eq-none _ _ h in
      let rest = block_rule (function n as' a) a args halves.1 in
      ((function_rule n as' a halves.0, rest.0, rest.1), rest.2)
  visitor-NodeRule b r (block n as' a) args h =
      let rest = block_rule (block n as' a) a args h in ((rest.0, rest.1), rest.2)
  visitor-NodeRule b r (pointer n a) args h = (pointed_rule (pointer n a) a h, tt)
  visitor-NodeRule b r (pointer_to_member n s a) args h =
      elim (Bool-cases (ltb env.opt_lang lang_cpp_min)) [
        | inl old ↦ absurd (ground arith)
        | inr new ↦ ((ground arith, pointed_rule (pointer_to_member n s a) a (ground arith)), tt)
      ]
  visitor-NodeRule b r (reference n a) args h = (referred_rule (reference n a) a h, tt)
  visitor-NodeRule b r (rvalue_reference n a) args h =
      elim (Bool-cases (ltb env.opt_lang lang_cpp_11)) [
        | inl old ↦ absurd (ground arith)
        | inr new ↦ ((ground arith, (referred_rule (rvalue_reference n a) a (ground arith)).1), tt)
      ]
  visitor-NodeRule b r (placeholder n) args h = ground arith
  visitor-NodeRule b r (untyped n) args h = (tt, tt)
  visitor-NodeRule b r (typedef_type n s a) args h = (tt, tt)
  visitor-NodeRule b r (variadic n) args h = (tt, tt)
