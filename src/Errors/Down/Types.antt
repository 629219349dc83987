-- ===== src/Errors/Down/Types.antt =====
-- c_ast_visitor_type of src/errors.c against the rules for types.
use cdecl.Prelude.{false, none, some, ◌≡◌, ◌↔◌, Option, refl, arith}
use cdecl.Bits.{has}
use cdecl.Types.{t_noreturn}
use cdecl.Ast.{
  Ast, Args, Node, placeholder, builtin, ecsu, untyped, typedef_type, variadic, array, block,
  function, pointer, pointer_to_member, reference, rvalue_reference, no_args, arg,
}
use cdecl.Ast.Visit.{◌or_visit◌}
use cdecl.Errors.Diag.{Env, Stop}
use cdecl.Errors.Nodes.Sound.{or_visit-eq-none}
use cdecl.Errors.Rules.{TypeRule, PlainRule, WellTyped, WellTypedArgs}
use cdecl.Errors.Down.{type_bits_error, noreturn_error, types_down, types_args}

module _ (env : Env) where
  bits_rule : (n : Node) → type_bits_error env n ≡ none → TypeRule env n
  unfolding type_bits_error
  bits_rule n h = ground arith

  noreturn_rule : (n : Node) → noreturn_error n ≡ none → has n.type t_noreturn ≡ false
  unfolding noreturn_error
  noreturn_rule n h = ground arith

  plain_rule :
      (n : Node) → (type_bits_error env n or_visit noreturn_error n) ≡ none → PlainRule env n
  plain_rule n h =
      let both = or_visit-eq-none (type_bits_error env n) (noreturn_error n) h in
      (bits_rule n both.0, noreturn_rule n both.1)

  chain :
      (n : Node) (a : Ast)
      → ((type_bits_error env n or_visit noreturn_error n) or_visit types_down env a) ≡ none
      → PlainRule env n × (types_down env a ≡ none)
  chain n a h = let both = or_visit-eq-none _ (types_down env a) h in (plain_rule n both.0, both.1)

  mutual
    unfolding types_down

    types-WellTyped : (ast : Ast) → types_down env ast ≡ none → WellTyped env ast
    types-WellTyped (function n args a) h =
        let p = or_visit-eq-none _ _ h in
        let q = or_visit-eq-none _ _ p.1 in
        (bits_rule n p.0, types-WellTypedArgs args q.0, types-WellTyped a q.1)
    types-WellTyped (block n args a) h =
        let p = or_visit-eq-none _ _ h in
        let q = or_visit-eq-none _ _ p.1 in
        let r = or_visit-eq-none _ _ q.1 in
        (
          (bits_rule n p.0, noreturn_rule n r.0),
          types-WellTypedArgs args q.0,
          types-WellTyped a r.1,
        )
    types-WellTyped (array n s t a) h = let p = chain n a h in (p.0, types-WellTyped a p.1)
    types-WellTyped (pointer n a) h = let p = chain n a h in (p.0, types-WellTyped a p.1)
    types-WellTyped (pointer_to_member n s a) h =
        let p = chain n a h in (p.0, types-WellTyped a p.1)
    types-WellTyped (reference n a) h = let p = chain n a h in (p.0, types-WellTyped a p.1)
    types-WellTyped (rvalue_reference n a) h = let p = chain n a h in (p.0, types-WellTyped a p.1)
    types-WellTyped (placeholder n) h = plain_rule n h
    types-WellTyped (builtin n) h = plain_rule n h
    types-WellTyped (ecsu n s) h = plain_rule n h
    types-WellTyped (untyped n) h = plain_rule n h
    types-WellTyped (typedef_type n s a) h = plain_rule n h
    types-WellTyped (variadic n) h = plain_rule n h

    types-WellTypedArgs : (args : Args) → types_args env args ≡ none → WellTypedArgs env args
    types-WellTypedArgs no_args h = tt
    types-WellTypedArgs (arg a rest) h =
        let p = or_visit-eq-none _ _ h in (types-WellTyped a p.0, types-WellTypedArgs rest p.1)

  bits_none : (n : Node) → TypeRule env n → type_bits_error env n ≡ none
  unfolding type_bits_error
  bits_none n h = ground arith

  noreturn_none : (n : Node) → has n.type t_noreturn ≡ false → noreturn_error n ≡ none
  unfolding noreturn_error
  noreturn_none n h = ground arith

  or_visit_none : (x y : Option Stop) → x ≡ none → y ≡ none → (x or_visit y) ≡ none
  or_visit_none none y h k = k
  or_visit_none (some e) y h k = cc

  plain_none :
      (n : Node) → PlainRule env n → (type_bits_error env n or_visit noreturn_error n) ≡ none
  plain_none n h = or_visit_none _ _ (bits_none n h.0) (noreturn_none n h.1)

  mutual
    unfolding types_down

    WellTyped-types : (ast : Ast) → WellTyped env ast → types_down env ast ≡ none
    WellTyped-types (function n args a) h =
        or_visit_none _ _ (bits_none n h.0)
          (or_visit_none _ _ (WellTyped-types_args args h.1) (WellTyped-types a h.2))
    WellTyped-types (block n args a) h = or_visit_none _ _ (bits_none n h.0.0) (
        or_visit_none _ _ (WellTyped-types_args args h.1)
          (or_visit_none _ _ (noreturn_none n h.0.1) (WellTyped-types a h.2)))
    WellTyped-types (array n s t a) h = or_visit_none _ _ (plain_none n h.0) (WellTyped-types a h.1)
    WellTyped-types (pointer n a) h = or_visit_none _ _ (plain_none n h.0) (WellTyped-types a h.1)
    WellTyped-types (pointer_to_member n s a) h =
        or_visit_none _ _ (plain_none n h.0) (WellTyped-types a h.1)
    WellTyped-types (reference n a) h = or_visit_none _ _ (plain_none n h.0) (WellTyped-types a h.1)
    WellTyped-types (rvalue_reference n a) h =
        or_visit_none _ _ (plain_none n h.0) (WellTyped-types a h.1)
    WellTyped-types (placeholder n) h = plain_none n h
    WellTyped-types (builtin n) h = plain_none n h
    WellTyped-types (ecsu n s) h = plain_none n h
    WellTyped-types (untyped n) h = plain_none n h
    WellTyped-types (typedef_type n s a) h = plain_none n h
    WellTyped-types (variadic n) h = plain_none n h

    WellTyped-types_args : (args : Args) → WellTypedArgs env args → types_args env args ≡ none
    WellTyped-types_args no_args h = refl
    WellTyped-types_args (arg a rest) h =
        or_visit_none _ _ (WellTyped-types a h.0) (WellTyped-types_args rest h.1)

-- The visit of c_ast_visitor_type finds no error exactly when every type of the AST and of its
-- arguments is legal in the current language and only functions are noreturn.
pub types_down_iff : (env : Env) (ast : Ast) → (types_down env ast ≡ none) ↔ WellTyped env ast
types_down_iff env ast = (types-WellTyped env ast, WellTyped-types env ast)
