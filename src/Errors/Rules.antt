-- ===== src/Errors/Rules.antt =====
-- The rules for declarations that src/errors.c enforces, stated of the AST with no reference to
-- how it is walked: what may be an array's element, what a function may return, where `void` and
-- "..." may stand, and in which language each construct exists.
use cdecl.Prelude.{ℕ, suc, ◌≤◌, ◌<◌, Bool, true, false, none, ◌≡◌, ◌≢◌, bit_and, bit_or}
use cdecl.Bits.{has, compl64}
use cdecl.Lang.{lang_all, lang_c_knr, lang_cpp_min, lang_cpp_11, lang_cpp_14, lang_cpp_17}
use cdecl.Types.{
  t_void, t_register, t_mask_type, t_inline, t_struct, t_union, t_class, t_enum, t_reference,
  t_rvalue_reference, t_extern, t_static, t_pure_virtual, t_virtual, t_mask_qualifier,
  t_mask_storage, t_auto_cpp_11, t_noreturn,
}
use cdecl.Types.Check.{c_type_check}
use cdecl.Ast.{
  Ast, Args, Node, ArraySize, size_variable, placeholder, builtin, ecsu, untyped, typedef_type,
  variadic, array, block, function, pointer, pointer_to_member, reference, rvalue_reference,
  no_args, arg, type_of,
}
use cdecl.Errors.Diag.{Env, mode_gibberish}
use cdecl.Errors.Nodes.{vla_langs, func_storage}

-- Neither a function nor void, nor a register variable.
abbrev pub ArrayElement : Ast → Type 0
ArrayElement (builtin n) = (has n.type t_void ≡ false) × (has n.type t_register ≡ false)
ArrayElement (function n args a) = ⊥
ArrayElement _ = Unit

-- Neither an array nor a function; `auto` from C++14 on.
abbrev pub ReturnType : Env → Ast → Type 0
ReturnType env (array n s t a) = ⊥
ReturnType env (function n args a) = ⊥
ReturnType env (builtin n) = env.opt_lang < lang_cpp_14 → has n.type t_auto_cpp_11 ≡ false
ReturnType env _ = Unit

-- No reference of any kind, and no register variable.
abbrev pub Pointee : Ast → Type 0
Pointee (reference n a) = ⊥
Pointee (rvalue_reference n a) = ⊥
Pointee a = has (type_of a) t_register ≡ false

-- Neither void nor a register variable.
abbrev pub Referee : Ast → Type 0
Referee a = (has (type_of a) t_register ≡ false) × (has (type_of a) t_void ≡ false)

-- What is allowed only in the parameters of a function, in the languages that have such arrays.
abbrev pub OnlyParameter : Env → Bool → Type 0
OnlyParameter env is_func_arg = (has env.opt_lang vla_langs ≡ true) × (is_func_arg ≡ true)

abbrev pub SizeRule : Env → Bool → ArraySize → Type 0
SizeRule env is_func_arg size_variable = OnlyParameter env is_func_arg
SizeRule env is_func_arg _ = Unit

-- The qualifiers of a function's type.
pub record FunctionRule (env : Env) (n : Node) : Type 0 where
  pub reference_qualified :
      has n.type (bit_or t_reference t_rvalue_reference) ≡ true
      → (lang_cpp_11 ≤ env.opt_lang) × (has n.type (bit_or t_extern t_static) ≡ false)
  pub pure :
      lang_cpp_min ≤ env.opt_lang → has n.type t_pure_virtual ≡ true → has n.type t_virtual ≡ true
  pub qualified : env.opt_lang < lang_cpp_min → has n.type t_mask_qualifier ≡ false

-- The rules for one node and what it is a parent of, its arguments left aside.
abbrev pub NodeRule : Env → Bool → Bool → Ast → Type 0
NodeRule env is_func_arg at_root (array n s t a) =
    SizeRule env is_func_arg s × (t ≢ 0 → OnlyParameter env is_func_arg) × ArrayElement a
NodeRule env is_func_arg at_root (builtin n) =
    (bit_and n.type t_mask_type ≢ 0)
    × (has n.type t_void ≡ true → at_root ≡ false)
    × (has n.type t_inline ≡ true → lang_cpp_17 ≤ env.opt_lang)
NodeRule env is_func_arg at_root (ecsu n s) =
    (has n.type (bit_or t_struct (bit_or t_union t_class)) ≡ true → has n.type t_register ≡ false)
    × (env.c_mode ≡ mode_gibberish
        → has n.type t_enum ≡ true
        → has n.type (bit_or t_struct t_class) ≡ false)
NodeRule env is_func_arg at_root (function n args a) =
    FunctionRule env n × (bit_and n.type func_storage ≡ 0) × ReturnType env a
NodeRule env is_func_arg at_root (block n args a) =
    (bit_and n.type func_storage ≡ 0) × ReturnType env a
NodeRule env is_func_arg at_root (pointer n a) = Pointee a
NodeRule env is_func_arg at_root (pointer_to_member n s a) =
    (lang_cpp_min ≤ env.opt_lang) × Pointee a
NodeRule env is_func_arg at_root (reference n a) = (lang_cpp_min ≤ env.opt_lang) × Referee a
NodeRule env is_func_arg at_root (rvalue_reference n a) = (lang_cpp_11 ≤ env.opt_lang) × Referee a
NodeRule env is_func_arg at_root (placeholder n) = ⊥
NodeRule env is_func_arg at_root _ = Unit

-- The storage classes that no argument may have: all but register.
abbrev pub arg_storage : ℕ
arg_storage = bit_and t_mask_storage (compl64 t_register)

-- An argument at position `i` with `rest` behind it; `Fine` is what the rest of the rules say of an
-- argument that is neither void nor "...".
abbrev pub VoidRule : ℕ → Args → Node → Type 0
VoidRule i rest n = (i ≡ 0) × (rest ≡ no_args) × (n.name ≡ none)

abbrev pub ArgRule : Env → ℕ → Ast → Args → Type 0 → Type 0
ArgRule env i (builtin n) rest Fine =
    (has n.type t_auto_cpp_11 ≡ false)
    × (has n.type t_void ≡ true → VoidRule i rest n)
    × (has n.type t_void ≡ false → (bit_and n.type arg_storage ≡ 0) × Fine)
ArgRule env i (variadic n) rest Fine = (rest ≡ no_args) × (i ≢ 0)
ArgRule env i (untyped n) rest Fine =
    (env.opt_lang < lang_cpp_min) × (bit_and n.type arg_storage ≡ 0) × Fine
ArgRule env i a rest Fine = (bit_and (type_of a) arg_storage ≡ 0) × Fine

-- In K&R C an argument is a name.
abbrev pub KnrArgs : Args → Type 0
KnrArgs no_args = Unit
KnrArgs (arg (untyped n) rest) = KnrArgs rest
KnrArgs (arg a rest) = ⊥

abbrev pub TypeRule : Env → Node → Type 0
TypeRule env n = c_type_check n.type env.opt_lang ≡ lang_all

abbrev pub PlainRule : Env → Node → Type 0
PlainRule env n = TypeRule env n × (has n.type t_noreturn ≡ false)

-- Every type of an AST and of its arguments is legal, and only functions are noreturn.
abbrev mutual
  pub WellTyped : Env → Ast → Type 0
  WellTyped env (function n args a) = TypeRule env n × WellTypedArgs env args × WellTyped env a
  WellTyped env (block n args a) = PlainRule env n × WellTypedArgs env args × WellTyped env a
  WellTyped env (array n s t a) = PlainRule env n × WellTyped env a
  WellTyped env (pointer n a) = PlainRule env n × WellTyped env a
  WellTyped env (pointer_to_member n s a) = PlainRule env n × WellTyped env a
  WellTyped env (reference n a) = PlainRule env n × WellTyped env a
  WellTyped env (rvalue_reference n a) = PlainRule env n × WellTyped env a
  WellTyped env (placeholder n) = PlainRule env n
  WellTyped env (builtin n) = PlainRule env n
  WellTyped env (ecsu n s) = PlainRule env n
  WellTyped env (untyped n) = PlainRule env n
  WellTyped env (typedef_type n s a) = PlainRule env n
  WellTyped env (variadic n) = PlainRule env n

  pub WellTypedArgs : Env → Args → Type 0
  WellTypedArgs env no_args = Unit
  WellTypedArgs env (arg a rest) = WellTyped env a × WellTypedArgs env rest

-- Every node of an AST keeps its rule, and every argument too: an argument is an AST of its own,
-- where arrays may be variable.
abbrev mutual
  pub WellShaped : Env → Bool → Bool → Ast → Type 0
  WellShaped env b r (function n args a) =
      NodeRule env b r (function n args a)
      × (env.opt_lang ≡ lang_c_knr → KnrArgs args)
      × (env.opt_lang ≢ lang_c_knr → WellShapedArgs env 0 args)
      × WellShaped env b false a
  WellShaped env b r (block n args a) =
      NodeRule env b r (block n args a)
      × (env.opt_lang ≡ lang_c_knr → KnrArgs args)
      × (env.opt_lang ≢ lang_c_knr → WellShapedArgs env 0 args)
      × WellShaped env b false a
  WellShaped env b r (array n s t a) = NodeRule env b r (array n s t a) × WellShaped env b false a
  WellShaped env b r (pointer n a) = NodeRule env b r (pointer n a) × WellShaped env b false a
  WellShaped env b r (pointer_to_member n s a) =
      NodeRule env b r (pointer_to_member n s a) × WellShaped env b false a
  WellShaped env b r (reference n a) = NodeRule env b r (reference n a) × WellShaped env b false a
  WellShaped env b r (rvalue_reference n a) =
      NodeRule env b r (rvalue_reference n a) × WellShaped env b false a
  WellShaped env b r (placeholder n) = ⊥
  WellShaped env b r (builtin n) = NodeRule env b r (builtin n)
  WellShaped env b r (ecsu n s) = NodeRule env b r (ecsu n s)
  WellShaped env b r (untyped n) = Unit
  WellShaped env b r (typedef_type n s a) = Unit
  WellShaped env b r (variadic n) = Unit

  -- The arguments from position `i` on.
  pub WellShapedArgs : Env → ℕ → Args → Type 0
  WellShapedArgs env i no_args = Unit
  WellShapedArgs env i (arg a rest) =
      ArgRule env i a rest (WellShaped env true true a × WellTyped env a)
      × WellShapedArgs env (suc i) rest

-- A declaration, or with `true` an argument, that keeps all rules.
abbrev pub WellFormed : Env → Bool → Ast → Type 0
WellFormed env is_func_arg ast = WellShaped env is_func_arg true ast × WellTyped env ast
