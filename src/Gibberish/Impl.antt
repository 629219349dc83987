-- ===== src/Gibberish/Impl.antt =====
-- c_ast_gibberish_impl of src/gibberish.c, the arguments, and the two entry points.
use cdecl.Prelude.{
  ℕ, ◌==◌, Bool, true, false, not, List, [], ◌∷◌, ◌++◌, map, Option, none, some, if◌then◌else◌,
  bit_and, bit_or,
}
use cdecl.Bits.{compl64, has}
use cdecl.Types.{
  t_mask_qualifier, t_mask_storage, t_mask_ref_qualifier, t_final, t_override, t_pure_virtual,
  t_reference, t_enum, t_struct, t_class, t_typedef_type,
}
use cdecl.CKind.{CKind, bit}
use cdecl.Output.{Out, text, type_name, open_paren, close_paren}
use cdecl.Ast.{
  Ast, Args, placeholder, builtin, ecsu, untyped, typedef_type, variadic, array, block, function,
  pointer, pointer_to_member, reference, rvalue_reference, no_args, arg,
}
use cdecl.Ast.Visit.{c_ast_name_up, c_ast_find_kind_up}
use cdecl.Gibberish.{
  GKind, is_cast, g_cast, g_declare, Entry, entry, GParam, g_param_init, write, g_param_leaf,
  g_param_space, shown_name, c_ast_gibberish_space_name, c_ast_gibberish_qual_name, name_text,
  type_if, ◌and_then◌, c_ast_gibberish_postfix,
}

-- What a function's type has that is printed behind its arguments.
abbrev pub late_bits : ℕ
late_bits =
    bit_or t_mask_qualifier
      (bit_or t_final (bit_or t_override (bit_or t_pure_virtual t_mask_ref_qualifier)))

abbrev pub out_when : Bool → Out → Out
out_when test o = if test then o else []

abbrev pub ref_text : ℕ → Out
ref_text ref =
    if ref == 0 then [] else if has ref t_reference then (text " &" ∷ []) else (text " &&" ∷ [])

abbrev pub cv_text : ℕ → Out
cv_text cv = if cv == 0 then [] else (text " " ∷ type_name cv ∷ [])

-- The qualifiers and the rest, behind the arguments.
abbrev pub late_text : ℕ → Out
late_text t =
    cv_text (bit_and t t_mask_qualifier)
    ++ ref_text (bit_and t t_mask_ref_qualifier)
    ++ out_when (has t t_override) (text " " ∷ text "override" ∷ [])
    ++ out_when (has t t_final) (text " " ∷ text "final" ∷ [])
    ++ out_when (has t t_pure_virtual) (text " = 0" ∷ [])

abbrev pub from_leaf : GKind → Option (List Entry) → GParam → Option GParam
from_leaf g none p = none
from_leaf g (some chain) p = c_ast_gibberish_postfix g chain p

-- `c_ast_gibberish_postfix( param->leaf_ast->parent, param )`; no leaf is a null pointer.
abbrev pub postfix_from_leaf : GKind → GParam → Option GParam
postfix_from_leaf g p = from_leaf g p.leaf p

-- What is done only while the postfix part has not begun.
abbrev pub unless_postfix : Bool → (GParam → Option GParam) → GParam → Option GParam
unless_postfix true f p = some p
unless_postfix false f p = f p

abbrev pub maybe_space : Bool → GParam → GParam
maybe_space true p = g_param_space p
maybe_space false p = p

abbrev pub postfix_at : GKind → Entry → List Entry → GParam → Option GParam
postfix_at g e [] p = postfix_from_leaf g p
postfix_at g e (above ∷ up) p = c_ast_gibberish_postfix g (e ∷ above ∷ up) p

-- An array, a block or a function begins the postfix part if nothing below it has.
abbrev pub begin_postfix : GKind → Entry → List Entry → GParam → Option GParam
begin_postfix g e up p =
    unless_postfix p.postfix
      (λ q. postfix_at g e up (maybe_space (not (is_cast g)) (record q { postfix = true }))) p

abbrev pub entry_ast : Entry → Ast
entry_ast e = e.ast

-- Whether a pointer or a reference stands beside the name rather than beside the type.
abbrev pub beside_name : GKind → Ast → List Entry → Bool
beside_name g_cast ast up = false
beside_name g_declare ast up = elim (c_ast_name_up (ast ∷ map entry_ast up)) [
  | none ↦ false
  | some name ↦
      elim (c_ast_find_kind_up (map entry_ast up) (bit_or (bit CKind.block) (bit CKind.function))) [
        | none ↦ true
        | some found ↦ false
      ]
]

-- Behind what a pointer or a reference points to.
abbrev pub end_pointer : GKind → Ast → List Entry → GParam → Option GParam
end_pointer g ast up p =
    let spaced = maybe_space (beside_name g ast up) p in
    unless_postfix spaced.postfix (c_ast_gibberish_qual_name g ast) spaced

abbrev pub end_pointer_to_member : GKind → Ast → GParam → Option GParam
end_pointer_to_member g ast p =
    unless_postfix p.postfix (λ q. c_ast_gibberish_qual_name g ast (write (text " " ∷ []) q)) p

abbrev pub ecsu_type : ℕ → ℕ
ecsu_type t = if has t t_enum then bit_and t (compl64 (bit_or t_struct t_class)) else t

abbrev pub typedef_text : ℕ → Out
typedef_text t = if t == t_typedef_type then [] else (type_name t ∷ text " " ∷ [])

-- What an array, a block or a function does: the type, what it is made of, the postfix part.
abbrev pub postfixed :
    GKind → Entry → List Entry → (GParam → Option GParam) → Out → Out → GParam → Option GParam
postfixed g e up inner before behind p =
    inner (write before p) and_then begin_postfix g e up and_then (λ q. some (write behind q))

-- A leaf: its text, and its name if one is printed.
abbrev pub leaf_text : GKind → Ast → List Entry → Out → GParam → Option GParam
leaf_text g ast up o p = g_param_leaf up (c_ast_gibberish_space_name g ast (write o p))

abbrev pub first_arg : Option GParam → Option Out → Option Out
first_arg none more = none
first_arg (some p) none = none
first_arg (some p) (some o) = some ((open_paren ∷ p.out) ++ o ++ (close_paren ∷ []))

abbrev pub next_arg : Option GParam → Option Out → Option Out
next_arg none more = none
next_arg (some p) none = none
next_arg (some p) (some o) = some ((text ", " ∷ p.out) ++ o)

-- `up` holds the nodes above the node, and none for the root.
unfoldable mutual
  pub c_ast_gibberish_impl : GKind → List Entry → Ast → GParam → Option GParam
  c_ast_gibberish_impl g up (function n args a) p =
      let e = entry (function n args a) (c_ast_gibberish_func_args g args) in
      postfixed g e up (c_ast_gibberish_impl g (e ∷ up) a)
        (type_if (bit_and n.type (compl64 late_bits)) (text " " ∷ [])) (late_text n.type) p
  c_ast_gibberish_impl g up (array n s t a) p =
      let e = entry (array n s t a) (some []) in
      postfixed g e up (c_ast_gibberish_impl g (e ∷ up) a) (type_if n.type (text " " ∷ [])) [] p
  c_ast_gibberish_impl g up (block n args a) p =
      let e = entry (block n args a) (c_ast_gibberish_func_args g args) in
      postfixed g e up (c_ast_gibberish_impl g (e ∷ up) a) (type_if n.type (text " " ∷ [])) [] p
  c_ast_gibberish_impl g up (builtin n) p = leaf_text g (builtin n) up (type_name n.type ∷ []) p
  c_ast_gibberish_impl g up (ecsu n s) p =
      leaf_text g (ecsu n s) up (type_name (ecsu_type n.type) ∷ text " " ∷ text s ∷ []) p
  c_ast_gibberish_impl g up (untyped n) p =
      g_param_leaf up (write (name_text (shown_name g n.name)) p)
  c_ast_gibberish_impl g up (placeholder n) p = none
  c_ast_gibberish_impl g up (pointer n a) p =
      let e = entry (pointer n a) (some []) in
      c_ast_gibberish_impl g (e ∷ up) a
        (write (type_if (bit_and n.type t_mask_storage) (text " " ∷ [])) p)
      and_then end_pointer g (pointer n a) up
  c_ast_gibberish_impl g up (reference n a) p =
      let e = entry (reference n a) (some []) in
      c_ast_gibberish_impl g (e ∷ up) a
        (write (type_if (bit_and n.type t_mask_storage) (text " " ∷ [])) p)
      and_then end_pointer g (reference n a) up
  c_ast_gibberish_impl g up (rvalue_reference n a) p =
      let e = entry (rvalue_reference n a) (some []) in
      c_ast_gibberish_impl g (e ∷ up) a
        (write (type_if (bit_and n.type t_mask_storage) (text " " ∷ [])) p)
      and_then end_pointer g (rvalue_reference n a) up
  c_ast_gibberish_impl g up (pointer_to_member n s a) p =
      let e = entry (pointer_to_member n s a) (some []) in
      c_ast_gibberish_impl g (e ∷ up) a p and_then end_pointer_to_member g (pointer_to_member n s a)
  c_ast_gibberish_impl g up (typedef_type n s a) p =
      leaf_text g (typedef_type n s a) up (typedef_text n.type ++ (text s ∷ [])) p
  c_ast_gibberish_impl g up (variadic n) p = g_param_leaf up (write (text "..." ∷ []) p)

  -- c_ast_gibberish_func_args.
  pub c_ast_gibberish_func_args : GKind → Args → Option Out
  c_ast_gibberish_func_args g no_args = some (open_paren ∷ close_paren ∷ [])
  c_ast_gibberish_func_args g (arg a rest) =
      first_arg (c_ast_gibberish_impl g [] a g_param_init) (more_args g rest)

  -- The arguments behind the first, a comma before each.
  pub more_args : GKind → Args → Option Out
  more_args g no_args = some []
  more_args g (arg a rest) = next_arg (c_ast_gibberish_impl g [] a g_param_init) (more_args g rest)

abbrev pub written : Option GParam → Option Out
written none = none
written (some p) = some p.out

unfoldable pub c_ast_gibberish_cast : Ast → Option Out
unfolding c_ast_gibberish_impl c_ast_gibberish_postfix c_ast_name_up c_ast_find_kind_up has
c_ast_gibberish_cast ast = written (c_ast_gibberish_impl g_cast [] ast g_param_init)

unfoldable pub c_ast_gibberish_declare : Ast → Option Out
unfolding c_ast_gibberish_impl c_ast_gibberish_postfix c_ast_name_up c_ast_find_kind_up has
c_ast_gibberish_declare ast = written (c_ast_gibberish_impl g_declare [] ast g_param_init)
