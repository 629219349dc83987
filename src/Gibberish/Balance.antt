-- ===== src/Gibberish/Balance.antt =====
-- The parentheses of the declarations and casts that src/gibberish.c writes.
use cdecl.Prelude.{
  ℕ, suc, true, false, List, [], ◌∷◌, ◌++◌, Option, none, some, ◌≡◌, refl, ◌∙◌, bit_and,
}
use cdecl.Bits.{compl64}
use cdecl.Types.{t_mask_storage}
use cdecl.Output.{Fine, Out, text, type_name, open_paren, close_paren, Balanced}
use cdecl.Output.Laws.{depth_after-++, ++-Balanced}
use cdecl.Ast.{
  Ast, Args, placeholder, builtin, ecsu, untyped, typedef_type, variadic, array, block, function,
  pointer, pointer_to_member, reference, rvalue_reference, no_args, arg,
}
use cdecl.Gibberish.{
  GKind, g_cast, g_declare, Entry, entry, GParam, g_param_init, write, shown_name, type_if,
  name_text, is_nonempty,
}
use cdecl.Gibberish.Impl.{
  late_bits, late_text, ecsu_type, typedef_text, c_ast_gibberish_impl, c_ast_gibberish_func_args,
  more_args, written, c_ast_gibberish_cast, c_ast_gibberish_declare,
}
use cdecl.Gibberish.Laws.{NotMember, UnderFirst, GoodUp, At, write-At}
use cdecl.Gibberish.Parts.{type_if-Balanced, name_text-Balanced, array_size-Balanced}
use cdecl.Gibberish.Impl.{first_arg, next_arg}
use cdecl.Gibberish.Steps.{
  typedef_text-Balanced, late_text-Balanced, Printed, and_then-Printed, set_leaf-Printed,
  leaf_text-Printed, postfixed-Printed, end_pointer-Printed, end_member-Printed,
}

-- No placeholder, and no pointer to member directly below a pointer, a pointer to member or a
-- reference.
abbrev mutual
  pub Writable : Ast → Type 0
  Writable (placeholder n) = ⊥
  Writable (builtin n) = Unit
  Writable (ecsu n s) = Unit
  Writable (untyped n) = Unit
  Writable (typedef_type n s a) = Unit
  Writable (variadic n) = Unit
  Writable (array n s t a) = Writable a
  Writable (block n args a) = WritableArgs args × Writable a
  Writable (function n args a) = WritableArgs args × Writable a
  Writable (pointer n a) = NotMember a × Writable a
  Writable (pointer_to_member n s a) = NotMember a × Writable a
  Writable (reference n a) = NotMember a × Writable a
  Writable (rvalue_reference n a) = Writable a

  pub WritableArgs : Args → Type 0
  WritableArgs no_args = Unit
  WritableArgs (arg a rest) = Writable a × WritableArgs rest

-- The first argument and the rest, between parentheses.
first_arg-Fine :
    (g : GKind)
    → (r : Option GParam) → (o : Option Out) → ((d : ℕ) → Printed g d false r)
    → Fine o
    → Fine (first_arg r o)
first_arg-Fine g none o h f = h 0
first_arg-Fine g (some p) none h f = f
first_arg-Fine g (some p) (some o) h f = λ d.
    depth_after-++ d (suc d) ((open_paren ∷ p.out) ++ o) (close_paren ∷ [])
      (depth_after-++ d (suc d) (open_paren ∷ p.out) o (h (suc d)).0 ∙ f (suc d))

next_arg-Fine :
    (g : GKind)
    → (r : Option GParam) → (o : Option Out) → ((d : ℕ) → Printed g d false r)
    → Fine o
    → Fine (next_arg r o)
next_arg-Fine g none o h f = h 0
next_arg-Fine g (some p) none h f = f
next_arg-Fine g (some p) (some o) h f = ++-Balanced (text ", " ∷ p.out) o (λ d. (h d).0) f

mutual
  unfolding c_ast_gibberish_impl

  impl-Printed :
      (g : GKind)
      → (d : ℕ) → (up : List Entry) → (a : Ast) → (p : GParam) → Writable a
      → UnderFirst up a
      → GoodUp up
      → p.leaf ≡ none
      → At g d d p
      → Printed g d (is_nonempty up) (c_ast_gibberish_impl g up a p)
  impl-Printed g d up (function n args a) p w u good l h =
      let e = entry (function n args a) (c_ast_gibberish_func_args g args) in
      postfixed-Printed g d e up (c_ast_gibberish_impl g (e ∷ up) a)
        (type_if (bit_and n.type (compl64 late_bits)) (text " " ∷ [])) (late_text n.type) p
        (type_if-Balanced (bit_and n.type (compl64 late_bits)) (text " " ∷ []) (λ x. refl))
        (late_text-Balanced n.type) (func_args-Fine g args w.0, u, good) l h
        (λ q m k. impl-Printed g d (e ∷ up) a q w.1 tt (func_args-Fine g args w.0, u, good) m k)
  impl-Printed g d up (block n args a) p w u good l h =
      let e = entry (block n args a) (c_ast_gibberish_func_args g args) in
      postfixed-Printed g d e up (c_ast_gibberish_impl g (e ∷ up) a)
        (type_if n.type (text " " ∷ [])) [] p (type_if-Balanced n.type (text " " ∷ []) (λ x. refl))
        (λ x. refl) (func_args-Fine g args w.0, u, good) l h
        (λ q m k. impl-Printed g d (e ∷ up) a q w.1 tt (func_args-Fine g args w.0, u, good) m k)
  impl-Printed g d up (array n s t a) p w u good l h =
      let e = entry (array n s t a) (some []) in
      postfixed-Printed g d e up (c_ast_gibberish_impl g (e ∷ up) a)
        (type_if n.type (text " " ∷ [])) [] p (type_if-Balanced n.type (text " " ∷ []) (λ x. refl))
        (λ x. refl) (array_size-Balanced s t, u, good) l h
        (λ q m k. impl-Printed g d (e ∷ up) a q w tt (array_size-Balanced s t, u, good) m k)
  impl-Printed g d up (pointer n a) p w u good l h =
      let o = type_if (bit_and n.type t_mask_storage) (text " " ∷ []) in
      let below =
        impl-Printed g d (entry (pointer n a) (some []) ∷ up) a (write o p) w.1 w.0
          ((λ x. refl), u, good) l
          (write-At g d d o p
            (type_if-Balanced (bit_and n.type t_mask_storage) (text " " ∷ []) (λ x. refl)) h) in
      and_then-Printed g d (is_nonempty up) true _ _ below
        (λ q m k. end_pointer-Printed g d (pointer n a) up q tt m k)
  impl-Printed g d up (reference n a) p w u good l h =
      let o = type_if (bit_and n.type t_mask_storage) (text " " ∷ []) in
      let below =
        impl-Printed g d (entry (reference n a) (some []) ∷ up) a (write o p) w.1 w.0
          ((λ x. refl), u, good) l
          (write-At g d d o p
            (type_if-Balanced (bit_and n.type t_mask_storage) (text " " ∷ []) (λ x. refl)) h) in
      and_then-Printed g d (is_nonempty up) true _ _ below
        (λ q m k. end_pointer-Printed g d (reference n a) up q tt m k)
  impl-Printed g d up (rvalue_reference n a) p w u good l h =
      let o = type_if (bit_and n.type t_mask_storage) (text " " ∷ []) in
      let below =
        impl-Printed g d (entry (rvalue_reference n a) (some []) ∷ up) a (write o p) w tt
          ((λ x. refl), u, good) l
          (write-At g d d o p
            (type_if-Balanced (bit_and n.type t_mask_storage) (text " " ∷ []) (λ x. refl)) h) in
      and_then-Printed g d (is_nonempty up) true _ _ below
        (λ q m k. end_pointer-Printed g d (rvalue_reference n a) up q tt m k)
  impl-Printed g d up (pointer_to_member n s a) p w u good l h =
      let below =
        impl-Printed g d (entry (pointer_to_member n s a) (some []) ∷ up) a p w.1 w.0
          ((λ x. refl), u, good) l h in
      and_then-Printed g d (is_nonempty up) true _ _ below
        (λ q m k. end_member-Printed g d (pointer_to_member n s a) up q tt m k)
  impl-Printed g d up (placeholder n) p w u good l h = absurd w
  impl-Printed g d up (builtin n) p w u good l h =
      leaf_text-Printed g d (builtin n) up (type_name n.type ∷ []) p (λ x. refl) l h good
  impl-Printed g d up (ecsu n s) p w u good l h =
      leaf_text-Printed g d (ecsu n s) up (type_name (ecsu_type n.type) ∷ text " " ∷ text s ∷ []) p
        (λ x. refl) l h good
  impl-Printed g d up (typedef_type n s a) p w u good l h =
      leaf_text-Printed g d (typedef_type n s a) up (typedef_text n.type ++ (text s ∷ [])) p
        (typedef_text-Balanced n.type s) l h good
  impl-Printed g d up (untyped n) p w u good l h =
      let o = name_text (shown_name g n.name) in
      set_leaf-Printed g d p.leaf up (write o p) l
        (write-At g d d o p (name_text-Balanced (shown_name g n.name)) h) good
  impl-Printed g d up (variadic n) p w u good l h =
      set_leaf-Printed g d p.leaf up (write (text "..." ∷ []) p) l
        (write-At g d d (text "..." ∷ []) p (λ x. refl) h) good

  func_args-Fine :
      (g : GKind) → (args : Args) → WritableArgs args → Fine (c_ast_gibberish_func_args g args)
  func_args-Fine g no_args w = λ x. refl
  func_args-Fine g (arg a rest) w =
      first_arg-Fine g (c_ast_gibberish_impl g [] a g_param_init) (more_args g rest)
        (λ d. impl-Printed g d [] a g_param_init w.0 tt tt refl refl) (more_args-Fine g rest w.1)

  more_args-Fine : (g : GKind) → (args : Args) → WritableArgs args → Fine (more_args g args)
  more_args-Fine g no_args w = λ x. refl
  more_args-Fine g (arg a rest) w =
      next_arg-Fine g (c_ast_gibberish_impl g [] a g_param_init) (more_args g rest)
        (λ d. impl-Printed g d [] a g_param_init w.0 tt tt refl refl) (more_args-Fine g rest w.1)

printed :
    (g : GKind)
    → (r : Option GParam) → ((d : ℕ) → Printed g d false r)
    → (out : Out) × (written r ≡ some out) × Balanced out
printed g none h = absurd (h 0)
printed g (some p) h = (p.out, refl, λ d. (h d).0)

-- An AST with no placeholder, and with no pointer to member directly below a pointer, a pointer to
-- member or a reference, is written as a declaration and as a cast to the end, without a failed
-- assertion, and both outputs close each parenthesis that they open.
pub c_ast_gibberish-Balanced :
    (ast : Ast)
    → Writable ast
    → ((out : Out) × (c_ast_gibberish_declare ast ≡ some out) × Balanced out)
      × ((out : Out) × (c_ast_gibberish_cast ast ≡ some out) × Balanced out)
unfolding c_ast_gibberish_declare c_ast_gibberish_cast
c_ast_gibberish-Balanced ast w = (
  printed g_declare (c_ast_gibberish_impl g_declare [] ast g_param_init)
      (λ d. impl-Printed g_declare d [] ast g_param_init w tt tt refl refl),
  printed g_cast (c_ast_gibberish_impl g_cast [] ast g_param_init)
      (λ d. impl-Printed g_cast d [] ast g_param_init w tt tt refl refl),
)
