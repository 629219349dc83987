-- ===== src/Gibberish/Laws.antt =====
-- What c_ast_gibberish_postfix of src/gibberish.c does to the parentheses that are open.
use cdecl.Prelude.{
  ℕ, suc, Bool, true, false, List, [], ◌∷◌, ◌++◌, Option, none, some, String, ◌≡◌, refl, ◌∙◌,
  if◌then◌else◌,
}
use mathlib.Core.Path.{subst}
use cdecl.Output.{Fine, Out, text, open_paren, close_paren, depth_after, Balanced}
use cdecl.Output.Laws.{depth_after-++}
use cdecl.Ast.{Ast, block, pointer, pointer_to_member, reference, rvalue_reference, name_of}
use cdecl.Gibberish.{
  GKind, Entry, GParam, write, g_param_space, shown_name, space_name, qual_rest,
  c_ast_gibberish_qual_name, own_part, write_some, own_postfix, ◌and_then◌, root_name, root_part,
  is_block, opening, closing, Way, further, between, nowhere, way, at_parent, is_nonempty,
  c_ast_gibberish_postfix,
}
use cdecl.Gibberish.Parts.{qual_rest-Balanced}

-- No pointer to member.
abbrev pub NotMember : Ast → Type 0
NotMember (pointer_to_member n s a) = ⊥
NotMember _ = Unit

abbrev Under : Way → Ast → Type 0
Under between ast = NotMember ast
Under _ ast = Unit

-- Entries whose own postfix part is balanced, no pointer to member under a pointer, a pointer to
-- member or a reference.
abbrev pub UnderFirst : List Entry → Ast → Type 0
UnderFirst [] ast = Unit
UnderFirst (parent ∷ up) ast = Under (way parent.ast) ast

abbrev pub GoodUp : List Entry → Type 0
GoodUp [] = Unit
GoodUp (e ∷ up) = Fine (own_part e.ast e.args_out) × UnderFirst up e.ast × GoodUp up

-- The nodes that c_ast_gibberish_qual_name prints.
abbrev pub Signed : Ast → Type 0
Signed (pointer n a) = Unit
Signed (pointer_to_member n s a) = Unit
Signed (reference n a) = Unit
Signed (rvalue_reference n a) = Unit
Signed _ = ⊥

between-Signed : (ast : Ast) → way ast ≡ between → Signed ast
between-Signed (pointer n a) h = tt
between-Signed (pointer_to_member n s a) h = tt
between-Signed (reference n a) h = tt
between-Signed ast h = cc

-- The parameters of a printing that goes on: of `d` parentheses open at its start, `e` are open
-- now, and the leaf is the one given.
abbrev pub Goes : ℕ → ℕ → Option (List Entry) → Option GParam → Type 0
Goes d e leaf none = ⊥
Goes d e leaf (some p) = (depth_after d p.out ≡ some e) × (p.leaf ≡ leaf)

module _ (g : GKind) (d : ℕ) where
  abbrev pub At : ℕ → GParam → Type 0
  At e p = depth_after d p.out ≡ some e

  pub write-At : (e : ℕ) → (o : Out) → (p : GParam) → Balanced o → At e p → At e (write o p)
  write-At e o p h k = depth_after-++ d e p.out o k ∙ h e

  -- A goes-on in two steps.
  pub and_then-Goes :
      (e e' : ℕ) (leaf : Option (List Entry)) (r : Option GParam) (f : GParam → Option GParam)
      → Goes d e leaf r
      → ((q : GParam) → At e q → q.leaf ≡ leaf → Goes d e' leaf (f q))
      → Goes d e' leaf (r and_then f)
  and_then-Goes e e' leaf none f h k = h
  and_then-Goes e e' leaf (some q) f h k = k q h.0 h.1

  space-At :
      (b : Bool)
      → (e : ℕ) → (p : GParam) → At e p
      → At e (if b then p else record p { out = p.out ++ (text " " ∷ []); space = true })
  space-At true e p h = h
  space-At false e p h = depth_after-++ d e p.out (text " " ∷ []) h

  pub g_param_space-At : (e : ℕ) → (p : GParam) → At e p → At e (g_param_space p)
  g_param_space-At e p h = space-At p.space e p h

  space-leaf :
      (b : Bool)
      → (p : GParam)
      → (if b then p else record p { out = p.out ++ (text " " ∷ []); space = true }).leaf ≡ p.leaf
  space-leaf true p = refl
  space-leaf false p = refl

  pub g_param_space-leaf : (p : GParam) → (g_param_space p).leaf ≡ p.leaf
  g_param_space-leaf p = space-leaf p.space p

  pub space_name-At :
      (name : Option String) → (e : ℕ) → (p : GParam) → At e p → At e (space_name name p)
  space_name-At none e p h = h
  space_name-At (some name) e p h =
      write-At e (text name ∷ []) (g_param_space p) (λ k. refl) (g_param_space-At e p h)

  pub space_name-leaf : (name : Option String) → (p : GParam) → (space_name name p).leaf ≡ p.leaf
  space_name-leaf none p = refl
  space_name-leaf (some name) p = g_param_space-leaf p

  pub qual_name-Goes :
      (e : ℕ)
      → (ast : Ast) → (p : GParam) → Signed ast
      → At e p
      → Goes d e p.leaf (c_ast_gibberish_qual_name g ast p)
  qual_name-Goes e (pointer n a) p w h =
      (write-At e ((text "*" ∷ []) ++ qual_rest g n) p (qual_rest-Balanced g n) h, refl)
  qual_name-Goes e (pointer_to_member n s a) p w h =
      (write-At e ((text s ∷ text "::*" ∷ []) ++ qual_rest g n) p (qual_rest-Balanced g n) h, refl)
  qual_name-Goes e (reference n a) p w h =
      (write-At e ((text "&" ∷ []) ++ qual_rest g n) p (qual_rest-Balanced g n) h, refl)
  qual_name-Goes e (rvalue_reference n a) p w h =
      (write-At e ((text "&&" ∷ []) ++ qual_rest g n) p (qual_rest-Balanced g n) h, refl)
  qual_name-Goes e ast p w h = absurd w

  write_some-Goes :
      (o : Option Out) → (e : ℕ) → (p : GParam) → Fine o → At e p → Goes d e p.leaf (write_some o p)
  write_some-Goes none e p f h = f
  write_some-Goes (some o) e p f h = (write-At e o p f h, refl)

  -- Between the parentheses of a pointer or a reference.
  between-Goes :
      (inside e : ℕ) (ast parent : Ast) (has_parent : Bool) (rest : GParam → Option GParam)
      (p : GParam)
      → way parent ≡ between
      → At inside (write (opening ast) p)
      → ((q : GParam) → At inside q → At e (write (closing ast) q))
      → ((q : GParam) → has_parent ≡ true → At inside q → Goes d inside q.leaf (rest q))
      → Goes d e p.leaf (at_parent g between ast parent has_parent rest p)
  between-Goes inside e ast parent has_parent rest p w opens closes h =
      and_then-Goes inside e p.leaf _ _
        (and_then-Goes inside inside p.leaf _ _
          (qual_name-Goes inside parent (write (opening ast) p) (between-Signed parent w) opens)
          (λ q k l. rest_part has_parent q k l h))
        (λ q k l. (closes q k, l))
    where
      rest_part :
          (b : Bool)
          → (q : GParam) → At inside q
          → q.leaf ≡ p.leaf
          → ((q : GParam) → b ≡ true → At inside q → Goes d inside q.leaf (rest q))
          → Goes d inside p.leaf (elim b [ true ↦ rest q | false ↦ some q ])
      rest_part true q k l h = subst (λ leaf. Goes d inside leaf (rest q)) l (h q refl k)
      rest_part false q k l h = (k, l)

  -- The root, whose name is written.
  root-Goes :
      (b : Bool)
      → (e : ℕ) → (ast : Ast) → (p : GParam) → At e p
      → At e (root_part b g ast p) × ((root_part b g ast p).leaf ≡ p.leaf)
  root-Goes true e ast p h =
      let before = write (open_paren ∷ text "^" ∷ []) p in
      let name = shown_name g (name_of ast) in
      let opened = depth_after-++ d e p.out (open_paren ∷ text "^" ∷ []) h in
      let named = space_name-At name (suc e) before opened in
      (
        depth_after-++ d (suc e) (space_name name before).out (close_paren ∷ []) named,
        space_name-leaf name before,
      )
  root-Goes false e ast p h =
      let name = shown_name g (name_of ast) in (space_name-At name e p h, space_name-leaf name p)

  opening-closing :
      (e : ℕ) (ast parent : Ast) (has_parent : Bool) (rest : GParam → Option GParam) (p : GParam)
      → way parent ≡ between
      → NotMember ast
      → At e p
      → ((i : ℕ) → (q : GParam) → has_parent ≡ true → At i q → Goes d i q.leaf (rest q))
      → Goes d e p.leaf (at_parent g between ast parent has_parent rest p)
  opening-closing e (pointer n a) parent has_parent rest p w m k h =
      between-Goes e e (pointer n a) parent has_parent rest p w (write-At e [] p (λ x. refl) k)
        (λ q l. write-At e [] q (λ x. refl) l) (h e)
  opening-closing e (pointer_to_member n s a) parent has_parent rest p w m k h = absurd m
  opening-closing e (block n args a) parent has_parent rest p w m k h =
      between-Goes (suc e) e (block n args a) parent has_parent rest p w
        (depth_after-++ d e p.out (open_paren ∷ text "^" ∷ []) k)
        (λ q l. depth_after-++ d (suc e) q.out (close_paren ∷ []) l) (h (suc e))
  opening-closing e ast parent has_parent rest p w m k h =
      between-Goes (suc e) e ast parent has_parent rest p w
        (depth_after-++ d e p.out (open_paren ∷ []) k)
        (λ q l. depth_after-++ d (suc e) q.out (close_paren ∷ []) l) (h (suc e))

  at_parent-Goes :
      (v : Way) (e : ℕ) (ast parent : Ast) (has_parent : Bool) (rest : GParam → Option GParam)
      (p : GParam)
      → way parent ≡ v
      → Under v ast
      → At e p
      → ((i : ℕ) → (q : GParam) → At i q → Goes d i q.leaf (rest q))
      → Goes d e p.leaf (at_parent g v ast parent has_parent rest p)
  at_parent-Goes further e ast parent has_parent rest p w u k h = h e p k
  at_parent-Goes between e ast parent has_parent rest p w u k h =
      opening-closing e ast parent has_parent rest p w u k (λ i q b l. h i q l)
  at_parent-Goes nowhere e ast parent has_parent rest p w u k h = (k, refl)

  -- The postfix part of a node that has one closes what it opens.
  pub postfix-Goes :
      (e : ℕ)
      → (chain : List Entry) → (p : GParam) → GoodUp chain
      → is_nonempty chain ≡ true
      → At e p
      → Goes d e p.leaf (c_ast_gibberish_postfix g chain p)
  unfolding c_ast_gibberish_postfix
  postfix-Goes e [] p good some_node k = cc
  postfix-Goes e (x ∷ []) p good some_node k =
      let named = root-Goes (is_block x.ast) e x.ast p k in
      subst (λ leaf. Goes d e leaf (own_postfix x (root_name g x.ast p))) named.1
        (write_some-Goes (own_part x.ast x.args_out) e (root_name g x.ast p) good.0 named.0)
  postfix-Goes e (x ∷ parent ∷ up) p good some_node k =
      and_then-Goes e e p.leaf _ (own_postfix x)
        (at_parent-Goes (way parent.ast) e x.ast parent.ast (is_nonempty up)
          (λ q. c_ast_gibberish_postfix g (parent ∷ up) q) p refl good.1 k
          (λ i q l. postfix-Goes i (parent ∷ up) q good.2 refl l))
        (λ q l m.
          subst (λ leaf. Goes d e leaf (own_postfix x q)) m
            (write_some-Goes (own_part x.ast x.args_out) e q good.0 l))
