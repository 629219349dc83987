-- ===== src/Typedef/History.antt =====
-- The set of typedefs through any sequence of additions.
use mathlib.Core.Path.{subst}
use mathlib.Core.Option.{some-injective, some-ne-none}
use cdecl.Prelude.{Option, none, some, String, ◌≡◌, ◌≢◌, refl, sym, ap, ◌∙◌}
use cdecl.Ast.{Ast}
use cdecl.RedBlack.{items}
use cdecl.Typedef.{CTypedef, Typedefs, c_typedef_new, Added, c_typedef_add, c_typedef_find}
use cdecl.Typedef.Laws.{
  IsWellFormed, lookup, c_typedef_find_lem, AddsTo, c_typedef_add_lem, or_new, lookup_added,
  lookup_kept,
}

-- The second state is reached from the first by calls of c_typedef_add.
pub data Later : Typedefs → Typedefs → Type 0 where
  now : {st : Typedefs} → Later st st
  then_add :
      {st st' : Typedefs} (name : String) (ast : Ast) (out : Added)
      → c_typedef_add name ast st ≡ some out
      → Later out.after st'
      → Later st st'

-- The addition that is known to give `out` is the one of the law.
pub added :
    (name : String) (ast : Ast) (st : Typedefs) (out : Added)
    → IsWellFormed st
    → c_typedef_add name ast st ≡ some out
    → IsWellFormed out.after
      × AddsTo name ast st (lookup name (items st.typedefs)) out
      × (out.after.user_defined ≡ st.user_defined)
added name ast st out h e =
    let (out', adds, keeps, flag, to) = c_typedef_add_lem name ast st h in
    let same : out' ≡ out = some-injective out' out (sym adds ∙ e) in
    (
      subst (λ o. IsWellFormed o.after) same keeps,
      subst (AddsTo name ast st (lookup name (items st.typedefs))) same to,
      ap (λ o. o.after.user_defined) (sym same) ∙ flag,
    )

-- After an addition the name stands for what it stood for before, or else for the new typedef; all
-- other names stand for what they did.
pub c_typedef_find-c_typedef_add :
    (rb_find : CTypedef) (name : String) (ast : Ast) (st : Typedefs)
    → IsWellFormed st
    → (out : Added) × (c_typedef_add name ast st ≡ some out)
      × (c_typedef_find rb_find name out.after
          ≡ or_new (c_typedef_find rb_find name st) (c_typedef_new name ast st))
      × ((other : String)
          → other ≢ name
          → c_typedef_find rb_find other out.after ≡ c_typedef_find rb_find other st)
c_typedef_find-c_typedef_add rb_find name ast st h =
    let (out, adds, keeps, flag, to) = c_typedef_add_lem name ast st h in
    let before = c_typedef_find_lem rb_find name st h in
    (
      out,
      adds,
      c_typedef_find_lem rb_find name out.after keeps
          ∙ lookup_added name ast st (lookup name (items st.typedefs)) out refl to
          ∙ ap (λ found. or_new found (c_typedef_new name ast st)) (sym before),
      λ other ne.
          c_typedef_find_lem rb_find other out.after keeps
          ∙ lookup_kept name other ast st (lookup name (items st.typedefs)) out ne to
          ∙ sym (c_typedef_find_lem rb_find other st h),
    )

lookup_stays :
    (name other : String) (t : CTypedef) (ast : Ast) (st : Typedefs) (found : Option CTypedef)
    (out : Added)
    → lookup name (items st.typedefs) ≡ some t
    → lookup other (items st.typedefs) ≡ found
    → AddsTo other ast st found out
    → lookup name (items out.after.typedefs) ≡ some t
lookup_stays name other t ast st none out e f h =
    let differ = λ (same : name ≡ other).
      some-ne-none t (sym e ∙ ap (λ n. lookup n (items st.typedefs)) same ∙ f) in
    lookup_kept other name ast st none out differ h ∙ e
lookup_stays name other t ast st (some old) out e f h = ap (lookup name) h.2 ∙ e

-- A name that stands for a typedef stands for it after any sequence of additions, and the set stays
-- well-formed.
pub c_typedef_find-Later :
    (rb_find : CTypedef) (name : String) (t : CTypedef) (st st' : Typedefs)
    → IsWellFormed st
    → c_typedef_find rb_find name st ≡ some t
    → Later st st'
    → IsWellFormed st' × (c_typedef_find rb_find name st' ≡ some t)
c_typedef_find-Later rb_find name t st st' h e now = (h, e)
c_typedef_find-Later rb_find name t st st' h e (then_add other ast out adds later) =
    let (keeps, to, flag) = added other ast st out h adds in
    let stays =
      lookup_stays name other t ast st (lookup other (items st.typedefs)) out
        (sym (c_typedef_find_lem rb_find name st h) ∙ e) refl to in
    c_typedef_find-Later rb_find name t out.after st' keeps
      (c_typedef_find_lem rb_find name out.after keeps ∙ stays) later
