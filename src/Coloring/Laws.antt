-- ===== src/Coloring/Laws.antt =====
-- What the variables of the colors hold, whatever is parsed.
use cdecl.Prelude.{
  ℕ, suc, zero, ◌==◌, ◌<◌, Bool, true, false, List, [], ◌∷◌, Option, none, some, if◌then◌else◌,
  length, ◌≡◌, refl, sym, ap, ◌∙◌, arith, Bool-cases, inl, inr,
}
use mathlib.Core.Path.{subst}
use cdecl.Lang.Find.{codes, same_codes}
use cdecl.Settings.Prompt.{Text}
use cdecl.Coloring.{Cap, same_cap, Variables, assign, CapSet, cap_result, set_if, cap_set}
use cdecl.Coloring.Sgr.{fields, all_numbers, parse_sgr_lem}
use cdecl.Coloring.Parse.{
  Token, token, longer, strsep, ColorCap, color_caps, cap_value, or_set, try_caps, try_cap,
  and_then, cap_round, caps_loop, colors_parse,
}

-- No color, or a valid one.
abbrev pub IsColor : Option Text → Type 0
IsColor none = Unit
IsColor (some s) = all_numbers (fields s) ≡ true

abbrev pub AllColors : Variables → Type 0
AllColors vars = (c : Cap) → IsColor (vars c)

-- From variables, an operation ends with a flag and variables that hold colors, the same ones where
-- the flag is false.
abbrev pub Sets : Bool → Variables → Option CapSet → Type 0
Sets flag vars out =
    (flag' : Bool) × (vars' : Variables) × (out ≡ some (cap_result flag' vars'))
    × AllColors vars'
    × (flag' ≡ false → (flag ≡ false) × (vars' ≡ vars))

assign-AllColors :
    (cap : Cap) (value : Option Text) (vars : Variables)
    → IsColor value
    → AllColors vars
    → AllColors (assign cap value vars)
assign-AllColors cap value vars h k c = if_color (same_cap c cap)
  where
    if_color : (b : Bool) → IsColor (if b then value else vars c)
    if_color true = h
    if_color false = k c

set_if-Sets :
    (cap : Cap) (s : Text) (flag : Bool) (vars : Variables) (b : Bool)
    → all_numbers (fields s) ≡ b
    → AllColors vars
    → Sets flag vars (or_set flag (set_if cap s vars (some b)))
set_if-Sets cap s flag vars true e h =
    (true, assign cap (some s) vars, refl, assign-AllColors cap (some s) vars e h, cc)
set_if-Sets cap s flag vars false e h = (flag, vars, refl, h, λ f. (f, refl))

cap_set-Sets :
    (cap : Cap) (value : Option Text) (flag : Bool) (vars : Variables)
    → AllColors vars
    → Sets flag vars (or_set flag (cap_set cap value vars))
unfolding cap_set
cap_set-Sets cap none flag vars h =
    (true, assign cap none vars, refl, assign-AllColors cap none vars tt h, cc)
cap_set-Sets cap (some []) flag vars h =
    (true, assign cap none vars, refl, assign-AllColors cap none vars tt h, cc)
cap_set-Sets cap (some (c ∷ s)) flag vars h =
    subst (λ o. Sets flag vars (or_set flag (set_if cap (c ∷ s) vars o)))
      (sym (parse_sgr_lem (c ∷ s)))
      (set_if-Sets cap (c ∷ s) flag vars (all_numbers (fields (c ∷ s))) refl h)

this_cap :
    (name : Text) (value : Option Text) (row : ColorCap) (rows : List ColorCap) (flag : Bool)
    (vars : Variables)
    → same_codes name (codes row.cap_name) ≡ true
    → try_caps name value (row ∷ rows) flag vars
      ≡ or_set flag (cap_set row.cap_var_to_set (cap_value value) vars)
unfolding try_caps
this_cap name value row rows flag vars e =
    ap
      (λ b.
        if b
        then or_set flag (cap_set row.cap_var_to_set (cap_value value) vars)
        else try_caps name value rows flag vars)
      e

other_cap :
    (name : Text) (value : Option Text) (row : ColorCap) (rows : List ColorCap) (flag : Bool)
    (vars : Variables)
    → same_codes name (codes row.cap_name) ≡ false
    → try_caps name value (row ∷ rows) flag vars ≡ try_caps name value rows flag vars
unfolding try_caps
other_cap name value row rows flag vars e =
    ap
      (λ b.
        if b
        then or_set flag (cap_set row.cap_var_to_set (cap_value value) vars)
        else try_caps name value rows flag vars)
      e

try_caps-Sets :
    (name : Text) (value : Option Text) (rows : List ColorCap) (flag : Bool) (vars : Variables)
    → AllColors vars
    → Sets flag vars (try_caps name value rows flag vars)
unfolding try_caps
try_caps-Sets name value [] flag vars h = (flag, vars, refl, h, λ f. (f, refl))
try_caps-Sets name value (row ∷ rows) flag vars h =
    elim (Bool-cases (same_codes name (codes row.cap_name))) [
      | inl e ↦
          subst (λ out. Sets flag vars out) (sym (this_cap name value row rows flag vars e))
            (cap_set-Sets row.cap_var_to_set (cap_value value) flag vars h)
      | inr e ↦
          subst (λ out. Sets flag vars out) (sym (other_cap name value row rows flag vars e))
            (try_caps-Sets name value rows flag vars h)
    ]

-- The characters that are left.
abbrev left_length : Option Text → ℕ
left_length none = 0
left_length (some s) = suc (length s)

abbrev rest_of : Token → Option Text
rest_of (token t rest) = rest

rest-longer : (c : ℕ) (t : Token) → rest_of (longer c t) ≡ rest_of t
rest-longer c (token t rest) = refl

strsep_shorter : (delim : ℕ) (s : Text) → left_length (rest_of (strsep delim s)) < suc (length s)
unfolding strsep
strsep_shorter delim [] = omega arith
strsep_shorter delim (c ∷ s) = elim (Bool-cases (c == delim)) [
  | inl e ↦ rw e (omega arith)
  | inr e ↦
      rw (e, rest-longer c (strsep delim s)) (let less = strsep_shorter delim s in omega arith)
]

try_cap-Sets :
    (t : Token) (flag : Bool) (vars : Variables)
    → AllColors vars
    → Sets flag vars (try_cap t flag vars)
try_cap-Sets (token name value) flag vars h = try_caps-Sets name value color_caps flag vars h

-- One step and then others.
and_then-Sets :
    (flag : Bool) (vars : Variables) (out : Option CapSet) (f : Bool → Variables → Option CapSet)
    → Sets flag vars out
    → ((flag' : Bool) (vars' : Variables) → AllColors vars' → Sets flag' vars' (f flag' vars'))
    → Sets flag vars (and_then out f)
and_then-Sets flag vars out f (flag', vars', e, colors, same) step =
    let (flag'', vars'', e', colors', same') = step flag' vars' colors in
    (
      flag'',
      vars'',
      ap (λ o. and_then o f) e ∙ e',
      colors',
      λ off. let first = same' off in let second = same first.0 in (second.0, first.1 ∙ second.1),
    )

cap_round-Sets :
    (bound : ℕ) (t : Token) (loop : Option Text → Bool → Variables → Option CapSet) (flag : Bool)
    (vars : Variables)
    → AllColors vars
    → left_length (rest_of t) < bound
    → ((rest : Option Text) (flag' : Bool) (vars' : Variables)
        → left_length rest < bound
        → AllColors vars'
        → Sets flag' vars' (loop rest flag' vars'))
    → Sets flag vars (cap_round t loop flag vars)
cap_round-Sets bound (token cap_name_val rest) loop flag vars h shorter loops =
    and_then-Sets flag vars (try_cap (strsep b'=' cap_name_val) flag vars) (loop rest)
      (try_cap-Sets (strsep b'=' cap_name_val) flag vars h)
      (λ flag' vars' colors. loops rest flag' vars' shorter colors)

caps_loop-Sets :
    (rounds : ℕ) (next_cap : Option Text) (flag : Bool) (vars : Variables)
    → left_length next_cap < rounds
    → AllColors vars
    → Sets flag vars (caps_loop rounds next_cap flag vars)
unfolding caps_loop
caps_loop-Sets zero next_cap flag vars less h = absurd (omega arith)
caps_loop-Sets (suc rounds) none flag vars less h = (flag, vars, refl, h, λ f. (f, refl))
caps_loop-Sets (suc rounds) (some s) flag vars less h =
    cap_round-Sets (suc (length s)) (strsep b':' s) (caps_loop rounds) flag vars h
      (strsep_shorter b':' s)
      (λ rest flag' vars' shorter colors.
        caps_loop-Sets rounds rest flag' vars' (omega arith) colors)

-- Parsing capabilities ends, for every text; each variable then still holds no color or a valid
-- one; and if the answer is false, no variable was changed.
pub colors_parse_lem :
    (capabilities : Option Text) (vars : Variables)
    → AllColors vars
    → (set_something : Bool) × (vars' : Variables) × (colors_parse capabilities vars
        ≡ some (cap_result set_something vars'))
      × AllColors vars'
      × (set_something ≡ false → vars' ≡ vars)
unfolding colors_parse
colors_parse_lem none vars h = (false, vars, refl, h, λ f. refl)
colors_parse_lem (some s) vars h =
    let (flag, vars', ends, colors, same) =
      caps_loop-Sets (suc (suc (length s))) (some s) false vars (omega arith) h in
    (flag, vars', ends, colors, λ f. (same f).1)
