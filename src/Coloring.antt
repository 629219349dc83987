-- ===== src/Coloring.antt =====
-- src/color.c: the colors that CDECL_COLORS or GCC_COLORS name. Texts are lists of character codes
-- without the zero that ends them. `When` has should_colorize and the start-up.
pub mod Sgr
pub mod Parse
pub mod Laws
pub mod When
mod Tests
use cdecl.Prelude.{
  ℕ, suc, zero, ◌+◌, ◌-◌, ◌*◌, ◌^◌, ◌==◌, ltb, leb, Bool, true, false, not, ◌&&◌, ◌||◌, List, [],
  ◌∷◌, Option, none, some, if◌then◌else◌, length,
}
use cdecl.Settings.Prompt.{Text}

abbrev pub is_digit : ℕ → Bool
is_digit c = leb b'0' c && leb c b'9'

-- strtoull(3) in base 10 of a text that begins with a digit: the number, whether errno is set, and
-- what follows the digits.
pub data Number : Type 0 where
  number : ℕ → Bool → Text → Number

abbrev pub uint64_max : ℕ
uint64_max = 2 ^ 64 - 1

abbrev pub saturated : ℕ → Text → Number
saturated n end = if ltb uint64_max n then number uint64_max true end else number n false end

unfoldable pub strtoull_from : ℕ → Text → Number
strtoull_from n [] = saturated n []
strtoull_from n (c ∷ s) =
    let further = strtoull_from (n * 10 + (c - b'0')) s in
    if is_digit c then further else saturated n (c ∷ s)

-- The switch; the first argument goes on after a semicolon.
abbrev pub at_end : (Text → Option Bool) → Text → Option Bool
at_end loop [] = some true
at_end loop (c ∷ s) = elim (c == b';') [ true ↦ loop s | false ↦ some false ]

abbrev pub after_number : (Text → Option Bool) → Number → Option Bool
after_number loop (number n errno end) = elim (errno || ltb 255 n) [
  | true ↦ some false
  | false ↦ at_end loop end
]

abbrev pub at_digit : (Text → Option Bool) → Text → Option Bool
at_digit loop [] = some false
at_digit loop (c ∷ s) = elim (is_digit c) [
  | true ↦ after_number loop (strtoull_from 0 (c ∷ s))
  | false ↦ some false
]

-- The loop, for at most so many rounds; `none` when these are too few.
unfoldable pub sgr_loop : ℕ → Text → Option Bool
unfolding strtoull_from
sgr_loop zero s = none
sgr_loop (suc rounds) s = at_digit (sgr_loop rounds) s

unfoldable pub parse_sgr : Option Text → Option Bool
unfolding sgr_loop
parse_sgr none = some false
parse_sgr (some s) = sgr_loop (suc (length s)) s

-- The variables sgr_*, by the rows of COLOR_CAPS.
pub data Cap : Type 0 where
  caret error help_keyword help_nonterm help_punct help_title locus prompt warning : Cap

abbrev pub same_cap : Cap → Cap → Bool
same_cap caret caret = true
same_cap error error = true
same_cap help_keyword help_keyword = true
same_cap help_nonterm help_nonterm = true
same_cap help_punct help_punct = true
same_cap help_title help_title = true
same_cap locus locus = true
same_cap prompt prompt = true
same_cap warning warning = true
same_cap _ _ = false

abbrev pub Variables : Type 0
Variables = Cap → Option Text

abbrev pub assign : Cap → Option Text → Variables → Variables
assign cap value vars c = if same_cap c cap then value else vars c

-- What cap_set returns, with the variables.
pub data CapSet : Type 0 where
  cap_result : Bool → Variables → CapSet

abbrev pub set_if : Cap → Text → Variables → Option Bool → Option CapSet
set_if cap s vars none = none
set_if cap s vars (some true) = some (cap_result true (assign cap (some s) vars))
set_if cap s vars (some false) = some (cap_result false vars)

unfoldable pub cap_set : Cap → Option Text → Variables → Option CapSet
cap_set cap none vars = some (cap_result true (assign cap none vars))
cap_set cap (some []) vars = some (cap_result true (assign cap none vars))
cap_set cap (some (c ∷ s)) vars = set_if cap (c ∷ s) vars (parse_sgr (some (c ∷ s)))
