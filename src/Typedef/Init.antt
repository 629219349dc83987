-- ===== src/Typedef/Init.antt =====
-- c_typedef_init of src/c_typedef.c: the predefined types, each a declaration that is parsed as if it
-- had been typed. The parser is a parameter: what it makes of the set of typedefs, `none` where it
-- fails.
use cdecl.Prelude.{Bool, true, false, String, List, [], ◌∷◌, Option, none, some}
use cdecl.RedBlack.{rb_tree_new}
use cdecl.Typedef.{Typedefs}

unfoldable pub builtin_typedefs : List String
builtin_typedefs =
    "typedef          long   ptrdiff_t" ∷ "typedef          long  ssize_t"
    ∷ "typedef unsigned long   size_t" ∷ "typedef          long   intmax_t"
    ∷ "typedef          long   intptr_t" ∷ "typedef unsigned long  uintmax_t"
    ∷ "typedef unsigned long  uintptr_t" ∷ "typedef          char   int8_t"
    ∷ "typedef          short  int16_t" ∷ "typedef          int    int32_t"
    ∷ "typedef          long   int64_t" ∷ "typedef unsigned char  uint8_t"
    ∷ "typedef unsigned short uint16_t" ∷ "typedef unsigned int   uint32_t"
    ∷ "typedef unsigned long  uint64_t" ∷ "typedef          char   int_fast8_t"
    ∷ "typedef          short  int_fast16_t" ∷ "typedef          int    int_fast32_t"
    ∷ "typedef          long   int_fast64_t" ∷ "typedef unsigned char  uint_fast8_t"
    ∷ "typedef unsigned short uint_fast16_t" ∷ "typedef unsigned int   uint_fast32_t"
    ∷ "typedef unsigned long  uint_fast64_t" ∷ "typedef          char   int_least8_t"
    ∷ "typedef          short  int_least16_t" ∷ "typedef          int    int_least32_t"
    ∷ "typedef          long   int_least64_t" ∷ "typedef unsigned char  uint_least8_t"
    ∷ "typedef unsigned short uint_least16_t" ∷ "typedef unsigned int   uint_least32_t"
    ∷ "typedef unsigned long  uint_least64_t" ∷ []

abbrev pub new_typedefs : Typedefs
new_typedefs = record { typedefs = rb_tree_new; user_defined = false }

abbrev pub parsed_then : Option Typedefs → (Typedefs → Option Typedefs) → Option Typedefs
parsed_then none f = none
parsed_then (some st) f = f st

abbrev pub then_user_defined : Option Typedefs → Option Typedefs
then_user_defined none = none
then_user_defined (some st) = some (record st { user_defined = true })

module _ (parse_string : String → Typedefs → Option Typedefs) where
  -- `none` where the assertion on what the parser returns fails.
  unfoldable pub c_typedef_parse_builtins : List String → Typedefs → Option Typedefs
  c_typedef_parse_builtins [] st = some st
  c_typedef_parse_builtins (text ∷ types) st =
      parsed_then (parse_string text st) (c_typedef_parse_builtins types)

  -- For the option opt_typedefs. The set is not made before.
  unfoldable pub c_typedef_init : Bool → Option Typedefs
  c_typedef_init true = then_user_defined (c_typedef_parse_builtins builtin_typedefs new_typedefs)
  c_typedef_init false = then_user_defined (some new_typedefs)
