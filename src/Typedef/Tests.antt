-- ===== src/Typedef/Tests.antt =====
-- Runs of the set of typedefs.
use cdecl.Prelude.{ℕ, true, false, [], ◌∷◌, none, some, String, ◌≡◌, ◌≢◌, refl}
use cdecl.Ast.{Ast, CLoc, builtin}
use cdecl.Ast.Equiv.{resolve}
use cdecl.Types.{t_int, t_double}
use cdecl.RedBlack.{items, node, black, nil, rb_tree_new}
use cdecl.Typedef.{
  CTypedef, Typedefs, c_typedef_new, Added, c_typedef_add, c_typedef_find, c_typedef_visit,
  c_typedef_cleanup, nothing_freed, struct_freed, name_and_ast_freed,
}
use cdecl.Typedef.Laws.{IsWellFormed, lookup, AddsTo, c_typedef_add_lem, or_new}
use cdecl.Typedef.History.{Later, now, then_add, c_typedef_find-c_typedef_add, c_typedef_find-Later}

abbrev here : CLoc
here = record { first_line = 1; first_column = 1; last_line = 1; last_column = 1 }

abbrev plain : ℕ → Ast
plain t = builtin (record { name = none; type = t; loc = here })

abbrev garbage : CTypedef
garbage = record { type_name = "?"; ast = plain 0; user_defined = false }

abbrev word_typedef : CTypedef
word_typedef = record { type_name = "word"; ast = plain t_int; user_defined = true }

abbrev one_word : Typedefs
one_word = record { typedefs = node black nil word_typedef nil; user_defined = true }

abbrev new_set : Typedefs
new_set = record { typedefs = rb_tree_new; user_defined = true }

first_added :
    c_typedef_add "word" (plain t_int) new_set
    ≡ some (record { ok = true; freed = nothing_freed; after = one_word })
unfolding c_typedef_add
first_added = refl

same_again :
    c_typedef_add "word" (plain t_int) one_word
    ≡ some (record { ok = true; freed = name_and_ast_freed; after = one_word })
unfolding c_typedef_add resolve
same_again = refl

refused :
    c_typedef_add "word" (plain t_double) one_word
    ≡ some (record { ok = false; freed = struct_freed; after = one_word })
unfolding c_typedef_add resolve
refused = refl

cleaned : c_typedef_cleanup one_word ≡ word_typedef ∷ []
unfolding c_typedef_cleanup
cleaned = refl

visited : c_typedef_visit (λ t. t.user_defined) one_word ≡ some word_typedef
unfolding c_typedef_visit
visited = refl

word_found : c_typedef_find garbage "word" one_word ≡ some word_typedef
unfolding c_typedef_find
word_found = refl

one_word-IsWellFormed : IsWellFormed one_word
one_word-IsWellFormed = ((refl, (1, (refl, refl))), (tt, tt))

c_typedef_add_lem_example :
    (out : Added) × (c_typedef_add "word" (plain t_double) one_word ≡ some out)
    × IsWellFormed out.after
    × (out.after.user_defined ≡ true)
    × AddsTo "word" (plain t_double) one_word (lookup "word" (items one_word.typedefs)) out
c_typedef_add_lem_example = c_typedef_add_lem "word" (plain t_double) one_word one_word-IsWellFormed

c_typedef_find-c_typedef_add_example :
    (out : Added) × (c_typedef_add "real" (plain t_double) one_word ≡ some out)
    × (c_typedef_find garbage "real" out.after
        ≡ or_new
            (c_typedef_find garbage "real" one_word)
            (c_typedef_new "real" (plain t_double) one_word))
    × ((other : String)
        → other ≢ "real"
        → c_typedef_find garbage other out.after ≡ c_typedef_find garbage other one_word)
c_typedef_find-c_typedef_add_example =
    c_typedef_find-c_typedef_add garbage "real" (plain t_double) one_word one_word-IsWellFormed

-- A redefinition that is refused.
refused-Later : Later one_word one_word
refused-Later =
    then_add "word" (plain t_double) (record { ok = false; freed = struct_freed; after = one_word })
      refused now

c_typedef_find-Later_example :
    IsWellFormed one_word × (c_typedef_find garbage "word" one_word ≡ some word_typedef)
c_typedef_find-Later_example =
    c_typedef_find-Later garbage "word" word_typedef one_word one_word one_word-IsWellFormed
      word_found refused-Later
