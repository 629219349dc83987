-- ===== src/Caret/Tests.antt =====
-- Lines of one-letter words on a terminal of twenty columns.
use cdecl.Prelude.{
  ℕ, ◌-◌, ◌≤◌, [], ◌∷◌, ◌++◌, some, length, get_elem?, ◌≡◌, refl, arith, inr, false,
}
use cdecl.Settings.Prompt.{Text}
use cdecl.Caret.{window, class_len, print_caret, interactive_column}
use cdecl.Caret.Under.{print_caret_lem}

abbrev words : Text
words =
    b'a' ∷ b' ' ∷ b'b' ∷ b' ' ∷ b'c' ∷ b' ' ∷ b'd' ∷ b' ' ∷ b'e' ∷ b' ' ∷ b'f' ∷ b' ' ∷ b'g' ∷ b' '
    ∷ b'h' ∷ b' ' ∷ []

abbrev long_line : Text
long_line = words ++ b'i' ∷ b' ' ∷ b'j' ∷ b' ' ∷ b'k' ∷ b' ' ∷ b'l' ∷ b' ' ∷ b'm' ∷ []

print_caret_lem_example :
    (out : Text) × (column : ℕ) × (print_caret 20 long_line 22 ≡ some (out, column))
    × (length out ≤ 20 - 1)
    × (get_elem? out column ≡ get_elem? long_line 22)
unfolding class_len
print_caret_lem_example =
    print_caret_lem 20 long_line 22 1 refl (omega arith) (omega arith) (omega arith) (omega arith)
      (inr (inr (omega arith)))

-- The word i is the ninth: its column has a dot of the "..." on the right.
under_dot : print_caret 20 long_line 16 ≡ some (words ++ b'.' ∷ b'.' ∷ b'.' ∷ [], 16)
unfolding print_caret window class_len
under_dot = refl

-- A last character in the terminal's last column is not printed.
not_printed :
    print_caret 20 (words ++ b'i' ∷ b' ' ∷ b'j' ∷ b'=' ∷ []) 19
    ≡ some (words ++ b'i' ∷ b' ' ∷ b'j' ∷ [], 19)
unfolding print_caret window class_len
not_printed = refl

-- At the end of the input the caret is below the last character.
at_end_of_input : print_caret 80 words 16 ≡ some (words, 15)
unfolding print_caret window class_len
at_end_of_input = refl

-- Below what was typed after `cdecl> `.
after_prompt : interactive_column false 80 76 ≡ 3
unfolding interactive_column
after_prompt = refl
