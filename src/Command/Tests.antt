-- ===== src/Command/Tests.antt =====
-- `cdecl "explain int x"`, and a file whose name has a blank.
use cdecl.Prelude.{◌≡◌, refl, [], ◌∷◌, ◌++◌, some, length, true, false}
use cdecl.Util.{is_blank_line}
use cdecl.Util.Input.{round, read_loop, read_input_line}
use cdecl.Command.Session.{over, interactive_loop, parse_stdin}
use cdecl.Command.Session.Ending.{is_over, parse_stdin-is_over}
use cdecl.Settings.Prompt.{Text}
use cdecl.Command.{
  is_command, split_word, from_command, from_files, parse_command_line, parse_argv, l_explain,
  l_declare,
}
use cdecl.Command.Words.{parse_argv_lem, parse_command_line_len}

abbrev cdecl_name : Text
cdecl_name = b'c' ∷ b'd' ∷ b'e' ∷ b'c' ∷ b'l' ∷ []

abbrev int_x : Text
int_x = b'i' ∷ b'n' ∷ b't' ∷ b' ' ∷ b'x' ∷ []

parse_argv_lem_example :
    (parse_argv cdecl_name ((l_explain ++ b' ' ∷ int_x) ∷ [])
      ≡ parse_argv cdecl_name (l_explain ∷ int_x ∷ []))
    × (parse_argv l_explain (int_x ∷ []) ≡ parse_argv cdecl_name (l_explain ∷ int_x ∷ []))
unfolding is_command
parse_argv_lem_example = parse_argv_lem cdecl_name l_explain b' ' int_x [] refl refl refl

parse_command_line_len_example :
    (line : Text) × (parse_command_line (some l_declare) (int_x ∷ int_x ∷ [])
      ≡ from_command line (length line))
parse_command_line_len_example = parse_command_line_len (some l_declare) (int_x ∷ int_x ∷ [])

-- A name with a blank is cut off at the blank.
name_cut_off :
    parse_argv cdecl_name ((b'm' ∷ b'y' ∷ b' ' ∷ b'f' ∷ []) ∷ [])
    ≡ from_files ((b'm' ∷ b'y' ∷ []) ∷ [])
unfolding parse_argv is_command split_word
name_cut_off = refl

parse_stdin-is_over_example : is_over (parse_stdin (λ line. false) (int_x ∷ [] ∷ int_x ∷ [])) ≡ true
parse_stdin-is_over_example = parse_stdin-is_over (λ line. false) (int_x ∷ [] ∷ int_x ∷ [])

last_result : parse_stdin (λ line. false) (int_x ∷ [] ∷ int_x ∷ []) ≡ over false
unfolding interactive_loop read_input_line read_loop round is_blank_line
last_result = refl
