-- ===== src/Util/Tests.antt =====
-- Paths, and lines as a user types them.
use cdecl.Prelude.{◌≡◌, ◌⊎◌, refl, [], ◌∷◌, ◌++◌, none}
use cdecl.Settings.Prompt.{Text}
use cdecl.Util.{strrchr, base_name, path_append, is_blank_line, strcpy_len}
use cdecl.Util.Paths.{base_name_lem, base_name-path_append}
use cdecl.Util.Input.{returned, assertion_failed, round, read_loop, read_input_line}
use cdecl.Util.Input.Stitch.{read_input_line_lem, read_input_line_ended}

-- `/bin/c`, and `/bin`.
abbrev program : Text
program = b'/' ∷ b'b' ∷ b'i' ∷ b'n' ∷ b'/' ∷ b'c' ∷ []

abbrev bin : Text
bin = b'/' ∷ b'b' ∷ b'i' ∷ b'n' ∷ []

base_name_lem_example :
    ((before : Text) × (program ≡ before ++ base_name program))
    × ((strrchr b'/' (base_name program) ≡ none) ⊎ (base_name program ≡ b'/' ∷ []))
base_name_lem_example = base_name_lem program

base_name-path_append_example : base_name (path_append bin (b'c' ∷ [])) ≡ b'c' ∷ []
unfolding strrchr
base_name-path_append_example = base_name-path_append b'/' b'c' (b'b' ∷ b'i' ∷ b'n' ∷ []) [] refl

-- A component that begins with a slash is not appended as the comment on path_append says.
two_slashes : path_append bin (b'/' ∷ b'c' ∷ []) ≡ bin ++ b'/' ∷ b'/' ∷ b'c' ∷ []
unfolding path_append
two_slashes = refl

read_input_line_lem_example :
    read_input_line ((b' ' ∷ []) ∷ (b'i' ∷ 92 ∷ []) ∷ (b'j' ∷ []) ∷ (b'k' ∷ []) ∷ [])
    ≡ returned (b'i' ∷ b'j' ∷ []) ((b'k' ∷ []) ∷ [])
unfolding is_blank_line
read_input_line_lem_example =
    read_input_line_lem ((b' ' ∷ []) ∷ []) ((b'i' ∷ []) ∷ []) (b'j' ∷ []) ((b'k' ∷ []) ∷ [])
      (refl, tt) refl refl

read_input_line_ended_example :
    read_input_line ((b'i' ∷ 92 ∷ []) ∷ (b'j' ∷ 92 ∷ []) ∷ [] ∷ (b'k' ∷ []) ∷ [])
    ≡ returned (b'i' ∷ b'j' ∷ []) ((b'k' ∷ []) ∷ [])
unfolding is_blank_line
read_input_line_ended_example =
    read_input_line_ended [] (b'i' ∷ []) ((b'j' ∷ []) ∷ []) [] ((b'k' ∷ []) ∷ []) tt refl refl

-- A backslash alone, then a blank line.
nothing_read : read_input_line ((92 ∷ []) ∷ [] ∷ []) ≡ assertion_failed
unfolding read_input_line read_loop round is_blank_line
nothing_read = refl

-- The newline that getline(3) leaves at the end of a line keeps the line from being continued.
newline_kept :
    read_input_line ((b'i' ∷ 92 ∷ 10 ∷ []) ∷ (b'j' ∷ 10 ∷ []) ∷ [])
    ≡ returned (b'i' ∷ 92 ∷ 10 ∷ []) ((b'j' ∷ 10 ∷ []) ∷ [])
unfolding read_input_line read_loop round is_blank_line
newline_kept = refl

-- A blank and a backslash, then a blank line.
only_whitespace : read_input_line ((b' ' ∷ 92 ∷ []) ∷ [] ∷ []) ≡ returned (b' ' ∷ []) []
unfolding read_input_line read_loop round is_blank_line
only_whitespace = refl

copied : strcpy_len bin ≡ (bin, 4)
unfolding strcpy_len
copied = refl
