-- ===== src/Command.antt =====
-- How src/cdecl.c reads its command line: is_command, parse_argv, parse_command_line and parse_files.
-- Texts are lists of character codes without the zero that ends them; yyparse is a parameter.
pub mod Words
pub mod Session
mod Tests
use cdecl.Prelude.{
  ℕ, suc, zero, ◌+◌, ◌==◌, Bool, true, false, ◌&&◌, ◌||◌, List, [], ◌∷◌, ◌++◌, Option, none, some,
  if◌then◌else◌, length,
}
use cdecl.Settings.Prompt.{Text}
use cdecl.Util.{true_or_set}

abbrev pub l_cast : Text
l_cast = b'c' ∷ b'a' ∷ b's' ∷ b't' ∷ []

abbrev pub l_const : Text
l_const = b'c' ∷ b'o' ∷ b'n' ∷ b's' ∷ b't' ∷ []

abbrev pub l_declare : Text
l_declare = b'd' ∷ b'e' ∷ b'c' ∷ b'l' ∷ b'a' ∷ b'r' ∷ b'e' ∷ []

abbrev pub l_dynamic : Text
l_dynamic = b'd' ∷ b'y' ∷ b'n' ∷ b'a' ∷ b'm' ∷ b'i' ∷ b'c' ∷ []

abbrev pub l_explain : Text
l_explain = b'e' ∷ b'x' ∷ b'p' ∷ b'l' ∷ b'a' ∷ b'i' ∷ b'n' ∷ []

abbrev pub l_help : Text
l_help = b'h' ∷ b'e' ∷ b'l' ∷ b'p' ∷ []

abbrev pub l_reinterpret : Text
l_reinterpret = b'r' ∷ b'e' ∷ b'i' ∷ b'n' ∷ b't' ∷ b'e' ∷ b'r' ∷ b'p' ∷ b'r' ∷ b'e' ∷ b't' ∷ []

abbrev pub l_static : Text
l_static = b's' ∷ b't' ∷ b'a' ∷ b't' ∷ b'i' ∷ b'c' ∷ []

abbrev pub commands : List Text
commands =
    l_cast ∷ l_const ∷ l_declare ∷ l_dynamic ∷ l_explain ∷ l_help ∷ l_reinterpret ∷ l_static ∷ []

-- strcmp( s, t ) == 0.
abbrev pub text_eq : Text → Text → Bool
text_eq [] [] = true
text_eq (c ∷ s) (d ∷ t) = c == d && text_eq s t
text_eq _ _ = false

abbrev pub is_among : List Text → Text → Bool
is_among [] s = false
is_among (c ∷ cs) s = text_eq c s || is_among cs s

unfoldable pub is_command : Text → Bool
is_command s = is_among commands s

abbrev pub is_delimiter : ℕ → Bool
is_delimiter c = c == 32 || c == 9

-- strsep(3) with a blank and a tab: the first word, and the remainder, null where there is no more.
unfoldable pub split_word : Text → Text × Option Text
split_word [] = ([], none)
split_word (c ∷ s) =
    let (word, remainder) = split_word s in
    if is_delimiter c then ([], some s) else (c ∷ word, remainder)

-- What parse_argv goes on to: standard input, a command line with its computed length, the files with
-- these names, or the use of a null pointer.
pub data Action : Type 0 where
  from_stdin : Action
  from_command : Text → ℕ → Action
  from_files : List Text → Action
  null_used : Action

-- The length that true_or_set and the arguments add.
abbrev pub as_number : Bool → ℕ
as_number b = if b then 1 else 0

abbrev pub args_len : Bool → List Text → ℕ
args_len space [] = 0
args_len space (arg ∷ args) =
    let (put, space) = true_or_set space in as_number put + length arg + args_len space args

abbrev pub put_args : Bool → List Text → Text
put_args space [] = []
put_args space (arg ∷ args) =
    let (put, space) = true_or_set space in
    (if put then b' ' ∷ [] else []) ++ (arg ++ put_args space args)

unfoldable pub parse_command_line : Option Text → List Text → Action
parse_command_line none args = from_command (put_args false args) (args_len false args)
parse_command_line (some command) args =
    from_command (command ++ put_args true args) (length command + args_len true args)

-- The first word is cut off its argument, also where it is no command.
abbrev pub by_first_word : Text × Option Text → List Text → Action
by_first_word (word, none) args = if is_command word then null_used else from_files (word ∷ args)
by_first_word (word, some remainder) args =
    if is_command word
    then parse_command_line (some word) (remainder ∷ args)
    else from_files (word ∷ args)

-- `me` is the name by which the program is called.
unfoldable pub parse_argv : Text → List Text → Action
parse_argv me [] = from_stdin
parse_argv me (arg ∷ args) =
    if is_command me
    then parse_command_line (some me) (arg ∷ args)
    else if is_command arg
    then parse_command_line none (arg ∷ args)
    else by_first_word (split_word arg) args

-- The result, and the files that were parsed, when each can be opened; the parameter is also what
-- parse_stdin returns for the name `-`.
abbrev pub parse_files : (Text → Bool) → List Text → Bool × List Text
parse_files yyparse [] = (true, [])
parse_files yyparse (file ∷ files) =
    let (ok, parsed) = parse_files yyparse files in
    if yyparse file then (ok, file ∷ parsed) else (false, file ∷ [])
