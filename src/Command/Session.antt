-- ===== src/Command/Session.antt =====
-- The interactive loop of parse_stdin in src/cdecl.c, over the lines that the user types. `parse` is
-- parse_string, which calls yyparse.
pub mod Ending
use cdecl.Prelude.{ℕ, suc, zero, Bool, true, List, [], ◌∷◌, length}
use cdecl.Settings.Prompt.{Text}
use cdecl.Util.Input.{Outcome, returned, end_of_file, assertion_failed, read_input_line}

-- The end of the loop with the result of the last line, a failed assertion, or too few rounds.
pub data Session : Type 0 where
  over : Bool → Session
  aborted : Session
  unfinished : Session

abbrev pub next_line : (Text → List Text → Session) → Bool → Outcome → Session
next_line loop ok (returned line lines) = loop line lines
next_line loop ok end_of_file = over ok
next_line loop ok assertion_failed = aborted

unfoldable pub interactive_loop : ℕ → (Text → Bool) → Bool → List Text → Session
interactive_loop zero parse ok lines = unfinished
interactive_loop (suc rounds) parse ok lines =
    next_line (λ line lines. interactive_loop rounds parse (parse line) lines) ok
      (read_input_line lines)

-- A round takes a line at least.
abbrev pub parse_stdin : (Text → Bool) → List Text → Session
parse_stdin parse lines = interactive_loop (suc (length lines)) parse true lines
