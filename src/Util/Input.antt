-- ===== src/Util/Input.antt =====
-- read_input_line of src/util.c, on the lines that readline(3) or getline(3) is still to give.
pub mod Stitch
use cdecl.Prelude.{ℕ, Bool, true, false, List, [], ◌∷◌, ◌++◌, Option, none, some, if◌then◌else◌}
use cdecl.Settings.Prompt.{Text}
use cdecl.Util.{ends_with_chr, is_blank_line}

-- The line that is returned and the lines left, null at the end of the input, or a failed assertion.
pub data Outcome : Type 0 where
  returned : Text → List Text → Outcome
  end_of_file : Outcome
  assertion_failed : Outcome

-- What one round does: go on with this `buf`, or leave the loop with it.
pub data LineRound : Type 0 where
  again : Option Text → LineRound
  leave : Text → LineRound

abbrev pub without_last : Text → Text
without_last [] = []
without_last (c ∷ []) = []
without_last (c ∷ d ∷ s) = c ∷ without_last (d ∷ s)

abbrev pub with_line : Option Text → Text → Text
with_line none line = line
with_line (some buf) line = buf ++ line

abbrev pub blank_round : Option Text → LineRound
blank_round none = again none
blank_round (some buf) = leave buf

unfoldable pub round : Option Text → Text → LineRound
round buf line =
    if is_blank_line line
    then blank_round buf
    else if ends_with_chr line 92
    then again (some (with_line buf (without_last line)))
    else leave (with_line buf line)

-- After the loop.
abbrev pub finished : Text → List Text → Outcome
finished [] lines = assertion_failed
finished (c ∷ buf) lines = returned (c ∷ buf) lines

abbrev pub next_round : (Option Text → Outcome) → List Text → LineRound → Outcome
next_round loop lines (again buf) = loop buf
next_round loop lines (leave buf) = finished buf lines

-- At the end of the input `buf` is dropped.
unfoldable pub read_loop : Option Text → List Text → Outcome
read_loop buf [] = end_of_file
read_loop buf (line ∷ lines) = next_round (λ buf. read_loop buf lines) lines (round buf line)

unfoldable pub read_input_line : List Text → Outcome
read_input_line lines = read_loop none lines
