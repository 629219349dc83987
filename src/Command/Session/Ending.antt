-- ===== src/Command/Session/Ending.antt =====
-- The interactive loop ends.
use cdecl.Prelude.{
  ℕ, suc, zero, ◌≤◌, ◌<◌, Bool, true, false, List, [], ◌∷◌, Option, none, length, ◌≡◌, refl, arith,
}
use cdecl.Settings.Prompt.{Text}
use cdecl.Util.Input.{
  Outcome, returned, end_of_file, assertion_failed, LineRound, again, leave, round, finished,
  next_round, read_loop, read_input_line,
}
use cdecl.Command.Session.{Session, unfinished, next_line, interactive_loop, parse_stdin}

-- A line that is returned leaves at most so many lines.
abbrev pub Leaves : ℕ → Outcome → Type 0
Leaves n (returned line rest) = length rest ≤ n
Leaves n end_of_file = Unit
Leaves n assertion_failed = Unit

Leaves-more : (n m : ℕ) (o : Outcome) → n ≤ m → Leaves n o → Leaves m o
Leaves-more n m (returned line rest) h k = omega arith
Leaves-more n m end_of_file h k = tt
Leaves-more n m assertion_failed h k = tt

Leaves-finished : (buf : Text) (lines : List Text) → Leaves (length lines) (finished buf lines)
Leaves-finished [] lines = tt
Leaves-finished (c ∷ buf) lines = omega arith

by_round :
    (lines : List Text) (r : LineRound)
    → ((buf : Option Text) → Leaves (length lines) (read_loop buf lines))
    → Leaves (length lines) (next_round (λ buf. read_loop buf lines) lines r)
by_round lines (again buf) h = h buf
by_round lines (leave buf) h = Leaves-finished buf lines

Leaves-read_loop :
    (lines : List Text) (buf : Option Text) → Leaves (length lines) (read_loop buf lines)
unfolding read_loop
Leaves-read_loop [] buf = tt
Leaves-read_loop (line ∷ lines) buf =
    Leaves-more (length lines) (length (line ∷ lines)) (read_loop buf (line ∷ lines)) (omega arith)
      (by_round lines (round buf line) (Leaves-read_loop lines))

-- Of some lines one at least is taken.
one_taken :
    (line : Text) (lines : List Text) → Leaves (length lines) (read_input_line (line ∷ lines))
unfolding read_input_line read_loop
one_taken line lines = by_round lines (round none line) (Leaves-read_loop lines)

abbrev pub is_over : Session → Bool
is_over unfinished = false
is_over s = true

interactive_loop-is_over :
    (rounds : ℕ) (parse : Text → Bool) (ok : Bool) (lines : List Text)
    → length lines < rounds
    → is_over (interactive_loop rounds parse ok lines) ≡ true
unfolding interactive_loop read_input_line read_loop
interactive_loop-is_over zero parse ok lines h = absurd (omega arith)
interactive_loop-is_over (suc rounds) parse ok [] h = refl
interactive_loop-is_over (suc rounds) parse ok (line ∷ lines) h =
    after (read_input_line (line ∷ lines)) (one_taken line lines)
      (interactive_loop-is_over rounds parse) (omega arith)
  where
    after :
        (o : Outcome)
        → Leaves (length lines) o
        → ((ok : Bool) (left : List Text)
            → length left < rounds
            → is_over (interactive_loop rounds parse ok left) ≡ true)
        → length lines < rounds
        → is_over (next_line (λ line left. interactive_loop rounds parse (parse line) left) ok o)
          ≡ true
    after (returned text left) k ends h = ends (parse text) left (omega arith)
    after end_of_file k ends h = refl
    after assertion_failed k ends h = refl

-- The interactive loop ends, whatever the lines are and however they are parsed.
pub parse_stdin-is_over :
    (parse : Text → Bool) (lines : List Text) → is_over (parse_stdin parse lines) ≡ true
parse_stdin-is_over parse lines =
    interactive_loop-is_over (suc (length lines)) parse true lines (omega arith)
