-- ===== src/Util/Input/Stitch.antt =====
-- Which lines read_input_line skips and which it joins.
use cdecl.Prelude.{
  true, false, List, [], ◌∷◌, ◌++◌, Option, none, some, ◌≡◌, refl, sym, ap, ◌∙◌, Bool-cases, inl,
  inr,
}
use cdecl.Settings.Prompt.{Text}
use cdecl.Util.{is_whitespace, is_blank_line, last_is, ends_with_chr}
use cdecl.Util.Paths.{append_assoc}
use cdecl.Util.Input.{
  returned, LineRound, again, leave, without_last, with_line, blank_round, round, finished,
  next_round, read_loop, read_input_line,
}

-- The lines that give these texts and go on.
abbrev pub continued : List Text → List Text
continued [] = []
continued (s ∷ texts) = (s ++ 92 ∷ []) ∷ continued texts

abbrev pub concat : List Text → Text
concat [] = []
concat (s ∷ texts) = s ++ concat texts

abbrev pub AllBlank : List Text → Type 0
AllBlank [] = Unit
AllBlank (line ∷ lines) = (is_blank_line line ≡ true) × AllBlank lines

ends_in : (s : Text) → last_is 92 (s ++ 92 ∷ []) ≡ true
ends_in [] = refl
ends_in (c ∷ []) = refl
ends_in (c ∷ d ∷ s) = ends_in (d ∷ s)

not_blank : (s : Text) → is_blank_line (s ++ 92 ∷ []) ≡ false
unfolding is_blank_line
not_blank [] = refl
not_blank (c ∷ s) = elim (Bool-cases (is_whitespace c)) [
  | inl e ↦ rw (e, not_blank s) refl
  | inr e ↦ rw e refl
]

stripped : (s : Text) → without_last (s ++ 92 ∷ []) ≡ s
stripped [] = refl
stripped (c ∷ []) = refl
stripped (c ∷ d ∷ s) = ap (λ t. c ∷ t) (stripped (d ∷ s))

round_blank :
    (buf : Option Text) (line : Text) → is_blank_line line ≡ true → round buf line ≡ blank_round buf
unfolding round
round_blank buf line h = rw h refl

round_continued :
    (buf : Option Text) (s : Text) → round buf (s ++ 92 ∷ []) ≡ again (some (with_line buf s))
unfolding round
round_continued buf s = rw (not_blank s, ends_in s, stripped s) refl

round_last :
    (buf : Option Text) (line : Text)
    → is_blank_line line ≡ false
    → ends_with_chr line 92 ≡ false
    → round buf line ≡ leave (with_line buf line)
unfolding round
round_last buf line h k = rw (h, k) refl

loop_round :
    (buf : Option Text) (line : Text) (lines : List Text) (r : LineRound)
    → round buf line ≡ r
    → read_loop buf (line ∷ lines) ≡ next_round (λ buf. read_loop buf lines) lines r
unfolding read_loop
loop_round buf line lines r h = ap (next_round (λ buf. read_loop buf lines) lines) h

append_nil : (s : Text) → s ++ [] ≡ s
append_nil [] = refl
append_nil (c ∷ s) = ap (λ t. c ∷ t) (append_nil s)

-- The texts of continued lines are appended to `buf`.
accumulate :
    (buf : Text) (texts lines : List Text)
    → read_loop (some buf) (continued texts ++ lines) ≡ read_loop (some (buf ++ concat texts)) lines
accumulate buf [] lines = ap (λ t. read_loop (some t) lines) (sym (append_nil buf))
accumulate buf (s ∷ texts) lines =
    loop_round (some buf) (s ++ 92 ∷ []) (continued texts ++ lines) (again (some (buf ++ s)))
      (round_continued (some buf) s)
    ∙ accumulate (buf ++ s) texts lines
    ∙ ap (λ t. read_loop (some t) lines) (append_assoc buf s (concat texts))

skip :
    (blanks lines : List Text)
    → AllBlank blanks
    → read_loop none (blanks ++ lines) ≡ read_loop none lines
skip [] lines h = refl
skip (b ∷ blanks) lines h =
    loop_round none b (blanks ++ lines) (again none) (round_blank none b h.0)
    ∙ skip blanks lines h.1

-- Where a line that is not blank comes last, the assertion on `buf` holds.
checked_last :
    (buf line : Text) (rest : List Text)
    → is_blank_line line ≡ false
    → finished (buf ++ line) rest ≡ returned (buf ++ line) rest
unfolding is_blank_line
checked_last [] [] rest h = cc
checked_last [] (c ∷ line) rest h = refl
checked_last (b ∷ buf) line rest h = refl

ends_last :
    (texts : List Text) (line : Text) (rest : List Text)
    → is_blank_line line ≡ false
    → ends_with_chr line 92 ≡ false
    → read_loop none (continued texts ++ line ∷ rest) ≡ returned (concat texts ++ line) rest
ends_last [] line rest h k =
    loop_round none line rest (leave line) (round_last none line h k) ∙ checked_last [] line rest h
ends_last (s ∷ texts) line rest h k =
    loop_round none (s ++ 92 ∷ []) (continued texts ++ line ∷ rest) (again (some s))
      (round_continued none s)
    ∙ accumulate s texts (line ∷ rest)
    ∙ loop_round (some (s ++ concat texts)) line rest (leave ((s ++ concat texts) ++ line))
        (round_last (some (s ++ concat texts)) line h k)
    ∙ checked_last (s ++ concat texts) line rest h

-- After blank lines, which are skipped, the lines that end in a backslash are joined without it to the
-- first line that does not: if this line is not blank, the whole is returned, and what follows is left.
pub read_input_line_lem :
    (blanks texts : List Text) (line : Text) (rest : List Text)
    → AllBlank blanks
    → is_blank_line line ≡ false
    → ends_with_chr line 92 ≡ false
    → read_input_line (blanks ++ (continued texts ++ line ∷ rest))
      ≡ returned (concat texts ++ line) rest
unfolding read_input_line
read_input_line_lem blanks texts line rest blank h k =
    skip blanks (continued texts ++ line ∷ rest) blank ∙ ends_last texts line rest h k

-- After blank lines, a blank line ends lines that all end in a backslash: joined without it they are
-- returned, if they are not blank when joined, and what follows is left.
pub read_input_line_ended :
    (blanks : List Text) (s : Text) (texts : List Text) (line : Text) (rest : List Text)
    → AllBlank blanks
    → is_blank_line line ≡ true
    → is_blank_line (concat (s ∷ texts)) ≡ false
    → read_input_line (blanks ++ (continued (s ∷ texts) ++ line ∷ rest))
      ≡ returned (concat (s ∷ texts)) rest
unfolding read_input_line
read_input_line_ended blanks s texts line rest blank h k =
    skip blanks (continued (s ∷ texts) ++ line ∷ rest) blank
    ∙ loop_round none (s ++ 92 ∷ []) (continued texts ++ line ∷ rest) (again (some s))
        (round_continued none s)
    ∙ accumulate s texts (line ∷ rest)
    ∙ loop_round (some (s ++ concat texts)) line rest (leave (s ++ concat texts))
        (round_blank (some (s ++ concat texts)) line h)
    ∙ checked_last [] (s ++ concat texts) rest k
