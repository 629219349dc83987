-- ===== src/Command/Words.antt =====
-- The commands that are words of one argument or of several.
use mathlib.Core.Path.{subst}
use cdecl.Prelude.{
  ℕ, ◌+◌, ==_iff, Bool, true, false, List, [], ◌∷◌, ◌++◌, Option, none, some, if◌then◌else◌, length,
  ◌≡◌, refl, sym, ap, ◌∙◌, arith, inl, inr, Bool-cases,
}
use cdecl.Settings.Prompt.{Text}
use cdecl.Caret.Elements.{length_append}
use cdecl.Command.{
  commands, text_eq, is_among, is_command, is_delimiter, split_word, Action, from_command,
  null_used, args_len, put_args, parse_command_line, by_first_word, parse_argv,
}

text_eq_sound : (s t : Text) → text_eq s t ≡ true → s ≡ t
text_eq_sound [] [] h = refl
text_eq_sound [] (d ∷ t) h = cc
text_eq_sound (c ∷ s) [] h = cc
text_eq_sound (c ∷ s) (d ∷ t) h =
    let same : text_eq s t ≡ true = ground (arith, h) in
    let first : c ≡ d = (==_iff c d).0 (ground (arith, h)) in
    ap (λ x. x ∷ s) first ∙ ap (λ x. d ∷ x) (text_eq_sound s t same)

-- A word without a delimiter.
abbrev pub IsWord : Text → Type 0
IsWord s = split_word s ≡ (s, none)

abbrev AllWords : List Text → Type 0
AllWords [] = Unit
AllWords (c ∷ cs) = IsWord c × AllWords cs

among-IsWord : (cs : List Text) (s : Text) → AllWords cs → is_among cs s ≡ true → IsWord s
among-IsWord [] s all h = cc
among-IsWord (c ∷ cs) s all h = elim (Bool-cases (text_eq c s)) [
  | inl e ↦ subst IsWord (text_eq_sound c s e) all.0
  | inr e ↦ among-IsWord cs s all.1 (ground (arith, e, h))
]

command-IsWord : (s : Text) → is_command s ≡ true → IsWord s
unfolding is_command split_word
command-IsWord s h =
    among-IsWord commands s (refl, (refl, (refl, (refl, (refl, (refl, (refl, (refl, tt)))))))) h

strsep_after :
    (c : Text) (d : ℕ) (r : Text)
    → IsWord c
    → is_delimiter d ≡ true
    → split_word (c ++ d ∷ r) ≡ (c, some r)
unfolding split_word
strsep_after [] d r word h = rw h refl
strsep_after (x ∷ c) d r word h = elim (Bool-cases (is_delimiter x)) [
  | inl e ↦
      let clash : [] ≡ x ∷ c =
        ap (λ p. p.0) (ap (λ b. if b then ([], some c) else cut_longer) (sym e) ∙ word) in
      cc
  | inr e ↦
      let kept : cut_longer ≡ (x ∷ c, none) =
        ap (λ b. if b then ([], some c) else cut_longer) (sym e) ∙ word in
      let len_whole : x ∷ (split_word c).0 ≡ x ∷ c = ap (λ p. p.0) kept in
      let same : (split_word c).0 ≡ c = cc in
      let rest : (split_word c).1 ≡ none = ap (λ p. p.1) kept in
      rw (e, strsep_after c d r (λ i. (same i, rest i)) h) refl
]
  where
    cut_longer : Text × Option Text
    cut_longer = (x ∷ (split_word c).0, (split_word c).1)

not_command :
    (c : Text) (d : ℕ) (r : Text)
    → IsWord c
    → is_delimiter d ≡ true
    → is_command (c ++ d ∷ r) ≡ false
not_command c d r word h = elim (Bool-cases (is_command (c ++ d ∷ r))) [
  | inl e ↦
      let clash : some r ≡ none =
        ap (λ p. p.1) (sym (strsep_after c d r word h) ∙ command-IsWord (c ++ d ∷ r) e) in
      absurd (cc)
  | inr e ↦ e
]

command_first :
    (c : Text) (args : List Text)
    → parse_command_line none (c ∷ args) ≡ parse_command_line (some c) args
unfolding parse_command_line
command_first c args = ap (from_command (c ++ put_args true args)) (omega arith)

-- Where the program is not called by a command's name, a command and what it is about may be one
-- argument, with a blank or a tab after the command, or two; the command line is the same, and the
-- same as where the program is called by the command's name.
pub parse_argv_lem :
    (me c : Text) (d : ℕ) (r : Text) (args : List Text)
    → is_command me ≡ false
    → is_command c ≡ true
    → is_delimiter d ≡ true
    → (parse_argv me ((c ++ d ∷ r) ∷ args) ≡ parse_argv me (c ∷ r ∷ args))
      × (parse_argv c (r ∷ args) ≡ parse_argv me (c ∷ r ∷ args))
unfolding parse_argv
parse_argv_lem me c d r args other command h = (
  rw (other, not_command c d r word h, command, strsep_after c d r word h, command)
      (sym (command_first c (r ∷ args))),
  rw (command, other) (sym (command_first c (r ∷ args))),
)
  where
    word : IsWord c
    word = command-IsWord c command

args_len_lem :
    (space : Bool) (args : List Text) → args_len space args ≡ length (put_args space args)
args_len_lem space [] = refl
args_len_lem true (arg ∷ args) =
    omega (arith, args_len_lem true args, length_append arg (put_args true args))
args_len_lem false (arg ∷ args) =
    omega (arith, args_len_lem true args, length_append arg (put_args true args))

-- The length that is computed first is that of the text that is put together.
pub parse_command_line_len :
    (command : Option Text) (args : List Text)
    → (line : Text) × (parse_command_line command args ≡ from_command line (length line))
unfolding parse_command_line
parse_command_line_len none args =
    (put_args false args, ap (from_command (put_args false args)) (args_len_lem false args))
parse_command_line_len (some command) args =
    (command ++ put_args true args, ap (from_command (command ++ put_args true args)) len_whole)
  where
    len_whole : length command + args_len true args ≡ length (command ++ put_args true args)
    len_whole = omega (arith, args_len_lem true args, length_append command (put_args true args))

-- Not a null pointer.
abbrev is_used : Action → Bool
is_used null_used = false
is_used a = true

used_command :
    (command : Option Text) (args : List Text) → is_used (parse_command_line command args) ≡ true
unfolding parse_command_line
used_command none args = refl
used_command (some command) args = refl

cut : Text → ℕ → Bool → Text × Option Text
cut s c b = if b then ([], some s) else (c ∷ (split_word s).0, (split_word s).1)

strsep_whole : (s : Text) → (split_word s).1 ≡ none → (split_word s).0 ≡ s
unfolding split_word cut
strsep_whole [] h = refl
strsep_whole (c ∷ s) h = elim (Bool-cases (is_delimiter c)) [
  | inl e ↦ let clash : some s ≡ none = ap (λ b. (cut s c b).1) (sym e) ∙ h in cc
  | inr e ↦
      let rest : (split_word s).1 ≡ none = ap (λ b. (cut s c b).1) (sym e) ∙ h in
      rw e (ap (λ t. c ∷ t) (strsep_whole s rest))
]

used_words :
    (arg : Text) (args : List Text) (word : Text) (remainder : Option Text)
    → is_command arg ≡ false
    → (remainder ≡ none → word ≡ arg)
    → is_used (by_first_word (word, remainder) args) ≡ true
used_words arg args word none other same = rw (same refl, other) refl
used_words arg args word (some r) other same = elim (Bool-cases (is_command word)) [
  | inl e ↦ rw e (used_command (some word) (r ∷ args))
  | inr e ↦ rw e refl
]

-- Whatever the arguments are, parse_argv uses no null pointer: the remainder of an argument is used
-- only where there is one.
pub parse_argv-is_used : (me : Text) (args : List Text) → is_used (parse_argv me args) ≡ true
unfolding parse_argv
parse_argv-is_used me [] = refl
parse_argv-is_used me (arg ∷ args) = elim (Bool-cases (is_command me)) [
  | inl e ↦ rw e (used_command (some me) (arg ∷ args))
  | inr e ↦ elim (Bool-cases (is_command arg)) [
    | inl f ↦ rw (e, f) (used_command none (arg ∷ args))
    | inr f ↦
        rw (e, f) (used_words arg args (split_word arg).0 (split_word arg).1 f (strsep_whole arg))
  ]
]
