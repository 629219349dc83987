-- ===== src/Settings/Prompt/Laws.antt =====
-- How long prompts are, against what is allocated for them.
use cdecl.Prelude.{
  ℕ, ◌+◌, ◌≤◌, ◌<◌, leb, ltb, Bool, true, false, [], ◌∷◌, ◌++◌, Option, none, some, length, ◌≡◌,
  refl, ap, ◌∙◌, arith, inl, inr, Bool-cases, if◌then◌else◌,
}
use cdecl.Lang.{lang_cpp_min}
use cdecl.Settings.Prompt.{
  Text, Build, Colors, sgr_start, sgr_end, prompt_color, prompt_len, decl_name, prompt_create,
  marked, joined, prompt_text, color_len,
}

length-++ : (s t : Text) → length (s ++ t) ≡ length s + length t
length-++ [] t = omega arith
length-++ (c ∷ s) t = rw (length-++ s t) (omega arith)

decl_name_bound : (l : ℕ) → length (decl_name l) ≤ 7
decl_name_bound l = elim (Bool-cases (leb lang_cpp_min l)) [
  | inl e ↦ rw e (omega arith)
  | inr e ↦ rw e (omega arith)
]

-- The color sequence fits its buffer: the prompt's color is written at all, and has at most 13
-- characters.
abbrev pub Fits : Build → Colors → Type 0
Fits env colors =
    (color : Text)
    → prompt_color env colors ≡ some color
    → (colors.colorize ≡ true) × (length color ≤ 13)

plain_length : (l suffix : ℕ) → length (decl_name l ++ (suffix ∷ []) ++ (b' ' ∷ [])) ≤ 9
plain_length l suffix =
    rw (length-++ (decl_name l ++ (suffix ∷ [])) (b' ' ∷ []), length-++ (decl_name l) (suffix ∷ []))
      (let few = decl_name_bound l in omega arith)

sgr_length : (color : Text) → length (sgr_start color) ≡ length color + 6
sgr_length color = rw (length-++ color (b'm' ∷ 27 ∷ b'[' ∷ b'K' ∷ [])) (omega arith)

abbrev full : Build → ℕ → ℕ → Text → Text
full env l suffix color =
    marked env (sgr_start color)
    ++ decl_name l
    ++ (suffix ∷ [])
    ++ marked env sgr_end
    ++ (b' ' ∷ [])

full_text :
    (env : Build) (l suffix : ℕ) (color : Text)
    → length color ≤ 13
    → prompt_text env true l suffix (some color) ≡ some (full env l suffix color)
full_text env l suffix color h =
    let e = sgr_length color in
    let fits : ltb (length (sgr_start color)) 20 ≡ true = ground arith in
    ap (λ buf. joined env l suffix (if buf then some (sgr_start color) else none) (some sgr_end))
      fits

length-full :
    (env : Build) (l suffix : ℕ) (color : Text)
    → length (full env l suffix color) ≤ 9 + color_len (some color)
length-full env l suffix color =
    let first = marked env (sgr_start color) in
    rw
      (
        length-++ (first ++ decl_name l ++ (suffix ∷ []) ++ marked env sgr_end) (b' ' ∷ []),
        length-++ (first ++ decl_name l ++ (suffix ∷ [])) (marked env sgr_end),
        length-++ (first ++ decl_name l) (suffix ∷ []),
        length-++ first (decl_name l),
        length-++ (sgr_start color) (env.end_ignore ∷ []),
        sgr_length color,
      )
      (let few = decl_name_bound l in omega arith)

made : Build → ℕ → ℕ → Option Text → Text
made env l suffix none = decl_name l ++ (suffix ∷ []) ++ (b' ' ∷ [])
made env l suffix (some color) = full env l suffix color

made_text :
    (env : Build) (colorize : Bool) (l suffix : ℕ) (color : Option Text)
    → ((c : Text) → color ≡ some c → (colorize ≡ true) × (length c ≤ 13))
    → prompt_text env colorize l suffix color ≡ some (made env l suffix color)
unfolding made
made_text env colorize l suffix none h = refl
made_text env colorize l suffix (some color) h =
    ap (λ b. prompt_text env b l suffix (some color)) (h color refl).0
    ∙ full_text env l suffix color (h color refl).1

length-made :
    (env : Build) (l suffix : ℕ) (color : Option Text)
    → length (made env l suffix color) ≤ 9 + color_len color
unfolding made
length-made env l suffix none = plain_length l suffix
length-made env l suffix (some color) = length-full env l suffix color

-- Where the color fits, a prompt is made, and it is not longer than what is allocated for it.
pub prompt_create_lem :
    (env : Build) (colors : Colors) (l suffix : ℕ)
    → Fits env colors
    → (t : Text) × (prompt_create env colors l suffix ≡ some t) × (length t ≤ prompt_len env colors)
unfolding prompt_create prompt_len
prompt_create_lem env colors l suffix h =
    let color = prompt_color env colors in
    (
      made env l suffix color,
      made_text env colors.colorize l suffix color h,
      length-made env l suffix color,
    )

too_long : (color : Text) → 13 < length color → ltb (length (sgr_start color)) 20 ≡ false
too_long color h = let e = sgr_length color in ground arith

-- With a color of more than 13 characters a colored prompt is written past the end of its buffer.
pub prompt_create-overflow :
    (env : Build) (colors : Colors) (l suffix : ℕ) (color : Text)
    → prompt_color env colors ≡ some color
    → colors.colorize ≡ true
    → 13 < length color
    → prompt_create env colors l suffix ≡ none
unfolding prompt_create
prompt_create-overflow env colors l suffix color e on long =
    ap (prompt_text env colors.colorize l suffix) e
    ∙ ap (λ b. prompt_text env b l suffix (some color)) on
    ∙ ap (λ buf. joined env l suffix (if buf then some (sgr_start color) else none) (some sgr_end))
        (too_long color long)

made_first :
    (env : Build) (l suffix : ℕ) (color : Option Text)
    → (c : ℕ) × (t : Text) × (made env l suffix color ≡ c ∷ t)
unfolding made
made_first env l suffix (some color) = (
  env.start_ignore,
  sgr_start color
      ++ (env.end_ignore ∷ [])
      ++ decl_name l
      ++ (suffix ∷ [])
      ++ marked env sgr_end
      ++ (b' ' ∷ []),
  refl,
)
made_first env l suffix none = elim (Bool-cases (leb lang_cpp_min l)) [
  | inl e ↦ (b'c', b'+' ∷ b'+' ∷ b'd' ∷ b'e' ∷ b'c' ∷ b'l' ∷ suffix ∷ b' ' ∷ [], rw e refl)
  | inr e ↦ (b'c', b'd' ∷ b'e' ∷ b'c' ∷ b'l' ∷ suffix ∷ b' ' ∷ [], rw e refl)
]

-- It is never empty.
pub prompt_create_first :
    (env : Build) (colors : Colors) (l suffix : ℕ)
    → Fits env colors
    → (c : ℕ) × (t : Text) × (prompt_create env colors l suffix ≡ some (c ∷ t))
unfolding prompt_create
prompt_create_first env colors l suffix h =
    let (c, t, e) = made_first env l suffix (prompt_color env colors) in
    (c, t, made_text env colors.colorize l suffix (prompt_color env colors) h ∙ ap some e)
