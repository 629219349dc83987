-- ===== src/Util/Paths.antt =====
-- base_name and path_append.
use mathlib.Core.Option.{some-injective}
use cdecl.Prelude.{
  ℕ, ◌==◌, ==_iff, true, [], ◌∷◌, ◌++◌, Option, none, some, if◌then◌else◌, ◌≡◌, refl, sym, ap, ◌∙◌,
  ◌⊎◌, inl, inr, Bool-cases, Option-cases,
}
use cdecl.Settings.Prompt.{Text}
use cdecl.Util.{strrchr, this_or, after_slash, base_name, last_is, path_append}

-- From the last character of its kind on.
abbrev pub IsLast : ℕ → Text → Text → Type 0
IsLast char s end =
    (before : Text) × (after : Text) × (s ≡ before ++ char ∷ after)
    × (end ≡ char ∷ after)
    × (strrchr char after ≡ none)

strrchr_cons :
    (char c : ℕ) (s : Text) (o : Option Text)
    → strrchr char s ≡ o
    → strrchr char (c ∷ s) ≡ this_or char c s o
unfolding strrchr
strrchr_cons char c s o h = ap (this_or char c s) h

strrchr-IsLast : (char : ℕ) (s end : Text) → strrchr char s ≡ some end → IsLast char s end
unfolding strrchr
strrchr-IsLast char [] end h = cc
strrchr-IsLast char (c ∷ s) end h = elim (Option-cases (strrchr char s)) [
  | inr (rest, found) ↦
      let (before, after, whole, tail, gone) = strrchr-IsLast char s rest found in
      let same : some rest ≡ some end = sym (strrchr_cons char c s (some rest) found) ∙ h in
      (c ∷ before, after, ap (λ t. c ∷ t) whole, sym (some-injective rest end same) ∙ tail, gone)
  | inl nowhere ↦ here (sym (strrchr_cons char c s none nowhere) ∙ h) nowhere
]
  where
    here :
        (if c == char then some (c ∷ s) else none) ≡ some end
        → strrchr char s ≡ none
        → IsLast char (c ∷ s) end
    here e nowhere = elim (Bool-cases (c == char)) [
      | inl same ↦
          let reached : some (c ∷ s) ≡ some end =
            ap (λ b. if b then some (c ∷ s) else none) (sym same) ∙ e in
          let chars = (==_iff c char).0 same in
          (
            [],
            s,
            ap (λ d. d ∷ s) chars,
            sym (some-injective (c ∷ s) end reached) ∙ ap (λ d. d ∷ s) chars,
            nowhere,
          )
      | inr other ↦
          let missed : none ≡ some end =
            ap (λ b. if b then some (c ∷ s) else none) (sym other) ∙ e in
          cc
    ]

pub append_assoc : (s t u : Text) → (s ++ t) ++ u ≡ s ++ (t ++ u)
append_assoc [] t u = refl
append_assoc (c ∷ s) t u = ap (λ r. c ∷ r) (append_assoc s t u)

-- base_name returns an end of the path; it has no slash in it, or it is a slash.
pub base_name_lem :
    (path : Text)
    → ((before : Text) × (path ≡ before ++ base_name path))
      × ((strrchr b'/' (base_name path) ≡ none) ⊎ (base_name path ≡ b'/' ∷ []))
unfolding base_name
base_name_lem path = elim (Option-cases (strrchr b'/' path)) [
  | inl nowhere ↦ rw nowhere (([], refl), inl nowhere)
  | inr (end, found) ↦ rw found (cases path end (strrchr-IsLast b'/' path end found))
]
  where
    cases :
        (path end : Text)
        → IsLast b'/' path end
        → ((before : Text) × (path ≡ before ++ after_slash path (some end)))
          × ((strrchr b'/' (after_slash path (some end)) ≡ none)
              ⊎ (after_slash path (some end) ≡ b'/' ∷ []))
    cases path end (before, [], whole, tail, gone) = rw tail ((before, whole), inr refl)
    cases path end (before, c ∷ t, whole, tail, gone) =
        rw tail
          ((before ++ b'/' ∷ [], whole ∙ sym (append_assoc before (b'/' ∷ []) (c ∷ t))), inl gone)

strrchr_past :
    (char : ℕ) (s t : Text) → strrchr char t ≡ none → strrchr char (s ++ char ∷ t) ≡ some (char ∷ t)
strrchr_past char [] t h =
    strrchr_cons char char t none h
    ∙ ap (λ b. if b then some (char ∷ t) else none) ((==_iff char char).1 refl)
strrchr_past char (c ∷ s) t h =
    strrchr_cons char c (s ++ char ∷ t) (some (char ∷ t)) (strrchr_past char s t h)

last_split :
    (char : ℕ) (s : Text) → last_is char s ≡ true → (before : Text) × (s ≡ before ++ char ∷ [])
last_split char [] h = cc
last_split char (c ∷ []) h = ([], ap (λ d. d ∷ []) ((==_iff c char).0 h))
last_split char (c ∷ d ∷ s) h =
    let (before, whole) = last_split char (d ∷ s) h in (c ∷ before, ap (λ t. c ∷ t) whole)

base_after :
    (before : Text) (c : ℕ) (s : Text)
    → strrchr b'/' (c ∷ s) ≡ none
    → base_name (before ++ b'/' ∷ c ∷ s) ≡ c ∷ s
unfolding base_name
base_after before c s h =
    ap (after_slash (before ++ b'/' ∷ c ∷ s)) (strrchr_past b'/' before (c ∷ s) h)

-- The base name of a path, that is not empty, to which a component is appended is that component, if
-- it has a character and no slash.
pub base_name-path_append :
    (p c : ℕ) (path s : Text)
    → strrchr b'/' (c ∷ s) ≡ none
    → base_name (path_append (p ∷ path) (c ∷ s)) ≡ c ∷ s
unfolding path_append
base_name-path_append p c path s none_in = elim (Bool-cases (last_is b'/' (p ∷ path))) [
  | inl slash ↦
      let (before, whole) = last_split b'/' (p ∷ path) slash in
      rw slash (
        ap (λ t. base_name (t ++ c ∷ s)) whole
        ∙ ap base_name (append_assoc before (b'/' ∷ []) (c ∷ s))
        ∙ base_after before c s none_in)
  | inr bare ↦ rw bare (base_after (p ∷ path) c s none_in)
]
