-- ===== src/Caret/Elements.antt =====
-- The characters of a text that is cut and put together, and the length of a token.
use cdecl.Prelude.{
  ℕ, suc, zero, ◌+◌, ◌-◌, ◌≤◌, ◌<◌, Bool, [], ◌∷◌, ◌++◌, length, get_elem?, ◌≡◌, refl, ap, ◌∙◌,
  arith, Bool-cases, inl, inr,
}
use cdecl.Settings.Prompt.{Text}
use cdecl.Caret.{same_class, class_len, take, drop}

pub length_append : (s u : Text) → length (s ++ u) ≡ length s + length u
length_append [] u = omega arith
length_append (c ∷ s) u = omega (arith, length_append s u)

pub get_append : (s u : Text) (i : ℕ) → i < length s → get_elem? (s ++ u) i ≡ get_elem? s i
get_append [] u i h = absurd (omega arith)
get_append (c ∷ s) u zero h = refl
get_append (c ∷ s) u (suc i) h = get_append s u i (omega arith)

pub length-take : (n : ℕ) (s : Text) → n ≤ length s → length (take n s) ≡ n
length-take zero s h = refl
length-take (suc n) [] h = absurd (omega arith)
length-take (suc n) (c ∷ s) h = ap suc (length-take n s (omega arith))

pub length-drop : (n : ℕ) (s : Text) → n ≤ length s → length (drop n s) ≡ length s - n
length-drop zero s h = omega arith
length-drop (suc n) [] h = absurd (omega arith)
length-drop (suc n) (c ∷ s) h = omega (arith, length-drop n s (omega arith))

pub get-take : (n : ℕ) (s : Text) (i : ℕ) → i < n → get_elem? (take n s) i ≡ get_elem? s i
get-take zero s i h = absurd (omega arith)
get-take (suc n) [] i h = refl
get-take (suc n) (c ∷ s) zero h = refl
get-take (suc n) (c ∷ s) (suc i) h = get-take n s i (omega arith)

pub get-drop : (n : ℕ) (s : Text) (i : ℕ) → get_elem? (drop n s) i ≡ get_elem? s (n + i)
get-drop zero s i = ap (get_elem? s) (omega arith)
get-drop (suc n) [] i = refl
get-drop (suc n) (c ∷ s) i = get-drop n s i ∙ ap (get_elem? (c ∷ s)) shifted
  where
    shifted : suc (n + i) ≡ suc n + i
    shifted = omega arith

pub class_len_bound : (space alnum : Bool) (s : Text) → class_len space alnum s ≤ length s
unfolding class_len
class_len_bound space alnum [] = omega arith
class_len_bound space alnum (c ∷ s) = elim (Bool-cases (same_class space alnum c)) [
  | inl e ↦ rw e (omega (arith, class_len_bound space alnum s))
  | inr e ↦ rw e (omega arith)
]
