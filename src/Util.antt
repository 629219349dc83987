-- ===== src/Util.antt =====
-- src/util.c and the inline functions of src/util.h that need no system call. Texts are lists of
-- character codes without the zero that ends them. `Input` has read_input_line.
pub mod Paths
pub mod Input
mod Tests
use cdecl.Prelude.{
  ℕ, suc, zero, ◌+◌, ◌==◌, Bool, true, false, not, ◌&&◌, ◌||◌, List, [], ◌∷◌, ◌++◌, Option, none,
  some, if◌then◌else◌,
}
use cdecl.Settings.Prompt.{Text}

abbrev pub this_or : ℕ → ℕ → Text → Option Text → Option Text
this_or char c s (some end) = some end
this_or char c s none = if c == char then some (c ∷ s) else none

-- strrchr(3): the rest of the text from the last such character on.
unfoldable pub strrchr : ℕ → Text → Option Text
strrchr char [] = none
strrchr char (c ∷ s) = this_or char c s (strrchr char s)

-- What follows the slash, or the slash where nothing does.
abbrev pub after_slash : Text → Option Text → Text
after_slash path none = path
after_slash path (some []) = []
after_slash path (some (slash ∷ [])) = slash ∷ []
after_slash path (some (slash ∷ c ∷ s)) = c ∷ s

unfoldable pub base_name : Text → Text
base_name path_name = after_slash path_name (strrchr b'/' path_name)

abbrev pub last_is : ℕ → Text → Bool
last_is char [] = false
last_is char (c ∷ []) = c == char
last_is char (c ∷ d ∷ s) = last_is char (d ∷ s)

-- The length is that of the text.
abbrev pub ends_with_chr : Text → ℕ → Bool
ends_with_chr s c = last_is c s

abbrev pub is_whitespace : ℕ → Bool
is_whitespace c = c == 32 || (c == 9 || (c == 13 || c == 10))

unfoldable pub is_blank_line : Text → Bool
is_blank_line [] = true
is_blank_line (c ∷ s) = let further = is_blank_line s in if is_whitespace c then further else false

-- The path afterwards; its buffer is large enough.
unfoldable pub path_append : Text → Text → Text
path_append [] component = []
path_append (c ∷ path) component =
    if last_is b'/' (c ∷ path) then c ∷ path ++ component else c ∷ path ++ b'/' ∷ component

-- strcpy_len: what `dst` holds, and the number of characters.
unfoldable pub strcpy_len : Text → Text × ℕ
strcpy_len [] = ([], 0)
strcpy_len (c ∷ src) = let (dst, n) = strcpy_len src in (c ∷ dst, suc n)

-- The flag afterwards is true in each case.
abbrev pub false_set : Bool → Bool × Bool
false_set flag = (not flag, true)

abbrev pub true_or_set : Bool → Bool × Bool
true_or_set flag = (flag, true)

-- The linked lists: link_push, link_pop, and the list that free_later makes and free_now frees. What
-- free_now returns is what it frees, in order.
module _ {ℓ} {A : Type ℓ} where
  abbrev pub link_push : List A → A → List A
  link_push head node = node ∷ head

  abbrev pub link_pop : List A → Option A × List A
  link_pop [] = (none, [])
  link_pop (popped ∷ next) = (some popped, next)

  abbrev pub free_later : A → List A → List A
  free_later p free_head = p ∷ free_head

  abbrev pub free_now : List A → List A × List A
  free_now [] = ([], [])
  free_now (p ∷ next) = let (freed, free_head) = free_now next in (p ∷ freed, free_head)
