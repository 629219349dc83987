-- ===== src/Types/Name.antt =====
-- c_type_name of src/c_type.c: the words of a type, written into a static buffer of 80 bytes.
pub mod Laws
mod Tests
use Prim.Native.String.{len, ◌++◌ as str_append}
use cdecl.Prelude.{
  ℕ, ◌+◌, ◌==◌, ltb, Bool, true, false, not, String, List, [], ◌∷◌, if◌then◌else◌, bit_and, bit_or,
}
use cdecl.Bits.{has, compl64, exactly_one_bit_set}
use cdecl.Types.{
  t_atomic, t_auto_c, t_auto_cpp_11, t_block, t_bool, t_char, t_char16_t, t_char32_t, t_class,
  t_complex, t_const, t_constexpr, t_double, t_enum, t_extern, t_final, t_float, t_friend, t_inline,
  t_int, t_long, t_long_long, t_mutable, t_noreturn, t_override, t_pure_virtual, t_reference,
  t_register, t_restrict, t_rvalue_reference, t_short, t_signed, t_static, t_struct, t_thread_local,
  t_typedef, t_union, t_unsigned, t_virtual, t_void, t_volatile,
}
use cdecl.Types.Tables.{CTypeInfo, c_qualifier_info, c_storage_info, c_type_info}

-- `internal_err` ends the program; `overflow` is a write past the end of the buffer, which C leaves
-- undefined.
pub data NameResult {ℓ} (A : Type ℓ) : Type ℓ where
  ok : A → NameResult A
  internal_err overflow : NameResult A

infixl 5 ◌>>=◌
abbrev pub ◌>>=◌ {ℓ κ} :
    {A : Type ℓ} {B : Type κ} → NameResult A → (A → NameResult B) → NameResult B
ok a >>= f = f a
internal_err >>= f = internal_err
overflow >>= f = overflow

-- The loops over the tables for a type of one bit, in their order.
unfoldable pub find_literal : ℕ → List CTypeInfo → NameResult String → NameResult String
find_literal type [] next = next
find_literal type (info ∷ rest) next =
    if type == info.type then ok info.literal else find_literal type rest next

unfoldable pub bit_name : ℕ → NameResult String
unfolding find_literal c_type_info c_storage_info c_qualifier_info
bit_name type =
    find_literal type c_type_info
      (find_literal type c_storage_info (find_literal type c_qualifier_info internal_err))

-- sizeof name_buf.
abbrev pub name_buf_size : ℕ
name_buf_size = 80

-- The buffer: its text, how far the pointer `name` has moved, and the flag `space`.
pub record NameBuf : Type 0 where
  pub text : String
  pub used : ℕ
  pub space : Bool

-- STRCAT, which writes the characters and a terminating zero.
pub strcat : String → NameBuf → NameResult NameBuf
strcat s b =
    if ltb (b.used + len s) name_buf_size
    then ok (record b { text = str_append b.text s; used = b.used + len s })
    else overflow

-- A space unless it is the first, and the name: c_type_name of one bit is `bit_name`.
pub write_name : ℕ → NameBuf → NameResult NameBuf
unfolding strcat
write_name bit b = do
  b₁ ← if b.space then strcat " " b else ok b
  literal ← bit_name bit
  strcat literal (record b₁ { space = true })

-- The body of the loops over the bits.
pub cat_name : ℕ → ℕ → NameBuf → NameResult NameBuf
unfolding write_name
cat_name type bit b = if has type bit then write_name bit b else ok b

pub cat_names : ℕ → List ℕ → NameBuf → NameResult NameBuf
unfolding cat_name
cat_names type [] b = ok b
cat_names type (bit ∷ bits) b = cat_name type bit b >>= cat_names type bits

pub c_storage_class : List ℕ
c_storage_class =
    t_auto_c ∷ t_block ∷ t_extern ∷ t_friend ∷ t_register ∷ t_mutable ∷ t_static ∷ t_thread_local
    ∷ t_typedef ∷ t_pure_virtual ∷ t_virtual ∷ t_inline ∷ t_constexpr ∷ t_noreturn ∷ t_override
    ∷ t_final ∷ []

pub c_qualifier : List ℕ
c_qualifier = t_const ∷ t_restrict ∷ t_volatile ∷ t_reference ∷ t_rvalue_reference ∷ t_atomic ∷ []

pub c_type : List ℕ
c_type =
    t_signed ∷ t_unsigned ∷ t_long ∷ t_short ∷ t_void ∷ t_auto_cpp_11 ∷ t_bool ∷ t_char ∷ t_char16_t
    ∷ t_char32_t ∷ t_long_long ∷ t_int ∷ t_complex ∷ t_float ∷ t_double ∷ t_enum ∷ t_struct
    ∷ t_union ∷ t_class ∷ []

-- The special cases before the loop over the types: "signed" shows only with "char", and "int" not
-- with an integer modifier.
pub without_signed : ℕ → ℕ
without_signed type = if not (has type t_char) then bit_and type (compl64 t_signed) else type

pub without_int : ℕ → ℕ
without_int type =
    if has type (bit_or t_unsigned (bit_or t_short (bit_or t_long t_long_long)))
    then bit_and type (compl64 t_int)
    else type

abbrev pub empty_buf : NameBuf
empty_buf = record { text = ""; used = 0; space = false }

-- A type of no bit or several.
pub several_bits_name : ℕ → NameResult String
several_bits_name type = do
  b₁ ← cat_names type c_storage_class empty_buf
  b₂ ← cat_names type c_qualifier b₁
  b₃ ← cat_names (without_int (without_signed type)) c_type b₂
  ok b₃.text

unfoldable pub c_type_name : ℕ → NameResult String
unfolding bit_name several_bits_name cat_names c_storage_class c_qualifier c_type without_signed
    without_int
c_type_name type = if exactly_one_bit_set type then bit_name type else several_bits_name type
