-- ===== src/Types.antt =====
-- The type bits of src/c_type.h: a `c_type_t` is a 64-bit set of types, storage classes and
-- qualifiers.
pub mod Tables
pub mod Check
pub mod Name
pub mod Add
use cdecl.Prelude.{ℕ}

abbrev pub t_none : ℕ
t_none = 0

abbrev pub t_void : ℕ
t_void = 0x1

abbrev pub t_auto_cpp_11 : ℕ
t_auto_cpp_11 = 0x2

abbrev pub t_bool : ℕ
t_bool = 0x4

abbrev pub t_char : ℕ
t_char = 0x8

abbrev pub t_char16_t : ℕ
t_char16_t = 0x10

abbrev pub t_char32_t : ℕ
t_char32_t = 0x20

abbrev pub t_wchar_t : ℕ
t_wchar_t = 0x40

abbrev pub t_short : ℕ
t_short = 0x80

abbrev pub t_int : ℕ
t_int = 0x100

abbrev pub t_long : ℕ
t_long = 0x200

abbrev pub t_long_long : ℕ
t_long_long = 0x400

abbrev pub t_signed : ℕ
t_signed = 0x800

abbrev pub t_unsigned : ℕ
t_unsigned = 0x1000

abbrev pub t_float : ℕ
t_float = 0x2000

abbrev pub t_double : ℕ
t_double = 0x4000

abbrev pub t_complex : ℕ
t_complex = 0x8000

abbrev pub t_enum : ℕ
t_enum = 0x10000

abbrev pub t_struct : ℕ
t_struct = 0x20000

abbrev pub t_union : ℕ
t_union = 0x40000

abbrev pub t_class : ℕ
t_class = 0x80000

abbrev pub t_typedef_type : ℕ
t_typedef_type = 0x100000

abbrev pub t_auto_c : ℕ
t_auto_c = 0x1000000

abbrev pub t_block : ℕ
t_block = 0x2000000

abbrev pub t_extern : ℕ
t_extern = 0x4000000

abbrev pub t_mutable : ℕ
t_mutable = 0x8000000

abbrev pub t_register : ℕ
t_register = 0x10000000

abbrev pub t_static : ℕ
t_static = 0x20000000

abbrev pub t_thread_local : ℕ
t_thread_local = 0x40000000

abbrev pub t_typedef : ℕ
t_typedef = 0x80000000

abbrev pub t_constexpr : ℕ
t_constexpr = 0x100000000

abbrev pub t_final : ℕ
t_final = 0x200000000

abbrev pub t_friend : ℕ
t_friend = 0x400000000

abbrev pub t_inline : ℕ
t_inline = 0x800000000

abbrev pub t_noreturn : ℕ
t_noreturn = 0x1000000000

abbrev pub t_override : ℕ
t_override = 0x2000000000

abbrev pub t_pure_virtual : ℕ
t_pure_virtual = 0x4000000000

abbrev pub t_virtual : ℕ
t_virtual = 0x8000000000

abbrev pub t_atomic : ℕ
t_atomic = 0x10000000000

abbrev pub t_const : ℕ
t_const = 0x20000000000

abbrev pub t_restrict : ℕ
t_restrict = 0x40000000000

abbrev pub t_volatile : ℕ
t_volatile = 0x80000000000

abbrev pub t_reference : ℕ
t_reference = 0x100000000000

abbrev pub t_rvalue_reference : ℕ
t_rvalue_reference = 0x200000000000

abbrev pub t_mask_type : ℕ
t_mask_type = 0xffffff

abbrev pub t_mask_storage : ℕ
t_mask_storage = 0xffff000000

abbrev pub t_mask_qualifier : ℕ
t_mask_qualifier = 0xf0000000000

abbrev pub t_mask_ref_qualifier : ℕ
t_mask_ref_qualifier = 0xf00000000000
