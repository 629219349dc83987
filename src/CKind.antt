-- ===== src/CKind.antt =====
-- The kinds of AST nodes: src/c_kind.h and src/c_kind.c.
use cdecl.Prelude.{ℕ, leb, ◌==◌, Bool, String, Option, none, some, if◌then◌else◌}
use cdecl.Lang.{lang_cpp_min, lang_c_89, lang_c_knr}

pub data CKind : Type 0 where
  no_kind placeholder builtin enum_class_struct_union name typedef_type variadic : CKind
  array block function pointer pointer_to_member reference rvalue_reference : CKind

-- The bit of a kind.
abbrev pub bit : CKind → ℕ
bit CKind.no_kind = 0
bit CKind.placeholder = 0x1
bit CKind.builtin = 0x2
bit CKind.enum_class_struct_union = 0x4
bit CKind.name = 0x8
bit CKind.typedef_type = 0x10
bit CKind.variadic = 0x20
bit CKind.array = 0x40
bit CKind.block = 0x80
bit CKind.function = 0x100
bit CKind.pointer = 0x200
bit CKind.pointer_to_member = 0x400
bit CKind.reference = 0x800
bit CKind.rvalue_reference = 0x1000

abbrev pub k_parent_min : ℕ
k_parent_min = bit CKind.array

abbrev pub c_kind_is_parent : CKind → Bool
c_kind_is_parent k = leb k_parent_min (bit k)

-- `none` stands for the failed assertion, which ends the program. No kind outside the enumeration
-- can be given.
unfoldable pub c_kind_name : ℕ → CKind → Option String
c_kind_name opt_lang CKind.array = some "array"
c_kind_name opt_lang CKind.block = some "block"
c_kind_name opt_lang CKind.builtin = some "built-in type"
c_kind_name opt_lang CKind.function = some "function"
c_kind_name opt_lang CKind.name = some "name"
c_kind_name opt_lang CKind.no_kind = some "none"
c_kind_name opt_lang CKind.placeholder = some "placeholder"
c_kind_name opt_lang CKind.pointer = some "pointer"
c_kind_name opt_lang CKind.pointer_to_member = some "pointer-to-member"
c_kind_name opt_lang CKind.reference = some "reference"
c_kind_name opt_lang CKind.rvalue_reference = some "rvalue reference"
c_kind_name opt_lang CKind.typedef_type = some "typedef"
c_kind_name opt_lang CKind.variadic = some "variadic"
c_kind_name opt_lang CKind.enum_class_struct_union =
    if leb lang_cpp_min opt_lang
    then some "enum, class, struct, or union"
    else if leb lang_c_89 opt_lang
    then some "enum, struct, or union"
    else if opt_lang == lang_c_knr
    then some "struct or union"
    else none
