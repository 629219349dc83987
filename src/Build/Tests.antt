-- ===== src/Build/Tests.antt =====
-- `int x[2][3]`, `int (*p)[3]` and `int (*f)(...)` as the parser builds them.
use cdecl.Prelude.{◌≡◌, refl, arith, [], ◌∷◌, none, some, false, ◌++◌, ◌≤◌, ◌<◌, ◌⊎◌}
use cdecl.Build.Patch.{c_ast_patch_placeholder}
use cdecl.Build.Patch.Whole.{NoPlaceholder, c_ast_patch_placeholder_lem}
use cdecl.CKind.{CKind}
use cdecl.Types.{t_none}
use cdecl.Build.{
  Chain, Part, c_ast_add_array, c_ast_add_array_impl, c_ast_append_array, array_over, storage_in,
  drop_storage,
}
use cdecl.Build.Array.{Belongs}
use cdecl.Build.Array.Storage.{given, left_of, first_of, c_ast_add_array_lem}
use cdecl.Build.Order.{add_all, add_all_lem}
use cdecl.Build.Func.{c_ast_add_func, name_below, or_name, drop_name}
use cdecl.Build.Func.Placeholder.{c_ast_add_func_lem}

abbrev static_int : Part
static_int = record { id = 1; kind = CKind.builtin; depth = 0; name = some "x"; type = 0x1000008 }

abbrev pointer_to : Part
pointer_to = record { id = 2; kind = CKind.pointer; depth = 1; name = some "p"; type = t_none }

abbrev first_array : Part
first_array = record { id = 3; kind = CKind.array; depth = 0; name = none; type = t_none }

abbrev second_array : Part
second_array = record { id = 5; kind = CKind.array; depth = 0; name = none; type = t_none }

abbrev hole : Part
hole = record { id = 6; kind = CKind.placeholder; depth = 1; name = none; type = t_none }

abbrev returning : Part
returning = record { id = 7; kind = CKind.function; depth = 0; name = none; type = t_none }

c_ast_add_array_lem_example :
    (xs : Chain) × (mid : Chain) × (pointer_to ∷ [] ≡ xs ++ mid)
    × (c_ast_add_array first_array (pointer_to ∷ static_int ∷ [])
        ≡ some (xs ++ (given first_array static_int ∷ mid ++ left_of static_int ∷ [])))
    × Belongs first_array (first_of mid static_int) xs
c_ast_add_array_lem_example =
    c_ast_add_array_lem first_array (pointer_to ∷ []) static_int (refl, tt) refl (omega arith)

-- The array goes between the pointer and the type.
below_pointer :
    c_ast_add_array first_array (pointer_to ∷ static_int ∷ [])
    ≡ some (
        pointer_to
        ∷ record first_array { type = 0x1000000 }
        ∷ record static_int { type = 0x8 }
        ∷ [])
unfolding c_ast_add_array c_ast_add_array_impl c_ast_append_array array_over storage_in drop_storage
below_pointer = refl

add_all_lem_example :
    add_all (first_array ∷ second_array ∷ []) (static_int ∷ [])
    ≡ some (
        record first_array { type = 0x1000000 }
        ∷ second_array
        ∷ record static_int { type = 0x8 }
        ∷ [])
add_all_lem_example =
    add_all_lem first_array (second_array ∷ []) static_int (refl, (refl, tt)) refl (omega arith)

c_ast_add_func_lem_example :
    c_ast_add_func returning (static_int ∷ []) (pointer_to ∷ hole ∷ [])
    ≡ some (
        record pointer_to { name = none }
        ∷ record returning { name = some "p"; type = 0x1000000 }
        ∷ record static_int { type = 0x8 }
        ∷ [])
unfolding name_below drop_name storage_in drop_storage
c_ast_add_func_lem_example =
    c_ast_add_func_lem returning pointer_to [] hole static_int [] "p" refl (refl, refl, tt) refl
      refl

-- A type in a deeper declarator.
c_ast_patch_placeholder_lem_example :
    (out : Chain) × (c_ast_patch_placeholder false (static_int ∷ []) (pointer_to ∷ [] ++ hole ∷ [])
      ≡ some out)
    × NoPlaceholder out
    × (((1 ≤ 0)
          × (out
              ≡ record static_int {
                name = or_name (some "x") (name_below (pointer_to ∷ [] ++ hole ∷ []));
              }
                ∷ []))
        ⊎ ((0 < 1) × (out ≡ pointer_to ∷ [] ++ (static_int ∷ []))))
c_ast_patch_placeholder_lem_example =
    c_ast_patch_placeholder_lem static_int [] pointer_to [] hole (refl, tt) (refl, tt) refl
