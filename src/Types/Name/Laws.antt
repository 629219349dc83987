-- ===== src/Types/Name/Laws.antt =====
-- Laws of c_type_name of src/c_type.c.
use cdecl.Prelude.{
  ℕ, Bool, true, false, not, ◌||◌, ◌&&◌, List, [], ◌∷◌, if◌then◌else◌, bit_or, ◌≡◌, refl, ap, ◌∙◌,
  arith, String, Bool-cases, inl, inr,
}
use cdecl.Bits.{has, compl64, exactly_one_bit_set}
use cdecl.Bits.Laws.{has-bit_or, bit_and-bit_or}
use cdecl.Types.{
  t_wchar_t, t_auto_c, t_block, t_extern, t_friend, t_register, t_mutable, t_static, t_thread_local,
  t_typedef, t_pure_virtual, t_virtual, t_signed, t_int, t_char, t_unsigned, t_short, t_long,
  t_long_long,
}
use cdecl.Types.Name.{
  NameResult, ok, overflow, ◌>>=◌, NameBuf, internal_err, write_name, cat_name, cat_names,
  c_storage_class, c_qualifier, c_type, empty_buf, without_signed, without_int, several_bits_name,
  c_type_name,
}

-- No bit of the list meets `w`.
apart : ℕ → List ℕ → Bool
apart w [] = true
apart w (bit ∷ bits) = not (has w bit) && apart w bits

apart-cons :
    (w bit : ℕ) (bits : List ℕ)
    → apart w (bit ∷ bits) ≡ true
    → (has w bit ≡ false) × (apart w bits ≡ true)
unfolding apart
apart-cons w bit bits h = ground arith

has_apart : (t w m : ℕ) → has w m ≡ false → has (bit_or t w) m ≡ has t m
has_apart t w m h = has-bit_or t w m ∙ or_apart (has t m) h
  where
    or_apart : (a : Bool) {b : Bool} → b ≡ false → (a || b) ≡ a
    or_apart true e = refl
    or_apart false e = e

bind_ext {ℓ} :
    {B : Type ℓ} (r : NameResult NameBuf) (f g : NameBuf → NameResult B)
    → ((b : NameBuf) → f b ≡ g b)
    → (r >>= f) ≡ (r >>= g)
bind_ext (ok b) f g h = h b
bind_ext internal_err f g h = refl
bind_ext overflow f g h = refl

cat_name-apart :
    (t w bit : ℕ) (b : NameBuf) → has w bit ≡ false → cat_name (bit_or t w) bit b ≡ cat_name t bit b
cat_name-apart t w bit b h =
    unfold cat_name in ap (λ on. if on then write_name bit b else ok b) (has_apart t w bit h)

cat_names-apart :
    (t w : ℕ) (bits : List ℕ) (b : NameBuf)
    → apart w bits ≡ true
    → cat_names (bit_or t w) bits b ≡ cat_names t bits b
unfolding cat_names
cat_names-apart t w [] b h = refl
cat_names-apart t w (bit ∷ bits) b h =
    let tail = (apart-cons w bit bits h).1 in
    rw (cat_name-apart t w bit b (apart-cons w bit bits h).0) (
      bind_ext (cat_name t bit b) (cat_names (bit_or t w) bits) (cat_names t bits)
        (λ b'. cat_names-apart t w bits b' tail))

without_signed_wchar_t :
    (t : ℕ) → without_signed (bit_or t t_wchar_t) ≡ bit_or (without_signed t) t_wchar_t
unfolding without_signed has
without_signed_wchar_t t =
    rw (has_apart t t_wchar_t t_char refl) (elim (Bool-cases (has t t_char)) [
      | inl e ↦ rw e
      | inr e ↦ rw e (bit_and-bit_or t t_wchar_t (compl64 t_signed))
    ])

abbrev int_modifiers : ℕ
int_modifiers = bit_or t_unsigned (bit_or t_short (bit_or t_long t_long_long))

without_int_wchar_t : (t : ℕ) → without_int (bit_or t t_wchar_t) ≡ bit_or (without_int t) t_wchar_t
unfolding without_int has
without_int_wchar_t t =
    rw (has_apart t t_wchar_t int_modifiers refl) (elim (Bool-cases (has t int_modifiers)) [
      | inl e ↦ rw e (bit_and-bit_or t t_wchar_t (compl64 t_int))
      | inr e ↦ rw e
    ])

storage_apart : apart t_wchar_t c_storage_class ≡ true
unfolding has apart c_storage_class
storage_apart = refl

qualifier_apart : apart t_wchar_t c_qualifier ≡ true
unfolding has apart c_qualifier
qualifier_apart = refl

type_apart : apart t_wchar_t c_type ≡ true
unfolding has apart c_type
type_apart = refl

-- The last loop of c_type_name, over the types.
abbrev types_after : ℕ → NameBuf → NameResult String
types_after t b =
    cat_names (without_int (without_signed t)) c_type b >>= λ (b' : NameBuf). ok b'.text

types_after-wchar_t : (t : ℕ) (b : NameBuf) → types_after (bit_or t t_wchar_t) b ≡ types_after t b
types_after-wchar_t t b = rw (
  without_signed_wchar_t t,
  without_int_wchar_t (without_signed t),
  cat_names-apart (without_int (without_signed t)) t_wchar_t c_type b type_apart,
)

qualifiers_after-wchar_t :
    (t : ℕ) (b : NameBuf)
    → (cat_names (bit_or t t_wchar_t) c_qualifier b >>= types_after (bit_or t t_wchar_t))
      ≡ (cat_names t c_qualifier b >>= types_after t)
qualifiers_after-wchar_t t b =
    rw (cat_names-apart t t_wchar_t c_qualifier b qualifier_apart)
      (bind_ext (cat_names t c_qualifier b) _ _ (types_after-wchar_t t))

-- With another bit beside it, the bit of wchar_t leaves no trace in the name.
pub several_bits_name-wchar_t :
    (t : ℕ) → several_bits_name (bit_or t t_wchar_t) ≡ several_bits_name t
unfolding several_bits_name
several_bits_name-wchar_t t =
    rw (cat_names-apart t t_wchar_t c_storage_class empty_buf storage_apart)
      (bind_ext (cat_names t c_storage_class empty_buf) _ _ (qualifiers_after-wchar_t t))

-- A type of several bits with the storage classes auto, block, extern, friend, register, mutable,
-- static, thread_local, typedef, pure and virtual does not fit the 80-byte buffer of c_type_name,
-- whatever else it has.
pub c_type_name-overflow :
    (t : ℕ)
    → exactly_one_bit_set t ≡ false
    → has t t_auto_c ≡ true
    → has t t_block ≡ true
    → has t t_extern ≡ true
    → has t t_friend ≡ true
    → has t t_register ≡ true
    → has t t_mutable ≡ true
    → has t t_static ≡ true
    → has t t_thread_local ≡ true
    → has t t_typedef ≡ true
    → has t t_pure_virtual ≡ true
    → has t t_virtual ≡ true
    → c_type_name t ≡ overflow
unfolding c_type_name
c_type_name-overflow t s h1 h2 h3 h4 h5 h6 h7 h8 h9 h10 h11 =
    simp (s, h1, h2, h3, h4, h5, h6, h7, h8, h9, h10, h11)
