-- ===== src/Iconv/FormLaws.antt =====
-- The two switches on the forms of Unicode: what is read, and what is written.
use android_vshell.Base.{
  ℕ, ◌+◌, ◌*◌, ◌/◌, ◌%◌, ◌^◌, ◌<◌, ◌≤◌, ◌≡◌, refl, ◌∙◌, arith, bit_or, false, drop, List, ◌∷◌, ◌++◌,
  length, ltb, ltb→lt, Bool-cases, inl, inr,
}
use android_vshell.Base.Bits.{bit_or-fields}
use android_vshell.Iconv.UnitLaws.{join_four}
use android_vshell.Iconv.Units.{get_16, get_32, load_wchar}
use android_vshell.Iconv.Decode.{
  Mbr, char, utf_16, decode, decode_byte, kind_of, check_scalar, decode_wchar_t, decode_utf_32,
  decode_utf_16, is_ucs2,
}
use android_vshell.Iconv.Forms.{
  Form, utf_32be, utf_32le, utf_16be, utf_16le, ucs_2be, ucs_2le, wide, high, low, type_of,
  form_bytes, Holds, two_le, two_be, four_le, four_be,
}
use android_vshell.Multibyte.Utf8.{IsScalar}

pub join_two : (a b : ℕ) → b < 256 → bit_or (a * 2 ^ 8) b ≡ a * 2 ^ 8 + b
join_two a b h = bit_or-fields 8 a b (omega arith)

get_16-two_be : (type u : ℕ) (rest : List ℕ) → type % 2 ≡ 0 → get_16 (two_be u ++ rest) type ≡ u
unfolding get_16
get_16-two_be type u rest e = rw e (join_two (u / 256) (u % 256) (omega arith) ∙ omega arith)

get_16-two_le : (type u : ℕ) (rest : List ℕ) → type % 2 ≡ 1 → get_16 (two_le u ++ rest) type ≡ u
unfolding get_16
get_16-two_le type u rest e = rw e (join_two (u / 256) (u % 256) (omega arith) ∙ omega arith)

get_32-four_be : (c : ℕ) (rest : List ℕ) → c < 0x110000 → get_32 (four_be c ++ rest) 192 ≡ c
unfolding get_32
get_32-four_be c rest h =
    join_four 0 (c / 65536) (c / 256 % 256) (c % 256) (omega arith) (omega arith) (omega arith)
    ∙ omega arith

get_32-four_le : (c : ℕ) (rest : List ℕ) → c < 0x110000 → get_32 (four_le c ++ rest) 195 ≡ c
unfolding get_32
get_32-four_le c rest h =
    join_four 0 (c / 65536) (c / 256 % 256) (c % 256) (omega arith) (omega arith) (omega arith)
    ∙ omega arith

module _ (mbrtowc : ℕ → List ℕ → Mbr) (map : List ℕ) (st : ℕ) where
  -- The first byte is never taken for ASCII.
  pub decode_form :
      (form : Form) (i : ℕ) (is : List ℕ)
      → decode mbrtowc (type_of form) map (i ∷ is) st
        ≡ decode_byte mbrtowc (type_of form) map i (i ∷ is) st
  unfolding decode
  decode_form utf_32be i is = ground arith
  decode_form utf_32le i is = ground arith
  decode_form utf_16be i is = ground arith
  decode_form utf_16le i is = ground arith
  decode_form ucs_2be i is = ground arith
  decode_form ucs_2le i is = ground arith
  decode_form wide i is = ground arith

check_scalar-char : (c st : ℕ) → IsScalar c → check_scalar c st ≡ char 4 c st
unfolding check_scalar
check_scalar-char c st h = ground arith

decode_utf_32-char :
    (type c st : ℕ) (s : List ℕ)
    → IsScalar c
    → 4 ≤ length s
    → get_32 s type ≡ c
    → decode_utf_32 type s st ≡ char 4 c st
unfolding decode_utf_32
decode_utf_32-char type c st s h long e = rw e (ground (arith, check_scalar-char c st h))

decode_wchar_t-char :
    (c st : ℕ) (s : List ℕ)
    → IsScalar c
    → 4 ≤ length s
    → load_wchar s ≡ c
    → decode_wchar_t s st ≡ char 4 c st
unfolding decode_wchar_t
decode_wchar_t-char c st s h long e = rw e (ground (arith, check_scalar-char c st h))

decode_unit :
    (type u st : ℕ) (s : List ℕ)
    → IsScalar u
    → u < 0x10000
    → 2 ≤ length s
    → get_16 s type ≡ u
    → decode_utf_16 type s st ≡ char 2 u st
unfolding decode_utf_16
decode_unit type u st s scalar basic long e = rw e (ground arith)

decode_surrogates :
    (type c st : ℕ) (s : List ℕ)
    → IsScalar c
    → 0x10000 ≤ c
    → is_ucs2 type ≡ false
    → 4 ≤ length s
    → get_16 s type ≡ high c
    → get_16 (drop 2 s) type ≡ low c
    → decode_utf_16 type s st ≡ char 4 c st
unfolding decode_utf_16
decode_surrogates type c st s scalar beyond ucs long e f = rw (e, f) (ground (arith, ucs))

module _ (mbrtowc : ℕ → List ℕ → Mbr) (map : List ℕ) (st : ℕ) where
  decode_unit_form :
      (form : Form) (c i : ℕ) (is : List ℕ)
      → kind_of (type_of form) ≡ utf_16
      → IsScalar c
      → c < 0x10000
      → 2 ≤ length (i ∷ is)
      → get_16 (i ∷ is) (type_of form) ≡ c
      → decode mbrtowc (type_of form) map (i ∷ is) st ≡ char 2 c st
  decode_unit_form form c i is k h b l e =
      decode_form mbrtowc map st form i is
      ∙ unfold decode_byte in rw (k, decode_byte) (decode_unit (type_of form) c st (i ∷ is) h b l e)

  -- A character of a form is read whole, whatever follows.
  pub decode-form_bytes :
      (form : Form) (c : ℕ) (rest : List ℕ)
      → Holds form c
      → decode mbrtowc (type_of form) map (form_bytes form c ++ rest) st
        ≡ char (length (form_bytes form c)) c st
  unfolding form_bytes kind_of
  decode-form_bytes utf_32be c rest h =
      decode_form mbrtowc map st utf_32be _ _
      ∙ unfold decode_byte in
        decode_utf_32-char 192 c st _ h (omega arith) (get_32-four_be c rest h.0)
  decode-form_bytes utf_32le c rest h =
      decode_form mbrtowc map st utf_32le _ _
      ∙ unfold decode_byte in
        decode_utf_32-char 195 c st _ h (omega arith) (get_32-four_le c rest h.0)
  decode-form_bytes wide c rest h =
      decode_form mbrtowc map st wide _ _
      ∙ unfold decode_byte in
        decode_wchar_t-char c st _ h (omega arith) (unfold load_wchar in omega (arith, h.0))
  decode-form_bytes ucs_2be c rest h =
      decode_unit_form ucs_2be c _ _ refl h.0 h.1 (omega arith) (get_16-two_be 196 c rest refl)
  decode-form_bytes ucs_2le c rest h =
      decode_unit_form ucs_2le c _ _ refl h.0 h.1 (omega arith) (get_16-two_le 197 c rest refl)
  decode-form_bytes utf_16be c rest h = elim (Bool-cases (ltb c 0x10000)) [
    | inl basic ↦ rw basic (
        decode_unit_form utf_16be c _ _ refl h (ltb→lt _ _ basic) (omega arith)
          (get_16-two_be 194 c rest refl))
    | inr beyond ↦ rw beyond (
        decode_form mbrtowc map st utf_16be _ _
        ∙ unfold decode_byte in
          decode_surrogates 194 c st _ h (ground arith) refl (omega arith)
            (get_16-two_be 194 (high c) _ refl) (get_16-two_be 194 (low c) rest refl))
  ]
  decode-form_bytes utf_16le c rest h = elim (Bool-cases (ltb c 0x10000)) [
    | inl basic ↦ rw basic (
        decode_unit_form utf_16le c _ _ refl h (ltb→lt _ _ basic) (omega arith)
          (get_16-two_le 193 c rest refl))
    | inr beyond ↦ rw beyond (
        decode_form mbrtowc map st utf_16le _ _
        ∙ unfold decode_byte in
          decode_surrogates 193 c st _ h (ground arith) refl (omega arith)
            (get_16-two_le 193 (high c) _ refl) (get_16-two_le 193 (low c) rest refl))
  ]
