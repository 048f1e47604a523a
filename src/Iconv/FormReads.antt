-- ===== src/Iconv/FormReads.antt =====
-- What the first switch reads as a character of a form of Unicode is that character's encoding.
use android_vshell.Base.{
  ◌↔◌, subst, ℕ, ◌^◌, ◌<◌, ◌≤◌, ◌≡◌, ◌⊎◌, inl, inr, refl, sym, ap, ◌∙◌, arith, false, true, drop,
  List, [], ◌∷◌, ◌++◌, length, ltb,
}
use android_vshell.Iconv.Kept.{drop-drop}
use android_vshell.Iconv.Units.{get_16, get_32, load_wchar}
use android_vshell.Iconv.Decode.{
  Mbr, char, decode, decode_byte, kind_of, check_scalar, decode_wchar_t, decode_utf_32,
  decode_utf_16, is_ucs2,
}
use android_vshell.Iconv.FormSplit.{
  IsBytes, four_be-get_32, four_le-get_32, four_le-load_wchar, two_be-get_16, two_le-get_16,
  get_16_small, get_32_small, load_wchar_small, IsBytes-drop, long_drop,
}
use android_vshell.Iconv.FormLaws.{decode_form, decode-form_bytes}
use android_vshell.Iconv.Forms.{
  Form, utf_32be, utf_32le, utf_16be, utf_16le, ucs_2be, ucs_2le, wide, high, low, type_of,
  form_bytes, Holds, two_le, two_be, four_le, four_be,
}
use android_vshell.Multibyte.Utf8.{IsScalar}

check_scalar-read :
    (u st l c st' : ℕ)
    → u < 2 ^ 32
    → check_scalar u st ≡ char l c st'
    → (u ≡ c) × IsScalar c × (l ≡ 4) × (st' ≡ st)
unfolding check_scalar
check_scalar-read u st l c st' b h = ground (arith, h)

decode_utf_32-read :
    (type st l c st' : ℕ) (s : List ℕ)
    → get_32 s type < 2 ^ 32
    → decode_utf_32 type s st ≡ char l c st'
    → (4 ≤ length s) × (get_32 s type ≡ c) × IsScalar c × (l ≡ 4) × (st' ≡ st)
unfolding decode_utf_32 check_scalar
decode_utf_32-read type st l c st' s b h = ground (arith, h)

decode_wchar_t-read :
    (st l c st' : ℕ) (s : List ℕ)
    → load_wchar s < 2 ^ 32
    → decode_wchar_t s st ≡ char l c st'
    → (4 ≤ length s) × (load_wchar s ≡ c) × IsScalar c × (l ≡ 4) × (st' ≡ st)
unfolding decode_wchar_t check_scalar
decode_wchar_t-read st l c st' s b h = ground (arith, h)

decode_utf_16-read :
    (type st l c st' : ℕ) (s : List ℕ)
    → get_16 s type < 2 ^ 16
    → get_16 (drop 2 s) type < 2 ^ 16
    → decode_utf_16 type s st ≡ char l c st'
    → ((l ≡ 2) × (2 ≤ length s) × (get_16 s type ≡ c) × (c < 2 ^ 16) × IsScalar c × (st' ≡ st))
      ⊎ ((l ≡ 4)
          × (4 ≤ length s)
          × (get_16 s type ≡ high c)
          × (get_16 (drop 2 s) type ≡ low c)
          × (2 ^ 16 ≤ c)
          × IsScalar c
          × (is_ucs2 type ≡ false)
          × (st' ≡ st))
unfolding decode_utf_16
decode_utf_16-read type st l c st' s b b' h = ground (arith, h)

-- A character, its encoding at the front, and how many bytes it has.
pub record IsRead (form : Form) (s : List ℕ) (st l c st' : ℕ) : Type 0 where
  pub held : Holds form c
  pub front : s ≡ form_bytes form c ++ drop l s
  pub size : l ≡ length (form_bytes form c)
  pub state : st' ≡ st

front_of :
    (bytes : ℕ → List ℕ) {s : List ℕ} {n c l k : ℕ}
    → s ≡ bytes n ++ drop k s
    → n ≡ c
    → l ≡ k
    → s ≡ bytes c ++ drop l s
front_of bytes {s} {k} f e p = rw p (subst (λ n. s ≡ bytes n ++ drop k s) e f)

module _ (s : List ℕ) (st l c st' : ℕ) (small : IsBytes s) where
  utf_32be-IsRead : decode_utf_32 192 s st ≡ char l c st' → IsRead utf_32be s st l c st'
  unfolding form_bytes
  utf_32be-IsRead h =
      let (long, e, scalar, four, state) =
        decode_utf_32-read 192 st l c st' s (get_32_small s 192 small) h in
      let f = four_be-get_32 s small long (omega (arith, e, scalar.0)) in
      record { held = scalar; front = front_of four_be f e four; size = four; state = state }

  utf_32le-IsRead : decode_utf_32 195 s st ≡ char l c st' → IsRead utf_32le s st l c st'
  unfolding form_bytes
  utf_32le-IsRead h =
      let (long, e, scalar, four, state) =
        decode_utf_32-read 195 st l c st' s (get_32_small s 195 small) h in
      let f = four_le-get_32 s small long (omega (arith, e, scalar.0)) in
      record { held = scalar; front = front_of four_le f e four; size = four; state = state }

  wide-IsRead : decode_wchar_t s st ≡ char l c st' → IsRead wide s st l c st'
  unfolding form_bytes
  wide-IsRead h =
      let (long, e, scalar, four, state) =
        decode_wchar_t-read st l c st' s (load_wchar_small s small) h in
      let f = four_le-load_wchar s small long (omega (arith, e, scalar.0)) in
      record { held = scalar; front = front_of four_le f e four; size = four; state = state }

  -- The two forms of units of 16 bits, by how a unit is split.
  read_units :
      (two : ℕ → List ℕ) (type : ℕ)
      → ((s : List ℕ) → IsBytes s → 2 ≤ length s → s ≡ two (get_16 s type) ++ drop 2 s)
      → decode_utf_16 type s st ≡ char l c st'
      → ((l ≡ 2) × (c < 0x10000) × IsScalar c × (st' ≡ st) × (s ≡ two c ++ drop l s))
        ⊎ ((l ≡ 4)
            × (0x10000 ≤ c)
            × IsScalar c
            × (st' ≡ st)
            × (is_ucs2 type ≡ false)
            × (s ≡ two (high c) ++ (two (low c) ++ drop l s)))
  read_units two type split h =
      elim (decode_utf_16-read type st l c st' s (get_16_small s type small)
        (get_16_small (drop 2 s) type (IsBytes-drop 2 s small)) h) [
          | inl (size, long, e, basic, scalar, state) ↦
              inl (size, basic, scalar, state, front_of two (split s small long) e size)
          | inr (size, long, e, f, beyond, scalar, ucs, state) ↦
              let first = front_of two {l = 2} (split s small (omega (arith, long))) e refl in
              let second =
                front_of two {l = 2} (split (drop 2 s) (IsBytes-drop 2 s small) (long_drop s long))
                  f refl in
              let rest : drop 2 (drop 2 s) ≡ drop l s = rw size (drop-drop 2 2 s) in
              inr (
                size,
                beyond,
                scalar,
                state,
                ucs,
                first ∙ ap (λ r. two (high c) ++ r) (second ∙ ap (λ r. two (low c) ++ r) rest),
              )
        ]

  utf_16be-IsRead : decode_utf_16 194 s st ≡ char l c st' → IsRead utf_16be s st l c st'
  unfolding form_bytes
  utf_16be-IsRead h = elim (read_units two_be 194 (λ s. two_be-get_16 194 s refl) h) [
    | inl (size, basic, scalar, state, f) ↦
        let t : ltb c 0x10000 ≡ true = ground arith in
        record {
          held = scalar;
          front = rw (form_bytes, t) f;
          size = rw (form_bytes, t) size;
          state = state;
        }
    | inr (size, beyond, scalar, state, ucs, f) ↦
        let t : ltb c 0x10000 ≡ false = ground arith in
        record {
          held = scalar;
          front = rw (form_bytes, t) f;
          size = rw (form_bytes, t) size;
          state = state;
        }
  ]

  utf_16le-IsRead : decode_utf_16 193 s st ≡ char l c st' → IsRead utf_16le s st l c st'
  unfolding form_bytes
  utf_16le-IsRead h = elim (read_units two_le 193 (λ s. two_le-get_16 193 s refl) h) [
    | inl (size, basic, scalar, state, f) ↦
        let t : ltb c 0x10000 ≡ true = ground arith in
        record {
          held = scalar;
          front = rw (form_bytes, t) f;
          size = rw (form_bytes, t) size;
          state = state;
        }
    | inr (size, beyond, scalar, state, ucs, f) ↦
        let t : ltb c 0x10000 ≡ false = ground arith in
        record {
          held = scalar;
          front = rw (form_bytes, t) f;
          size = rw (form_bytes, t) size;
          state = state;
        }
  ]

  ucs_2be-IsRead : decode_utf_16 196 s st ≡ char l c st' → IsRead ucs_2be s st l c st'
  unfolding form_bytes
  ucs_2be-IsRead h = elim (read_units two_be 196 (λ s. two_be-get_16 196 s refl) h) [
    | inl (size, basic, scalar, state, f) ↦ record {
      held = (scalar, basic);
      front = f;
      size = size;
      state = state;
    }
    | inr (size, beyond, scalar, state, ucs, f) ↦ ground (arith, ucs)
  ]

  ucs_2le-IsRead : decode_utf_16 197 s st ≡ char l c st' → IsRead ucs_2le s st l c st'
  unfolding form_bytes
  ucs_2le-IsRead h = elim (read_units two_le 197 (λ s. two_le-get_16 197 s refl) h) [
    | inl (size, basic, scalar, state, f) ↦ record {
      held = (scalar, basic);
      front = f;
      size = size;
      state = state;
    }
    | inr (size, beyond, scalar, state, ucs, f) ↦ ground (arith, ucs)
  ]

module _ (mbrtowc : ℕ → List ℕ → Mbr) (map : List ℕ) (st : ℕ) where
  form-IsRead :
      (form : Form) (l c st' : ℕ) (s : List ℕ)
      → IsBytes s
      → decode mbrtowc (type_of form) map s st ≡ char l c st'
      → IsRead form s st l c st'
  unfolding decode decode_byte kind_of
  form-IsRead form l c st' [] small h = ground (arith, h)
  form-IsRead utf_32be l c st' (i ∷ is) small h =
      utf_32be-IsRead (i ∷ is) st l c st' small (sym (decode_form mbrtowc map st utf_32be i is) ∙ h)
  form-IsRead utf_32le l c st' (i ∷ is) small h =
      utf_32le-IsRead (i ∷ is) st l c st' small (sym (decode_form mbrtowc map st utf_32le i is) ∙ h)
  form-IsRead utf_16be l c st' (i ∷ is) small h =
      utf_16be-IsRead (i ∷ is) st l c st' small (sym (decode_form mbrtowc map st utf_16be i is) ∙ h)
  form-IsRead utf_16le l c st' (i ∷ is) small h =
      utf_16le-IsRead (i ∷ is) st l c st' small (sym (decode_form mbrtowc map st utf_16le i is) ∙ h)
  form-IsRead ucs_2be l c st' (i ∷ is) small h =
      ucs_2be-IsRead (i ∷ is) st l c st' small (sym (decode_form mbrtowc map st ucs_2be i is) ∙ h)
  form-IsRead ucs_2le l c st' (i ∷ is) small h =
      ucs_2le-IsRead (i ∷ is) st l c st' small (sym (decode_form mbrtowc map st ucs_2le i is) ∙ h)
  form-IsRead wide l c st' (i ∷ is) small h =
      wide-IsRead (i ∷ is) st l c st' small (sym (decode_form mbrtowc map st wide i is) ∙ h)

  -- From bytes, the first switch reads a character in one of the forms exactly if the form holds the
  -- character and its encoding stands at the front: it takes the bytes of the encoding and leaves the
  -- state of mbrtowc as it is.
  pub decode-IsRead :
      (form : Form) (l c st' : ℕ) (s : List ℕ)
      → IsBytes s
      → (decode mbrtowc (type_of form) map s st ≡ char l c st') ↔ IsRead form s st l c st'
  decode-IsRead form l c st' s small = (
    form-IsRead form l c st' s small,
    λ r.
        ap (λ t. decode mbrtowc (type_of form) map t st) r.front
        ∙ decode-form_bytes mbrtowc map st form c (drop l s) r.held
        ∙ rw (sym r.size, r.state) refl,
  )
