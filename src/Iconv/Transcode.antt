-- ===== src/Iconv/Transcode.antt =====
-- `iconv` between two forms of Unicode.
use android_vshell.Base.{
  ℕ, ◌-◌, ◌/◌, ◌%◌, ◌^◌, ◌<◌, ◌≤◌, ◌≡◌, refl, ap, ◌∙◌, arith, bit_or, true, false, Option, List,
  ◌++◌, length, ltb, leb, ltb→lt, lt→ltb, Bool-cases, inl, inr,
}
use android_vshell.Base.Bits.{bit_or-fields, bit_or_comm}
use android_vshell.Iconv.Units.{put_16, put_32, store_wchar}
use android_vshell.Iconv.Decode.{kind_of, is_ucs2}
use android_vshell.Iconv.Encode.{encode, encode_utf_16, put, wrote}
use android_vshell.Iconv.Forms.{
  Form, utf_32be, utf_32le, utf_16be, utf_16le, ucs_2be, ucs_2le, wide, high, low, type_of,
  form_bytes, Holds, two_le, two_be, four_le, four_be,
}

put_32-four :
    (c : ℕ)
    → c < 0x110000
    → (put_32 c 192 ≡ four_be c) × (put_32 c 195 ≡ four_le c) × (store_wchar c ≡ four_le c)
unfolding put_32 store_wchar
put_32-four c h =
    let a : c / 2 ^ 24 % 2 ^ 8 ≡ 0 = omega arith in
    let b : c / 2 ^ 16 % 2 ^ 8 ≡ c / 65536 = omega arith in
    (rw (a, b) refl, rw (a, b) refl, rw (a, b) refl)

put_16-two_be : (type u : ℕ) → type % 2 ≡ 0 → u < 0x10000 → put_16 u type ≡ two_be u
unfolding put_16
put_16-two_be type u e h = let a : u / 2 ^ 8 % 2 ^ 8 ≡ u / 256 = omega arith in rw (e, a) refl

put_16-two_le : (type u : ℕ) → type % 2 ≡ 1 → u < 0x10000 → put_16 u type ≡ two_le u
unfolding put_16
put_16-two_le type u e h = let a : u / 2 ^ 8 % 2 ^ 8 ≡ u / 256 = omega arith in rw (e, a) refl

-- The words that the source builds with `|` are the surrogates.
surrogates :
    (c : ℕ)
    → 0x10000 ≤ c
    → c < 0x110000
    → (bit_or ((c - 0x10000) / 2 ^ 10) 0xd800 ≡ high c)
      × (bit_or ((c - 0x10000) % 2 ^ 10) 0xdc00 ≡ low c)
surrogates c h k = (
  bit_or_comm ((c - 0x10000) / 2 ^ 10) 0xd800
      ∙ bit_or-fields 10 54 ((c - 0x10000) / 2 ^ 10) (omega arith),
  bit_or_comm ((c - 0x10000) % 2 ^ 10) 0xdc00
      ∙ bit_or-fields 10 55 ((c - 0x10000) % 2 ^ 10) (omega arith),
)

encode_utf_16-basic :
    (type totype c room : ℕ)
    → c < 0x10000
    → encode_utf_16 type totype c room ≡ put (put_16 c totype) 0 room
unfolding encode_utf_16
encode_utf_16-basic type totype c room h =
    let a : ltb c 0x10000 ≡ true = lt→ltb _ _ h in
    let b : leb 0x10000 c ≡ false = ground arith in rw (a, b) refl

encode_utf_16-beyond :
    (type totype c room : ℕ)
    → 0x10000 ≤ c
    → c < 0x110000
    → (is_ucs2 type ≡ true → c < 0x10000)
    → encode_utf_16 type totype c room
      ≡ put (put_16 (high c) totype ++ put_16 (low c) totype) 0 room
unfolding encode_utf_16
encode_utf_16-beyond type totype c room h k u =
    let a : ltb c 0x10000 ≡ false = ground arith in
    let b : is_ucs2 type ≡ false = ground (arith, u, h) in
    rw (a, b, (surrogates c h k).0, (surrogates c h k).1) refl

-- What is written for a character, if a source of UCS-2 gives none beyond its plane.
pub encode-form_bytes :
    (wctomb : ℕ → Option (List ℕ)) (type : ℕ) (tomap : List ℕ) (form : Form) (c room : ℕ)
    → Holds form c
    → (is_ucs2 type ≡ true → c < 0x10000)
    → encode wctomb type (type_of form) tomap c room ≡ put (form_bytes form c) 0 room
unfolding encode kind_of form_bytes
encode-form_bytes wctomb type tomap utf_32be c room h u =
    ap (λ bs. put bs 0 room) (put_32-four c h.0).0
encode-form_bytes wctomb type tomap utf_32le c room h u =
    ap (λ bs. put bs 0 room) (put_32-four c h.0).1
encode-form_bytes wctomb type tomap wide c room h u = ap (λ bs. put bs 0 room) (put_32-four c h.0).2
encode-form_bytes wctomb type tomap ucs_2be c room h u =
    encode_utf_16-basic type 196 c room h.1
    ∙ ap (λ bs. put bs 0 room) (put_16-two_be 196 c refl h.1)
encode-form_bytes wctomb type tomap ucs_2le c room h u =
    encode_utf_16-basic type 197 c room h.1
    ∙ ap (λ bs. put bs 0 room) (put_16-two_le 197 c refl h.1)
encode-form_bytes wctomb type tomap utf_16be c room h u = elim (Bool-cases (ltb c 0x10000)) [
  | inl basic ↦ rw basic (
      encode_utf_16-basic type 194 c room (ltb→lt _ _ basic)
      ∙ ap (λ bs. put bs 0 room) (put_16-two_be 194 c refl (ltb→lt _ _ basic)))
  | inr beyond ↦ rw beyond (
      encode_utf_16-beyond type 194 c room (ground arith) h.0 u
      ∙ rw
          (
            put_16-two_be 194 (high c) refl (omega (arith, h)),
            put_16-two_be 194 (low c) refl (omega arith),
          )
          refl)
]
encode-form_bytes wctomb type tomap utf_16le c room h u = elim (Bool-cases (ltb c 0x10000)) [
  | inl basic ↦ rw basic (
      encode_utf_16-basic type 193 c room (ltb→lt _ _ basic)
      ∙ ap (λ bs. put bs 0 room) (put_16-two_le 193 c refl (ltb→lt _ _ basic)))
  | inr beyond ↦ rw beyond (
      encode_utf_16-beyond type 193 c room (ground arith) h.0 u
      ∙ rw
          (
            put_16-two_le 193 (high c) refl (omega (arith, h)),
            put_16-two_le 193 (low c) refl (omega arith),
          )
          refl)
]

pub ucs2_basic : (form : Form) (c : ℕ) → Holds form c → is_ucs2 (type_of form) ≡ true → c < 0x10000
ucs2_basic ucs_2be c h u = h.1
ucs2_basic ucs_2le c h u = h.1
ucs2_basic utf_32be c h u = absurd (ground (arith, u))
ucs2_basic utf_32le c h u = absurd (ground (arith, u))
ucs2_basic utf_16be c h u = absurd (ground (arith, u))
ucs2_basic utf_16le c h u = absurd (ground (arith, u))
ucs2_basic wide c h u = absurd (ground (arith, u))

pub put-wrote :
    (bytes : List ℕ) (y room : ℕ) → length bytes ≤ room → put bytes y room ≡ wrote bytes y
unfolding put
put-wrote bytes y room h = ground arith
