-- ===== src/Iconv/Short.antt =====
-- Where the first switch of `iconv` finds too few bytes for a character of a form of Unicode.
use android_vshell.Base.{
  ℕ, ◌^◌, ◌/◌, ◌%◌, ◌<◌, ◌≤◌, ◌≡◌, refl, sym, ap, ◌∙◌, arith, Bool, true, false, ◌&&◌, ◌||◌, List,
  ◌∷◌, length, ltb, leb, get_or,
}
use android_vshell.Iconv.Units.{get_16}
use android_vshell.Iconv.Decode.{
  Mbr, Decoded, ilseq, starved, decode, decode_byte, kind_of, check_scalar, decode_wchar_t,
  decode_utf_32, decode_utf_16, is_ucs2,
}
use android_vshell.Iconv.FormSplit.{IsBytes, two_be-get_16, two_le-get_16, get_16_small}
use android_vshell.Iconv.FormLaws.{decode_form}
use android_vshell.Iconv.Forms.{
  Form, utf_32be, utf_32le, utf_16be, utf_16le, ucs_2be, ucs_2le, wide, type_of,
}

-- The upper byte of the first surrogate of a pair.
unfoldable pub is_high_byte : ℕ → Bool
is_high_byte b = leb 0xd8 b && ltb b 0xdc

-- Fewer bytes than a unit has or, in UTF-16, the first half of a pair with less than a unit behind it.
unfoldable pub is_short : Form → List ℕ → Bool
is_short utf_32be s = ltb (length s) 4
is_short utf_32le s = ltb (length s) 4
is_short wide s = ltb (length s) 4
is_short ucs_2be s = ltb (length s) 2
is_short ucs_2le s = ltb (length s) 2
is_short utf_16be s = ltb (length s) 2 || (ltb (length s) 4 && is_high_byte (get_or s 0 0))
is_short utf_16le s = ltb (length s) 2 || (ltb (length s) 4 && is_high_byte (get_or s 1 0))

-- The two ways to stop, told apart by a test.
abbrev Tells : Bool → Decoded → Type 0
Tells b d = (d ≡ starved → b ≡ true) × (d ≡ ilseq → b ≡ false)

utf_32-Tells : (type st : ℕ) (s : List ℕ) → Tells (ltb (length s) 4) (decode_utf_32 type s st)
unfolding decode_utf_32 check_scalar
utf_32-Tells type st s = ((λ h. ground (arith, h)), (λ h. ground (arith, h)))

wchar_t-Tells : (st : ℕ) (s : List ℕ) → Tells (ltb (length s) 4) (decode_wchar_t s st)
unfolding decode_wchar_t check_scalar
wchar_t-Tells st s = ((λ h. ground (arith, h)), (λ h. ground (arith, h)))

ucs_2-Tells :
    (type st : ℕ) (s : List ℕ)
    → is_ucs2 type ≡ true
    → Tells (ltb (length s) 2) (decode_utf_16 type s st)
unfolding decode_utf_16
ucs_2-Tells type st s ucs = ((λ h. ground (arith, h, ucs)), (λ h. ground (arith, h, ucs)))

utf_16-Tells :
    (type st b : ℕ) (s : List ℕ)
    → is_ucs2 type ≡ false
    → get_16 s type < 2 ^ 16
    → (2 ≤ length s → b ≡ get_16 s type / 256)
    → Tells (ltb (length s) 2 || (ltb (length s) 4 && is_high_byte b)) (decode_utf_16 type s st)
unfolding decode_utf_16 is_high_byte
utf_16-Tells type st b s ucs small e =
    ((λ h. ground (arith, h, ucs, e, small)), (λ h. ground (arith, h, ucs, e, small)))

Tells-along : {d d' : Decoded} (b : Bool) → d ≡ d' → Tells b d' → Tells b d
Tells-along b e t = ((λ h. t.0 (sym e ∙ h)), (λ h. t.1 (sym e ∙ h)))

first_be :
    (s : List ℕ) (type : ℕ)
    → type % 2 ≡ 0
    → IsBytes s
    → 2 ≤ length s
    → get_or s 0 0 ≡ get_16 s type / 256
first_be s type even small long = ap (λ xs. get_or xs 0 0) (two_be-get_16 type s even small long)

first_le :
    (s : List ℕ) (type : ℕ)
    → type % 2 ≡ 1
    → IsBytes s
    → 2 ≤ length s
    → get_or s 1 0 ≡ get_16 s type / 256
first_le s type odd small long = ap (λ xs. get_or xs 1 0) (two_le-get_16 type s odd small long)

-- In bytes at whose front no character stands the first switch finds too few exactly by that test.
module _ (mbrtowc : ℕ → List ℕ → Mbr) (map : List ℕ) (st i : ℕ) (is : List ℕ)
    (small : IsBytes (i ∷ is)) where
  pub decode-is_short :
      (form : Form)
      → ((decode mbrtowc (type_of form) map (i ∷ is) st ≡ starved) → is_short form (i ∷ is) ≡ true)
        × ((decode mbrtowc (type_of form) map (i ∷ is) st ≡ ilseq) → is_short form (i ∷ is) ≡ false)
  unfolding is_short decode_byte kind_of
  decode-is_short utf_32be =
      Tells-along _ (decode_form mbrtowc map st utf_32be i is) (utf_32-Tells 192 st (i ∷ is))
  decode-is_short utf_32le =
      Tells-along _ (decode_form mbrtowc map st utf_32le i is) (utf_32-Tells 195 st (i ∷ is))
  decode-is_short wide =
      Tells-along _ (decode_form mbrtowc map st wide i is) (wchar_t-Tells st (i ∷ is))
  decode-is_short ucs_2be =
      Tells-along _ (decode_form mbrtowc map st ucs_2be i is) (ucs_2-Tells 196 st (i ∷ is) refl)
  decode-is_short ucs_2le =
      Tells-along _ (decode_form mbrtowc map st ucs_2le i is) (ucs_2-Tells 197 st (i ∷ is) refl)
  decode-is_short utf_16be = Tells-along _ (decode_form mbrtowc map st utf_16be i is) (
      utf_16-Tells 194 st i (i ∷ is) refl (get_16_small (i ∷ is) 194 small)
        (first_be (i ∷ is) 194 refl small))
  decode-is_short utf_16le = Tells-along _ (decode_form mbrtowc map st utf_16le i is) (
      utf_16-Tells 193 st (get_or (i ∷ is) 1 0) (i ∷ is) refl (get_16_small (i ∷ is) 193 small)
        (first_le (i ∷ is) 193 refl small))
