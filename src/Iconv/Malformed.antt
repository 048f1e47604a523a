-- ===== src/Iconv/Malformed.antt =====
-- `iconv` on a text in a form of Unicode with something malformed behind it.
use android_vshell.Base.{
  Bool, true, false, ℕ, suc, ◌+◌, ◌-◌, ◌/◌, ◌%◌, ◌^◌, ◌≤◌, ◌≡◌, ◌≢◌, refl, ap, ◌∙◌, arith, some,
  none, List, ◌∷◌, ◌++◌, length, All,
}
use android_vshell.Iconv.Decode.{
  kind_of, big5_kind, shift_jis, legacy, Decoded, char, pair, ilseq, starved, outside, decode,
}
use android_vshell.Iconv.Plain.{IsPlain, decode_other-IsPlain}
use android_vshell.Iconv.TableBounds.{decode-inside}
use android_vshell.Iconv.FormSplit.{IsBytes}
use android_vshell.Iconv.FormReads.{IsRead, decode-IsRead}
use android_vshell.Iconv.Forms.{
  Form, utf_32be, utf_32le, utf_16be, utf_16le, ucs_2be, ucs_2le, wide, type_of, text_bytes, Holds,
}
use android_vshell.Iconv.TranscodeText.{iconv_text}
use android_vshell.Iconv.Short.{is_short, decode-is_short}
use android_vshell.Iconv.Step.{buffers}
use android_vshell.Iconv.Convert.{
  Errno, eilseq, einval, Libc, Descriptor, failed, round, convert, describe, iconv,
}

form_kinds :
    (form : Form)
    → (kind_of (type_of form) ≢ big5_kind)
      × (kind_of (type_of form) ≢ shift_jis)
      × (kind_of (type_of form) ≢ legacy)
unfolding kind_of
form_kinds utf_32be = ((λ h. ground (arith, h)), (λ h. ground (arith, h)), (λ h. ground (arith, h)))
form_kinds utf_32le = ((λ h. ground (arith, h)), (λ h. ground (arith, h)), (λ h. ground (arith, h)))
form_kinds utf_16be = ((λ h. ground (arith, h)), (λ h. ground (arith, h)), (λ h. ground (arith, h)))
form_kinds utf_16le = ((λ h. ground (arith, h)), (λ h. ground (arith, h)), (λ h. ground (arith, h)))
form_kinds ucs_2be = ((λ h. ground (arith, h)), (λ h. ground (arith, h)), (λ h. ground (arith, h)))
form_kinds ucs_2le = ((λ h. ground (arith, h)), (λ h. ground (arith, h)), (λ h. ground (arith, h)))
form_kinds wide = ((λ h. ground (arith, h)), (λ h. ground (arith, h)), (λ h. ground (arith, h)))

abbrev pub errno_of : Bool → Errno
errno_of true = einval
errno_of false = eilseq

-- The loop stops at bytes that are read as nothing.
convert-stops :
    (libc : Libc) (cd : Descriptor) (fuel i room x : ℕ) (is out : List ℕ) (short : Bool)
    (d : Decoded)
    → decode libc.mbrtowc cd.type cd.map (i ∷ is) 0 ≡ d
    → ((l c st : ℕ) → d ≢ char l c st)
    → IsPlain d
    → d ≢ outside
    → (d ≡ starved → short ≡ true) × (d ≡ ilseq → short ≡ false)
    → convert (suc fuel) libc cd 0 (buffers (i ∷ is) out room none) x
      ≡ failed (buffers (i ∷ is) out room (some (errno_of short)))
unfolding convert round
convert-stops libc cd fuel i room x is out short (char l c st) e n p o t = absurd (n l c st refl)
convert-stops libc cd fuel i room x is out short (pair k) e n p o t = absurd p
convert-stops libc cd fuel i room x is out short ilseq e n p o t =
    rw (convert, e, round, t.1 refl) refl
convert-stops libc cd fuel i room x is out short starved e n p o t =
    rw (convert, e, round, t.0 refl) refl
convert-stops libc cd fuel i room x is out short outside e n p o t = absurd (o refl)

-- A text of characters that both forms hold, with enough room, and behind it bytes at whose front no
-- character of the source's form stands: the text is converted, and iconv fails there with EINVAL if
-- the bytes are fewer than a unit or, in UTF-16, the first half of a pair with less than a unit
-- behind it, and with EILSEQ if not; the input that is left starts with those bytes.
pub iconv-malformed :
    (libc : Libc) (cd : ℕ) (source target : Form) (cs : List ℕ) (i : ℕ) (is : List ℕ) (room : ℕ)
    → (describe (cd / 2 ^ 16) (cd % 2 ^ 16)).type ≡ type_of source
    → (describe (cd / 2 ^ 16) (cd % 2 ^ 16)).totype ≡ type_of target
    → All (Holds source) cs
    → All (Holds target) cs
    → length (text_bytes target cs) ≤ room
    → IsBytes (i ∷ is)
    → ((l c st : ℕ) → ¬ IsRead source (i ∷ is) 0 l c st)
    → iconv libc cd (some (text_bytes source cs ++ (i ∷ is))) room
      ≡ failed (record {
        input = i ∷ is;
        out = text_bytes target cs;
        room = room - length (text_bytes target cs);
        errno = some (errno_of (is_short source (i ∷ is)));
      })
iconv-malformed libc cd source target cs i is room p q h k r small bad =
    let d = describe (cd / 2 ^ 16) (cd % 2 ^ 16) in
    let (other, sjis, table) = form_kinds source in
    let read = decode libc.mbrtowc (type_of source) d.map (i ∷ is) 0 in
    let none_read : (l c st : ℕ) → read ≢ char l c st = λ l c st e.
      bad l c st ((decode-IsRead libc.mbrtowc d.map 0 source l c st (i ∷ is) small).0 e) in
    iconv_text libc cd source target cs (i ∷ is) room p q h k r
    ∙ convert-stops libc d (length (text_bytes source cs ++ (i ∷ is)) + 5 - length cs) i
        (room - length (text_bytes target cs)) 0 is (text_bytes target cs)
        (is_short source (i ∷ is)) read (ap (λ t. decode libc.mbrtowc t d.map (i ∷ is) 0) p)
        none_read (decode_other-IsPlain libc.mbrtowc (type_of source) d.map (i ∷ is) 0 other)
        (decode-inside libc.mbrtowc (type_of source) d.map (i ∷ is) 0 sjis table small)
        (decode-is_short libc.mbrtowc d.map 0 i is small source)
