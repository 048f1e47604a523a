-- ===== src/Iconv/TranscodeText.antt =====
-- `iconv` on whole texts in the forms of Unicode.
use android_vshell.Base.{
  sym, ℕ, suc, ◌+◌, ◌-◌, ◌/◌, ◌%◌, ◌^◌, ◌<◌, ◌≤◌, ◌≡◌, refl, ap, ◌∙◌, arith, Option, none, some,
  List, [], ◌∷◌, ◌++◌, length, length-append, All, drop,
}
use mathlib.Core.List.{append_assoc, append-nil}
use android_vshell.Iconv.Decode.{char, decode}
use android_vshell.Iconv.Encode.{encode, wrote}
use android_vshell.Iconv.Forms.{
  Form, utf_32be, utf_32le, utf_16be, utf_16le, ucs_2be, ucs_2le, wide, type_of, form_bytes,
  text_bytes, Holds,
}
use android_vshell.Iconv.FormLaws.{decode-form_bytes}
use android_vshell.Iconv.Transcode.{encode-form_bytes, ucs2_basic, put-wrote}
use android_vshell.Iconv.Convert.{
  Errno, Libc, Descriptor, returned, convert, size_mod, describe, iconv,
}
use android_vshell.Iconv.Step.{convert_wrote, convert_end, buffers}

drop-append : (xs ys : List ℕ) → drop (length xs) (xs ++ ys) ≡ ys
drop-append [] ys = refl
drop-append (x ∷ xs) ys = drop-append xs ys

module _ (libc : Libc) (cd : Descriptor) (source target : Form) (e : cd.type ≡ type_of source)
    (f : cd.totype ≡ type_of target) (st : ℕ) (errno : Option Errno) (x : ℕ)
    (fits : x < size_mod) where
  -- One character.
  convert_char :
      (fuel c room : ℕ) (out rest : List ℕ)
      → Holds source c
      → Holds target c
      → length (form_bytes target c) ≤ room
      → convert (suc fuel) libc cd st (buffers (form_bytes source c ++ rest) out room errno) x
        ≡ convert fuel libc cd st
            (buffers rest (out ++ form_bytes target c) (room - length (form_bytes target c)) errno)
            x
  convert_char fuel c room out rest h k r =
      let reading : decode libc.mbrtowc cd.type cd.map (form_bytes source c ++ rest) st
          ≡ char (length (form_bytes source c)) c st =
        rw e (decode-form_bytes libc.mbrtowc cd.map st source c rest h) in
      let writing : encode libc.wctomb cd.type cd.totype cd.tomap c room
          ≡ wrote (form_bytes target c) 0 =
        rw (e, f)
          (encode-form_bytes libc.wctomb (type_of source) cd.tomap target c room k
              (ucs2_basic source c h)
            ∙ put-wrote (form_bytes target c) 0 room r) in
      convert_wrote fuel libc cd st room x out errno (form_bytes source c ++ rest) reading writing
      ∙ rw (drop-append (form_bytes source c) rest) (
          ap
            (λ (y : ℕ).
              convert fuel libc cd st
                (buffers rest (out ++ form_bytes target c) (room - length (form_bytes target c))
                  errno)
                y)
            (omega arith))

  -- A text, before whatever follows it.
  convert_text :
      (cs : List ℕ) (fuel room : ℕ) (out rest : List ℕ)
      → All (Holds source) cs
      → All (Holds target) cs
      → length (text_bytes target cs) ≤ room
      → convert
          (length cs + fuel)
          libc
          cd
          st
          (buffers (text_bytes source cs ++ rest) out room errno)
          x
        ≡ convert fuel libc cd st
            (buffers rest
              (out ++ text_bytes target cs)
              (room - length (text_bytes target cs))
              errno)
            x
  unfolding text_bytes
  convert_text [] fuel room out rest h k r =
      let n : room - 0 ≡ room = omega arith in
      let m : 0 + fuel ≡ fuel = omega arith in rw (append-nil, n, m) refl
  convert_text (c ∷ cs) fuel room out rest h k r =
      let long = length-append (form_bytes target c) (text_bytes target cs) in
      let n : room - length (form_bytes target c) - length (text_bytes target cs)
          ≡ room - length (form_bytes target c ++ text_bytes target cs) =
        omega (arith, long) in
      let m : suc (length cs) + fuel ≡ suc (length cs + fuel) = omega arith in
      rw (m, append_assoc (form_bytes source c) (text_bytes source cs) rest)
        (convert_char (length cs + fuel) c room out (text_bytes source cs ++ rest) h.0 k.0
            (omega (arith, r, long))
          ∙ convert_text cs fuel (room - length (form_bytes target c)) (out ++ form_bytes target c)
              rest h.1 k.1 (omega (arith, r, long))
          ∙ rw (n, append_assoc) refl)

form_bytes_long : (form : Form) (c : ℕ) → 2 ≤ length (form_bytes form c)
unfolding form_bytes
form_bytes_long utf_32be c = omega arith
form_bytes_long utf_32le c = omega arith
form_bytes_long utf_16be c = ground arith
form_bytes_long utf_16le c = ground arith
form_bytes_long ucs_2be c = omega arith
form_bytes_long ucs_2le c = omega arith
form_bytes_long wide c = omega arith

length-text_bytes : (form : Form) (cs : List ℕ) → length cs ≤ length (text_bytes form cs)
unfolding text_bytes
length-text_bytes form [] = omega arith
length-text_bytes form (c ∷ cs) = omega (
  arith,
  length-text_bytes form cs,
  length-append (form_bytes form c) (text_bytes form cs),
  form_bytes_long form c,
)

-- `iconv` on a text, before whatever follows it.
pub iconv_text :
    (libc : Libc) (cd : ℕ) (source target : Form) (cs rest : List ℕ) (room : ℕ)
    → (describe (cd / 2 ^ 16) (cd % 2 ^ 16)).type ≡ type_of source
    → (describe (cd / 2 ^ 16) (cd % 2 ^ 16)).totype ≡ type_of target
    → All (Holds source) cs
    → All (Holds target) cs
    → length (text_bytes target cs) ≤ room
    → iconv libc cd (some (text_bytes source cs ++ rest)) room
      ≡ convert
          (suc (length (text_bytes source cs ++ rest) + 5 - length cs))
          libc
          (describe (cd / 2 ^ 16) (cd % 2 ^ 16))
          0
          (buffers rest (text_bytes target cs) (room - length (text_bytes target cs)) none)
          0
unfolding iconv
iconv_text libc cd source target cs rest room e f h k r =
    let n = length (text_bytes source cs ++ rest) + 5 - length cs in
    let fuel : length (text_bytes source cs ++ rest) + 6 ≡ length cs + suc n =
      omega (arith, length-text_bytes source cs, length-append (text_bytes source cs) rest) in
    rw fuel (
      convert_text libc (describe (cd / 2 ^ 16) (cd % 2 ^ 16)) source target e f 0 none 0
        (omega arith) cs (suc n) room [] rest h k r)

-- Between two forms of Unicode, a text of characters that both have, with enough room, is converted
-- whole: its encoding in the target's form is written, all input is used, and the result is 0.
pub iconv-text_bytes :
    (libc : Libc) (cd : ℕ) (source target : Form) (cs : List ℕ) (room : ℕ)
    → (describe (cd / 2 ^ 16) (cd % 2 ^ 16)).type ≡ type_of source
    → (describe (cd / 2 ^ 16) (cd % 2 ^ 16)).totype ≡ type_of target
    → All (Holds source) cs
    → All (Holds target) cs
    → length (text_bytes target cs) ≤ room
    → iconv libc cd (some (text_bytes source cs)) room
      ≡ returned
          (record {
            input = [];
            out = text_bytes target cs;
            room = room - length (text_bytes target cs);
            errno = none;
          })
          0
iconv-text_bytes libc cd source target cs room e f h k r =
    ap (λ s. iconv libc cd (some s) room) (sym (append-nil (text_bytes source cs)))
    ∙ iconv_text libc cd source target cs [] room e f h k r
    ∙ convert_end _ libc (describe (cd / 2 ^ 16) (cd % 2 ^ 16)) 0
        (room - length (text_bytes target cs)) 0 (text_bytes target cs) none
