-- ===== src/Iconv/Defined.antt =====
-- Where `iconv` has a meaning in C: no read outside of a table.
use android_vshell.Base.{
  subst, ℕ, zero, suc, ◌+◌, ◌/◌, ◌%◌, ◌^◌, ◌≡◌, ◌≢◌, refl, arith, Option, some, List, [], ◌∷◌,
  length,
}
use android_vshell.Iconv.Decode.{
  kind_of, big5_kind, shift_jis, legacy, Decoded, char, pair, ilseq, starved, outside, decode,
}
use android_vshell.Iconv.Encode.{Encoded, wrote, too_big, back, encode, encode_utf_16, put}
use android_vshell.Iconv.Plain.{IsPlain, decode_other-IsPlain}
use android_vshell.Iconv.TableBounds.{decode-inside}
use android_vshell.Iconv.FormSplit.{IsBytes, IsBytes-drop}
use android_vshell.Iconv.Forms.{
  Form, utf_32be, utf_32le, utf_16be, utf_16le, ucs_2be, ucs_2le, wide, type_of,
}
use android_vshell.Iconv.Convert.{
  Buffers, Libc, Descriptor, Outcome, Next, returned, undefined, emit, round, inner, convert,
  describe, iconv,
}

-- What is written in a form of Unicode.
abbrev IsWritten : Encoded → Type 0
IsWritten back = ⊥
IsWritten Encoded.outside = ⊥
IsWritten _ = Unit {0}

put-IsWritten : (bytes : List ℕ) (x room : ℕ) → IsWritten (put bytes x room)
unfolding put
put-IsWritten bytes x room = ground arith

encode_utf_16-IsWritten : (type totype c room : ℕ) → IsWritten (encode_utf_16 type totype c room)
unfolding encode_utf_16 put
encode_utf_16-IsWritten type totype c room = ground arith

encode-IsWritten :
    (wctomb : ℕ → Option (List ℕ)) (type : ℕ) (target : Form) (tomap : List ℕ) (c room : ℕ)
    → IsWritten (encode wctomb type (type_of target) tomap c room)
unfolding encode kind_of
encode-IsWritten wctomb type utf_32be tomap c room = put-IsWritten _ 0 room
encode-IsWritten wctomb type utf_32le tomap c room = put-IsWritten _ 0 room
encode-IsWritten wctomb type wide tomap c room = put-IsWritten _ 0 room
encode-IsWritten wctomb type utf_16be tomap c room = encode_utf_16-IsWritten type 194 c room
encode-IsWritten wctomb type utf_16le tomap c room = encode_utf_16-IsWritten type 193 c room
encode-IsWritten wctomb type ucs_2be tomap c room = encode_utf_16-IsWritten type 196 c room
encode-IsWritten wctomb type ucs_2le tomap c room = encode_utf_16-IsWritten type 197 c room

module _ (next : Next)
    (on : (st : ℕ) (b : Buffers) (x : ℕ) → IsBytes b.input → next st b x ≢ undefined) where
  emit_defined :
      (l st x : ℕ) (b : Buffers) (d : Encoded)
      → IsBytes b.input
      → IsWritten d
      → emit next l st b x d ≢ undefined
  unfolding emit
  emit_defined l st x b too_big small w h = ground (arith, h)
  emit_defined l st x b (wrote bytes y) small w h = on st _ _ (IsBytes-drop l b.input small) h
  emit_defined l st x b back small w h = absurd w
  emit_defined l st x b Encoded.outside small w h = absurd w

  round_defined :
      (libc : Libc) (cd : Descriptor) (inside : Buffers → Outcome) (st x : ℕ) (b : Buffers)
      (d : Decoded)
      → ((c : ℕ) → IsWritten (encode libc.wctomb cd.type cd.totype cd.tomap c b.room))
      → IsBytes b.input
      → IsPlain d
      → d ≢ outside
      → round libc cd inside next st b x d ≢ undefined
  unfolding round
  round_defined libc cd inside st x b ilseq w small p o h = ground (arith, h)
  round_defined libc cd inside st x b starved w small p o h = ground (arith, h)
  round_defined libc cd inside st x b outside w small p o h = o refl
  round_defined libc cd inside st x b (pair k) w small p o h = absurd p
  round_defined libc cd inside st x b (char l c st') w small p o h =
      emit_defined l st' x b _ small (w c) h

-- The descriptors that this is about.
record IsTame (cd : Descriptor) : Type 0 where
  not_shift_jis : kind_of cd.type ≢ shift_jis
  not_legacy : kind_of cd.type ≢ legacy
  not_big5 : kind_of cd.type ≢ big5_kind
  target : Form
  form : cd.totype ≡ type_of target

module _ (libc : Libc) (cd : Descriptor) (tame : IsTame cd) where
  written : (c room : ℕ) → IsWritten (encode libc.wctomb cd.type cd.totype cd.tomap c room)
  written c room = rw tame.form (encode-IsWritten libc.wctomb cd.type tame.target cd.tomap c room)

  body_defined :
      (inside : Buffers → Outcome) (next : Next) (st x : ℕ) (b : Buffers) (s : List ℕ)
      → ((st : ℕ) (b : Buffers) (x : ℕ) → IsBytes b.input → next st b x ≢ undefined)
      → IsBytes b.input
      → b.input ≡ s
      → elim s as (λ s. Outcome) [
        | [] ↦ returned b x
        | i ∷ is ↦ round libc cd inside next st b x (decode libc.mbrtowc cd.type cd.map (i ∷ is) st)
      ]
        ≢ undefined
  body_defined inside next st x b [] on small e h = ground (arith, h)
  body_defined inside next st x b (i ∷ is) on small e h =
      round_defined next on libc cd inside st x b _ (λ c. written c b.room) small
        (decode_other-IsPlain libc.mbrtowc cd.type cd.map (i ∷ is) st tame.not_big5)
        (decode-inside libc.mbrtowc cd.type cd.map (i ∷ is) st tame.not_shift_jis tame.not_legacy
          (subst IsBytes e small))
        h

  convert_defined :
      (fuel st : ℕ) (b : Buffers) (x : ℕ)
      → IsBytes b.input
      → convert fuel libc cd st b x ≢ undefined
  unfolding convert
  convert_defined zero st b x small h = ground (arith, h)
  convert_defined (suc fuel) st b x small h =
      body_defined (λ r. convert fuel libc (inner cd) 0 r 0) (convert fuel libc cd) st x b b.input
        (convert_defined fuel) small refl h

-- Where the source is neither SHIFT_JIS nor BIG5 nor an 8-bit charmap and the target is UTF-32, UTF-16,
-- UCS-2 or WCHAR_T, then for any bytes and any room `iconv` does not come to a read outside of a
-- table.
pub iconv_defined :
    (libc : Libc) (cd : ℕ) (target : Form) (input : List ℕ) (room : ℕ)
    → kind_of (describe (cd / 2 ^ 16) (cd % 2 ^ 16)).type ≢ shift_jis
    → kind_of (describe (cd / 2 ^ 16) (cd % 2 ^ 16)).type ≢ legacy
    → kind_of (describe (cd / 2 ^ 16) (cd % 2 ^ 16)).type ≢ big5_kind
    → (describe (cd / 2 ^ 16) (cd % 2 ^ 16)).totype ≡ type_of target
    → IsBytes input
    → iconv libc cd (some input) room ≢ undefined
unfolding iconv
iconv_defined libc cd target input room s l b f small =
    convert_defined libc (describe (cd / 2 ^ 16) (cd % 2 ^ 16))
      (record { not_shift_jis = s; not_legacy = l; not_big5 = b; target = target; form = f })
      (length input + 6) 0 _ 0 small
