-- ===== src/Iconv/Bounds.antt =====
-- What `iconv` writes for a character fits the room that is left.
use android_vshell.Base.{
  ℕ, ◌+◌, ◌%◌, ◌^◌, ◌≤◌, ◌≡◌, refl, arith, Bool, true, false, ◌||◌, Option, none, some, List, [],
  ◌∷◌, length, ltb, if◌then◌else◌,
}
use android_vshell.Iconv.Decode.{wchar_t, utf_8, us_ascii, utf_16, utf_32, is_ucs2, kind_of}
use android_vshell.Iconv.Charmap.{sub32}
use android_vshell.Iconv.Encode.{
  Encoded, wrote, too_big, back, put, encode, encode_utf_8, encode_legacy, encode_utf_16,
  find_legacy,
}
use android_vshell.Iconv.Units.{store_wchar, put_32}

-- Bytes that are written fit.
abbrev pub Fits : ℕ → Encoded → Type 0
Fits room (wrote bytes y) = length bytes ≤ room
Fits room _ = Unit {0}

-- MB_CUR_MAX is 4.
abbrev pub IsShort : (ℕ → Option (List ℕ)) → Type 0
IsShort wctomb = (c : ℕ) (bytes : List ℕ) → wctomb c ≡ some bytes → length bytes ≤ 4

if_Fits :
    (room : ℕ) (b : Bool) (x y : Encoded)
    → (b ≡ true → Fits room x)
    → (b ≡ false → Fits room y)
    → Fits room (if b then x else y)
if_Fits room true x y h k = h refl
if_Fits room false x y h k = k refl

put-Fits : (bytes : List ℕ) (y room : ℕ) → Fits room (put bytes y room)
unfolding put
put-Fits bytes y room =
    if_Fits room (ltb room (length bytes)) _ _ (λ more. tt) (λ fits. ground (arith, fits))

utf_8_bytes-Fits :
    (room : ℕ) (o : Option (List ℕ))
    → ((bytes : List ℕ) → o ≡ some bytes → length bytes ≤ 4)
    → Fits room (elim o [
      | none ↦ if ltb room 4 then too_big else back
      | some bytes ↦ if ltb room 4 then put bytes 0 room else wrote bytes 0
    ])
utf_8_bytes-Fits room none short = if_Fits room (ltb room 4) _ _ (λ few. tt) (λ many. tt)
utf_8_bytes-Fits room (some bytes) short =
    if_Fits room (ltb room 4) _ _ (λ few. put-Fits bytes 0 room)
      (λ many. ground (arith, many, short bytes refl))

encode_utf_8-Fits :
    (wctomb : ℕ → Option (List ℕ)) (c room : ℕ)
    → IsShort wctomb
    → Fits room (encode_utf_8 wctomb c room)
unfolding encode_utf_8
encode_utf_8-Fits wctomb c room short = utf_8_bytes-Fits room (wctomb c) (short c)

found-Fits :
    (room : ℕ) (found : Option (Option ℕ))
    → 1 ≤ room
    → Fits room (elim found [
      | none ↦ Encoded.outside
      | some none ↦ put (b'*' ∷ []) 1 room
      | some (some k) ↦ wrote ((k + 128) % 2 ^ 8 ∷ []) 0
    ])
found-Fits room none h = tt
found-Fits room (some none) h = put-Fits _ 1 room
found-Fits room (some (some k)) h = h

encode_legacy-Fits :
    (totype : ℕ) (tomap : List ℕ) (c room : ℕ) → Fits room (encode_legacy totype tomap c room)
unfolding encode_legacy
encode_legacy-Fits totype tomap c room =
    if_Fits room (ltb room 1) _ _ (λ none_left. tt)
      λ left.
        if_Fits room (ltb c (128 + totype)) _ _ (λ direct. ground (arith, left))
          λ search.
            found-Fits room (find_legacy tomap c (sub32 128 totype) 0) (ground (arith, left))

encode_utf_16-Fits : (type totype c room : ℕ) → Fits room (encode_utf_16 type totype c room)
unfolding encode_utf_16
encode_utf_16-Fits type totype c room =
    if_Fits room (ltb c 0x10000 || is_ucs2 type) _ _ (λ one. put-Fits _ 0 room)
      (λ two. put-Fits _ 0 room)

-- Whatever the target, what is written fits the room.
pub encode-Fits :
    (wctomb : ℕ → Option (List ℕ)) (type totype : ℕ) (tomap : List ℕ) (c room : ℕ)
    → IsShort wctomb
    → Fits room (encode wctomb type totype tomap c room)
unfolding encode
encode-Fits wctomb type totype tomap c room short =
    elim (kind_of totype)
      as (λ k. Fits room (elim k as (λ k. Encoded) [
        | wchar_t ↦ put (store_wchar c) 0 room
        | utf_8 ↦ encode_utf_8 wctomb c room
        | us_ascii ↦
            if ltb 0x7f c then put (b'*' ∷ []) 1 room else encode_legacy totype tomap c room
        | utf_16 ↦ encode_utf_16 type totype c room
        | utf_32 ↦ put (put_32 c totype) 0 room
        | _ ↦ encode_legacy totype tomap c room
      ])) [
        | wchar_t ↦ put-Fits _ 0 room
        | utf_8 ↦ encode_utf_8-Fits wctomb c room short
        | us_ascii ↦
            if_Fits room (ltb 0x7f c) _ _ (λ beyond. put-Fits _ 1 room)
              (λ ascii. encode_legacy-Fits totype tomap c room)
        | utf_16 ↦ encode_utf_16-Fits type totype c room
        | utf_32 ↦ put-Fits _ 0 room
        | _ ↦ encode_legacy-Fits totype tomap c room
      ]
