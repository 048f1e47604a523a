-- ===== src/Iconv/More.antt =====
-- What is written for a character does not change with more room.
use android_vshell.Base.{ℕ, ◌+◌, ◌≡◌, ◌≢◌, arith, Option, List, [], ◌∷◌}
use android_vshell.Iconv.Units.{put_32, store_wchar}
use android_vshell.Iconv.Encode.{too_big, put, encode, encode_utf_8, encode_legacy, encode_utf_16}

module _ (room m : ℕ) where
  -- With more room the same is written, unless there was too little.
  put_more :
      (bytes : List ℕ) (y : ℕ)
      → put bytes y room ≢ too_big
      → put bytes y (room + m) ≡ put bytes y room
  unfolding put
  put_more bytes y h = ground (arith, h)

  encode_utf_8_more :
      (wctomb : ℕ → Option (List ℕ)) (c : ℕ)
      → encode_utf_8 wctomb c room ≢ too_big
      → encode_utf_8 wctomb c (room + m) ≡ encode_utf_8 wctomb c room
  unfolding encode_utf_8 put
  encode_utf_8_more wctomb c h = ground (arith, h)

  encode_legacy_more :
      (totype : ℕ) (tomap : List ℕ) (c : ℕ)
      → encode_legacy totype tomap c room ≢ too_big
      → encode_legacy totype tomap c (room + m) ≡ encode_legacy totype tomap c room
  unfolding encode_legacy put
  encode_legacy_more totype tomap c h = ground (arith, h)

  encode_utf_16_more :
      (type totype c : ℕ)
      → encode_utf_16 type totype c room ≢ too_big
      → encode_utf_16 type totype c (room + m) ≡ encode_utf_16 type totype c room
  unfolding encode_utf_16 put
  encode_utf_16_more type totype c h = ground (arith, h)

  pub encode_more :
      (wctomb : ℕ → Option (List ℕ)) (type totype : ℕ) (tomap : List ℕ) (c : ℕ)
      → encode wctomb type totype tomap c room ≢ too_big
      → encode wctomb type totype tomap c (room + m) ≡ encode wctomb type totype tomap c room
  unfolding encode
  encode_more wctomb type totype tomap c h = ground (
    arith,
    h,
    encode_utf_8_more wctomb c,
    encode_legacy_more totype tomap c,
    encode_utf_16_more type totype c,
    put_more (store_wchar c) 0,
    put_more (put_32 c totype) 0,
    put_more (b'*' ∷ []) 1,
  )
