-- ===== src/Iconv/Step.antt =====
-- One round of the loop of `iconv`, by what the two switches answer.
use android_vshell.Base.{
  ℕ, suc, ◌+◌, ◌-◌, ◌%◌, ◌≡◌, refl, arith, Option, some, List, [], ◌∷◌, ◌++◌, length, drop,
}
use android_vshell.Iconv.Decode.{Mbr, char, decode}
use android_vshell.Iconv.Encode.{wrote, too_big, encode}
use android_vshell.Iconv.Convert.{
  round, emit, Buffers, Errno, e2big, Libc, Descriptor, failed, returned, convert, size_mod,
}

decode_nothing :
    (mbrtowc : ℕ → List ℕ → Mbr) (type : ℕ) (map : List ℕ) (st : ℕ) {l c st' : ℕ}
    → ¬ (decode mbrtowc type map [] st ≡ char l c st')
unfolding decode
decode_nothing mbrtowc type map st h = ground (arith, h)

abbrev pub buffers : List ℕ → List ℕ → ℕ → Option Errno → Buffers
buffers s out room errno = record { input = s; out = out; room = room; errno = errno }

module _ (fuel : ℕ) (libc : Libc) (cd : Descriptor) (st room x : ℕ) (out : List ℕ)
    (errno : Option Errno) where
  pub convert_wrote :
      (s : List ℕ) {l c st' y : ℕ} {bytes : List ℕ}
      → decode libc.mbrtowc cd.type cd.map s st ≡ char l c st'
      → encode libc.wctomb cd.type cd.totype cd.tomap c room ≡ wrote bytes y
      → convert (suc fuel) libc cd st (buffers s out room errno) x
        ≡ convert fuel libc cd st'
            (buffers (drop l s) (out ++ bytes) (room - length bytes) errno)
            ((x + y) % size_mod)
  unfolding convert round emit
  convert_wrote [] h k = absurd (decode_nothing _ _ _ _ h)
  convert_wrote (i ∷ is) h k = rw (h, round, k)

  pub convert_full :
      (s : List ℕ) {l c st' : ℕ}
      → decode libc.mbrtowc cd.type cd.map s st ≡ char l c st'
      → encode libc.wctomb cd.type cd.totype cd.tomap c room ≡ too_big
      → convert (suc fuel) libc cd st (buffers s out room errno) x
        ≡ failed (record { input = s; out = out; room = room; errno = some e2big })
  unfolding convert round emit
  convert_full [] h k = absurd (decode_nothing _ _ _ _ h)
  convert_full (i ∷ is) h k = rw (h, round, k)

  pub convert_end :
      convert (suc fuel) libc cd st (buffers [] out room errno) x
      ≡ returned (buffers [] out room errno) x
  unfolding convert
  convert_end = refl
