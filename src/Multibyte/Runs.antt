-- ===== src/Multibyte/Runs.antt =====
-- Runs of the decoder, and its theorems at concrete inputs.
use android_vshell.Base.{
  ℕ, zero, suc, ◌+◌, ◌<◌, ◌≡◌, ◌↔◌, refl, false, List, [], ◌∷◌, length, get_or, All, arith, none,
  some, true,
}
use android_vshell.Multibyte.Step.{Memory, next_char}
use android_vshell.Multibyte.Utf8.{encode, encode_all, IsBytes, Holds}
use android_vshell.Multibyte.Arithmetic.{forget}
use android_vshell.Multibyte.Encode.{next_char-encode, IsAccepted}
use android_vshell.Multibyte.Mbsrtowcs.{mbsrtowcs, write_loop, null, at}
use android_vshell.Multibyte.Loop.{scan, write_loop-scan}
use android_vshell.Base.{◌⊎◌}
use android_vshell.Multibyte.Mbsrtowcs.{Outcome}
use android_vshell.Multibyte.Measure.{measured, mbsrtowcs-measured}
use android_vshell.Multibyte.Table.{lead_state}
use android_vshell.Multibyte.Resumed.{mbsrtowcs-resumed}
use android_vshell.Multibyte.Strings.{mbsrtowcs-whole, mbsrtowcs_full, mbsrtowcs-malformed}

-- Memory with these bytes at its start, and zeros.
abbrev memory : List ℕ → Memory
memory bytes a = get_or bytes a 0

memory-IsBytes : (bytes : List ℕ) → All (λ b. b < 256) bytes → IsBytes (memory bytes)
memory-IsBytes [] small a = omega arith
memory-IsBytes (b ∷ bs) small zero = small.0
memory-IsBytes (b ∷ bs) small (suc a) = memory-IsBytes bs small.1 a

-- "aé€😀", and the null.
abbrev greeting : List ℕ
greeting = 0x61 ∷ 0xc3 ∷ 0xa9 ∷ 0xe2 ∷ 0x82 ∷ 0xac ∷ 0xf0 ∷ 0x9f ∷ 0x98 ∷ 0x80 ∷ 0 ∷ []

-- "ab", then a byte of no character.
abbrev broken : List ℕ
broken = 0x61 ∷ 0x62 ∷ 0xff ∷ []

greeting-IsBytes : IsBytes (memory greeting)
greeting-IsBytes = memory-IsBytes greeting (ground arith)

next_char-encode_example : (forget (next_char (memory greeting) 3) ≡ some (0x20ac, 6)) ↔ (
    IsAccepted 0x20ac
    × Holds (memory greeting) 3 (encode 0x20ac)
    × (6 ≡ 3 + length (encode 0x20ac)))
next_char-encode_example = next_char-encode (memory greeting) 3 0x20ac 6 greeting-IsBytes

write_loop-scan_example : write_loop 9 (memory greeting) 8 0 ≡ scan (memory greeting) 8 0
write_loop-scan_example = write_loop-scan 9 (memory greeting) 8 0 greeting-IsBytes (omega arith)

mbsrtowcs-whole_example :
    mbsrtowcs 0 (memory greeting) true 0 8 none
    ≡ some (record {
      chars = 0x61 ∷ 0xe9 ∷ 0x20ac ∷ 0x1f600 ∷ 0 ∷ [];
      result = some 4;
      source = null;
      state = none;
      eilseq = false;
    })
unfolding encode_all encode
mbsrtowcs-whole_example =
    mbsrtowcs-whole (memory greeting) greeting-IsBytes 0 8 0 (0x61 ∷ 0xe9 ∷ 0x20ac ∷ 0x1f600 ∷ [])
      none refl (ground arith) (ground arith) (omega arith) (omega arith)

mbsrtowcs_full_example :
    mbsrtowcs 0 (memory greeting) true 0 3 (some 0)
    ≡ some (record {
      chars = 0x61 ∷ 0xe9 ∷ 0x20ac ∷ [];
      result = some 3;
      source = at 6;
      state = some 0;
      eilseq = false;
    })
unfolding encode_all encode
mbsrtowcs_full_example =
    mbsrtowcs_full (memory greeting) greeting-IsBytes 0 3 0 (0x61 ∷ 0xe9 ∷ 0x20ac ∷ []) (some 0)
      refl (ground arith) (ground arith) refl

mbsrtowcs-measured_example :
    (o : Outcome) × (mbsrtowcs 0 (memory greeting) true 0 8 (some 0) ≡ some o)
    × ((o.result ≡ some 8)
        ⊎ (mbsrtowcs 8 (memory greeting) false 0 0 (some 0) ≡ some (measured o (some 0))))
mbsrtowcs-measured_example =
    mbsrtowcs-measured 0 8 (memory greeting) 0 8 0 (some 0) greeting-IsBytes refl (omega arith)
      (omega arith)

-- The second byte of the second character, with the state behind its first.
mbsrtowcs-resumed_example :
    mbsrtowcs 0 (memory greeting) true 2 8 (some (lead_state 0xc3))
    ≡ mbsrtowcs 0 (memory greeting) true 1 8 (some 0)
mbsrtowcs-resumed_example =
    mbsrtowcs-resumed 0 0 (memory greeting) 1 8 greeting-IsBytes (omega arith) (omega arith)
      (omega arith) (omega arith)

broken-IsBytes : IsBytes (memory broken)
broken-IsBytes = memory-IsBytes broken (ground arith)

-- No encoding starts with ff.
no_encoding : (c : ℕ) → IsAccepted c → ¬ (Holds (memory broken) 2 (encode c))
unfolding encode
no_encoding c ok held = ground (arith, held)

mbsrtowcs-malformed_example :
    mbsrtowcs 0 (memory broken) true 0 8 none
    ≡ some (record {
      chars = 0x61 ∷ 0x62 ∷ [];
      result = none;
      source = at 2;
      state = none;
      eilseq = true;
    })
unfolding encode_all encode
mbsrtowcs-malformed_example =
    mbsrtowcs-malformed (memory broken) broken-IsBytes 0 8 0 (0x61 ∷ 0x62 ∷ []) none refl
      (ground arith) (ground arith) (omega arith) (omega arith) (ground arith, no_encoding)
