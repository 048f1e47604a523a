-- ===== src/Multibyte/WholeRuns.antt =====
-- `mbsnrtowcs` on a text that both of its loops read, with an mbrtowc for UTF-8.
use android_vshell.Base.{
  ℕ, zero, suc, ◌+◌, ◌-◌, ◌<◌, ◌≡◌, refl, true, false, List, [], ◌∷◌, ◌++◌, length, All, arith,
  none, some, ltb, leb, ◌==◌, if◌then◌else◌,
}
use android_vshell.Multibyte.Step.{Memory}
use android_vshell.Multibyte.Utf8.{encode, encode_all, IsBytes, Holds}
use android_vshell.Multibyte.Arithmetic.{read_char}
use android_vshell.Multibyte.Encode.{read_char-encode}
use android_vshell.Multibyte.Mbsrtowcs.{null}
use android_vshell.Multibyte.Mbsnrtowcs.{
  Reader, done, character, terminator, invalid, incomplete, mbsnrtowcs,
}
use android_vshell.Multibyte.Text.{IsText, IsUtf8Reader, Stands}
use android_vshell.Multibyte.Whole.{mbsnrtowcs-whole}

-- A hundred letters and the null.
abbrev letters : Memory
letters a = if ltb a 100 then 0x61 else 0

abbrev many : ℕ → List ℕ
many zero = []
many (suc k) = 0x61 ∷ many k

letters-IsBytes : IsBytes letters
letters-IsBytes a = ground arith

many-IsText : (k : ℕ) → All IsText (many k)
many-IsText zero = tt
many-IsText (suc k) = (ground arith, many-IsText k)

letters-Holds : (k s : ℕ) → s + k ≡ 100 → Holds letters s (encode_all (many k) ++ (0 ∷ []))
unfolding encode_all encode
letters-Holds zero s e = (ground (arith, e), tt)
letters-Holds (suc k) s e = (ground (arith, e), letters-Holds k (s + 1) (omega (arith, e)))

-- An mbrtowc for UTF-8.
utf8_reader : Reader
utf8_reader mem s n st = if mem s == 0 then terminator 0 else elim (read_char mem s) [
  | none ↦ invalid 0
  | some r ↦ if leb r.1 (s + n) then character (r.1 - s) r.0 0 else incomplete 1
]

first-positive : (mem : Memory) (s c : ℕ) → 0 < c → Holds mem s (encode c) → (mem s == 0) ≡ false
unfolding encode
first-positive mem s c ok held = ground (arith, held)

utf8_reader-IsUtf8Reader : IsUtf8Reader utf8_reader
unfolding utf8_reader
utf8_reader-IsUtf8Reader = record {
  reads = λ mem s n c st fresh ok held le.
      let e = read_char-encode mem s c (ok.0, omega (arith, ok.1.0), ok.1.1) held in
      let null' = first-positive mem s c ok.0 held in
      let inside : leb (s + length (encode c)) (s + n) ≡ true = ground (arith, le) in
      let size : s + length (encode c) - s ≡ length (encode c) = omega arith in
      rw (null', e, inside, size) refl;
  ends = λ mem s n st fresh null one. rw null refl;
}

many-length : (k : ℕ) → length (encode_all (many k)) ≡ k
unfolding encode_all encode
many-length zero = refl
many-length (suc k) = omega (arith, many-length k)

many-Stands : Stands letters 0 140 120 (many 100)
many-Stands = record {
  ok = many-IsText 100;
  held = letters-Holds 100 0 refl;
  inside = omega (arith, many-length 100);
  room = ground arith;
}

mbsnrtowcs-whole_example :
    mbsnrtowcs utf8_reader letters true 0 140 120 (some 0)
    ≡ done (record {
      chars = many 100 ++ (0 ∷ []);
      result = some 100;
      source = null;
      state = some 0;
      eilseq = false;
    })
mbsnrtowcs-whole_example =
    mbsnrtowcs-whole utf8_reader letters 0 140 120 (many 100) (some 0) utf8_reader-IsUtf8Reader
      letters-IsBytes refl (omega arith) many-Stands
