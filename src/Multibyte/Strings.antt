-- ===== src/Multibyte/Strings.antt =====
-- `mbsrtowcs` on whole strings.
use android_vshell.Base.{ℕ, suc, ◌+◌, ◌-◌, ◌%◌, ◌<◌, ◌≡◌, ◌≢◌, refl, sym, ap, ◌∙◌, true, false}
use android_vshell.Base.{List, [], ◌∷◌, ◌++◌, Option, none, some, arith, All, length, length-append}
use mathlib.Core.List.{append-nil}
use android_vshell.Multibyte.Step.{Memory, Step, char, stop, next_char, decode}
use android_vshell.Multibyte.Mbsrtowcs.{
  full, broke, written, null, at, pending, mbsrtowcs, end_write, finish, size_mod,
}
use android_vshell.Multibyte.Utf8.{encode, encode_all, Holds, IsBytes}
use android_vshell.Multibyte.Arithmetic.{forget}
use android_vshell.Multibyte.Encode.{IsAccepted, next_char-encode}
use android_vshell.Multibyte.Loop.{scan, write_loop-scan}

pub Holds-append :
    (mem : Memory) (s : ℕ) (xs ys : List ℕ)
    → Holds mem s (xs ++ ys)
    → Holds mem s xs × Holds mem (s + length xs) ys
Holds-append mem s [] ys h = (tt, let e : s + 0 ≡ s = omega arith in rw e h)
Holds-append mem s (x ∷ xs) ys h =
    let (a, b) = Holds-append mem (s + 1) xs ys h.1 in
    let e : s + 1 + length xs ≡ s + suc (length xs) = omega arith in ((h.0, a), rw e at b)

forget_char : (r : Step) (c t : ℕ) → forget r ≡ some (c, t) → r ≡ char c t
forget_char (char a b) c t h = cc
forget_char (stop a b) c t h = cc

pub next_char_at :
    (mem : Memory) (s c : ℕ)
    → IsBytes mem
    → IsAccepted c
    → Holds mem s (encode c)
    → next_char mem s ≡ char c (s + length (encode c))
next_char_at mem s c small ok h =
    forget_char _ _ _ ((next_char-encode mem s c _ small).1 (ok, h, refl))

pub next_char_null : (mem : Memory) (s : ℕ) → mem s ≡ 0 → next_char mem s ≡ stop 0 s
unfolding next_char
next_char_null mem s h = rw h

pub next_char_stop : (mem : Memory) (s c t : ℕ) → next_char mem s ≡ stop c t → t ≡ s
unfolding next_char decode
next_char_stop mem s c t h = ground arith

-- No accepted character is encoded at the address, and no null byte stands there.
abbrev pub IsMalformed : Memory → ℕ → Type 0
IsMalformed mem s = (mem s ≢ 0) × ((c : ℕ) → IsAccepted c → ¬ (Holds mem s (encode c)))

next_char_malformed :
    (mem : Memory) (s : ℕ)
    → IsBytes mem
    → IsMalformed mem s
    → (c : ℕ) × (next_char mem s ≡ stop c s)
next_char_malformed mem s small bad = go (next_char mem s) refl
  where
    go : (r : Step) → next_char mem s ≡ r → (c : ℕ) × (next_char mem s ≡ stop c s)
    go (char c t) e =
        let found = (next_char-encode mem s c t small).0 (ap forget e) in
        absurd (bad.1 c found.0 found.1)
    go (stop c t) e = (c, e ∙ ap (stop c) (next_char_stop mem s c t e))

module _ (mem : Memory) (small : IsBytes mem) where
  scan_char :
      (wn s c t : ℕ)
      → next_char mem s ≡ char c t
      → scan mem (suc wn) s ≡ written (c ∷ []) (scan mem wn t)
  unfolding scan
  scan_char wn s c t h = rw (h, scan)

  -- A scan passes a prefix of encoded characters.
  scan-append :
      (cs : List ℕ) (wn s : ℕ)
      → All IsAccepted cs
      → Holds mem s (encode_all cs)
      → scan mem (length cs + wn) s ≡ written cs (scan mem wn (s + length (encode_all cs)))
  unfolding encode_all
  scan-append [] wn s ok held =
      let e : s + 0 ≡ s = omega arith in let f : 0 + wn ≡ wn = omega arith in rw (e, f)
  scan-append (c ∷ cs) wn s ok held =
      let (here, later) = Holds-append mem s (encode c) (encode_all cs) held in
      let e : suc (length cs) + wn ≡ suc (length cs + wn) = omega arith in
      let d : s + length (encode c ++ encode_all cs)
          ≡ s + length (encode c) + length (encode_all cs) =
        omega (arith, length-append (encode c) (encode_all cs)) in
      rw (e, d)
        (scan_char (length cs + wn) s c _ (next_char_at mem s c small ok.0 here)
          ∙ ap (written (c ∷ [])) (scan-append cs wn (s + length (encode c)) ok.1 later))

  scan_stop :
      (wn s c : ℕ) → next_char mem s ≡ stop c s → scan mem (suc wn) s ≡ ([], broke (suc wn) c s)
  unfolding scan
  scan_stop wn s c h = rw (h, scan)

  -- The string ends before `wn` is used up.
  scan_ends :
      (cs : List ℕ) (wn s c : ℕ)
      → All IsAccepted cs
      → Holds mem s (encode_all cs)
      → length cs < wn
      → next_char mem (s + length (encode_all cs)) ≡ stop c (s + length (encode_all cs))
      → scan mem wn s ≡ (cs, broke (wn - length cs) c (s + length (encode_all cs)))
  scan_ends cs wn s c ok held room stopped =
      let e : wn ≡ length cs + suc (wn - length cs - 1) = omega arith in
      let d : suc (wn - length cs - 1) ≡ wn - length cs = omega arith in
      ap (λ (w : ℕ). scan mem w s) e
      ∙ scan-append cs (suc (wn - length cs - 1)) s ok held
      ∙ ap (written cs) (scan_stop (wn - length cs - 1) (s + length (encode_all cs)) c stopped)
      ∙ rw (append-nil, d)

  module _ (fuel wn s : ℕ) (cs : List ℕ) (st : Option ℕ) (fresh : pending st ≡ 0) where
    write_ends :
        (c : ℕ)
        → All IsAccepted cs
        → Holds mem s (encode_all cs)
        → length cs < wn
        → wn < size_mod
        → next_char mem (s + length (encode_all cs)) ≡ stop c (s + length (encode_all cs))
        → mbsrtowcs fuel mem true s wn st
          ≡ some (finish mem true cs (length cs) c (s + length (encode_all cs)) st)
    unfolding mbsrtowcs end_write
    write_ends c ok held room wide stopped =
        let n : (wn + size_mod - (wn - length cs)) % size_mod ≡ length cs = omega arith in
        rw (
          fresh,
          write_loop-scan (suc wn) mem wn s small (omega arith),
          scan_ends cs wn s c ok held room stopped,
          n,
        )

    -- In a memory of bytes, with no pending state and `wn` below 2 ^ 64: a string of accepted characters
    -- that ends in a null byte, with room for it and for the null, is written with a null behind it,
    -- `*src` becomes null, and the number of its characters is returned.
    pub mbsrtowcs-whole :
        All IsAccepted cs
        → Holds mem s (encode_all cs ++ (0 ∷ []))
        → length cs < wn
        → wn < size_mod
        → mbsrtowcs fuel mem true s wn st
          ≡ some (record {
            chars = cs ++ (0 ∷ []);
            result = some (length cs);
            source = null;
            state = st;
            eilseq = false;
          })
    mbsrtowcs-whole ok held room wide =
        let (front, back) = Holds-append mem s (encode_all cs) (0 ∷ []) held in
        write_ends 0 ok front room wide (next_char_null mem _ back.0) ∙ unfold finish in rw back.0

    -- In a memory of bytes, with no pending state: a string whose first characters are accepted and fill
    -- the `wn` places is written up to them with no null, `*src` moves behind them, and `wn` is returned.
    pub mbsrtowcs_full :
        All IsAccepted cs
        → Holds mem s (encode_all cs)
        → length cs ≡ wn
        → mbsrtowcs fuel mem true s wn st
          ≡ some (record {
            chars = cs;
            result = some wn;
            source = at (s + length (encode_all cs));
            state = st;
            eilseq = false;
          })
    unfolding mbsrtowcs end_write scan
    mbsrtowcs_full ok held e =
        let zero_left : length cs + 0 ≡ wn = omega (arith, e) in
        let scanned : scan mem wn s ≡ (cs, full (s + length (encode_all cs))) =
          ap (λ (w : ℕ). scan mem w s) (sym zero_left)
          ∙ scan-append cs 0 s ok held
          ∙ rw append-nil in
        rw (fresh, write_loop-scan (suc wn) mem wn s small (omega arith), scanned)

    -- In a memory of bytes, with no pending state and `wn` below 2 ^ 64: where malformed bytes follow fewer
    -- than `wn` accepted characters, the result is (size_t)-1 with EILSEQ, those characters are written,
    -- and `*src` is at the malformed bytes.
    pub mbsrtowcs-malformed :
        All IsAccepted cs
        → Holds mem s (encode_all cs)
        → length cs < wn
        → wn < size_mod
        → IsMalformed mem (s + length (encode_all cs))
        → mbsrtowcs fuel mem true s wn st
          ≡ some (record {
            chars = cs;
            result = none;
            source = at (s + length (encode_all cs));
            state = st;
            eilseq = true;
          })
    mbsrtowcs-malformed ok held room wide bad =
        let (c, stopped) = next_char_malformed mem _ small bad in
        write_ends c ok held room wide stopped ∙ unfold finish in ground (arith, bad.0)
