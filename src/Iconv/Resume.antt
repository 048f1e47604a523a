-- ===== src/Iconv/Resume.antt =====
-- A conversion that a full output buffer cuts off can be taken up where it stopped.
use android_vshell.Base.{
  ℕ, zero, suc, ◌+◌, ◌-◌, ◌/◌, ◌%◌, ◌^◌, ◌<◌, ◌≤◌, ◌≡◌, ◌≢◌, refl, ap, subst⁻¹, ◌∙◌, arith, Option,
  none, some, some-injective, List, [], ◌∷◌, ◌++◌, length, length-drop, drop,
}
use android_vshell.Iconv.Decode.{Decoded, char, pair, ilseq, starved, outside, decode}
use android_vshell.Iconv.Encode.{Encoded, wrote, too_big, back}
use android_vshell.Iconv.More.{encode_more}
use android_vshell.Iconv.Bounds.{Fits, IsShort, encode-Fits}
use android_vshell.Iconv.Advance.{Advances, decode-Advances}
use android_vshell.Iconv.Plain.{IsPlain, decode_other-IsPlain}
use android_vshell.Iconv.Forget.{forget, IsStateless, convert-forget}
use android_vshell.Iconv.Convert.{
  Buffers, Errno, e2big, eilseq, einval, Libc, Descriptor, Outcome, returned, failed, undefined,
  Next, step_back, emit, round, convert, inner, describe, iconv, size_mod,
}

abbrev failure : Buffers → Outcome → Buffers
failure b (failed r) = r
failure b _ = b

failed-injective : {a b : Buffers} → failed a ≡ failed b → a ≡ b
failed-injective {a} h = ap (failure a) h

wrong_errno :
    (b : Buffers) (n : Errno) (r : Buffers)
    → failed (record b { errno = some n }) ≡ failed r
    → r.errno ≡ some e2big
    → n ≢ e2big
    → ⊥
wrong_errno b n r e f other =
    other (some-injective _ _ (ap (λ r. r.errno) (failed-injective e) ∙ f))

-- Where a conversion stopped, with more room.
abbrev pub more : ℕ → Buffers → Buffers
more m b = record b { room = b.room + m; errno = none }

module _ (libc : Libc) (cd : Descriptor) (m : ℕ) (short : IsShort libc.wctomb)
    (k : IsStateless cd) where
  -- The loop from there on.
  abbrev again : Buffers → Outcome
  again r = convert (length r.input + 1) libc cd 0 (more m r) 0

  -- If the first outcome is a full buffer, the second is what comes of going on from there.
  abbrev Resumes : Outcome → Outcome → Type 0
  Resumes o o' = (r : Buffers) → o ≡ failed r → r.errno ≡ some e2big → forget o' ≡ forget (again r)

  abbrev Below : Next → ℕ → Type 0
  Below next n =
      (st : ℕ) (b : Buffers) (x : ℕ)
      → st ≡ 0
      → length b.input < n
      → Resumes (next st b x) (next st (more m b) x)

  module _ (next : Next) (l st x : ℕ) (b : Buffers) (zero_state : st ≡ 0) (p : 1 ≤ l)
      (q : 1 ≤ length b.input) (below : Below next (length b.input)) where
    back-Resumes :
        (o : Option (List ℕ))
        → Resumes
            (elim o [
              | none ↦ undefined
              | some out ↦
                  next st (record b { input = drop l b.input; out = out; room = b.room + 1 }) x
            ])
            (elim o [
              | none ↦ undefined
              | some out ↦
                  next st
                    (record b {
                      input = drop l b.input;
                      out = out;
                      room = b.room + m + 1;
                      errno = none;
                    })
                    x
            ])
    back-Resumes none r e f = absurd (ground (arith, e))
    back-Resumes (some out) r e f =
        let same : b.room + m + 1 ≡ b.room + 1 + m = omega arith in
        ap
          (λ (n : ℕ).
            forget
              (next st (record b { input = drop l b.input; out = out; room = n; errno = none }) x))
          same
        ∙ below st _ x zero_state (omega (arith, length-drop l b.input)) r e f

    emit-Resumes :
        (e e' : Encoded)
        → Fits b.room e
        → (e ≢ too_big → e' ≡ e)
        → forget (emit next l st (more m b) x e') ≡ forget (again b)
        → Resumes (emit next l st b x e) (emit next l st (more m b) x e')
    unfolding emit
    emit-Resumes too_big e' fits same whole r e f =
        whole ∙ ap (λ b. forget (again b)) (failed-injective e)
    emit-Resumes Encoded.outside e' fits same whole r e f = absurd (ground (arith, e))
    emit-Resumes back e' fits same whole r e f =
        ap (λ e. forget (emit next l st (more m b) x e)) (same (λ h. absurd (ground (arith, h))))
        ∙ back-Resumes (step_back b.out) r e f
    emit-Resumes (wrote bytes y) e' fits same whole r e f =
        let n : b.room + m - length bytes ≡ b.room - length bytes + m = omega (arith, fits) in
        ap (λ e. forget (emit next l st (more m b) x e)) (same (λ h. absurd (ground (arith, h))))
        ∙ ap
            (λ (n : ℕ). forget (
              next st
                (record b { input = drop l b.input; out = b.out ++ bytes; room = n; errno = none })
                ((x + y) % size_mod)))
            n
        ∙ below st _ _ zero_state (omega (arith, length-drop l b.input)) r e f

  round-Resumes :
      (inside inside' : Buffers → Outcome) (next : Next) (x : ℕ) (b : Buffers) (d : Decoded)
      → 1 ≤ length b.input
      → Below next (length b.input)
      → Advances 0 d
      → IsPlain d
      → forget (round libc cd inside' next 0 (more m b) x d) ≡ forget (again b)
      → Resumes (round libc cd inside next 0 b x d) (round libc cd inside' next 0 (more m b) x d)
  unfolding round
  round-Resumes inside inside' next x b ilseq q below t plain whole r e f =
      absurd (wrong_errno b eilseq r e f (λ h. absurd (ground (arith, h))))
  round-Resumes inside inside' next x b starved q below t plain whole r e f =
      absurd (wrong_errno b einval r e f (λ h. absurd (ground (arith, h))))
  round-Resumes inside inside' next x b outside q below t plain whole r e f =
      absurd (ground (arith, e))
  round-Resumes inside inside' next x b (pair n) q below t plain whole r e f = absurd plain
  round-Resumes inside inside' next x b (char l c st) q below t plain whole r e f =
      emit-Resumes next l st x b t.1 t.0 q below _ _
        (encode-Fits libc.wctomb cd.type cd.totype cd.tomap c b.room short)
        (encode_more b.room m libc.wctomb cd.type cd.totype cd.tomap c) whole r e f

  body-Resumes :
      (inside inside' : Buffers → Outcome) (next : Next) (x : ℕ) (b : Buffers) (s : List ℕ)
      → b.input ≡ s
      → Below next (length b.input)
      → forget (elim s as (λ s. Outcome) [
        | [] ↦ returned (more m b) x
        | i ∷ is ↦
            round libc cd inside' next 0
              (more m b)
              x
              (decode libc.mbrtowc cd.type cd.map (i ∷ is) 0)
      ])
        ≡ forget (again b)
      → Resumes
          (elim s as (λ s. Outcome) [
            | [] ↦ returned b x
            | i ∷ is ↦
                round libc cd inside next 0 b x (decode libc.mbrtowc cd.type cd.map (i ∷ is) 0)
          ])
          (elim s as (λ s. Outcome) [
            | [] ↦ returned (more m b) x
            | i ∷ is ↦
                round libc cd inside' next 0
                  (more m b)
                  x
                  (decode libc.mbrtowc cd.type cd.map (i ∷ is) 0)
          ])
  body-Resumes inside inside' next x b [] g below whole r e f = absurd (ground (arith, e))
  body-Resumes inside inside' next x b (i ∷ is) g below whole r e f =
      round-Resumes inside inside' next x b _ (omega (arith, ap length g)) below
        (decode-Advances libc.mbrtowc cd.type cd.map (i ∷ is) 0 k.not_utf_8)
        (decode_other-IsPlain libc.mbrtowc cd.type cd.map (i ∷ is) 0 k.not_big5) whole r e f

  convert-Resumes :
      (fuel : ℕ) (b : Buffers) (x : ℕ)
      → length b.input < fuel
      → Resumes (convert fuel libc cd 0 b x) (convert fuel libc cd 0 (more m b) x)
  unfolding convert
  convert-Resumes zero b x h = absurd (omega arith)
  convert-Resumes (suc fuel) b x h =
      body-Resumes (λ r. convert fuel libc (inner cd) 0 r 0)
        (λ r. convert fuel libc (inner cd) 0 r 0) (convert fuel libc cd) x b b.input refl
        (λ st c y z l.
          subst⁻¹
            (λ st. Resumes (convert fuel libc cd st c y) (convert fuel libc cd st (more m c) y)) z
            (convert-Resumes fuel c y (omega (arith, l, h))))
        (convert-forget (suc fuel) (length b.input + 1) libc cd 0 (more m b) x 0 k h (omega arith))

-- Where wctomb writes four bytes at most and the source is neither UTF-8 nor BIG5: if `iconv` stops
-- because the output is full, then with `m` more bytes of room from the start it comes to the same
-- buffers, and the same end, as when it is called again where it stopped, with `m` more bytes of room.
-- (`forget` leaves out only the number that is returned, of which each call counts its share.)
pub iconv-resumed :
    (libc : Libc) (cd : ℕ) (input : List ℕ) (room m : ℕ) (r : Buffers)
    → IsShort libc.wctomb
    → IsStateless (describe (cd / 2 ^ 16) (cd % 2 ^ 16))
    → iconv libc cd (some input) room ≡ failed r
    → r.errno ≡ some e2big
    → forget (iconv libc cd (some input) (room + m))
      ≡ forget
          (convert (length r.input + 6) libc (describe (cd / 2 ^ 16) (cd % 2 ^ 16)) 0 (more m r) 0)
unfolding iconv
iconv-resumed libc cd input room m r short k e f =
    let d = describe (cd / 2 ^ 16) (cd % 2 ^ 16) in
    let b : Buffers = record { input = input; out = []; room = room; errno = none } in
    convert-Resumes libc d m short k (length input + 6) b 0 (omega arith) r e f
    ∙ convert-forget (length r.input + 1) (length r.input + 6) libc d 0 (more m r) 0 0 k
        (omega arith) (omega arith)
