-- ===== src/Iconv/Forget.antt =====
-- How the loop of `iconv` goes on does not depend on its fuel, once that is enough, nor on `x`.
use android_vshell.Base.{
  ℕ, zero, suc, ◌+◌, ◌<◌, ◌≤◌, ◌≡◌, ◌≢◌, refl, ap, arith, none, some, List, [], ◌∷◌, length,
  length-drop, drop,
}
use android_vshell.Iconv.Decode.{
  kind_of, utf_8, big5_kind, Decoded, char, pair, ilseq, starved, outside, decode,
}
use android_vshell.Iconv.Encode.{Encoded, wrote, too_big, back}
use android_vshell.Iconv.Advance.{Advances, decode-Advances}
use android_vshell.Iconv.Plain.{IsPlain, decode_other-IsPlain}
use android_vshell.Iconv.Convert.{
  Buffers, Libc, Descriptor, Outcome, returned, failed, undefined, out_of_fuel, Next, step_back,
  emit, round, convert,
}

-- An outcome without `x`.
abbrev pub forget : Outcome → Outcome
forget (returned b x) = returned b 0
forget (failed b) = failed b
forget undefined = undefined
forget out_of_fuel = out_of_fuel

-- The encodings whose characters are read one by one and without a state.
pub record IsStateless (cd : Descriptor) : Type 0 where
  pub not_utf_8 : kind_of cd.type ≢ utf_8
  pub not_big5 : kind_of cd.type ≢ big5_kind

module _ (next next' : Next) where
  abbrev Agree : ℕ → Type 0
  Agree n =
      (st : ℕ) (b : Buffers) (x x' : ℕ)
      → length b.input < n
      → forget (next st b x) ≡ forget (next' st b x')

  emit-forget :
      (l st x x' : ℕ) (b : Buffers) (e : Encoded)
      → 1 ≤ l
      → 1 ≤ length b.input
      → Agree (length b.input)
      → forget (emit next l st b x e) ≡ forget (emit next' l st b x' e)
  unfolding emit
  emit-forget l st x x' b too_big p q same = refl
  emit-forget l st x x' b Encoded.outside p q same = refl
  emit-forget l st x x' b back p q same =
      elim (step_back b.out)
        as (λ o.
          forget (elim o [
            | none ↦ undefined
            | some out ↦
                next st (record b { input = drop l b.input; out = out; room = b.room + 1 }) x
          ])
          ≡ forget (elim o [
            | none ↦ undefined
            | some out ↦
                next' st (record b { input = drop l b.input; out = out; room = b.room + 1 }) x'
          ])) [ none ↦ refl | some out ↦ same st _ x x' (omega (arith, length-drop l b.input)) ]
  emit-forget l st x x' b (wrote bytes y) p q same =
      same st _ _ _ (omega (arith, length-drop l b.input))

  round-forget :
      (libc : Libc) (cd : Descriptor) (inside inside' : Buffers → Outcome) (st x x' : ℕ)
      (b : Buffers) (d : Decoded)
      → 1 ≤ length b.input
      → Agree (length b.input)
      → Advances st d
      → IsPlain d
      → forget (round libc cd inside next st b x d) ≡ forget (round libc cd inside' next' st b x' d)
  unfolding round
  round-forget libc cd inside inside' st x x' b ilseq q same t plain = refl
  round-forget libc cd inside inside' st x x' b starved q same t plain = refl
  round-forget libc cd inside inside' st x x' b outside q same t plain = refl
  round-forget libc cd inside inside' st x x' b (char l c st') q same t plain =
      emit-forget l st' x x' b _ t.0 q same
  round-forget libc cd inside inside' st x x' b (pair k) q same t plain = absurd plain

body-forget :
    (libc : Libc) (cd : Descriptor) (inside inside' : Buffers → Outcome) (next next' : Next)
    (st x x' : ℕ) (b : Buffers) (s : List ℕ)
    → IsStateless cd
    → b.input ≡ s
    → Agree next next' (length b.input)
    → forget (elim s as (λ s. Outcome) [
      | [] ↦ returned b x
      | i ∷ is ↦ round libc cd inside next st b x (decode libc.mbrtowc cd.type cd.map (i ∷ is) st)
    ])
      ≡ forget (elim s as (λ s. Outcome) [
        | [] ↦ returned b x'
        | i ∷ is ↦
            round libc cd inside' next' st b x' (decode libc.mbrtowc cd.type cd.map (i ∷ is) st)
      ])
body-forget libc cd inside inside' next next' st x x' b [] k e same = refl
body-forget libc cd inside inside' next next' st x x' b (i ∷ is) k e same =
    round-forget next next' libc cd inside inside' st x x' b _ (omega (arith, ap length e)) same
      (decode-Advances libc.mbrtowc cd.type cd.map (i ∷ is) st k.not_utf_8)
      (decode_other-IsPlain libc.mbrtowc cd.type cd.map (i ∷ is) st k.not_big5)

pub convert-forget :
    (fuel fuel' : ℕ) (libc : Libc) (cd : Descriptor) (st : ℕ) (b : Buffers) (x x' : ℕ)
    → IsStateless cd
    → length b.input < fuel
    → length b.input < fuel'
    → forget (convert fuel libc cd st b x) ≡ forget (convert fuel' libc cd st b x')
unfolding convert
convert-forget zero fuel' libc cd st b x x' k h h' = absurd (omega arith)
convert-forget (suc fuel) zero libc cd st b x x' k h h' = absurd (omega arith)
convert-forget (suc fuel) (suc fuel') libc cd st b x x' k h h' =
    body-forget libc cd _ _ (convert fuel libc cd) (convert fuel' libc cd) st x x' b b.input k refl
      (λ st c y y' l.
        convert-forget fuel fuel' libc cd st c y y' k (omega (arith, l, h)) (omega (arith, l, h')))
