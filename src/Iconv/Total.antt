-- ===== src/Iconv/Total.antt =====
-- The loop of `iconv` ends, on any input and for any descriptor.
use android_vshell.Base.{
  ℕ, zero, suc, ◌+◌, ◌/◌, ◌%◌, ◌^◌, ◌<◌, ◌≤◌, ◌≡◌, ◌≢◌, refl, ap, arith, true, false, none, some,
  List, [], ◌∷◌, ◌⊎◌, length, length-drop, length-take-le, drop, ltb, inl, inr,
}
use android_vshell.Iconv.Decode.{
  kind_of, big5_kind, legacy, Decoded, char, pair, ilseq, starved, outside, decode,
}
use android_vshell.Iconv.Encode.{Encoded, wrote, too_big, back}
use android_vshell.Iconv.Plain.{IsPlain, decode_other-IsPlain}
use android_vshell.Iconv.Advance.{IsReader, Takes, decode-Takes}
use android_vshell.Iconv.Names.{charmaps}
use android_vshell.Iconv.Charmap.{layout, charmap_bytes, c_strings}
use android_vshell.Iconv.Special.{special_charmaps}
use android_vshell.Iconv.Convert.{
  e2big, Buffers, Libc, Descriptor, Outcome, returned, failed, undefined, out_of_fuel, Next,
  step_back, pair_room, pair_bytes, emit, expand, round, convert, inner, iconv, describe,
}

-- The fuel was enough.
abbrev Ends : Outcome → Type 0
Ends out_of_fuel = ⊥
Ends _ = Unit {0}

pair_bytes_short : (k : ℕ) → length (pair_bytes k) ≤ 4
unfolding pair_bytes
pair_bytes_short k = length-take-le 4 (drop k _)

module _ (next : Next) where
  -- The loop ends on every shorter input.
  abbrev EndsBelow : ℕ → Type 0
  EndsBelow n = (st : ℕ) (b : Buffers) (x : ℕ) → length b.input < n → Ends (next st b x)

  emit-Ends :
      (l st x : ℕ) (b : Buffers) (e : Encoded)
      → 1 ≤ l
      → 1 ≤ length b.input
      → EndsBelow (length b.input)
      → Ends (emit next l st b x e)
  unfolding emit
  emit-Ends l st x b too_big p q below = tt
  emit-Ends l st x b Encoded.outside p q below = tt
  emit-Ends l st x b back p q below =
      elim (step_back b.out)
        as (λ o. Ends (elim o [
          | none ↦ undefined
          | some out ↦ next st (record b { input = drop l b.input; out = out; room = b.room + 1 }) x
        ])) [ none ↦ tt | some out ↦ below st _ x (omega (arith, length-drop l b.input)) ]
  emit-Ends l st x b (wrote bytes y) p q below = below st _ _ (omega (arith, length-drop l b.input))

  expand-Ends :
      (st x : ℕ) (s : List ℕ) (o : Outcome)
      → 1 ≤ length s
      → EndsBelow (length s)
      → Ends o
      → Ends (expand next st s x o)
  unfolding expand
  expand-Ends st x s (returned r y) q below h = below st _ _ (omega (arith, length-drop 2 s))
  expand-Ends st x s (failed r) q below h = below st _ _ (omega (arith, length-drop 2 s))
  expand-Ends st x s undefined q below h = tt
  expand-Ends st x s out_of_fuel q below h = h

  round-Ends :
      (libc : Libc) (cd : Descriptor) (inside : Buffers → Outcome) (st x : ℕ) (b : Buffers)
      (d : Decoded)
      → 1 ≤ length b.input
      → EndsBelow (length b.input)
      → Takes d
      → (IsPlain d ⊎ ((c : Buffers) → length c.input ≤ 4 → Ends (inside c)))
      → Ends (round libc cd inside next st b x d)
  unfolding round
  round-Ends libc cd inside st x b ilseq q below t deep = tt
  round-Ends libc cd inside st x b starved q below t deep = tt
  round-Ends libc cd inside st x b outside q below t deep = tt
  round-Ends libc cd inside st x b (char l c st') q below t deep = emit-Ends l st' x b _ t q below
  round-Ends libc cd inside st x b (pair k) q below t (inl plain) = absurd plain
  round-Ends libc cd inside st x b (pair k) q below t (inr deep) =
      elim (ltb b.room (pair_room cd.totype))
        as (λ t. Ends (elim t as (λ t. Outcome) [
          | true ↦ failed (record b { errno = some e2big })
          | false ↦ expand next st b.input x (inside (record b { input = pair_bytes k }))
        ])) [
          | true ↦ tt
          | false ↦ expand-Ends st x b.input (inside _) q below (deep _ (pair_bytes_short k))
        ]

inner-legacy : (cd : Descriptor) → kind_of (inner cd).type ≡ legacy
unfolding inner charmaps layout charmap_bytes c_strings special_charmaps kind_of
inner-legacy cd = refl

legacy-not_big5 : (cd : Descriptor) → kind_of cd.type ≡ legacy → kind_of cd.type ≢ big5_kind
legacy-not_big5 cd k h = absurd (ground (arith, k, h))

module _ (libc : Libc) (reader : IsReader libc.mbrtowc) where
  body-Ends :
      (cd : Descriptor) (inside : Buffers → Outcome) (next : Next) (st : ℕ) (b : Buffers) (x : ℕ)
      (s : List ℕ)
      → b.input ≡ s
      → EndsBelow next (length b.input)
      → ((r : List ℕ)
          → IsPlain (decode libc.mbrtowc cd.type cd.map r st)
            ⊎ ((c : Buffers) → length c.input ≤ 4 → Ends (inside c)))
      → Ends (elim s as (λ s. Outcome) [
        | [] ↦ returned b x
        | i ∷ is ↦ round libc cd inside next st b x (decode libc.mbrtowc cd.type cd.map (i ∷ is) st)
      ])
  body-Ends cd inside next st b x [] e below deep = tt
  body-Ends cd inside next st b x (i ∷ is) e below deep =
      round-Ends next libc cd inside st x b _ (omega (arith, ap length e)) below
        (decode-Takes libc.mbrtowc cd.type cd.map (i ∷ is) st reader) (deep (i ∷ is))

  convert_plain-Ends :
      (fuel : ℕ) (cd : Descriptor) (st : ℕ) (b : Buffers) (x : ℕ)
      → kind_of cd.type ≡ legacy
      → length b.input < fuel
      → Ends (convert fuel libc cd st b x)
  unfolding convert
  convert_plain-Ends zero cd st b x k h = absurd (omega arith)
  convert_plain-Ends (suc fuel) cd st b x k h =
      body-Ends cd _ (convert fuel libc cd) st b x b.input refl
        (λ st c y l. convert_plain-Ends fuel cd st c y k (omega (arith, l, h)))
        (λ r. inl (decode_other-IsPlain libc.mbrtowc cd.type cd.map r st (legacy-not_big5 cd k)))

  convert-Ends :
      (fuel : ℕ) (cd : Descriptor) (st : ℕ) (b : Buffers) (x : ℕ)
      → length b.input + 5 < fuel
      → Ends (convert fuel libc cd st b x)
  unfolding convert
  convert-Ends zero cd st b x h = absurd (omega arith)
  convert-Ends (suc fuel) cd st b x h =
      body-Ends cd (λ r. convert fuel libc (inner cd) 0 r 0) (convert fuel libc cd) st b x b.input
        refl (λ st c y l. convert-Ends fuel cd st c y (omega (arith, l, h)))
        (λ r. inr (λ c short.
          convert_plain-Ends fuel (inner cd) 0 c 0 (inner-legacy cd) (omega (arith, short, h))))

not-out_of_fuel : (o : Outcome) → Ends o → o ≢ out_of_fuel
not-out_of_fuel out_of_fuel h e = h
not-out_of_fuel (returned b x) h e = ground (arith, e)
not-out_of_fuel (failed b) h e = ground (arith, e)
not-out_of_fuel undefined h e = ground (arith, e)

-- Where a character that mbrtowc reads takes a byte at least and no more than there are, the loop of
-- `iconv` ends on any descriptor and input, the call inside it included: it never runs out of fuel.
pub iconv_total :
    (libc : Libc) (cd : ℕ) (input : List ℕ) (room : ℕ)
    → IsReader libc.mbrtowc
    → iconv libc cd (some input) room ≢ out_of_fuel
unfolding iconv
iconv_total libc cd input room reader = not-out_of_fuel _ (
    convert-Ends libc reader (length input + 6) (describe (cd / 2 ^ 16) (cd % 2 ^ 16)) 0 _ 0
      (omega arith))
