-- ===== src/Iconv/Kept.antt =====
-- `iconv` keeps to its buffers: no byte of the output or its room is lost, and the input is used from
-- its start.
use android_vshell.Base.{
  ℕ, zero, suc, ◌+◌, ◌-◌, ◌/◌, ◌%◌, ◌^◌, ◌≡◌, refl, sym, ap, ◌∙◌, arith, true, false, Option, none,
  some, some-injective, List, [], ◌∷◌, ◌++◌, length, length-append, take, drop, ltb,
}
use android_vshell.Iconv.Decode.{Decoded, char, pair, ilseq, starved, outside, decode}
use android_vshell.Iconv.Encode.{Encoded, wrote, too_big, back}
use android_vshell.Base.{◌⊎◌, ◌≢◌, inl, inr}
use android_vshell.Iconv.Advance.{IsReader}
use android_vshell.Iconv.Total.{iconv_total}
use android_vshell.Iconv.Bounds.{Fits, IsShort, encode-Fits}
use android_vshell.Iconv.Convert.{
  Buffers, Errno, e2big, Libc, Descriptor, Outcome, returned, failed, undefined, out_of_fuel, Next,
  step_back, pair_room, pair_bytes, emit, expand, round, convert, inner, iconv, describe,
}

-- The bytes of the buffers after and before: none is lost or made, and the input is used from its start.
pub record IsKept (before after : Buffers) : Type 0 where
  pub size : length after.out + after.room ≡ length before.out + before.room
  pub used : ℕ
  pub rest : after.input ≡ drop used before.input

abbrev pub Keeps : Buffers → Outcome → Type 0
Keeps b (returned r y) = IsKept b r
Keeps b (failed r) = IsKept b r
Keeps b _ = Unit {0}

drop-nil : (n : ℕ) → drop {A = ℕ} n [] ≡ []
drop-nil zero = refl
drop-nil (suc n) = refl

pub drop-drop : (j k : ℕ) (xs : List ℕ) → drop j (drop k xs) ≡ drop (k + j) xs
drop-drop j zero xs = ap (λ (n : ℕ). drop n xs) (omega arith)
drop-drop j (suc k) [] = drop-nil j ∙ sym (drop-nil (suc k + j))
drop-drop j (suc k) (x ∷ xs) =
    let e : suc (k + j) ≡ suc k + j = omega arith in
    drop-drop j k xs ∙ ap (λ (n : ℕ). drop n (x ∷ xs)) e

IsKept-same : (b : Buffers) (e : Option Errno) → IsKept b (record b { errno = e })
IsKept-same b e = record { size = refl; used = 0; rest = refl }

IsKept-trans : {a b c : Buffers} → IsKept a b → IsKept b c → IsKept a c
IsKept-trans {a} {b} {c} h k = record {
  size = k.size ∙ h.size;
  used = h.used + k.used;
  rest = k.rest ∙ ap (drop k.used) h.rest ∙ drop-drop k.used h.used a.input;
}

Keeps-trans : {a b : Buffers} (o : Outcome) → IsKept a b → Keeps b o → Keeps a o
Keeps-trans (returned r y) h k = IsKept-trans h k
Keeps-trans (failed r) h k = IsKept-trans h k
Keeps-trans undefined h k = tt
Keeps-trans out_of_fuel h k = tt

length-take : (b : ℕ) (bs : List ℕ) → length (take (length bs) (b ∷ bs)) ≡ length bs
length-take b [] = refl
length-take b (c ∷ cs) = ap suc (length-take c cs)

step_back_shorter :
    (out : List ℕ) {out' : List ℕ} → step_back out ≡ some out' → length out' + 1 ≡ length out
unfolding step_back
step_back_shorter [] h = absurd (ground (arith, h))
step_back_shorter (b ∷ bs) h = omega (arith, ap length (some-injective _ _ h), length-take b bs)

module _ (next : Next) (keeps : (st : ℕ) (b : Buffers) (x : ℕ) → Keeps b (next st b x)) where
  back-Keeps :
      (l st x : ℕ) (b : Buffers) (o : Option (List ℕ))
      → step_back b.out ≡ o
      → Keeps b (elim o [
        | none ↦ undefined
        | some out ↦ next st (record b { input = drop l b.input; out = out; room = b.room + 1 }) x
      ])
  back-Keeps l st x b none e = tt
  back-Keeps l st x b (some out) e =
      let shorter : IsKept b (record b { input = drop l b.input; out = out; room = b.room + 1 }) =
        record { size = omega (arith, step_back_shorter b.out e); used = l; rest = refl } in
      Keeps-trans (next st _ _) shorter (keeps st _ _)

  emit-Keeps :
      (l st x : ℕ) (b : Buffers) (e : Encoded) → Fits b.room e → Keeps b (emit next l st b x e)
  unfolding emit
  emit-Keeps l st x b too_big fits = IsKept-same b _
  emit-Keeps l st x b Encoded.outside fits = tt
  emit-Keeps l st x b back fits = back-Keeps l st x b (step_back b.out) refl
  emit-Keeps l st x b (wrote bytes y) fits =
      let written : IsKept b (record b {
        input = drop l b.input;
        out = b.out ++ bytes;
        room = b.room - length bytes;
      }) =
        record { size = omega (arith, length-append b.out bytes, fits); used = l; rest = refl } in
      Keeps-trans (next st _ _) written (keeps st _ _)

  expand-Keeps :
      (st x : ℕ) (b c : Buffers) (o : Outcome)
      → Keeps c o
      → length c.out + c.room ≡ length b.out + b.room
      → Keeps b (expand next st b.input x o)
  unfolding expand
  expand-Keeps st x b c (returned r y) h e =
      let both : IsKept b (record r { input = drop 2 b.input }) = record {
        size = h.size ∙ e;
        used = 2;
        rest = refl;
      } in
      Keeps-trans (next st _ _) both (keeps st _ _)
  expand-Keeps st x b c (failed r) h e =
      let both : IsKept b (record r { input = drop 2 b.input }) = record {
        size = h.size ∙ e;
        used = 2;
        rest = refl;
      } in
      Keeps-trans (next st _ _) both (keeps st _ _)
  expand-Keeps st x b c undefined h e = tt
  expand-Keeps st x b c out_of_fuel h e = tt

  round-Keeps :
      (libc : Libc) (cd : Descriptor) (inside : Buffers → Outcome) (st x : ℕ) (b : Buffers)
      (d : Decoded)
      → IsShort libc.wctomb
      → ((c : Buffers) → Keeps c (inside c))
      → Keeps b (round libc cd inside next st b x d)
  unfolding round
  round-Keeps libc cd inside st x b ilseq short deep = IsKept-same b _
  round-Keeps libc cd inside st x b starved short deep = IsKept-same b _
  round-Keeps libc cd inside st x b outside short deep = tt
  round-Keeps libc cd inside st x b (pair k) short deep =
      elim (ltb b.room (pair_room cd.totype))
        as (λ t. Keeps b (elim t as (λ t. Outcome) [
          | true ↦ failed (record b { errno = some e2big })
          | false ↦ expand next st b.input x (inside (record b { input = pair_bytes k }))
        ])) [
          | true ↦ IsKept-same b _
          | false ↦ expand-Keeps st x b (record b { input = pair_bytes k }) (inside _) (deep _) refl
        ]
  round-Keeps libc cd inside st x b (char l c st') short deep =
      emit-Keeps l st' x b _ (encode-Fits libc.wctomb cd.type cd.totype cd.tomap c b.room short)

convert-Keeps :
    (fuel : ℕ) (libc : Libc) (cd : Descriptor) (st : ℕ) (b : Buffers) (x : ℕ)
    → IsShort libc.wctomb
    → Keeps b (convert fuel libc cd st b x)
unfolding convert
convert-Keeps zero libc cd st b x short = tt
convert-Keeps (suc fuel) libc cd st b x short =
    elim (b.input)
      as (λ s. Keeps b (elim s as (λ s. Outcome) [
        | [] ↦ returned b x
        | i ∷ is ↦
            round libc cd (λ r. convert fuel libc (inner cd) 0 r 0) (convert fuel libc cd) st b x
              (decode libc.mbrtowc cd.type cd.map (i ∷ is) st)
      ])) [
        | [] ↦ IsKept-same b _
        | i ∷ is ↦
            round-Keeps (convert fuel libc cd) (λ st b x. convert-Keeps fuel libc cd st b x short)
              libc cd _ st x b _ short (λ c. convert-Keeps fuel libc (inner cd) 0 c 0 short)
      ]

buffers_ends :
    (b : Buffers) (o : Outcome)
    → Keeps b o
    → o ≢ out_of_fuel
    → (o ≡ undefined)
      ⊎ ((r : Buffers) × ((o ≡ failed r) ⊎ ((y : ℕ) × (o ≡ returned r y))) × IsKept b r)
buffers_ends b (returned r y) k n = inr (r, inr (y, refl), k)
buffers_ends b (failed r) k n = inr (r, inl refl, k)
buffers_ends b undefined k n = inl refl
buffers_ends b out_of_fuel k n = absurd (n refl)

buffers_kept :
    (libc : Libc) (cd : ℕ) (input : List ℕ) (room : ℕ)
    → IsShort libc.wctomb
    → Keeps
        (record { input = input; out = []; room = room; errno = none })
        (iconv libc cd (some input) room)
unfolding iconv
buffers_kept libc cd input room short =
    convert-Keeps (length input + 6) libc (describe (cd / 2 ^ 16) (cd % 2 ^ 16)) 0 _ 0 short

-- Where wctomb writes four bytes at most and mbrtowc takes a byte at least and no more than there are:
-- on any descriptor, input and room `iconv` comes to a read outside of a table or a byte before the
-- output, or it returns or fails with its buffers in order. Then the bytes written and the room left
-- make up the room it was given, and the input left is the given one without a front part.
pub iconv-Keeps :
    (libc : Libc) (cd : ℕ) (input : List ℕ) (room : ℕ)
    → IsShort libc.wctomb
    → IsReader libc.mbrtowc
    → (iconv libc cd (some input) room ≡ undefined)
      ⊎ ((r : Buffers) × ((iconv libc cd (some input) room ≡ failed r)
            ⊎ ((y : ℕ) × (iconv libc cd (some input) room ≡ returned r y)))
          × IsKept (record { input = input; out = []; room = room; errno = none }) r)
iconv-Keeps libc cd input room short reader =
    buffers_ends _ (iconv libc cd (some input) room) (buffers_kept libc cd input room short)
      (iconv_total libc cd input room reader)
