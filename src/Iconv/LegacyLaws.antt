-- ===== src/Iconv/LegacyLaws.antt =====
-- The 8-bit charmaps: what is written for a character, and from which byte it is read.
use android_vshell.Base.{
  ==_iff, false, ℕ, zero, suc, ◌+◌, ◌-◌, ◌%◌, ◌^◌, ◌<◌, ◌≤◌, ◌≡◌, inl, inr, refl, sym, ap, ◌∙◌,
  arith, Option, none, some, List, [], ◌∷◌, get_elem?, ltb, ◌==◌, Bool-cases, Option-cases,
}
use android_vshell.Iconv.Charmap.{sub32}
use android_vshell.Iconv.Decode.{char, legacy_index, decode_legacy}
use android_vshell.Iconv.Encode.{
  wrote, too_big, outside, substitute, find_legacy, encode_legacy, put,
}
use android_vshell.Iconv.Tables.LegacyChars.{legacy_chars}

find_legacy_sound :
    (tomap : List ℕ) (d rounds k : ℕ) {i : ℕ}
    → find_legacy tomap d rounds k ≡ some (some i)
    → (get_elem? legacy_chars (legacy_index tomap i) ≡ some d) × (i < k + rounds)
unfolding find_legacy
find_legacy_sound tomap d zero k h = ground (arith, h)
find_legacy_sound tomap d (suc rounds) k {i = i} h =
    elim (Option-cases (get_elem? legacy_chars (legacy_index tomap k))) [
      | inl e ↦
          let q : none ≡ some (some i) = sym (rw (find_legacy, e) refl) ∙ h in ground (arith, q)
      | inr (v, e) ↦ elim (Bool-cases (d == v)) [
        | inl t ↦
            let q : some (some k) ≡ some (some i) = sym (rw (find_legacy, e, t) refl) ∙ h in
            let k=i : k ≡ i = ground (arith, q) in
            rw (sym k=i) (e ∙ ap some (sym ((==_iff d v).0 t)), omega arith)
        | inr f ↦
            let q =
              find_legacy_sound tomap d rounds (k + 1) {i = i}
                (sym (rw (find_legacy, e, f) refl) ∙ h) in
            (q.0, omega (arith, q.1))
      ]
    ]

-- What is written for the answer of a search.
found :
    (totype c room v : ℕ) (tomap : List ℕ) (answer : Option (Option ℕ))
    → find_legacy tomap c (sub32 128 totype) 0 ≡ answer
    → elim answer [
      | none ↦ outside
      | some none ↦ substitute room
      | some (some k) ↦ wrote ((k + 128) % 2 ^ 8 ∷ []) 0
    ]
      ≡ wrote (v ∷ []) 0
    → (i : ℕ) × (get_elem? legacy_chars (legacy_index tomap i) ≡ some c)
      × (i < sub32 128 totype)
      × (v ≡ (i + 128) % 256)
unfolding put
found totype c room v tomap none f h = ground (arith, h)
found totype c room v tomap (some none) f h = ground (arith, h)
found totype c room v tomap (some (some i)) f h =
    let q = find_legacy_sound tomap c (sub32 128 totype) 0 {i = i} f in
    (i, q.0, omega (arith, q.1), ground (arith, h))

encode_legacy-wrote :
    (totype c room v : ℕ) (tomap : List ℕ)
    → encode_legacy totype tomap c room ≡ wrote (v ∷ []) 0
    → 128 + totype ≤ c
    → (i : ℕ) × (get_elem? legacy_chars (legacy_index tomap i) ≡ some c)
      × (i < sub32 128 totype)
      × (v ≡ (i + 128) % 256)
unfolding encode_legacy
encode_legacy-wrote totype c room v tomap h large = elim (Bool-cases (ltb room 1)) [
  | inl t ↦
      let q : too_big ≡ wrote (v ∷ []) 0 = sym (rw (encode_legacy, t) refl) ∙ h in ground (arith, q)
  | inr t ↦
      let f : ltb c (128 + totype) ≡ false = ground arith in
      found totype c room v tomap (find_legacy tomap c (sub32 128 totype) 0) refl
        (sym (rw (encode_legacy, t, f) refl) ∙ h)
]

-- For a type of at most 128 and a character from 128 + type on, if encode_legacy writes a byte and
-- substitutes nothing, then the number that is the type more is a byte too, and from that one the
-- same charmap reads the character.
pub decode_legacy-encode_legacy :
    (totype c room v st : ℕ) (tomap : List ℕ)
    → encode_legacy totype tomap c room ≡ wrote (v ∷ []) 0
    → 128 + totype ≤ c
    → totype ≤ 128
    → (v + totype < 256) × (decode_legacy totype tomap (v + totype) st ≡ char 1 c st)
unfolding decode_legacy
decode_legacy-encode_legacy totype c room v st tomap h large types =
    let (i, e, below, w) = encode_legacy-wrote totype c room v tomap h large in
    let small : i < 128 - totype = omega (arith, below) in
    let at : v + totype - (128 + totype) ≡ i = omega arith in
    let high : ltb (v + totype) (128 + totype) ≡ false = ground arith in
    let c≠0 : (c == 0) ≡ false = ground arith in
    let c≠1 : (c == 1) ≡ false = ground arith in (omega arith, rw (high, at, e, c≠0, c≠1) refl)
