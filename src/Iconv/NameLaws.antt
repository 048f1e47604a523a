-- ===== src/Iconv/NameLaws.antt =====
-- The names of the charmaps, and the descriptors of iconv_open.
use android_vshell.Base.{
  leb, ◌||◌, All, every_until, every_until-holds, ==_iff, ◌⊎◌, not, bit_or, ◌↔◌, ℕ, ◌+◌, ◌*◌, ◌/◌,
  ◌%◌, ◌^◌, ◌<◌, ◌≤◌, ◌≡◌, inl, inr, refl, sym, ap, ◌∙◌, arith, true, false, Bool, ◌&&◌, none, some,
  List, [], ◌∷◌, ◌++◌, length, ◌==◌, get_or, drop, if◌then◌else◌, Bool-cases, Option-cases,
}
use Prim.Native.String.{String}
use android_vshell.Base.Text.{codes}
use android_vshell.Iconv.Charmap.{
  Charmap, layout, charmap_bytes, c_strings, bytes_onto, find_loop, c_string, fuzzycmp, skip_others,
  is_skipped, type_at, next_alias, table_size,
}
use android_vshell.Iconv.Special.{special_charmaps}
use android_vshell.Iconv.Codepages.{codepages}
use android_vshell.Iconv.Names.{charmaps, find_charmap, iconv_open}
use android_vshell.Iconv.Convert.{describe}

length-charmaps : length charmaps ≡ 4360
unfolding charmaps layout charmap_bytes c_strings bytes_onto special_charmaps codepages
length-charmaps = refl

find_charmap-le : (name : List ℕ) (t : ℕ) → find_charmap name ≡ some t → t ≤ 4360
unfolding find_charmap
find_charmap-le name t h = ground (arith, h, length-charmaps)

-- What iconv_open returns names the two charmaps that it found, and the target is no encoding from
-- 208 on, which iconv only reads.
iconv_open-describe :
    (to from : List ℕ) (cd : ℕ)
    → iconv_open to from ≡ some cd
    → (find_charmap from ≡ some (cd / 2 ^ 16))
      × (find_charmap to ≡ some (cd % 2 ^ 16))
      × ((describe (cd / 2 ^ 16) (cd % 2 ^ 16)).totype < 208)
unfolding iconv_open describe
iconv_open-describe to from cd h = elim (Option-cases (find_charmap to)) [
  | inl e ↦ ground (arith, h, e)
  | inr (t, e) ↦ elim (Option-cases (find_charmap from)) [
    | inl f ↦ ground (arith, h, e, f)
    | inr (f, k) ↦
        let small = find_charmap-le to t e in
        let found : (cd ≡ f * 2 ^ 16 + t) × (get_or charmaps t 0 < 208) = ground (arith, h, e, k) in
        let high : f ≡ cd / 2 ^ 16 = omega (arith, found.0) in
        let low : t ≡ cd % 2 ^ 16 = omega (arith, found.0) in
        (k ∙ ap some high, e ∙ ap some low, rw (sym low) found.1)
  ]
]

-- Whether a list is the front of another.
abbrev is_front : List ℕ → List ℕ → Bool
is_front [] bs = true
is_front (a ∷ as') [] = false
is_front (a ∷ as') (b ∷ bs) = a == b && is_front as' bs

-- Whether a name leads to a type with a table behind it.
abbrev leads : String → ℕ → List ℕ → Bool
leads name type table = elim (find_charmap (codes name)) [
  | none ↦ false
  | some t ↦ get_or charmaps t 0 == type && is_front table (drop (t + 1) charmaps)
]

abbrev all_lead : List String → ℕ → List ℕ → Bool
all_lead [] type table = true
all_lead (name ∷ names) type table = leads name type table && all_lead names type table

abbrev all_found : List Charmap → Bool
all_found [] = true
all_found (charmap ∷ more) = all_lead charmap.aliases charmap.type charmap.table && all_found more

-- Every alias of every charmap leads find_charmap to the type of that charmap, with the table of that
-- charmap behind it.
charmaps_found : all_found (special_charmaps ++ codepages) ≡ true
unfolding charmaps layout charmap_bytes c_strings bytes_onto special_charmaps codepages find_charmap
    find_loop c_string fuzzycmp skip_others is_skipped type_at next_alias table_size
charmaps_found = refl

-- A name without what the code skips.
unfoldable code_plain : List ℕ → List ℕ
code_plain [] = []
code_plain (c ∷ cs) = if is_skipped c then code_plain cs else bit_or c 32 ∷ code_plain cs

-- Whether the code does not skip the last byte.
unfoldable code_ends : List ℕ → Bool
code_ends [] = true
code_ends (c ∷ []) = not (is_skipped c)
code_ends (c ∷ d ∷ cs) = code_ends (d ∷ cs)

-- Nothing to compare: all is skipped, the last byte too.
skipped :
    (a : ℕ) (as' : List ℕ)
    → skip_others (a ∷ as') ≡ []
    → (code_plain (a ∷ as') ≡ []) × (code_ends (a ∷ as') ≡ false)
unfolding skip_others code_plain code_ends
skipped a [] h = ground (arith, h)
skipped a (b ∷ bs) h = ground (arith, h, skipped b bs)

code_ends-compared :
    (c : ℕ) (cs : List ℕ) → is_skipped c ≡ false → code_ends (c ∷ cs) ≡ code_ends cs
unfolding code_ends
code_ends-compared c [] h = rw (code_ends, h) refl
code_ends-compared c (d ∷ cs) h = refl

compared_first :
    (a c : ℕ) (as' cs : List ℕ)
    → is_skipped a ≡ false
    → skip_others (a ∷ as') ≡ c ∷ cs
    → (code_plain (a ∷ as') ≡ bit_or c 32 ∷ code_plain cs) × (code_ends (a ∷ as') ≡ code_ends cs)
unfolding skip_others code_plain
compared_first a c as' cs f h =
    let q : ◌≡◌ {A = List ℕ} (a ∷ as') (c ∷ cs) = sym (rw (skip_others, f) refl) ∙ h in
    let first : a ≡ c = ground (arith, q) in
    let later : as' ≡ cs = ground (arith, q) in
    (rw (code_plain, f, first, later) refl, code_ends-compared a as' f ∙ ap code_ends later)

compared :
    (a c : ℕ) (as' cs : List ℕ)
    → skip_others (a ∷ as') ≡ c ∷ cs
    → (code_plain (a ∷ as') ≡ bit_or c 32 ∷ code_plain cs) × (code_ends (a ∷ as') ≡ code_ends cs)
unfolding skip_others code_plain code_ends
compared a c [] cs h = elim (Bool-cases (is_skipped a)) [
  | inl t ↦ ground (arith, h, t)
  | inr f ↦ compared_first a c [] cs f h
]
compared a c (b ∷ bs) cs h = elim (Bool-cases (is_skipped a)) [
  | inl t ↦
      let r = compared b c bs cs (sym (rw (skip_others, t) refl) ∙ h) in
      (rw (code_plain, t) r.0, r.1)
  | inr f ↦ compared_first a c (b ∷ bs) cs f h
]

List-cases : (xs : List ℕ) → (xs ≡ []) ⊎ ((y : ℕ) × (ys : List ℕ) × (xs ≡ y ∷ ys))
List-cases [] = inl refl
List-cases (x ∷ xs) = inr (x, xs, refl)

-- A name that is not empty has something to compare, if it code_ends so.
no_rest :
    {P : Type 0} (a : ℕ) (as' : List ℕ) → code_plain (a ∷ as') ≡ [] → code_ends (a ∷ as') ≡ true → P
no_rest a as' p q = elim (List-cases (skip_others (a ∷ as'))) [
  | inl e ↦ ground (arith, q, (skipped a as' e).1)
  | inr (c, cs, e) ↦ ground (arith, p, (compared a c as' cs e).0)
]

cons_same : {a b : ℕ} {as' bs : List ℕ} → a ≡ b → as' ≡ bs → ◌≡◌ {A = List ℕ} (a ∷ as') (b ∷ bs)
cons_same p q = rw (p, q) refl

tail_same : {a b : ℕ} {as' bs : List ℕ} → ◌≡◌ {A = List ℕ} (a ∷ as') (b ∷ bs) → as' ≡ bs
tail_same h = ground (arith, h)

fuzzycmp-code_plain :
    (name alias : List ℕ)
    → (fuzzycmp name alias ≡ false) ↔ ((code_plain name ≡ alias) × (code_ends name ≡ true))
unfolding fuzzycmp
fuzzycmp-code_plain [] [] =
    ((λ h. (unfold code_plain in refl, unfold code_ends in refl)), (λ h. refl))
fuzzycmp-code_plain [] (b ∷ bs) = (
  (λ h. ground (arith, h)),
  (λ h. let q : [] ≡ b ∷ bs = unfold code_plain in h.0 in ground (arith, q)),
)
fuzzycmp-code_plain (a ∷ as') [] = ((λ h. ground (arith, h)), (λ h. no_rest a as' h.0 h.1))
fuzzycmp-code_plain (a ∷ as') (b ∷ bs) = elim (List-cases (skip_others (a ∷ as'))) [
  | inl e ↦
      let m : fuzzycmp (a ∷ as') (b ∷ bs) ≡ true = rw (fuzzycmp, e) refl in
      (
        (λ h. let q = sym m ∙ h in ground (arith, q)),
        (λ h. let q = skipped a as' e in let u = sym q.1 ∙ h.1 in ground (arith, u)),
      )
  | inr (c, cs, e) ↦
      let r = compared a c as' cs e in
      let (to, from) = fuzzycmp-code_plain cs bs in
      elim (Bool-cases (bit_or c 32 == b)) [
        | inl t ↦
            let m : fuzzycmp (a ∷ as') (b ∷ bs) ≡ fuzzycmp cs bs = rw (fuzzycmp, e, t) refl in
            let same = (==_iff (bit_or c 32) b).0 t in
            (
              (λ h. let q = to (sym m ∙ h) in (r.0 ∙ cons_same same q.0, r.1 ∙ q.1)),
              (λ h. m ∙ from (tail_same (sym r.0 ∙ h.0), sym r.1 ∙ h.1)),
            )
        | inr f ↦
            let m : fuzzycmp (a ∷ as') (b ∷ bs) ≡ true = rw (fuzzycmp, e, f) refl in
            (
              (λ h. let q = sym m ∙ h in ground (arith, q)),
              (λ h. let q = sym r.0 ∙ h.0 in ground (arith, q, f)),
            )
      ]
]

-- The bytes that are compared: digits and letters, and the three bytes `:`, `[` and `{` behind them.
unfoldable pub is_compared : ℕ → Bool
is_compared b =
    (leb 0x30 b && leb b 0x3a) || (leb 0x41 b && leb b 0x5b) || (leb 0x61 b && leb b 0x7b)

-- A letter in lower case; `[` counts as the upper case of `{`.
unfoldable pub lower : ℕ → ℕ
lower b = if leb 0x41 b && leb b 0x5b then b + 32 else b

-- The bytes of a name that are compared, in lower case.
unfoldable pub plain : List ℕ → List ℕ
plain [] = []
plain (c ∷ cs) = if is_compared c then lower c ∷ plain cs else plain cs

-- Whether the last byte is one that is compared.
unfoldable pub ends : List ℕ → Bool
ends [] = true
ends (c ∷ []) = is_compared c
ends (c ∷ d ∷ cs) = ends (d ∷ cs)

abbrev agrees : ℕ → Bool
agrees b = if is_skipped b then not (is_compared b) else is_compared b && (bit_or b 32 == lower b)

all_agree : every_until agrees 256 ≡ true
unfolding every_until is_skipped is_compared lower
all_agree = refl

agrees_at : (b : ℕ) → b < 256 → agrees b ≡ true
agrees_at b small = every_until-holds agrees 256 small all_agree

code_plain-plain : (name : List ℕ) → All (λ b. b < 256) name → code_plain name ≡ plain name
unfolding code_plain plain
code_plain-plain [] small = refl
code_plain-plain (c ∷ cs) small =
    let a = agrees_at c small.0 in
    let later = code_plain-plain cs small.1 in
    elim (Bool-cases (is_skipped c)) [
      | inl t ↦
          let f : is_compared c ≡ false = ground (arith, a, t) in rw (code_plain, plain, t, f) later
      | inr f ↦
          let t : is_compared c ≡ true = ground (arith, a, f) in
          let low : bit_or c 32 ≡ lower c = ground (arith, a, f) in
          rw (code_plain, plain, f, t) (cons_same low later)
    ]

code_ends-ends : (name : List ℕ) → All (λ b. b < 256) name → code_ends name ≡ ends name
unfolding code_ends ends
code_ends-ends [] small = refl
code_ends-ends (c ∷ []) small = let a = agrees_at c small.0 in ground (arith, a)
code_ends-ends (c ∷ d ∷ cs) small = code_ends-ends (d ∷ cs) small.1

-- For a name of bytes, fuzzycmp finds a match exactly if the alias is the name without the bytes that
-- are not compared and in lower case, and the last byte of the name is one that is compared. The bytes
-- that are compared are the digits, the letters, `:`, `[` and `{`.
pub fuzzycmp-plain :
    (name alias : List ℕ)
    → All (λ b. b < 256) name
    → (fuzzycmp name alias ≡ false) ↔ ((plain name ≡ alias) × (ends name ≡ true))
fuzzycmp-plain name alias small =
    let (to, from) = fuzzycmp-code_plain name alias in
    let p = code_plain-plain name small in
    let e = code_ends-ends name small in
    ((λ h. (sym p ∙ (to h).0, sym e ∙ (to h).1)), (λ h. from (p ∙ h.0, e ∙ h.1)))
