-- ===== src/Multibyte/Text.antt =====
-- Texts in memory that a null byte ends, and what the mbrtowc of libc is to read from them.
use android_vshell.Base.{
  ℕ, zero, suc, ◌+◌, ◌-◌, ◌<◌, ◌≤◌, ◌≡◌, refl, sym, ap, ◌∙◌, subst, arith, List, [], ◌∷◌, ◌++◌,
  length, length-append, All, Option, none, some,
}
use mathlib.Core.List.{append_assoc}
use android_vshell.Multibyte.Step.{Memory}
use android_vshell.Multibyte.Utf8.{encode, encode_all, IsScalar, Holds}
use android_vshell.Multibyte.Encode.{IsAccepted}
use android_vshell.Multibyte.Strings.{Holds-append}
use android_vshell.Multibyte.Mbsrtowcs.{pending}
use android_vshell.Multibyte.Mbsnrtowcs.{Reader, character, terminator, overwrite}

-- A code point that a string can hold.
abbrev pub IsText : ℕ → Type 0
IsText c = (0 < c) × IsScalar c

-- mbrtowc in a locale of UTF-8: without a pending state it reads a character whose bytes are all
-- there, and the null, and leaves no pending state.
pub record IsUtf8Reader (mbrtowc : Reader) : Type 0 where
  pub reads :
      (mem : Memory) (s n c : ℕ) (st : Option ℕ)
      → pending st ≡ 0
      → IsText c
      → Holds mem s (encode c)
      → length (encode c) ≤ n
      → mbrtowc mem s n st ≡ character (length (encode c)) c 0
  pub ends :
      (mem : Memory) (s n : ℕ) (st : Option ℕ)
      → pending st ≡ 0
      → mem s ≡ 0
      → 1 ≤ n
      → mbrtowc mem s n st ≡ terminator 0

-- A text with a null behind it, within `n` bytes, for `wn` places.
pub record Stands (mem : Memory) (s n wn : ℕ) (cs : List ℕ) : Type 0 where
  pub ok : All IsText cs
  pub held : Holds mem s (encode_all cs ++ (0 ∷ []))
  pub inside : length (encode_all cs) < n
  pub room : length cs < wn

pub All-IsAccepted : (cs : List ℕ) → All IsText cs → All IsAccepted cs
All-IsAccepted [] h = tt
All-IsAccepted (c ∷ cs) h = ((h.0.0, omega (arith, h.0.1.0), h.0.1.1), All-IsAccepted cs h.1)

All-append : (P : ℕ → Type 0) (xs ys : List ℕ) → All P (xs ++ ys) → All P xs × All P ys
All-append P [] ys h = (tt, h)
All-append P (x ∷ xs) ys h = let (a, b) = All-append P xs ys h.1 in ((h.0, a), b)

encode_all-append : (xs ys : List ℕ) → encode_all (xs ++ ys) ≡ encode_all xs ++ encode_all ys
unfolding encode_all
encode_all-append [] ys = refl
encode_all-append (x ∷ xs) ys =
    ap (λ zs. encode x ++ zs) (encode_all-append xs ys) ∙ sym (append_assoc (encode x) _ _)

pub encode-positive : (c : ℕ) → 1 ≤ length (encode c)
unfolding encode
encode-positive c = ground arith

length-encode_all-le : (cs : List ℕ) → length cs ≤ length (encode_all cs)
unfolding encode_all
length-encode_all-le [] = omega arith
length-encode_all-le (c ∷ cs) =
    rw (length-append (encode c) (encode_all cs))
      (omega (arith, encode-positive c, length-encode_all-le cs))

pub split_at :
    (k : ℕ) (cs : List ℕ)
    → k ≤ length cs
    → (front : List ℕ) × (back : List ℕ) × (cs ≡ front ++ back) × (length front ≡ k)
split_at zero cs h = ([], cs, refl, refl)
split_at (suc k) [] h = absurd (omega (arith, h))
split_at (suc k) (c ∷ cs) h =
    let (front, back, e, l) = split_at k cs (omega (arith, h)) in
    (c ∷ front, back, ap (λ xs. c ∷ xs) e, omega (arith, l))

pub overwrite_fresh : (st : Option ℕ) → pending st ≡ 0 → overwrite st 0 ≡ st
unfolding overwrite
overwrite_fresh none h = refl
overwrite_fresh (some v) h = ap some (sym h)

-- What is behind some characters of the text is a text.
pub Stands-split :
    (mem : Memory) (s n wn : ℕ) (front back : List ℕ)
    → Stands mem s n wn (front ++ back)
    → All IsText front
      × Holds mem s (encode_all front)
      × Stands mem (s + length (encode_all front)) (n - length front) (wn - length front) back
Stands-split mem s n wn front back t =
    let (ok, ok') = All-append IsText front back t.ok in
    let same = encode_all-append front back in
    let long : length (encode_all (front ++ back))
        ≡ length (encode_all front) + length (encode_all back) =
      ap length same ∙ length-append (encode_all front) (encode_all back) in
    let bytes : encode_all (front ++ back) ++ (0 ∷ [])
        ≡ encode_all front ++ (encode_all back ++ (0 ∷ [])) =
      ap (λ bs. bs ++ (0 ∷ [])) same ∙ append_assoc (encode_all front) (encode_all back) (0 ∷ []) in
    let (held, held') =
      Holds-append mem s (encode_all front) (encode_all back ++ (0 ∷ []))
        (subst (Holds mem s) bytes t.held) in
    let short = length-encode_all-le front in
    (
      ok,
      held,
      record {
        ok = ok';
        held = held';
        inside = omega (arith, t.inside, long, short);
        room = omega (arith, t.room, length-append front back);
      },
    )
