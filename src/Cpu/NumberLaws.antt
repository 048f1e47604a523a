-- ===== src/Cpu/NumberLaws.antt =====
-- `parse_decimal` reads back what the kernel prints.
use android_vshell.Base.{
  ℕ, zero, suc, ◌+◌, ◌*◌, ◌/◌, ◌%◌, ◌^◌, ◌≤◌, ◌<◌, ◌≡◌, refl, sym, ap, ◌∙◌, arith,
}
use android_vshell.Base.{
  none, some, List, [], ◌∷◌, ◌++◌, All, ltb, if◌then◌else◌, Bool-cases, inl, inr, ltb→lt,
}
use mathlib.Core.List.{append_assoc}
use native.Mathlib.Nat.{pow-suc}
use android_vshell.Cpu.Number.{digit, number_loop, parse_number, parse_decimal}

-- The decimal digits of a number below 10 ^ (k + 1), with no leading zero.
unfoldable pub print : ℕ → ℕ → List ℕ
print zero n = (n + b'0') ∷ []
print (suc k) n = if ltb n 10 then (n + b'0') ∷ [] else print k (n / 10) ++ ((n % 10 + b'0') ∷ [])

digit_decimal : (d : ℕ) → d < 10 → digit 10 (d + b'0') ≡ some d
unfolding digit
digit_decimal d h = ground arith

number_loop_digit :
    (v d : ℕ) (cs : List ℕ)
    → d < 10
    → number_loop 10 v ((d + b'0') ∷ cs) ≡ number_loop 10 ((v * 10 + d) % 2 ^ 32) cs
unfolding number_loop
number_loop_digit v d cs h = rw (digit_decimal d h, number_loop)

number_loop-print :
    (k n : ℕ) (rest : List ℕ)
    → n < 10 ^ suc k
    → number_loop 10 0 (print k n ++ rest) ≡ number_loop 10 (n % 2 ^ 32) rest
unfolding print
number_loop-print zero n rest h =
    number_loop_digit 0 n rest (omega arith) ∙ ap (λ (v : ℕ). number_loop 10 v rest) (omega arith)
number_loop-print (suc k) n rest h = elim (Bool-cases (ltb n 10)) [
  | inl one ↦ rw one (
      number_loop_digit 0 n rest (ltb→lt _ _ one)
      ∙ ap (λ (v : ℕ). number_loop 10 v rest) (omega arith))
  | inr more ↦
      rw (more, append_assoc)
        (number_loop-print k (n / 10) ((n % 10 + b'0') ∷ rest) (omega (arith, pow-suc 10 (suc k)))
          ∙ number_loop_digit (n / 10 % 2 ^ 32) (n % 10) rest (omega arith)
          ∙ ap (λ (v : ℕ). number_loop 10 v rest) (omega arith))
]

-- The text of a number starts with a digit.
pub print-digit :
    (k n : ℕ) → n < 10 ^ suc k → (d : ℕ) × (cs : List ℕ) × (d < 10) × (print k n ≡ (d + b'0') ∷ cs)
unfolding print
print-digit zero n h = (n, [], omega arith, refl)
print-digit (suc k) n h = elim (Bool-cases (ltb n 10)) [
  | inl one ↦ (n, [], ltb→lt _ _ one, rw one)
  | inr more ↦
      let (d, cs, p, e) = print-digit k (n / 10) (omega (arith, pow-suc 10 (suc k))) in
      (d, cs ++ ((n % 10 + b'0') ∷ []), p, rw (more, e))
]

-- The byte behind a number is no digit, or there is none.
abbrev pub Stops : List ℕ → Type 0
Stops [] = Unit {0}
Stops (c ∷ cs) = digit 10 c ≡ none

number_loop-Stops : (v : ℕ) (rest : List ℕ) → Stops rest → number_loop 10 v rest ≡ (v, rest)
unfolding number_loop
number_loop-Stops v [] h = refl
number_loop-Stops v (c ∷ cs) h = rw (h, number_loop)

-- The digits of a number, followed by a byte that is no digit, are read as the number modulo 2 ^ 32,
-- and `p` stops behind the digits.
pub parse_decimal-print :
    (k n : ℕ) (rest : List ℕ)
    → n < 10 ^ suc k
    → Stops rest
    → parse_decimal (print k n ++ rest) ≡ some (n % 2 ^ 32, rest)
unfolding parse_decimal parse_number
parse_decimal-print k n rest h stops =
    let (d, cs, p, e) = print-digit k n h in
    let whole : number_loop 10 0 ((d + b'0') ∷ (cs ++ rest)) ≡ (n % 2 ^ 32, rest) =
      ap (λ t. number_loop 10 0 (t ++ rest)) (sym e)
      ∙ number_loop-print k n rest h
      ∙ number_loop-Stops (n % 2 ^ 32) rest stops in
    rw (e, digit_decimal d p, parse_number) (ap some whole)

-- Every byte of the text is a digit.
abbrev pub IsDigit : ℕ → Type 0
IsDigit c = (b'0' ≤ c) × (c ≤ b'9')

pub All-append {ℓ} :
    {A : Type ℓ} (P : A → Type 0) (xs ys : List A) → All P xs → All P ys → All P (xs ++ ys)
All-append P [] ys h k = k
All-append P (x ∷ xs) ys h k = (h.0, All-append P xs ys h.1 k)

pub print-IsDigit : (k n : ℕ) → n < 10 ^ suc k → All IsDigit (print k n)
unfolding print
print-IsDigit zero n h = omega arith
print-IsDigit (suc k) n h = elim (Bool-cases (ltb n 10)) [
  | inl one ↦ rw one (ground arith)
  | inr more ↦ rw more (
      All-append IsDigit _ _ (print-IsDigit k (n / 10) (omega (arith, pow-suc 10 (suc k))))
        (omega arith))
]
