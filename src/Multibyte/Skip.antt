-- ===== src/Multibyte/Skip.antt =====
-- The loop of mbsrtowcs.c that only counts passes the characters that the other loop reads.
use android_vshell.Base.{
  ℕ, ◌+◌, ◌≤◌, ◌<◌, ◌≡◌, Option, none, some, arith, Bool-cases, inl, inr, refl, sym, ap, ◌∙◌,
}
use android_vshell.Multibyte.Table.{lead_state, is_ascii, is_not_lead}
use android_vshell.Multibyte.Step.{Memory, Step, char, stop, skip, next_char, next_skip}
use android_vshell.Multibyte.Utf8.{IsBytes}
use android_vshell.Multibyte.Lead.{out_of_bounds-second, lead_state_flags}
use android_vshell.Multibyte.Arithmetic.{read_char, trail_test, forget}
use android_vshell.Multibyte.Decode.{next_char-read_char}

-- The address behind the character.
abbrev pub behind : Step → Option ℕ
behind (char c t) = some t
behind (stop c t) = none

abbrev second_of : Option (ℕ × ℕ) → Option ℕ
second_of none = none
second_of (some r) = some r.1

behind-forget : (r : Step) → behind r ≡ second_of (forget r)
behind-forget (char c t) = refl
behind-forget (stop c t) = refl

skip-read_char :
    (mem : Memory) (s : ℕ)
    → IsBytes mem
    → 0xc2 ≤ mem s
    → mem s < 0xf5
    → behind (skip mem (lead_state (mem s)) (s + 1)) ≡ second_of (read_char mem s)
unfolding skip read_char
skip-read_char mem s small lo hi =
    let (third, fourth) = lead_state_flags (mem s) lo hi in
    let second = out_of_bounds-second (mem s) (mem (s + 1)) lo hi (small (s + 1)) in
    let t₂ = trail_test (mem (s + 1 + 1)) (small (s + 1 + 1)) in
    let t₃ = trail_test (mem (s + 1 + 2)) (small (s + 1 + 2)) in
    rw (second, third, fourth, t₂, t₃) (ground arith)

next_skip-read_char :
    (mem : Memory) (s : ℕ) → IsBytes mem → behind (next_skip mem s) ≡ second_of (read_char mem s)
unfolding next_skip
next_skip-read_char mem s small = elim (Bool-cases (is_ascii (mem s))) [
  | inl asc ↦ rw asc (unfold read_char in ground (arith, small s))
  | inr nasc ↦ elim (Bool-cases (is_not_lead (mem s))) [
    | inl out ↦ rw (nasc, out) (unfold read_char in ground (arith, small s))
    | inr lead ↦
        rw (nasc, lead)
          (skip-read_char mem s small (ground (arith, small s)) (ground (arith, small s)))
  ]
]

-- In a memory of bytes, a round of the loop that counts goes on to the address to which a round of the
-- loop that writes goes on, and stops where that stops.
pub next_skip-next_char :
    (mem : Memory) (s : ℕ) → IsBytes mem → behind (next_skip mem s) ≡ behind (next_char mem s)
next_skip-next_char mem s small =
    next_skip-read_char mem s small
    ∙ sym (behind-forget (next_char mem s) ∙ ap second_of (next_char-read_char mem s small))
