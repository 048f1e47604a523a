-- ===== src/Multibyte/Resumed.antt =====
-- `mbsrtowcs` with a state that an earlier call left inside a character.
use android_vshell.Base.{
  ℕ, zero, suc, ◌+◌, ◌-◌, ◌%◌, ◌≤◌, ◌<◌, ◌≡◌, some, true, false, arith, refl, ap, ◌∙◌, List, [],
  ◌∷◌, ◌==◌,
}
use android_vshell.Multibyte.Table.{lead_state, is_ascii, is_not_lead}
use android_vshell.Multibyte.Step.{Memory, char, stop, decode, next_char}
use android_vshell.Multibyte.Utf8.{IsBytes}
use android_vshell.Multibyte.Lead.{marks, lead_state-marks}
use android_vshell.Multibyte.Mbsrtowcs.{
  Exit, broke, written, resume, write_loop, mbsrtowcs, size_mod,
}
use android_vshell.Multibyte.Loop.{scan, write_loop-scan}

lead_state-positive : (b : ℕ) → 0xc2 ≤ b → b < 0xf5 → (lead_state b == 0) ≡ false
unfolding marks
lead_state-positive b lo hi =
    let e = lead_state-marks b lo hi in
    let positive : 1 ≤ lead_state b = ground (arith, e) in ground (arith, positive)

next_char-lead :
    (mem : Memory) (s : ℕ)
    → 0xc2 ≤ mem s
    → mem s < 0xf5
    → next_char mem s ≡ decode mem (lead_state (mem s)) (s + 1)
unfolding next_char
next_char-lead mem s lo hi =
    let nasc : is_ascii (mem s) ≡ false = ground arith in
    let lead : is_not_lead (mem s) ≡ false = ground arith in rw (nasc, lead) refl

-- The places behind one character.
abbrev left : ℕ → ℕ
left wn = (suc wn + size_mod - 1) % size_mod

resume-scan :
    (mem : Memory) (wn s : ℕ)
    → IsBytes mem
    → suc wn < size_mod
    → 0xc2 ≤ mem s
    → mem s < 0xf5
    → resume mem (suc wn) (lead_state (mem s)) (s + 1) ≡ scan mem (suc wn) s
unfolding resume scan
resume-scan mem wn s small wide lo hi =
    let n : left wn ≡ wn = omega (arith, wide) in
    rw (scan, next_char-lead mem s lo hi)
      (elim (decode mem (lead_state (mem s)) (s + 1))
        as (λ r.
          elim r as (λ r. List ℕ × Exit) [
            | char c t ↦ written (c ∷ []) (write_loop (suc (left wn)) mem (left wn) t)
            | stop c t ↦ ([], broke (suc wn) c t)
          ]
          ≡ elim r as (λ r. List ℕ × Exit) [
            | char c t ↦ written (c ∷ []) (scan mem wn t)
            | stop c t ↦ ([], broke (suc wn) c t)
          ]) [
            | char c t ↦ ap (written (c ∷ [])) (
                ap (λ (w : ℕ). write_loop (suc w) mem w t) n
                ∙ write_loop-scan (suc wn) mem wn t small (omega arith))
            | stop c t ↦ refl
          ])

-- In a memory of bytes, with `wn` from 1 to below 2 ^ 64: behind a lead byte that an earlier call took, a
-- call with the state of that byte comes to the outcome of a call from the lead byte on that has no
-- pending state.
pub mbsrtowcs-resumed :
    (f g : ℕ) (mem : Memory) (s wn : ℕ)
    → IsBytes mem
    → 1 ≤ wn
    → wn < size_mod
    → 0xc2 ≤ mem s
    → mem s < 0xf5
    → mbsrtowcs f mem true (s + 1) wn (some (lead_state (mem s)))
      ≡ mbsrtowcs g mem true s wn (some 0)
unfolding mbsrtowcs
mbsrtowcs-resumed f g mem s zero small ok wide lo hi = absurd (omega (arith, ok))
mbsrtowcs-resumed f g mem s (suc wn) small ok wide lo hi =
    let pending_now = lead_state-positive (mem s) lo hi in
    let scanned = write_loop-scan (suc (suc wn)) mem (suc wn) s small (omega arith) in
    rw (pending_now, resume-scan mem wn s small wide lo hi, scanned) refl
