-- ===== src/Multibyte/Loop.antt =====
-- The loop that writes, against a scan of one character after another.
use android_vshell.Base.{ℕ, zero, suc, ◌+◌, ◌-◌, ◌%◌, ◌≤◌, ◌<◌, ◌≡◌, refl, sym, ap, ◌∙◌, true, ◌&&◌}
use android_vshell.Base.{List, [], ◌∷◌, ◌==◌, leb, arith, Bool-cases, inl, inr}
use android_vshell.Multibyte.Table.{is_ascii}
use android_vshell.Multibyte.Step.{Memory, char, stop, next_char}
use android_vshell.Multibyte.Mbsrtowcs.{
  Exit, full, broke, is_ascii_word, load32, copy_words, copy_ascii, write_loop, written,
}
use android_vshell.Multibyte.Utf8.{IsBytes}
use android_vshell.Multibyte.Words.{load32-ascii}

-- No word-wise copy, and no fuel.
unfoldable pub scan : Memory → ℕ → ℕ → List ℕ × Exit
scan mem zero s = ([], full s)
scan mem (suc wn) s = elim (next_char mem s) [
  | char c t ↦ written (c ∷ []) (scan mem wn t)
  | stop c t ↦ ([], broke (suc wn) c t)
]

next_char-ascii :
    (mem : Memory) (s : ℕ) → is_ascii (mem s) ≡ true → next_char mem s ≡ char (mem s) (s + 1)
unfolding next_char
next_char-ascii mem s h = rw h

scan_one :
    (mem : Memory) (wn s t : ℕ)
    → is_ascii (mem s) ≡ true
    → s + 1 ≡ t
    → scan mem (suc wn) s ≡ written (mem s ∷ []) (scan mem wn t)
unfolding scan
scan_one mem wn s t h e = rw (next_char-ascii mem s h, scan, e)

-- Four ASCII bytes are four rounds of the scan.
scan_four :
    (mem : Memory) (wn s : ℕ)
    → IsBytes mem
    → is_ascii_word (load32 mem s) ≡ true
    → scan mem (suc (suc (suc (suc wn)))) s
      ≡ written (mem s ∷ mem (s + 1) ∷ mem (s + 2) ∷ mem (s + 3) ∷ []) (scan mem wn (s + 4))
scan_four mem wn s small h =
    let a = load32-ascii mem s small h in
    scan_one mem (suc (suc (suc wn))) s (s + 1) a.0 refl
    ∙ ap (written (mem s ∷ [])) (
        scan_one mem (suc (suc wn)) (s + 1) (s + 2) a.1 (omega arith)
        ∙ ap (written (mem (s + 1) ∷ [])) (
            scan_one mem (suc wn) (s + 2) (s + 3) a.2 (omega arith)
            ∙ ap (written (mem (s + 2) ∷ [])) (scan_one mem wn (s + 3) (s + 4) a.3 (omega arith))))

copy_words-scan :
    (fuel : ℕ) (mem : Memory) (wn s : ℕ)
    → IsBytes mem
    → scan mem wn s
      ≡ written
          (copy_words fuel mem wn s).0
          (scan mem (copy_words fuel mem wn s).1 (copy_words fuel mem wn s).2)
unfolding copy_words
copy_words-scan zero mem wn s small = refl
copy_words-scan (suc fuel) mem wn s small =
    elim (Bool-cases (leb 5 wn && is_ascii_word (load32 mem s))) [
      | inr done ↦ rw done
      | inl more ↦
          let five : 5 ≤ wn = ground arith in
          let e : wn ≡ suc (suc (suc (suc (wn - 4)))) = omega arith in
          rw more (
            ap (λ (w : ℕ). scan mem w s) e
            ∙ scan_four mem (wn - 4) s small (ground arith)
            ∙ ap (written (mem s ∷ mem (s + 1) ∷ mem (s + 2) ∷ mem (s + 3) ∷ []))
                (copy_words-scan fuel mem (wn - 4) (s + 4) small))
    ]

-- The copy leaves at least one of `wn`, and never adds to it.
copy_words-bounds :
    (fuel : ℕ) (mem : Memory) (wn s : ℕ)
    → 1 ≤ wn
    → (1 ≤ (copy_words fuel mem wn s).1) × ((copy_words fuel mem wn s).1 ≤ wn)
unfolding copy_words
copy_words-bounds zero mem wn s h = omega arith
copy_words-bounds (suc fuel) mem wn s h =
    ground (arith, copy_words-bounds fuel mem (wn - 4) (s + 4))

copy_ascii-scan :
    (mem : Memory) (wn s : ℕ)
    → IsBytes mem
    → scan mem wn s
      ≡ written (copy_ascii mem wn s).0 (scan mem (copy_ascii mem wn s).1 (copy_ascii mem wn s).2)
unfolding copy_ascii
copy_ascii-scan mem wn s small = elim (Bool-cases (is_ascii (mem s) && (s % 4 == 0))) [
  | inl yes' ↦ rw yes' (copy_words-scan wn mem wn s small)
  | inr no' ↦ rw no'
]

copy_ascii-bounds :
    (mem : Memory) (wn s : ℕ)
    → 1 ≤ wn
    → (1 ≤ (copy_ascii mem wn s).1) × ((copy_ascii mem wn s).1 ≤ wn)
unfolding copy_ascii
copy_ascii-bounds mem wn s h = ground (arith, copy_words-bounds wn mem wn s h)

-- A round of `write_loop` behind the copy, where at least one of `wn` is left.
round-scan :
    (mem : Memory) (wn s : ℕ) (rest : ℕ → ℕ → List ℕ × Exit)
    → 1 ≤ wn
    → ((t : ℕ) → rest (wn - 1) t ≡ scan mem (wn - 1) t)
    → elim (next_char mem s) as (λ r. List ℕ × Exit) [
      | char c t ↦ written (c ∷ []) (rest (wn - 1) t)
      | stop c t ↦ ([], broke wn c t)
    ]
      ≡ scan mem wn s
unfolding scan
round-scan mem zero s rest h ih = absurd (omega arith)
round-scan mem (suc wn) s rest h ih =
    let e : suc wn - 1 ≡ wn = omega arith in
    elim (next_char mem s)
      as (λ step.
        elim step as (λ r. List ℕ × Exit) [
          | char c t ↦ written (c ∷ []) (rest (suc wn - 1) t)
          | stop c t ↦ ([], broke (suc wn) c t)
        ]
        ≡ elim step as (λ r. List ℕ × Exit) [
          | char c t ↦ written (c ∷ []) (scan mem wn t)
          | stop c t ↦ ([], broke (suc wn) c t)
        ]) [
          | char c t ↦ ap (written (c ∷ [])) (ih t ∙ ap (λ (w : ℕ). scan mem w t) e)
          | stop c t ↦ refl
        ]

-- In a memory of bytes, and with more fuel than `wn`, the loop, which copies ASCII bytes word by word,
-- writes what the scan of single characters writes and ends where and as the scan ends.
pub write_loop-scan :
    (fuel : ℕ) (mem : Memory) (wn s : ℕ)
    → IsBytes mem
    → wn < fuel
    → write_loop fuel mem wn s ≡ scan mem wn s
unfolding write_loop
write_loop-scan zero mem wn s small h = absurd (omega arith)
write_loop-scan (suc fuel) mem zero s small h = unfold scan in refl
write_loop-scan (suc fuel) mem (suc wn) s small h =
    let b = copy_ascii-bounds mem (suc wn) s (omega arith) in
    ap (written (copy_ascii mem (suc wn) s).0) (
      round-scan mem (copy_ascii mem (suc wn) s).1 (copy_ascii mem (suc wn) s).2
        (write_loop fuel mem) b.0 (λ t. write_loop-scan fuel mem _ t small (omega (arith, b))))
    ∙ sym (copy_ascii-scan mem (suc wn) s small)
