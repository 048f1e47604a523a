-- ===== src/Multibyte/Counting.antt =====
-- The characters that the loop of `mbsrtowcs` that only counts passes.
use android_vshell.Base.{
  ℕ, zero, suc, ◌*◌, ◌+◌, ◌%◌, ◌<◌, ◌≡◌, ◌&&◌, ◌==◌, Option, none, some, true, arith, Bool-cases,
  inl, inr, refl, sym, subst, ap, ◌∙◌,
}
use android_vshell.Multibyte.Table.{is_ascii}
use android_vshell.Multibyte.Step.{Memory, Step, char, stop, next_skip, skip}
use android_vshell.Multibyte.Utf8.{IsBytes}
use android_vshell.Multibyte.Words.{load32-ascii}
use android_vshell.Multibyte.Mbsrtowcs.{is_ascii_word, load32, skip_words, skip_ascii, count_loop}
use android_vshell.Multibyte.Skip.{behind}

-- `k` characters from one address on, up to another at which no character stands.
abbrev pub Counts : Memory → ℕ → ℕ → ℕ → Type 0
Counts mem zero s e = (behind (next_skip mem s) ≡ none) × (e ≡ s)
Counts mem (suc k) s e = (t : ℕ) × (behind (next_skip mem s) ≡ some t) × Counts mem k t e

next_skip-ascii :
    (mem : Memory) (s : ℕ) → is_ascii (mem s) ≡ true → behind (next_skip mem s) ≡ some (s + 1)
unfolding next_skip
next_skip-ascii mem s h = rw h refl

-- An ASCII byte is one of the characters.
Counts-ascii :
    (mem : Memory) (k s e u : ℕ)
    → is_ascii (mem s) ≡ true
    → s + 1 ≡ u
    → Counts mem k s e
    → (j : ℕ) × (k ≡ suc j) × Counts mem j u e
Counts-ascii mem zero s e u h same (stopped, end) =
    let on = next_skip-ascii mem s h in ground (arith, on, stopped)
Counts-ascii mem (suc k) s e u h same (t, on, rest) =
    let forward : t ≡ u = ground (arith, on, next_skip-ascii mem s h, same) in
    (k, refl, subst (λ t. Counts mem k t e) forward rest)

Counts-word :
    (mem : Memory) (k s e : ℕ)
    → IsBytes mem
    → is_ascii_word (load32 mem s) ≡ true
    → Counts mem k s e
    → (j : ℕ) × (k ≡ suc (suc (suc (suc j)))) × Counts mem j (s + 4) e
Counts-word mem k s e small h c =
    let a = load32-ascii mem s small h in
    let (k₁, e₁, c₁) = Counts-ascii mem k s e (s + 1) a.0 refl c in
    let (k₂, e₂, c₂) = Counts-ascii mem k₁ (s + 1) e (s + 2) a.1 (omega arith) c₁ in
    let (k₃, e₃, c₃) = Counts-ascii mem k₂ (s + 2) e (s + 3) a.2 (omega arith) c₂ in
    let (k₄, e₄, c₄) = Counts-ascii mem k₃ (s + 3) e (s + 4) a.3 (omega arith) c₃ in
    (k₄, omega (arith, e₁, e₂, e₃, e₄), c₄)

-- The word-wise loop passes some of the characters.
skip_words-Counts :
    (fuel : ℕ) (mem : Memory) (n k s e : ℕ)
    → IsBytes mem
    → k < 4 * fuel
    → Counts mem k s e
    → (m : ℕ) × (j : ℕ) × (u : ℕ) × (skip_words fuel mem n s ≡ some (n + m, u))
      × (k ≡ m + j)
      × Counts mem j u e
unfolding skip_words
skip_words-Counts zero mem n k s e small f c = absurd (omega (arith, f))
skip_words-Counts (suc fuel) mem n k s e small f c =
    elim (Bool-cases (is_ascii_word (load32 mem s))) [
      | inr no' ↦
          let same : n + 0 ≡ n = omega arith in (0, k, s, rw (no', same) refl, omega arith, c)
      | inl yes' ↦
          let (j, four, c') = Counts-word mem k s e small yes' c in
          let (m, j', u, r, sum, c'') =
            skip_words-Counts fuel mem (n + 4) j (s + 4) e small (omega (arith, f, four)) c' in
          let same : n + 4 + m ≡ n + (4 + m) = omega arith in
          (4 + m, j', u, rw (yes', r, same) refl, omega (arith, four, sum), c'')
    ]

skip_ascii-Counts :
    (fuel : ℕ) (mem : Memory) (n k s e : ℕ)
    → IsBytes mem
    → k < suc fuel
    → Counts mem k s e
    → (m : ℕ) × (j : ℕ) × (u : ℕ) × (skip_ascii fuel mem n s ≡ some (n + m, u))
      × (k ≡ m + j)
      × Counts mem j u e
unfolding skip_ascii
skip_ascii-Counts fuel mem n k s e small f c =
    elim (Bool-cases (is_ascii (mem s) && (s % 4 == 0))) [
      | inl yes' ↦
          let ascii : is_ascii (mem s) ≡ true = ground (arith, yes') in
          let (j, one, rest) = Counts-ascii mem k s e (s + 1) ascii refl c in
          rw yes' (skip_words-Counts fuel mem n k s e small (omega (arith, f, one)) c)
      | inr no' ↦
          let same : n + 0 ≡ n = omega arith in (0, k, s, rw (no', same) refl, omega arith, c)
    ]

next_skip_stop : (mem : Memory) (s c t : ℕ) → next_skip mem s ≡ stop c t → t ≡ s
unfolding next_skip skip
next_skip_stop mem s c t h = ground arith

-- The rest of a round, behind the word-wise loop.
count_rest-Counts :
    (rest : ℕ → ℕ → Option (ℕ × ℕ × ℕ)) (mem : Memory) (n j u e : ℕ)
    → Counts mem j u e
    → ((i t : ℕ)
        → suc i ≡ j
        → Counts mem i t e
        → (c : ℕ) × (rest (n + 1) t ≡ some (n + 1 + i, c, e)) × (next_skip mem e ≡ stop c e))
    → (r : Step) → next_skip mem u ≡ r
    → (c : ℕ) × (elim r as (λ r. Option (ℕ × ℕ × ℕ)) [
      | char c t ↦ rest (n + 1) t
      | stop c t ↦ some (n, c, t)
    ]
        ≡ some (n + j, c, e))
      × (next_skip mem e ≡ stop c e)
count_rest-Counts rest mem n zero u e (stopped, end) ih (char c t) h =
    let wrong = sym (ap behind h) ∙ stopped in ground (arith, wrong)
count_rest-Counts rest mem n zero u e (stopped, end) ih (stop c t) h =
    let here : t ≡ e = next_skip_stop mem u c t h ∙ sym end in
    let same : n ≡ n + 0 = omega arith in
    (
      c,
      ap (λ (a : ℕ). some (n, c, a)) here ∙ ap (λ (m : ℕ). some (m, c, e)) same,
      ap (next_skip mem) end ∙ h ∙ ap (stop c) here,
    )
count_rest-Counts rest mem n (suc j) u e (t, on, more) ih (char c t') h =
    let read = sym (ap behind h) ∙ on in
    let here : t' ≡ t = ground (arith, read) in
    let (x, q, stopped) = ih j t refl more in
    let total : n + 1 + j ≡ n + suc j = omega arith in
    (x, ap (rest (n + 1)) here ∙ q ∙ ap (λ (m : ℕ). some (m, x, e)) total, stopped)
count_rest-Counts rest mem n (suc j) u e (t, on, more) ih (stop c t') h =
    let wrong = sym (ap behind h) ∙ on in ground (arith, wrong)

pub count_loop-Counts :
    (fuel : ℕ) (mem : Memory) (n k s e : ℕ)
    → IsBytes mem
    → k < fuel
    → Counts mem k s e
    → (c : ℕ) × (count_loop fuel mem n s ≡ some (n + k, c, e)) × (next_skip mem e ≡ stop c e)
unfolding count_loop
count_loop-Counts zero mem n k s e small f c = absurd (omega (arith, f))
count_loop-Counts (suc fuel) mem n k s e small f c =
    let (m, j, u, r, sum, c') = skip_ascii-Counts fuel mem n k s e small f c in
    let (x, q, stopped) =
      count_rest-Counts (count_loop fuel mem) mem (n + m) j u e c'
        (λ i t one more.
          count_loop-Counts fuel mem (n + m + 1) i t e small (omega (arith, f, sum, one)) more)
        (next_skip mem u) refl in
    let total : n + m + j ≡ n + k = omega (arith, sum) in
    (x, rw (count_loop, r) (q ∙ ap (λ (m : ℕ). some (m, x, e)) total), stopped)
