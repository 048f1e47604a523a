-- ===== src/Multibyte/Measure.antt =====
-- `mbsrtowcs` with a null destination against the loop that writes.
use android_vshell.Base.{
  ℕ, zero, suc, ◌+◌, ◌-◌, ◌%◌, ◌≤◌, ◌<◌, ◌≡◌, ◌⊎◌, ◌&&◌, ◌==◌, Option, some, true, false, arith,
  Bool-cases, inl, inr, refl, sym, ap, ◌∙◌, List, [], ◌∷◌,
}
use android_vshell.Multibyte.Step.{Memory, Step, char, stop, next_char, next_skip}
use android_vshell.Multibyte.Utf8.{IsBytes}
use android_vshell.Multibyte.Mbsrtowcs.{
  full, broke, count_loop, Outcome, kept, finish, end_count, end_write, pending, mbsrtowcs,
  size_mod, at,
}
use android_vshell.Multibyte.Loop.{scan, write_loop-scan}
use android_vshell.Base.{==_iff}
use android_vshell.Multibyte.Strings.{next_char_stop, next_char_null}
use android_vshell.Multibyte.Skip.{behind, next_skip-next_char}
use android_vshell.Multibyte.Counting.{Counts, count_loop-Counts}

-- The scan of the loop that writes either fills its places, or stops behind the characters.
abbrev Scanned : Memory → ℕ → ℕ → Type 0
Scanned mem wn s =
    ((out : List ℕ) × (t : ℕ) × (scan mem wn s ≡ (out, full t)))
    ⊎ ((out : List ℕ) × (k : ℕ) × (c : ℕ) × (e : ℕ) × (scan mem wn s ≡ (out, broke (wn - k) c e))
        × (k < wn)
        × Counts mem k s e
        × (next_char mem e ≡ stop c e))

scan_step-Scanned :
    (mem : Memory) (wn s : ℕ)
    → IsBytes mem
    → ((t : ℕ) → Scanned mem wn t)
    → (r : Step) → next_char mem s ≡ r
    → Scanned mem (suc wn) s
unfolding scan
scan_step-Scanned mem wn s small ih (char c t) h = elim (ih t) [
  | inl (out, u, r) ↦ inl (c ∷ out, u, rw (scan, h, r) refl)
  | inr (out, k, x, e, r, less, counts, stopped) ↦
      let left : suc wn - suc k ≡ wn - k = omega arith in
      let on = next_skip-next_char mem s small ∙ ap behind h in
      inr (
        c ∷ out,
        suc k,
        x,
        e,
        rw (scan, h, r, left) refl,
        omega (arith, less),
        (t, on, counts),
        stopped,
      )
]
scan_step-Scanned mem wn s small ih (stop c t) h =
    let here = next_char_stop mem s c t h in
    let end = next_skip-next_char mem s small ∙ ap behind h in
    let all : suc wn - 0 ≡ suc wn = omega arith in
    inr ([], 0, c, s, rw (scan, h, here, all) refl, omega arith, (end, refl), h ∙ ap (stop c) here)

scan-Scanned : (mem : Memory) (wn s : ℕ) → IsBytes mem → Scanned mem wn s
unfolding scan
scan-Scanned mem zero s small = inl ([], s, refl)
scan-Scanned mem (suc wn) s small =
    scan_step-Scanned mem wn s small (λ t. scan-Scanned mem wn t small) (next_char mem s) refl

-- The outcome with no characters, and the source as it was.
abbrev pub measured : Outcome → Option ℕ → Outcome
measured o st = record {
  chars = [];
  result = o.result;
  source = kept;
  state = st;
  eilseq = o.eilseq;
}

next_skip_null : (mem : Memory) (s : ℕ) → mem s ≡ 0 → next_skip mem s ≡ stop 0 s
unfolding next_skip
next_skip_null mem s h = rw h refl

-- Both loops come to the same end at an address where they stop.
finish-measured :
    (mem : Memory) (out : List ℕ) (k c x e : ℕ) (st : Option ℕ)
    → next_char mem e ≡ stop c e
    → next_skip mem e ≡ stop x e
    → finish mem false [] k x e st ≡ measured (finish mem true out k c e st) st
unfolding finish
finish-measured mem out k c x e st h j = elim (Bool-cases (mem e == 0)) [
  | inl null ↦
      let zero' : mem e ≡ 0 = (==_iff _ _).0 null in
      let written_end = sym h ∙ next_char_null mem e zero' in
      let counted_end = sym j ∙ next_skip_null mem e zero' in
      let c=0 : c ≡ 0 = ground (arith, written_end) in
      let x=0 : x ≡ 0 = ground (arith, counted_end) in rw (null, c=0, x=0) refl
  | inr other ↦
      let written_end : ((c == 0) && (mem e == 0)) ≡ false = ground (arith, other) in
      let counted_end : ((x == 0) && (mem e == 0)) ≡ false = ground (arith, other) in
      rw (written_end, counted_end) refl
]

measure_ends :
    (fuel : ℕ) (mem : Memory) (s wn' k x e : ℕ) (st : Option ℕ)
    → pending st ≡ 0
    → k < size_mod
    → count_loop fuel mem 0 s ≡ some (0 + k, x, e)
    → mbsrtowcs fuel mem false s wn' st ≡ some (finish mem false [] k x e st)
unfolding mbsrtowcs end_count
measure_ends fuel mem s wn' k x e st fresh wide q =
    let n : (0 + k) % size_mod ≡ k = omega (arith, wide) in rw (fresh, q, n) refl

-- In a memory of bytes, with no pending state and `wn` below 2 ^ 64: unless the conversion fills its
-- `wn` places, a call with a null destination returns what the conversion returns, its failure
-- included, writes nothing and leaves the source, given as much fuel as there are places.
pub mbsrtowcs-measured :
    (f fuel : ℕ) (mem : Memory) (s wn wn' : ℕ) (st : Option ℕ)
    → IsBytes mem
    → pending st ≡ 0
    → wn < size_mod
    → wn ≤ fuel
    → (o : Outcome) × (mbsrtowcs f mem true s wn st ≡ some o)
      × ((o.result ≡ some wn) ⊎ (mbsrtowcs fuel mem false s wn' st ≡ some (measured o st)))
unfolding mbsrtowcs end_write
mbsrtowcs-measured f fuel mem s wn wn' st small fresh wide enough =
    let scanned = write_loop-scan (suc wn) mem wn s small (omega arith) in
    elim (scan-Scanned mem wn s small) [
      | inl (out, t, r) ↦ (
        record { chars = out; result = some wn; source = at t; state = st; eilseq = false },
        rw (fresh, scanned, r) refl,
        inl refl,
      )
      | inr (out, k, c, e, r, less, counts, stopped) ↦
          let n : (wn + size_mod - (wn - k)) % size_mod ≡ k = omega (arith, less, wide) in
          let (x, q, stopped') =
            count_loop-Counts fuel mem 0 k s e small (omega (arith, less, enough)) counts in
          (
            finish mem true out k c e st,
            rw (fresh, scanned, r, n) refl,
            inr (
                measure_ends fuel mem s wn' k x e st fresh (omega (arith, less, wide)) q
                ∙ ap some (finish-measured mem out k c x e st stopped stopped')),
          )
    ]
