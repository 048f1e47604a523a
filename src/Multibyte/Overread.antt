-- ===== src/Multibyte/Overread.antt =====
-- How far `mbsnrtowcs` reads.
use android_vshell.Base.{
  ◌++◌, ℕ, suc, ◌+◌, ◌-◌, ◌*◌, ◌%◌, ◌<◌, ◌≤◌, ◌≡◌, inr, refl, ap, ◌∙◌, arith, true, false, Option,
  none, some, List, [], length, All,
}
use android_vshell.Multibyte.Step.{Memory}
use android_vshell.Multibyte.Mbsrtowcs.{Outcome, at, pending, mbsrtowcs, size_mod}
use android_vshell.Multibyte.Utf8.{IsBytes, Holds, encode_all}
use android_vshell.Multibyte.Encode.{IsAccepted}
use android_vshell.Multibyte.Strings.{IsMalformed, mbsrtowcs_full, mbsrtowcs-malformed}
use android_vshell.Multibyte.Mbsnrtowcs.{
  Reader, Progress, done, is_practical, chunk, moved, add, advance, abandon, larger, chunk_loop,
  outcome_of, mbsnrtowcs,
}
use android_vshell.Multibyte.Rounds.{variables, chunk-bounds}
use android_vshell.Multibyte.Calls.{idle-mbsnrtowcs}

abbrev stopped : ℕ → Option ℕ → Outcome
stopped s st = record { chars = []; result = none; source = at s; state = st; eilseq = true }

malformed_call :
    (mem : Memory)
    → IsBytes mem
    → (s wn : ℕ) (st : Option ℕ) → pending st ≡ 0
    → 1 ≤ wn
    → wn < size_mod
    → IsMalformed mem s
    → mbsrtowcs 0 mem true s wn st ≡ some (stopped s st)
unfolding encode_all
malformed_call mem small s wn st fresh pos wide bad =
    let same : s + 0 ≡ s = omega arith in
    mbsrtowcs-malformed mem small 0 wn s [] st fresh tt tt pos wide (rw same bad) ∙ rw same refl

module _ (mem : Memory) (small : IsBytes mem) (s n wn : ℕ) (cs : List ℕ) (st : Option ℕ)
    (fresh : pending st ≡ 0) (wide : wn < size_mod) (cnt : ℕ) (out : List ℕ) (high fuel : ℕ) where
  abbrev before : Progress
  before = variables (some s) n wn (some cnt) out st false high

  -- A round that fills its places.
  full_round :
      is_practical n wn ≡ true
      → chunk n wn ≡ length cs
      → All IsAccepted cs
      → Holds mem s (encode_all cs)
      → chunk_loop (suc fuel) mem true before
        ≡ chunk_loop fuel mem true (
            variables
              (some (s + length (encode_all cs)))
              (n - length cs)
              ((wn + size_mod - length cs) % size_mod)
              (some ((cnt + length cs) % size_mod))
              (out ++ cs)
              st
              false
              (larger high (length out + length cs)))
  unfolding chunk_loop advance moved add
  full_round yes' size ok held =
      rw
        (
          chunk_loop,
          yes',
          size,
          mbsrtowcs_full mem small 0 (length cs) s cs st fresh ok held refl,
          size,
        )
        refl

  -- A round at malformed bytes.
  malformed_round :
      is_practical n wn ≡ true
      → 1 ≤ chunk n wn
      → chunk n wn ≤ wn
      → IsMalformed mem s
      → (p : Progress) × (chunk_loop (suc fuel) mem true before ≡ done p)
        × (p.wn ≡ 0)
        × (p.cnt ≡ none)
        × (p.eilseq ≡ true)
  unfolding chunk_loop abandon
  malformed_round yes' pos le bad =
      let e = malformed_call mem small s (chunk n wn) st fresh pos (omega (arith, le)) bad in
      (
        abandon true before (chunk n wn) (stopped s st),
        rw (chunk_loop, yes', e) refl,
        refl,
        refl,
        refl,
      )

practical : (n wn : ℕ) → 132 ≤ n → 1 ≤ wn → is_practical n wn ≡ true
practical n wn h k = unfold is_practical in ground arith

-- In a memory of bytes, with no pending state: a text of 44 accepted characters or more that have four
-- bytes each, with more places than characters, and the limit `n` just behind it. If the byte behind
-- the limit starts no character, the call fails with EILSEQ, though all `n` bytes are well-formed.
pub mbsnrtowcs-overread :
    (mbrtowc : Reader) (mem : Memory) (s n wn : ℕ) (cs : List ℕ) (st : Option ℕ)
    → IsBytes mem
    → pending st ≡ 0
    → wn < size_mod
    → 44 ≤ length cs
    → length cs < wn
    → All IsAccepted cs
    → Holds mem s (encode_all cs)
    → length (encode_all cs) ≡ n
    → n ≡ 4 * length cs
    → IsMalformed mem (s + n)
    → (o : Outcome) × (mbsnrtowcs mbrtowc mem true s n wn st ≡ done o)
      × (o.result ≡ none)
      × (o.eilseq ≡ true)
mbsnrtowcs-overread mbrtowc mem s n wn cs st small fresh wide many room ok held size four bad =
    let m = length cs in
    let wn' = (wn + size_mod - m) % size_mod in
    let left : wn' ≡ wn - m = omega arith in
    let first = practical n wn (omega (arith, four, many)) (omega (arith, room)) in
    let second = practical (n - m) wn' (omega (arith, four, many)) (omega (arith, left, room)) in
    let all : chunk n wn ≡ m = unfold chunk in ground (arith, four, room) in
    let start = full_round mem small s n wn cs st fresh wide 0 [] 0 n first all ok held in
    let bounds = chunk-bounds (n - m) wn' second in
    let (p, e, w, c, q) =
      malformed_round mem small (s + length (encode_all cs)) (n - m) wn' cs st fresh
        (omega (arith, left)) ((0 + m) % size_mod) cs (larger 0 (0 + m)) (n - 1) second bounds.0
        bounds.1 (rw size bad) in
    let fuel : n ≡ suc (n - 1) = omega (arith, four, many) in
    (
      outcome_of true p,
      idle-mbsnrtowcs mbrtowc mem s n wn st p
          (start
            ∙ ap
                (λ f. chunk_loop f mem true (
                  variables (some (s + length (encode_all cs))) (n - m) wn'
                    (some ((0 + m) % size_mod)) cs st false (larger 0 (0 + m))))
                fuel
            ∙ e)
          (inr w),
      unfold outcome_of in c,
      unfold outcome_of in q,
    )
