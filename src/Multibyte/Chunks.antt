-- ===== src/Multibyte/Chunks.antt =====
-- What a call of `mbsrtowcs` that writes can come to.
use android_vshell.Base.{
  subst, ◌&&◌, Bool, if◌then◌else◌, ℕ, zero, suc, ◌+◌, ◌-◌, ◌%◌, ◌<◌, ◌≤◌, ◌≡◌, inl, inr, refl, sym,
  ◌∙◌, arith, true, false, Bool-cases, Option, none, some, List, [], ◌∷◌, ◌++◌, length,
  length-append, ◌==◌,
}
use android_vshell.Multibyte.Step.{Memory, Step, char, stop, next_char, decode}
use android_vshell.Multibyte.Mbsrtowcs.{
  Exit, full, broke, out_of_fuel, written, Outcome, null, at, pending, mbsrtowcs, end_write, finish,
  resume, write_loop, size_mod,
}
use android_vshell.Multibyte.Utf8.{IsBytes}
use android_vshell.Multibyte.Loop.{scan, write_loop-scan}

-- As many characters as places were used, of which some are left at a `break`.
abbrev Counts : ℕ → List ℕ × Exit → Type 0
Counts wn (out, full s) = length out ≡ wn
Counts wn (out, broke wn' c s) = (length out + wn' ≡ wn) × (1 ≤ wn')
Counts wn (out, out_of_fuel) = ⊥

written-Counts : (wn c : ℕ) (r : List ℕ × Exit) → Counts wn r → Counts (suc wn) (written (c ∷ []) r)
written-Counts wn c (out, full s) h = omega (arith, h)
written-Counts wn c (out, broke wn' c' s) h = (omega (arith, h.0), h.1)
written-Counts wn c (out, out_of_fuel) h = h

scan-Counts : (mem : Memory) (wn s : ℕ) → Counts wn (scan mem wn s)
unfolding scan
scan-Counts mem zero s = refl
scan-Counts mem (suc wn) s =
    elim (next_char mem s)
      as (λ step. Counts (suc wn) (elim step as (λ r. List ℕ × Exit) [
        | char c t ↦ written (c ∷ []) (scan mem wn t)
        | stop c t ↦ ([], broke (suc wn) c t)
      ])) [
        | char c t ↦ written-Counts wn c (scan mem wn t) (scan-Counts mem wn t)
        | stop c t ↦ (omega arith, omega arith)
      ]

resume-Counts :
    (mem : Memory) (wn c s : ℕ)
    → IsBytes mem
    → 1 ≤ wn
    → wn < size_mod
    → Counts wn (resume mem wn c s)
unfolding resume
resume-Counts mem zero c s small h wide = absurd (omega arith)
resume-Counts mem (suc wn) c s small h wide = go (decode mem c s)
  where
    go :
        (r : Step)
        → Counts (suc wn) (elim r as (λ r. List ℕ × Exit) [
          | char c' t ↦ written (c' ∷ []) (
              write_loop
                (suc ((suc wn + size_mod - 1) % size_mod))
                mem
                ((suc wn + size_mod - 1) % size_mod)
                t)
          | stop c' t ↦ ([], broke (suc wn) c' t)
        ])
    go (char c' t) =
        let e : (suc wn + size_mod - 1) % size_mod ≡ wn = omega arith in
        let scanned = write_loop-scan (suc wn) mem wn t small (omega arith) in
        rw (e, scanned) (written-Counts wn c' (scan mem wn t) (scan-Counts mem wn t))
    go (stop c' t) = (omega arith, omega arith)

-- Whether `st` is no null pointer.
unfoldable pub is_given : Option ℕ → Bool
is_given none = false
is_given (some w) = true

-- The string goes on behind `n` characters; it ended with a null behind fewer; or the call failed.
-- `st` is null as before.
pub data IsChunk (n : ℕ) (given : Bool) (o : Outcome) : Type 0 where
  went_on :
      (t : ℕ)
      → o.source ≡ at t
      → o.result ≡ some n
      → length o.chars ≡ n
      → o.eilseq ≡ false
      → is_given o.state ≡ given
      → IsChunk n given o
  ended :
      (l : ℕ)
      → o.source ≡ null
      → o.result ≡ some l
      → l < n
      → length o.chars ≡ suc l
      → o.eilseq ≡ false
      → is_given o.state ≡ given
      → IsChunk n given o
  failed :
      (t : ℕ)
      → o.source ≡ at t
      → o.result ≡ none
      → length o.chars ≤ n
      → o.eilseq ≡ true
      → is_given o.state ≡ given
      → IsChunk n given o

finish-IsChunk :
    (mem : Memory) (out : List ℕ) (n c s : ℕ) (st : Option ℕ)
    → length out < n
    → IsChunk n (is_given st) (finish mem true out (length out) c s st)
unfolding finish
finish-IsChunk mem out n c s st h = go ((c == 0) && (mem s == 0))
  where
    go :
        (b : Bool)
        → IsChunk n (is_given st) (
            if b
            then record {
              chars = out ++ (0 ∷ []);
              result = some (length out);
              source = null;
              state = st;
              eilseq = false;
            }
            else record { chars = out; result = none; source = at s; state = st; eilseq = true })
    go true = ended (length out) refl refl h (length-append out (0 ∷ []) ∙ omega arith) refl refl
    go false = failed s refl refl (omega (arith, h)) refl refl

end_write-IsChunk :
    (mem : Memory) (wn : ℕ) (st : Option ℕ) (r : List ℕ × Exit)
    → wn < size_mod
    → Counts wn r
    → (o : Outcome) × (end_write mem wn st r ≡ some o) × IsChunk wn (is_given st) o
unfolding end_write
end_write-IsChunk mem wn st (out, full s) wide h = (_, refl, went_on s refl refl h refl refl)
end_write-IsChunk mem wn st (out, broke wn' c s) wide h =
    let l : (wn + size_mod - wn') % size_mod ≡ length out = omega (arith, h.0, h.1) in
    (
      finish mem true out (length out) c s st,
      rw l refl,
      finish-IsChunk mem out wn c s st (omega (arith, h.0, h.1)),
    )
end_write-IsChunk mem wn st (out, out_of_fuel) wide h = absurd h

pending-given : (st : Option ℕ) → (pending st == 0) ≡ false → is_given st ≡ true
unfolding is_given
pending-given none h = ground (arith, h)
pending-given (some w) h = refl

-- In a memory of bytes, with a place at least, a call that writes has a result: it fills its places and
-- `*src` stands behind them; or it writes fewer characters and a null, and `*src` is null; or it fails.
-- The state stays null or given.
pub mbsrtowcs-IsChunk :
    (fuel : ℕ) (mem : Memory) (s wn : ℕ) (st : Option ℕ)
    → IsBytes mem
    → 1 ≤ wn
    → wn < size_mod
    → (o : Outcome) × (mbsrtowcs fuel mem true s wn st ≡ some o) × IsChunk wn (is_given st) o
unfolding mbsrtowcs is_given
mbsrtowcs-IsChunk fuel mem s wn st small h wide = elim (Bool-cases (pending st == 0)) [
  | inl t ↦
      let scanned = write_loop-scan (suc wn) mem wn s small (omega arith) in
      let (o, e, k) = end_write-IsChunk mem wn st (scan mem wn s) wide (scan-Counts mem wn s) in
      (o, rw (mbsrtowcs, t, scanned) e, k)
  | inr f ↦
      let (o, e, k) =
        end_write-IsChunk mem wn (some 0) (resume mem wn (pending st) s) wide
          (resume-Counts mem wn (pending st) s small h wide) in
      (o, rw (mbsrtowcs, f) e, subst (λ g. IsChunk wn g o) (sym (pending-given st f)) k)
]
