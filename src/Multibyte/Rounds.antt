-- ===== src/Multibyte/Rounds.antt =====
-- A round of the loops of `mbsnrtowcs`: how much it writes, and what it counts.
use android_vshell.Base.{
  ℕ, ◌+◌, ◌*◌, ◌%◌, ◌<◌, ◌≤◌, ◌≡◌, refl, sym, ◌∙◌, arith, Bool, true, false, Option, none, some,
  List, length, length-append,
}
use android_vshell.Multibyte.Mbsrtowcs.{Outcome, size_mod}
use android_vshell.Multibyte.Chunks.{is_given, IsChunk, went_on, ended, failed}
use android_vshell.Multibyte.Mbsnrtowcs.{
  Progress, is_practical, chunk, moved, add, advance, abandon, overwrite, larger,
}

-- A round of the first loop is for one character at least, for no more than there are places, and
-- for a quarter of the bytes at most.
pub chunk-bounds :
    (n wn : ℕ)
    → is_practical n wn ≡ true
    → (1 ≤ chunk n wn) × (chunk n wn ≤ wn) × (chunk n wn * 4 ≤ n)
unfolding is_practical chunk
chunk-bounds n wn h = ground (arith, h)

abbrev pub variables : Option ℕ → ℕ → ℕ → Option ℕ → List ℕ → Option ℕ → Bool → ℕ → Progress
variables s n wn cnt out st eilseq high = record {
  s = s;
  n = n;
  wn = wn;
  cnt = cnt;
  out = out;
  state = st;
  eilseq = eilseq;
  touched = high;
}

-- Nothing beyond the places is written to, places are left while the string goes on, and the
-- characters written are counted but for the null.
pub record IsWithin (W : ℕ) (given ws : Bool) (p : Progress) : Type 0 where
  pub room : length p.out + elim p.s as (λ s. ℕ) [ none ↦ 0 | some s ↦ p.wn ] ≤ W
  pub inside : p.touched ≤ W
  pub same_state : is_given p.state ≡ given
  pub counted :
      ws ≡ true
      → (k : ℕ) → p.cnt ≡ some k
      → length p.out ≡ k + elim p.s as (λ s. ℕ) [ none ↦ 1 | some s ↦ 0 ]

pub given-overwrite : (st : Option ℕ) (w : ℕ) → is_given (overwrite st w) ≡ is_given st
unfolding is_given overwrite
given-overwrite none w = refl
given-overwrite (some v) w = refl

pub add_inverse :
    (l k : ℕ) (cnt : Option ℕ)
    → add l cnt ≡ some k
    → (j : ℕ) × (cnt ≡ some j) × (k ≡ (j + l) % size_mod)
unfolding add
add_inverse l k none h = ground (arith, h)
add_inverse l k (some j) h = (j, refl, ground (arith, h))

pub larger-le : (a b w : ℕ) → a ≤ w → b ≤ w → larger a b ≤ w
unfolding larger
larger-le a b w h k = ground arith

module _ (W : ℕ) (wide : W < size_mod) (given : Bool) where
  pub advance-IsWithin :
      (ws : Bool) (n wn n2 l : ℕ) (cnt : Option ℕ) (out : List ℕ) (st : Option ℕ) (eilseq : Bool)
      (high : ℕ) (s : ℕ) (o : Outcome)
      → n2 ≤ wn
      → o.result ≡ some l
      → IsChunk n2 given o
      → IsWithin W given ws (variables (some s) n wn cnt out st eilseq high)
      → IsWithin W given ws (advance ws (variables (some s) n wn cnt out st eilseq high) n2 l o)
  unfolding advance moved
  advance-IsWithin ws n wn n2 l cnt out st eilseq high s o b r (failed t at_t none_r e q g) w =
      let impossible = sym none_r ∙ r in ground (arith, impossible)
  advance-IsWithin true n wn n2 l cnt out st eilseq high s o b r (went_on t at_t r' e q g) w =
      let same = sym r ∙ r' in
      let l=n2 : l ≡ n2 = ground (arith, same) in
      record {
        room = rw (at_t, length-append out o.chars) (omega (arith, w.room, e));
        inside = larger-le _ _ W w.inside (omega (arith, w.room, e));
        same_state = g;
        counted = λ yes' k c.
            let (j, cj, kj) = add_inverse l k cnt c in
            let before = w.counted refl j cj in
            rw (at_t, length-append out o.chars) (omega (arith, w.room, e, before, kj));
      }
  advance-IsWithin true n wn n2 l cnt out st eilseq high s o b r (ended l' null_s r' less e q g) w =
      let same = sym r ∙ r' in
      let l=l' : l ≡ l' = ground (arith, same) in
      record {
        room = rw (null_s, length-append out o.chars) (omega (arith, w.room, e));
        inside = larger-le _ _ W w.inside (omega (arith, w.room, e));
        same_state = g;
        counted = λ yes' k c.
            let (j, cj, kj) = add_inverse l k cnt c in
            let before = w.counted refl j cj in
            rw (null_s, length-append out o.chars) (omega (arith, w.room, e, before, kj));
      }
  advance-IsWithin false n wn n2 l cnt out st eilseq high s o b r (went_on t at_t r' e q g) w =
      record {
        room = rw at_t (omega (arith, w.room));
        inside = larger-le _ _ W w.inside (omega (arith, w.room, e));
        same_state = g;
        counted = λ no' k c. ground (arith, no');
      }
  advance-IsWithin false n wn n2 l cnt out st eilseq high s o b r (ended l' null_s r' less e q g)
        w =
      record {
        room = rw null_s (omega (arith, w.room));
        inside = larger-le _ _ W w.inside (omega (arith, w.room, e, less));
        same_state = g;
        counted = λ no' k c. ground (arith, no');
      }

  pub abandon-IsWithin :
      (ws : Bool) (n wn n2 : ℕ) (cnt : Option ℕ) (out : List ℕ) (st : Option ℕ) (eilseq : Bool)
      (high : ℕ) (s : ℕ) (o : Outcome)
      → n2 ≤ wn
      → o.result ≡ none
      → IsChunk n2 given o
      → IsWithin W given ws (variables (some s) n wn cnt out st eilseq high)
      → IsWithin W given ws (abandon ws (variables (some s) n wn cnt out st eilseq high) n2 o)
  unfolding abandon moved
  abandon-IsWithin ws n wn n2 cnt out st eilseq high s o b r (went_on t at_t r' e q g) w =
      let impossible = sym r ∙ r' in ground (arith, impossible)
  abandon-IsWithin ws n wn n2 cnt out st eilseq high s o b r (ended l' null_s r' less e q g) w =
      let impossible = sym r ∙ r' in ground (arith, impossible)
  abandon-IsWithin true n wn n2 cnt out st eilseq high s o b r (failed t at_t none_r e q g) w =
      record {
        room = rw (at_t, length-append out o.chars) (omega (arith, w.room, e));
        inside = larger-le _ _ W w.inside (omega (arith, w.room, e));
        same_state = g;
        counted = λ yes' k c. ground (arith, c);
      }
  abandon-IsWithin false n wn n2 cnt out st eilseq high s o b r (failed t at_t none_r e q g) w =
      record {
        room = rw at_t (omega (arith, w.room));
        inside = larger-le _ _ W w.inside (omega (arith, w.room, e));
        same_state = g;
        counted = λ no' k c. ground (arith, c);
      }
