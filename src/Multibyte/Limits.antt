-- ===== src/Multibyte/Limits.antt =====
-- The loops of `mbsnrtowcs` end and keep within their places.
use android_vshell.Base.{
  subst, ℕ, zero, suc, ◌-◌, ◌<◌, ◌≤◌, ◌≡◌, inl, inr, refl, sym, ◌∙◌, arith, Bool, false, not, ◌&&◌,
  Bool-cases, Option, none, some, List, [], ◌∷◌, length-append, ◌==◌,
}
use android_vshell.Multibyte.Step.{Memory}
use android_vshell.Multibyte.Mbsrtowcs.{Outcome, size_mod}
use android_vshell.Multibyte.Utf8.{IsBytes}
use android_vshell.Multibyte.Chunks.{is_given, IsChunk, mbsrtowcs-IsChunk}
use android_vshell.Multibyte.Mbsnrtowcs.{
  Read, character, terminator, invalid, incomplete, Reader, Progress, Ending, done, null_state,
  out_of_fuel, is_practical, chunk, advance, abandon, chunk_loop, take_read, read_chars,
}
use android_vshell.Multibyte.Rounds.{
  IsWithin, larger-le, variables, chunk-bounds, given-overwrite, add_inverse, advance-IsWithin,
  abandon-IsWithin,
}

module _ (W : ℕ) (wide : W < size_mod) (given : Bool) where
  -- A loop ends: with a result that fits, or where `st` is null.
  abbrev pub Ends : Bool → Ending Progress → Type 0
  Ends ws (done p) = IsWithin W given ws p
  Ends ws null_state = given ≡ false
  Ends ws out_of_fuel = ⊥

  chunk_round :
      (ws : Bool) (n wn : ℕ) (cnt : Option ℕ) (out : List ℕ) (st : Option ℕ) (eilseq : Bool)
      (high : ℕ) (s : ℕ) (o : Outcome) (next : Progress → Ending Progress)
      → chunk n wn ≤ wn
      → IsChunk (chunk n wn) given o
      → IsWithin W given ws (variables (some s) n wn cnt out st eilseq high)
      → ((q : Progress) → q.n ≡ n - chunk n wn → IsWithin W given ws q → Ends ws (next q))
      → (r : Option ℕ) → o.result ≡ r
      → Ends ws (elim r as (λ r. Ending Progress) [
        | none ↦ done (abandon ws (variables (some s) n wn cnt out st eilseq high) (chunk n wn) o)
        | some l ↦
            next (advance ws (variables (some s) n wn cnt out st eilseq high) (chunk n wn) l o)
      ])
  chunk_round ws n wn cnt out st eilseq high s o next b k w ih none r =
      abandon-IsWithin W wide given ws n wn (chunk n wn) cnt out st eilseq high s o b r k w
  chunk_round ws n wn cnt out st eilseq high s o next b k w ih (some l) r =
      ih _ (unfold advance in refl)
        (advance-IsWithin W wide given ws n wn (chunk n wn) l cnt out st eilseq high s o b r k w)

  module _ (mem : Memory) (small : IsBytes mem) where
    pub chunk_loop-Ends :
        (fuel : ℕ) (ws : Bool) (s : Option ℕ) (n wn : ℕ) (cnt : Option ℕ) (out : List ℕ)
        (st : Option ℕ) (eilseq : Bool) (high : ℕ)
        → n < fuel
        → IsWithin W given ws (variables s n wn cnt out st eilseq high)
        → Ends ws (chunk_loop fuel mem ws (variables s n wn cnt out st eilseq high))
    unfolding chunk_loop
    chunk_loop-Ends zero ws s n wn cnt out st eilseq high f w = absurd (omega arith)
    chunk_loop-Ends (suc fuel) ws none n wn cnt out st eilseq high f w = w
    chunk_loop-Ends (suc fuel) ws (some s) n wn cnt out st eilseq high f w =
        elim (Bool-cases (is_practical n wn)) [
          | inr no' ↦ rw (chunk_loop, no') w
          | inl yes' ↦
              let b = chunk-bounds n wn yes' in
              let (o, e, k) =
                mbsrtowcs-IsChunk 0 mem s (chunk n wn) st small b.0 (omega (arith, b.1, w.room)) in
              let k' = subst (λ g. IsChunk (chunk n wn) g o) w.same_state k in
              rw (chunk_loop, yes', e)
                (chunk_round ws n wn cnt out st eilseq high s o (chunk_loop fuel mem ws) b.1 k' w
                  (λ q e' w'.
                    chunk_loop-Ends fuel ws q.s q.n q.wn q.cnt q.out q.state q.eilseq q.touched
                      (omega (arith, e', b, f)) w')
                  o.result refl)
        ]

    take_read-Ends :
        (ws : Bool) (n wn : ℕ) (cnt : Option ℕ) (out : List ℕ) (st : Option ℕ) (eilseq : Bool)
        (high : ℕ) (s : ℕ) (next : Progress → Ending Progress)
        → 1 ≤ wn
        → IsWithin W given ws (variables (some s) n wn cnt out st eilseq high)
        → ((q : Progress) → q.wn ≡ wn - 1 → IsWithin W given ws q → Ends ws (next q))
        → (r : Read) → Ends ws (take_read next (variables (some s) n wn cnt out st eilseq high) s r)
    unfolding take_read is_given
    take_read-Ends ws n wn cnt out st eilseq high s next b w ih (character l c st') =
        ih _ refl (record {
          room = rw (length-append out (c ∷ [])) (omega (arith, w.room));
          inside = larger-le _ _ W w.inside (omega (arith, w.room, b));
          same_state = given-overwrite st st' ∙ w.same_state;
          counted = λ yes' k e.
              let (j, cj, kj) = add_inverse 1 k cnt e in
              rw (length-append out (c ∷ [])) (omega (arith, w.room, w.counted yes' j cj, kj));
        })
    take_read-Ends ws n wn cnt out st eilseq high s next b w ih (terminator st') = record {
      room = rw (length-append out (0 ∷ [])) (omega (arith, w.room));
      inside = larger-le _ _ W w.inside (omega (arith, w.room, b));
      same_state = given-overwrite st st' ∙ w.same_state;
      counted = λ yes' k e. rw (length-append out (0 ∷ [])) (omega (arith, w.counted yes' k e));
    }
    take_read-Ends ws n wn cnt out st eilseq high s next b w ih (invalid st') = record {
      room = w.room;
      inside = w.inside;
      same_state = given-overwrite st st' ∙ w.same_state;
      counted = λ yes' k e. ground (arith, e);
    }
    take_read-Ends ws n wn cnt out none eilseq high s next b w ih (incomplete st') =
        unfold is_given in sym w.same_state
    take_read-Ends ws n wn cnt out (some v) eilseq high s next b w ih (incomplete st') = record {
      room = w.room;
      inside = w.inside;
      same_state = w.same_state;
      counted = w.counted;
    }

    pub read_chars-Ends :
        (fuel : ℕ) (mbrtowc : Reader) (ws : Bool) (s : Option ℕ) (n wn : ℕ) (cnt : Option ℕ)
        (out : List ℕ) (st : Option ℕ) (eilseq : Bool) (high : ℕ)
        → wn < fuel
        → IsWithin W given ws (variables s n wn cnt out st eilseq high)
        → Ends ws (read_chars fuel mbrtowc mem (variables s n wn cnt out st eilseq high))
    unfolding read_chars
    read_chars-Ends zero mbrtowc ws s n wn cnt out st eilseq high f w = absurd (omega arith)
    read_chars-Ends (suc fuel) mbrtowc ws none n wn cnt out st eilseq high f w = w
    read_chars-Ends (suc fuel) mbrtowc ws (some s) n wn cnt out st eilseq high f w =
        elim (Bool-cases (not (wn == 0) && not (n == 0))) [
          | inr no' ↦ rw (read_chars, no') w
          | inl yes' ↦
              let b : 1 ≤ wn = ground (arith, yes') in
              rw (read_chars, yes')
                (take_read-Ends ws n wn cnt out st eilseq high s (read_chars fuel mbrtowc mem) b w
                  (λ q e w'.
                    read_chars-Ends fuel mbrtowc ws q.s q.n q.wn q.cnt q.out q.state q.eilseq
                      q.touched (omega (arith, e, b, f)) w')
                  (mbrtowc mem s n st))
        ]
