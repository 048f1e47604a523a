-- ===== src/Multibyte/Whole.antt =====
-- `mbsnrtowcs` on texts that end within the limit.
use android_vshell.Base.{
  ℕ, zero, suc, ◌+◌, ◌-◌, ◌%◌, ◌<◌, ◌≡◌, inl, inr, refl, sym, ap, ◌∙◌, subst, arith, true, false,
  Bool-cases, List, [], ◌∷◌, ◌++◌, length, not, ◌&&◌, ◌==◌, length-append, Option, some, leb,
}
use mathlib.Core.List.{append_assoc, append-nil}
use android_vshell.Multibyte.Step.{Memory}
use android_vshell.Multibyte.Utf8.{encode, encode_all, IsBytes, Holds}
use android_vshell.Multibyte.Strings.{mbsrtowcs-whole, mbsrtowcs_full}
use android_vshell.Multibyte.Mbsrtowcs.{Outcome, null, pending, size_mod}
use android_vshell.Multibyte.Mbsnrtowcs.{
  larger, Reader, Ending, done, is_practical, chunk, moved, add, advance, chunk_loop, take_read,
  read_chars, outcome_of, places, second_loop, returned, both_loops, mbsnrtowcs,
}
use android_vshell.Multibyte.Rounds.{variables, chunk-bounds}
use android_vshell.Multibyte.Text.{
  IsUtf8Reader, Stands, All-IsAccepted, Stands-split, split_at, overwrite_fresh,
}

module _ (mbrtowc : Reader) (good : IsUtf8Reader mbrtowc) (mem : Memory) (small : IsBytes mem)
    (st : Option ℕ) (fresh : pending st ≡ 0) where
  -- The outcome with the text behind what is written and counted.
  abbrev whole : ℕ → List ℕ → List ℕ → Ending Outcome
  whole cnt out cs = done (record {
    chars = out ++ (cs ++ (0 ∷ []));
    result = some (cnt + length cs);
    source = null;
    state = st;
    eilseq = false;
  })

  -- The same outcome, with some of the text already written.
  whole_moved :
      (cnt : ℕ) (out front back : List ℕ)
      → whole (cnt + length front) (out ++ front) back ≡ whole cnt out (front ++ back)
  whole_moved cnt out front back =
      let chars : (out ++ front) ++ (back ++ (0 ∷ [])) ≡ out ++ ((front ++ back) ++ (0 ∷ [])) =
        append_assoc out front (back ++ (0 ∷ []))
        ∙ ap (λ xs. out ++ xs) (sym (append_assoc front back (0 ∷ []))) in
      let count : cnt + length front + length back ≡ cnt + length (front ++ back) =
        omega (arith, length-append front back) in
      rw (chars, count) refl

  read_chars-whole :
      (cs : List ℕ) (fuel s n wn cnt : ℕ) (out : List ℕ) (high : ℕ)
      → wn < fuel
      → cnt + wn < size_mod
      → Stands mem s n wn cs
      → returned true
          (read_chars fuel mbrtowc mem (variables (some s) n wn (some cnt) out st false high))
        ≡ whole cnt out cs
  unfolding read_chars take_read add outcome_of returned encode_all
  read_chars-whole cs zero s n wn cnt out high f b t = absurd (omega (arith, f))
  read_chars-whole [] (suc fuel) s n wn cnt out high f b t =
      let yes' : (not (wn == 0) && not (n == 0)) ≡ true = ground (arith, t.room, t.inside) in
      let e = good.ends mem s n st fresh t.held.0 (omega (arith, t.inside)) in
      let same = overwrite_fresh st fresh in
      let none_more : cnt + 0 ≡ cnt = omega arith in rw (read_chars, yes', e, same, none_more) refl
  read_chars-whole (c ∷ cs) (suc fuel) s n wn cnt out high f b t =
      let (ok, held, t') = Stands-split mem s n wn (c ∷ []) cs t in
      let l = length (encode c) in
      let one : encode c ++ [] ≡ encode c = append-nil (encode c) in
      let size : length (encode c ++ encode_all cs) ≡ l + length (encode_all cs) =
        length-append (encode c) (encode_all cs) in
      let yes' : (not (wn == 0) && not (n == 0)) ≡ true = ground (arith, t.room, t.inside) in
      let e =
        good.reads mem s n c st fresh ok.0 (subst (Holds mem s) one held)
          (omega (arith, t.inside, size)) in
      let same = overwrite_fresh st fresh in
      let count : (cnt + 1) % size_mod ≡ cnt + 1 = omega (arith, b, t.room) in
      let rest : Stands mem (s + l) (n - l) (wn - 1) cs = record {
        ok = t'.ok;
        held = subst (λ bs. Holds mem (s + length bs) (encode_all cs ++ (0 ∷ []))) one t'.held;
        inside = omega (arith, t.inside, size);
        room = t'.room;
      } in
      let ih =
        read_chars-whole cs fuel (s + l) (n - l) (wn - 1) (cnt + 1) (out ++ (c ∷ []))
          (larger high (length out + 1)) (omega (arith, f, t.room)) (omega (arith, b, t.room))
          rest in
      rw (read_chars, yes', e, same, count) (ih ∙ whole_moved cnt out (c ∷ []) cs)

  -- A round in which the text ends.
  last_round :
      (fuel : ℕ) (cs : List ℕ) (s n wn cnt : ℕ) (out : List ℕ) (high : ℕ)
      → n < suc fuel
      → cnt + wn < size_mod
      → Stands mem s n wn cs
      → is_practical n wn ≡ true
      → length cs < chunk n wn
      → returned true (
          second_loop mbrtowc mem
            (chunk_loop (suc fuel) mem true (variables (some s) n wn (some cnt) out st false high)))
        ≡ whole cnt out cs
  unfolding chunk_loop second_loop read_chars returned outcome_of advance moved add
  last_round zero cs s n wn cnt out high f b t yes' less = absurd (omega (arith, f, t.inside))
  last_round (suc fuel) cs s n wn cnt out high f b t yes' less =
      let bounds = chunk-bounds n wn yes' in
      let e =
        mbsrtowcs-whole mem small 0 (chunk n wn) s cs st fresh (All-IsAccepted cs t.ok) t.held less
          (omega (arith, b, bounds.1)) in
      let count : (cnt + length cs) % size_mod ≡ cnt + length cs = omega (arith, b, t.room) in
      rw (chunk_loop, yes', e, count) refl

  -- A round that fills its places, with some of the text behind it.
  full_round :
      (fuel : ℕ) (front back : List ℕ) (s n wn cnt : ℕ) (out : List ℕ) (high : ℕ)
      → cnt + wn < size_mod
      → Stands mem s n wn (front ++ back)
      → is_practical n wn ≡ true
      → length front ≡ chunk n wn
      → chunk_loop (suc fuel) mem true (variables (some s) n wn (some cnt) out st false high)
        ≡ chunk_loop fuel mem true (
            variables
              (some (s + length (encode_all front)))
              (n - length front)
              (wn - length front)
              (some (cnt + length front))
              (out ++ front)
              st
              false
              (larger high (length out + length front)))
  unfolding chunk_loop advance moved add
  full_round fuel front back s n wn cnt out high b t yes' size =
      let (ok, held, t') = Stands-split mem s n wn front back t in
      let e =
        mbsrtowcs_full mem small 0 (chunk n wn) s front st fresh (All-IsAccepted front ok) held
          size in
      let count : (cnt + length front) % size_mod ≡ cnt + length front =
        omega (arith, b, t.room, length-append front back) in
      let left : (wn + size_mod - length front) % size_mod ≡ wn - length front =
        omega (arith, b, t.room, length-append front back) in
      rw (chunk_loop, yes', e, sym size, count, left) refl

  chunk_loop-whole :
      (fuel : ℕ) (cs : List ℕ) (s n wn cnt : ℕ) (out : List ℕ) (high : ℕ)
      → n < fuel
      → cnt + wn < size_mod
      → Stands mem s n wn cs
      → returned true (
          second_loop mbrtowc mem
            (chunk_loop fuel mem true (variables (some s) n wn (some cnt) out st false high)))
        ≡ whole cnt out cs
  unfolding second_loop chunk_loop returned
  chunk_loop-whole zero cs s n wn cnt out high f b t = absurd (omega (arith, f))
  chunk_loop-whole (suc fuel) cs s n wn cnt out high f b t = elim (Bool-cases (is_practical n wn)) [
    | inr no' ↦
        rw (chunk_loop, no') (read_chars-whole cs (suc wn) s n wn cnt out high (omega arith) b t)
    | inl yes' ↦ elim (Bool-cases (leb (chunk n wn) (length cs))) [
      | inr less ↦ last_round fuel cs s n wn cnt out high f b t yes' (ground (arith, less))
      | inl le ↦
          let (front, back, e, size) = split_at (chunk n wn) cs (ground (arith, le)) in
          let t' = subst (Stands mem s n wn) e t in
          let rest = (Stands-split mem s n wn front back t').2 in
          let bounds = chunk-bounds n wn yes' in
          ap (λ x. returned true (second_loop mbrtowc mem x))
            (full_round fuel front back s n wn cnt out high b t' yes' size)
          ∙ chunk_loop-whole fuel back _ (n - length front) (wn - length front) (cnt + length front)
              (out ++ front) (larger high (length out + length front))
              (omega (arith, f, bounds, size)) (omega (arith, b, bounds, size)) rest
          ∙ whole_moved cnt out front back
          ∙ ap (whole cnt out) (sym e)
    ]
  ]

-- In a memory of bytes, with no pending state, and an mbrtowc that reads UTF-8: a text that ends in a null
-- within the `n` bytes, with places for its characters and the null, is converted whole by
-- mbsnrtowcs, with the null, a null source and the number of its characters.
pub mbsnrtowcs-whole :
    (mbrtowc : Reader) (mem : Memory) (s n wn : ℕ) (cs : List ℕ) (st : Option ℕ)
    → IsUtf8Reader mbrtowc
    → IsBytes mem
    → pending st ≡ 0
    → wn < size_mod
    → Stands mem s n wn cs
    → mbsnrtowcs mbrtowc mem true s n wn st
      ≡ done (record {
        chars = cs ++ (0 ∷ []);
        result = some (length cs);
        source = null;
        state = st;
        eilseq = false;
      })
unfolding mbsnrtowcs both_loops places
mbsnrtowcs-whole mbrtowc mem s n wn cs st good small fresh wide t =
    let same : 0 + length cs ≡ length cs = omega arith in
    chunk_loop-whole mbrtowc good mem small st fresh (suc n) cs s n wn 0 [] 0 (omega arith)
      (omega (arith, wide)) t
    ∙ rw same refl
