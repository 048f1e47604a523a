-- ===== src/Multibyte/Calls.antt =====
-- `mbsnrtowcs` as a whole.
use android_vshell.Base.{
  ℕ, suc, ◌+◌, ◌-◌, ◌*◌, ◌%◌, ◌<◌, ◌≤◌, ◌≡◌, ◌⊎◌, inl, inr, refl, sym, ap, ◌∙◌, arith, Bool, true,
  false, Option, none, some, List, [],
}
use android_vshell.Multibyte.Step.{Memory}
use android_vshell.Multibyte.Mbsrtowcs.{Outcome, mbsrtowcs, size_mod}
use android_vshell.Multibyte.Utf8.{IsBytes}
use android_vshell.Multibyte.Chunks.{IsChunk, went_on, ended, failed, is_given, mbsrtowcs-IsChunk}
use android_vshell.Multibyte.Mbsnrtowcs.{
  Reader, Progress, Ending, done, null_state, out_of_fuel, is_practical, chunk, moved, add, advance,
  abandon, chunk_loop, read_chars, second_loop, returned, outcome_of, places, both_loops,
  mbsnrtowcs,
}
use android_vshell.Multibyte.Limits.{Ends, chunk_loop-Ends, read_chars-Ends}
use android_vshell.Multibyte.Rounds.{IsWithin, variables}

module _ (W : ℕ) (wide : W < size_mod) (given : Bool) (mem : Memory) (small : IsBytes mem)
    (mbrtowc : Reader) (ws : Bool) where
  second :
      (e : Ending Progress)
      → Ends W wide given ws e
      → Ends W wide given ws (second_loop mbrtowc mem e)
  unfolding second_loop
  second (done p) h =
      read_chars-Ends W wide given mem small (suc p.wn) mbrtowc ws p.s p.n p.wn p.cnt p.out p.state
        p.eilseq p.touched (omega arith) h
  second null_state h = h
  second out_of_fuel h = h

  answer :
      (e : Ending Progress)
      → Ends W wide given ws e
      → (e ≡ null_state) × (given ≡ false) ⊎ ((p : Progress) × (e ≡ done p) × IsWithin W given ws p)
  answer (done p) h = inr (p, refl, h)
  answer null_state h = inl (refl, h)
  answer out_of_fuel h = absurd h

-- The size of the array that is written to: `wn` elements at `wcs`, or the 256 of `wbuf`.
abbrev pub capacity : Bool → ℕ → ℕ
capacity true wn = wn
capacity false wn = 256

both_loops-Ends :
    (W : ℕ) (wide : W < size_mod) (mbrtowc : Reader) (mem : Memory) (ws : Bool) (s n wn : ℕ)
    (st : Option ℕ)
    → IsBytes mem
    → places ws wn ≡ W
    → (both_loops mbrtowc mem ws s n wn st ≡ null_state) × (is_given st ≡ false)
      ⊎ ((p : Progress) × (both_loops mbrtowc mem ws s n wn st ≡ done p)
          × IsWithin W (is_given st) ws p)
unfolding both_loops
both_loops-Ends W wide mbrtowc mem ws s n wn st small size =
    let start =
      chunk_loop-Ends W wide (is_given st) mem small (suc n) ws (some s) n (places ws wn) (some 0)
        [] st false 0 (omega arith)
        (record {
          room = omega (arith, size);
          inside = omega arith;
          same_state = refl;
          counted = λ yes' k e. ground (arith, e);
        }) in
    answer W wide (is_given st) mem small mbrtowc ws _
      (second W wide (is_given st) mem small mbrtowc ws _ start)

-- In a memory of bytes, with `wn` below 2 ^ 64, both loops end, whatever mbrtowc answers: neither they
-- nor mbsrtowcs write beyond the `wn` elements at `wcs` or, where `wcs` is null, the 256 of `wbuf`.
-- Where `wcs` is not null, the count is the number of the characters written without the null. Only
-- with a null `st` can the end be a write through it.
pub both_loops-IsWithin :
    (mbrtowc : Reader) (mem : Memory) (ws : Bool) (s n wn : ℕ) (st : Option ℕ)
    → IsBytes mem
    → wn < size_mod
    → (both_loops mbrtowc mem ws s n wn st ≡ null_state) × (is_given st ≡ false)
      ⊎ ((p : Progress) × (both_loops mbrtowc mem ws s n wn st ≡ done p)
          × IsWithin (capacity ws wn) (is_given st) ws p)
unfolding places
both_loops-IsWithin mbrtowc mem true s n wn st small wide =
    both_loops-Ends wn wide mbrtowc mem true s n wn st small refl
both_loops-IsWithin mbrtowc mem false s n wn st small wide =
    both_loops-Ends 256 (omega arith) mbrtowc mem false s n wn st small refl

-- Nothing to do: no string, or no place.
abbrev pub IsIdle : Progress → Type 0
IsIdle p = (p.s ≡ none) ⊎ (p.wn ≡ 0)

module _ (n wn : ℕ) (cnt : Option ℕ) (out : List ℕ) (st : Option ℕ) (eilseq : Bool) (high : ℕ) where
  abbrev here : Option ℕ → Progress
  here s = variables s n wn cnt out st eilseq high

  chunk_loop-idle :
      (fuel : ℕ) (mem : Memory) (ws : Bool) (s : Option ℕ)
      → IsIdle (here s)
      → chunk_loop (suc fuel) mem ws (here s) ≡ done (here s)
  unfolding chunk_loop is_practical
  chunk_loop-idle fuel mem ws none h = refl
  chunk_loop-idle fuel mem ws (some s) (inl e) = ground (arith, e)
  chunk_loop-idle fuel mem ws (some s) (inr e) = rw e refl

  read_chars-idle :
      (fuel : ℕ) (mbrtowc : Reader) (mem : Memory) (s : Option ℕ)
      → IsIdle (here s)
      → read_chars (suc fuel) mbrtowc mem (here s) ≡ done (here s)
  unfolding read_chars
  read_chars-idle fuel mbrtowc mem none h = refl
  read_chars-idle fuel mbrtowc mem (some s) (inl e) = ground (arith, e)
  read_chars-idle fuel mbrtowc mem (some s) (inr e) = rw e refl

-- After its first round the first loop has nothing to do.
pub idle-mbsnrtowcs :
    (mbrtowc : Reader) (mem : Memory) (s n wn : ℕ) (st : Option ℕ) (p : Progress)
    → chunk_loop (suc n) mem true (variables (some s) n wn (some 0) [] st false 0) ≡ done p
    → IsIdle p
    → mbsnrtowcs mbrtowc mem true s n wn st ≡ done (outcome_of true p)
unfolding mbsnrtowcs both_loops places second_loop returned
idle-mbsnrtowcs mbrtowc mem s n wn st p h idle =
    ap (λ e. returned true (second_loop mbrtowc mem e)) h
    ∙ ap (returned true)
        (read_chars-idle p.n p.wn p.cnt p.out p.state p.eilseq p.touched p.wn mbrtowc mem p.s idle)

module _ (mem : Memory) (s n wn : ℕ) (st : Option ℕ) (ok : 1 ≤ wn) (wide : wn < size_mod)
    (plenty : 4 * wn ≤ n) where
  abbrev start : Progress
  start = variables (some s) n wn (some 0) [] st false 0

  all_places : (is_practical n wn ≡ true) × (chunk n wn ≡ wn)
  unfolding is_practical chunk
  all_places = (ground arith, ground arith)

  -- The first round takes all places.
  round_failed :
      (o : Outcome)
      → mbsrtowcs 0 mem true s wn st ≡ some o
      → o.result ≡ none
      → chunk_loop (suc n) mem true start ≡ done (abandon true start wn o)
  unfolding chunk_loop abandon
  round_failed o e r = rw (chunk_loop, all_places.0, all_places.1, e, r, all_places.1) refl

  round_went_on :
      (o : Outcome) (l : ℕ)
      → mbsrtowcs 0 mem true s wn st ≡ some o
      → o.result ≡ some l
      → chunk_loop (suc n) mem true start ≡ chunk_loop n mem true (advance true start wn l o)
  unfolding chunk_loop advance
  round_went_on o l e r = rw (chunk_loop, all_places.0, all_places.1, e, r, all_places.1) refl

  -- A second round has nothing to do.
  round_idle :
      (o : Outcome) (l : ℕ)
      → mbsrtowcs 0 mem true s wn st ≡ some o
      → o.result ≡ some l
      → IsIdle (advance true start wn l o)
      → chunk_loop (suc n) mem true start ≡ done (advance true start wn l o)
  round_idle o l e r idle =
      let p = advance true start wn l o in
      let one : n ≡ suc (n - 1) = omega arith in
      round_went_on o l e r
      ∙ ap (λ f. chunk_loop f mem true p) one
      ∙ chunk_loop-idle p.n p.wn p.cnt p.out p.state p.eilseq p.touched (n - 1) mem true p.s idle

  -- The outcome of the call is what the variables say behind the first round.
  same_outcome :
      (o : Outcome)
      → mbsrtowcs 0 mem true s wn st ≡ some o
      → IsChunk wn (is_given st) o
      → (p : Progress) × (chunk_loop (suc n) mem true start ≡ done p)
        × IsIdle p
        × (outcome_of true p ≡ o)
  unfolding outcome_of advance abandon moved add
  same_outcome o e (went_on t a r len q g) =
      let none_left : (wn + size_mod - wn) % size_mod ≡ 0 = omega arith in
      let counted : (0 + wn) % size_mod ≡ wn = omega arith in
      let idle = inr none_left in
      (advance true start wn wn o, round_idle o wn e r idle, idle, rw (a, counted, sym r, q) refl)
  same_outcome o e (ended l a r less len q g) =
      let counted : (0 + l) % size_mod ≡ l = omega arith in
      let idle = inl (rw a refl) in
      (advance true start wn l o, round_idle o l e r idle, idle, rw (a, counted, sym r, q) refl)
  same_outcome o e (failed t a r len q g) =
      (abandon true start wn o, round_failed o e r, inr refl, rw (a, r, q) refl)

-- In a memory of bytes, with `wcs` given, a place at least and four bytes or more for each place, the
-- limit has no effect: mbsnrtowcs comes to the same outcome as mbsrtowcs.
pub mbsnrtowcs-mbsrtowcs :
    (fuel : ℕ) (mbrtowc : Reader) (mem : Memory) (s n wn : ℕ) (st : Option ℕ)
    → IsBytes mem
    → 1 ≤ wn
    → wn < size_mod
    → 4 * wn ≤ n
    → (o : Outcome) × (mbsrtowcs fuel mem true s wn st ≡ some o)
      × (mbsnrtowcs mbrtowc mem true s n wn st ≡ done o)
unfolding mbsrtowcs
mbsnrtowcs-mbsrtowcs fuel mbrtowc mem s n wn st small ok wide plenty =
    let (o, e, k) = mbsrtowcs-IsChunk fuel mem s wn st small ok wide in
    let (p, h, idle, same) = same_outcome mem s n wn st ok wide plenty o e k in
    (o, e, idle-mbsnrtowcs mbrtowc mem s n wn st p h idle ∙ ap done same)
