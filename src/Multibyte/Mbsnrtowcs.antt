-- ===== src/Multibyte/Mbsnrtowcs.antt =====
-- `mbsnrtowcs` of musl-multibyte/mbsnrtowcs.c, over `mbsrtowcs` and the `mbrtowc` of libc.
use android_vshell.Base.{ℕ, zero, suc, ◌+◌, ◌-◌, ◌/◌, ◌%◌, Bool, true, false, not, ◌&&◌, ◌||◌}
use android_vshell.Base.{
  Option, none, some, List, [], ◌∷◌, ◌++◌, ltb, leb, ◌==◌, length, if◌then◌else◌,
}
use android_vshell.Multibyte.Step.{Memory}
use android_vshell.Multibyte.Mbsrtowcs.{Outcome, Source, kept, null, at, mbsrtowcs, size_mod}

-- What mbrtowc answers, with the word that it leaves in the state: the bytes of a character and the
-- character; 0; (size_t)-1 with EILSEQ; (size_t)-2.
pub data Read : Type 0 where
  character : ℕ → ℕ → ℕ → Read
  terminator invalid incomplete : ℕ → Read

-- mbrtowc of libc on the memory, with `s`, `n` and `st`.
abbrev pub Reader : Type 0
Reader = Memory → ℕ → ℕ → Option ℕ → Read

-- The variables. `s` is none for the null pointer, and `cnt` for (size_t)-1; `out` is what stands
-- from `wcs` on, or in `wbuf` from its start on: the first loop uses `wbuf` again in each round.
-- `touched` is the number of elements from the start of either on that were ever written to.
pub record Progress : Type 0 where
  pub s : Option ℕ
  pub n : ℕ
  pub wn : ℕ
  pub cnt : Option ℕ
  pub out : List ℕ
  pub state : Option ℕ
  pub eilseq : Bool
  pub touched : ℕ

-- A result; a write through a null `st`; the fuel of the model ran out.
pub data Ending (A : Type 0) : Type 0 where
  done : A → Ending A
  null_state out_of_fuel : Ending A

-- `wn && ((n2=n/4)>=wn || n2>32)`
unfoldable pub is_practical : ℕ → ℕ → Bool
is_practical n wn = not (wn == 0) && (leb wn (n / 4) || ltb 32 (n / 4))

-- `n2` behind `if (n2>=wn) n2=wn;`
unfoldable pub chunk : ℕ → ℕ → ℕ
chunk n wn = if leb wn (n / 4) then wn else n / 4

-- What a call of mbsrtowcs makes of `s`.
unfoldable pub moved : Option ℕ → Source → Option ℕ
moved s kept = s
moved s null = none
moved s (at t) = some t

-- `cnt += l`
unfoldable pub add : ℕ → Option ℕ → Option ℕ
add l none = none
add l (some cnt) = some ((cnt + l) % size_mod)

unfoldable pub larger : ℕ → ℕ → ℕ
larger a b = if leb a b then b else a

-- Behind a call of mbsrtowcs for `n2` characters that did not fail. `wbuf` is used again.
unfoldable pub advance : Bool → Progress → ℕ → ℕ → Outcome → Progress
advance ws p n2 l o = record {
  s = moved p.s o.source;
  n = p.n - n2;
  wn = if ws then (p.wn + size_mod - l) % size_mod else p.wn;
  cnt = add l p.cnt;
  out = if ws then p.out ++ o.chars else p.out;
  state = o.state;
  eilseq = p.eilseq;
  touched = larger p.touched (length p.out + length o.chars);
}

-- Behind a call that failed.
unfoldable pub abandon : Bool → Progress → ℕ → Outcome → Progress
abandon ws p n2 o = record {
  s = moved p.s o.source;
  n = p.n - n2;
  wn = 0;
  cnt = none;
  out = if ws then p.out ++ o.chars else p.out;
  state = o.state;
  eilseq = true;
  touched = larger p.touched (length p.out + length o.chars);
}

-- The first loop. A round takes one at least from `n`.
unfoldable pub chunk_loop : ℕ → Memory → Bool → Progress → Ending Progress
chunk_loop zero mem ws p = out_of_fuel
chunk_loop (suc fuel) mem ws p = elim p.s [
  | none ↦ done p
  | some s ↦
      if is_practical p.n p.wn
      then elim (mbsrtowcs 0 mem true s (chunk p.n p.wn) p.state) [
        | none ↦ out_of_fuel
        | some o ↦ elim o.result [
          | none ↦ done (abandon ws p (chunk p.n p.wn) o)
          | some l ↦ chunk_loop fuel mem ws (advance ws p (chunk p.n p.wn) l o)
        ]
      ]
      else done p
]

-- The state with a new word, if `st` is no null pointer.
unfoldable pub overwrite : Option ℕ → ℕ → Option ℕ
overwrite none w = none
overwrite (some v) w = some w

-- Behind a call of mbrtowc at `s`; `next` is the next round.
unfoldable pub take_read : (Progress → Ending Progress) → Progress → ℕ → Read → Ending Progress
take_read next p s (character l c w) = next (record p {
  s = some (s + l);
  n = p.n - l;
  wn = p.wn - 1;
  cnt = add 1 p.cnt;
  out = p.out ++ (c ∷ []);
  touched = larger p.touched (length p.out + 1);
  state = overwrite p.state w;
})
take_read next p s (terminator w) = done (record p {
  s = none;
  out = p.out ++ (0 ∷ []);
  state = overwrite p.state w;
  touched = larger p.touched (length p.out + 1);
})
take_read next p s (invalid w) =
    done (record p { cnt = none; state = overwrite p.state w; eilseq = true })
take_read next p s (incomplete w) = elim p.state [
  | none ↦ null_state
  | some v ↦ done (record p { state = some 0 })
]

-- The second loop. A character takes one at least from `wn`.
unfoldable pub read_chars : ℕ → Reader → Memory → Progress → Ending Progress
read_chars zero mbrtowc mem p = out_of_fuel
read_chars (suc fuel) mbrtowc mem p = elim p.s [
  | none ↦ done p
  | some s ↦
      if not (p.wn == 0) && not (p.n == 0)
      then take_read (read_chars fuel mbrtowc mem) p s (mbrtowc mem s p.n p.state)
      else done p
]

-- `if (wcs) *src = s; return cnt;`
unfoldable pub outcome_of : Bool → Progress → Outcome
outcome_of ws p = record {
  chars = if ws then p.out else [];
  result = p.cnt;
  source = if ws then elim p.s [ none ↦ null | some s ↦ at s ] else kept;
  state = p.state;
  eilseq = p.eilseq;
}

-- The number of places: those of `wbuf` where `wcs` is null.
unfoldable pub places : Bool → ℕ → ℕ
places ws wn = if ws then wn else 256

-- The second loop behind the first.
unfoldable pub second_loop : Reader → Memory → Ending Progress → Ending Progress
second_loop mbrtowc mem (done p) = read_chars (suc p.wn) mbrtowc mem p
second_loop mbrtowc mem null_state = null_state
second_loop mbrtowc mem out_of_fuel = out_of_fuel

unfoldable pub returned : Bool → Ending Progress → Ending Outcome
returned ws (done p) = done (outcome_of ws p)
returned ws null_state = null_state
returned ws out_of_fuel = out_of_fuel

unfoldable pub both_loops : Reader → Memory → Bool → ℕ → ℕ → ℕ → Option ℕ → Ending Progress
both_loops mbrtowc mem ws s n wn st = second_loop mbrtowc mem (
    chunk_loop (suc n) mem ws (record {
      s = some s;
      n = n;
      wn = places ws wn;
      cnt = some 0;
      out = [];
      state = st;
      eilseq = false;
      touched = 0;
    }))

unfoldable pub mbsnrtowcs : Reader → Memory → Bool → ℕ → ℕ → ℕ → Option ℕ → Ending Outcome
mbsnrtowcs mbrtowc mem ws s n wn st = returned ws (both_loops mbrtowc mem ws s n wn st)
