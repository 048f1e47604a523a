-- ===== src/Multibyte/Mbsrtowcs.antt =====
-- `mbsrtowcs` of musl-multibyte/mbsrtowcs.c on a little-endian machine with a 64-bit size_t.
use android_vshell.Base.{
  ℕ, zero, suc, ◌+◌, ◌-◌, ◌*◌, ◌%◌, ◌^◌, Bool, true, false, ◌&&◌, bit_and, bit_or,
}
use android_vshell.Base.{Option, none, some, List, [], ◌∷◌, ◌++◌, leb, ◌==◌, if◌then◌else◌}
use android_vshell.Multibyte.Table.{sub32, is_ascii}
use android_vshell.Multibyte.Step.{Memory, char, stop, decode, skip, next_char, next_skip}

abbrev pub size_mod : ℕ
size_mod = 2 ^ 64

-- `*(uint32_t*)s`
unfoldable pub load32 : Memory → ℕ → ℕ
load32 mem s = mem s + 2 ^ 8 * mem (s + 1) + 2 ^ 16 * mem (s + 2) + 2 ^ 24 * mem (s + 3)

-- `!((w | w-0x01010101) & 0x80808080)`
unfoldable pub is_ascii_word : ℕ → Bool
is_ascii_word w = bit_and (bit_or w (sub32 w 0x01010101)) 0x80808080 == 0

-- How a loop ends: `wn` is 0, or a `break` with `wn`, `c` and `s`. The fuel of the model ran out.
pub data Exit : Type 0 where
  full : ℕ → Exit
  broke : ℕ → ℕ → ℕ → Exit
  out_of_fuel : Exit

-- The word-wise copy: the characters written, and the new `wn` and `s`.
-- The fuel is `wn` at the start, and each round takes 4 from `wn`.
unfoldable pub copy_words : ℕ → Memory → ℕ → ℕ → List ℕ × ℕ × ℕ
copy_words zero mem wn s = ([], wn, s)
copy_words (suc fuel) mem wn s =
    let rest = copy_words fuel mem (wn - 4) (s + 4) in
    if leb 5 wn && is_ascii_word (load32 mem s)
    then (mem s ∷ mem (s + 1) ∷ mem (s + 2) ∷ mem (s + 3) ∷ rest.0, rest.1, rest.2)
    else ([], wn, s)

abbrev pub written {ℓ} : {A : Type ℓ} → List ℕ → List ℕ × A → List ℕ × A
written ws r = (ws ++ r.0, r.1)

-- The test before the word-wise copy.
unfoldable pub copy_ascii : Memory → ℕ → ℕ → List ℕ × ℕ × ℕ
copy_ascii mem wn s =
    if is_ascii (mem s) && (s % 4 == 0) then copy_words wn mem wn s else ([], wn, s)

-- The loop that writes. A round takes at least one from `wn`, so `wn + 1` is enough fuel.
unfoldable pub write_loop : ℕ → Memory → ℕ → ℕ → List ℕ × Exit
write_loop zero mem wn s = ([], out_of_fuel)
write_loop (suc fuel) mem zero s = ([], full s)
write_loop (suc fuel) mem (suc wn) s =
    let (ws, wn', s') = copy_ascii mem (suc wn) s in
    written ws (elim (next_char mem s') [
      | char c s'' ↦ written (c ∷ []) (write_loop fuel mem (wn' - 1) s'')
      | stop c s'' ↦ ([], broke wn' c s'')
    ])

-- The word-wise loop of the counting mode: the number of characters passed, and the new `s`.
unfoldable pub skip_words : ℕ → Memory → ℕ → ℕ → Option (ℕ × ℕ)
skip_words zero mem n s = none
skip_words (suc fuel) mem n s =
    let rest = skip_words fuel mem (n + 4) (s + 4) in
    if is_ascii_word (load32 mem s) then rest else some (n, s)

unfoldable pub skip_ascii : ℕ → Memory → ℕ → ℕ → Option (ℕ × ℕ)
skip_ascii fuel mem n s =
    if is_ascii (mem s) && (s % 4 == 0) then skip_words fuel mem n s else some (n, s)

-- The loop with a null `ws`. `n` is the number of characters passed, by which the source lowers
-- `wn`; the result is `n`, `c` and `s` at the `break`, or `none` where the fuel ran out.
unfoldable pub count_loop : ℕ → Memory → ℕ → ℕ → Option (ℕ × ℕ × ℕ)
count_loop zero mem n s = none
count_loop (suc fuel) mem n s = elim (skip_ascii fuel mem n s) [
  | none ↦ none
  | some (n', s') ↦ elim (next_skip mem s') [
    | char c s'' ↦ count_loop fuel mem (n' + 1) s''
    | stop c s'' ↦ some (n', c, s'')
  ]
]

-- What becomes of `*src`.
pub data Source : Type 0 where
  kept null : Source
  at : ℕ → Source

-- `result` is `none` for (size_t)-1. `state` is the word at `st`, if `st` is no null pointer.
pub record Outcome : Type 0 where
  pub chars : List ℕ
  pub result : Option ℕ
  pub source : Source
  pub state : Option ℕ
  pub eilseq : Bool

-- The common end, with the number of characters that `wn` was lowered by.
unfoldable pub finish : Memory → Bool → List ℕ → ℕ → ℕ → ℕ → Option ℕ → Outcome
finish mem ws out n c s state =
    if (c == 0) && (mem s == 0)
    then record {
      chars = if ws then out ++ (0 ∷ []) else out;
      result = some n;
      source = if ws then null else kept;
      state = state;
      eilseq = false;
    }
    else record {
      chars = out;
      result = none;
      source = if ws then at s else kept;
      state = state;
      eilseq = true;
    }

-- `wn0-wn` at a `break`, or the return from within the loop.
unfoldable pub end_write : Memory → ℕ → Option ℕ → List ℕ × Exit → Option Outcome
end_write mem wn₀ state (out, full s) =
    some (record { chars = out; result = some wn₀; source = at s; state = state; eilseq = false })
end_write mem wn₀ state (out, broke wn c s) =
    some (finish mem true out ((wn₀ + size_mod - wn) % size_mod) c s state)
end_write mem wn₀ state (out, out_of_fuel) = none

unfoldable pub end_count : Memory → Option ℕ → Option (ℕ × ℕ × ℕ) → Option Outcome
end_count mem state none = none
end_count mem state (some (n, c, s)) = some (finish mem false [] (n % size_mod) c s state)

-- `goto resume`. The source lowers `wn` with no test, so a `wn` of 0 wraps.
unfoldable pub resume : Memory → ℕ → ℕ → ℕ → List ℕ × Exit
resume mem wn c s = elim (decode mem c s) [
  | char c' s' ↦
      let wn' = (wn + size_mod - 1) % size_mod in
      written (c' ∷ []) (write_loop (suc wn') mem wn' s')
  | stop c' s' ↦ ([], broke wn c' s')
]

-- `goto resume0`.
unfoldable pub resume_count : ℕ → Memory → ℕ → ℕ → Option (ℕ × ℕ × ℕ)
resume_count fuel mem c s = elim (skip mem c s) [
  | char c' s' ↦ count_loop fuel mem 1 s'
  | stop c' s' ↦ some (0, c', s')
]

-- The state left by an earlier call: 0 with a null `st`.
abbrev pub pending : Option ℕ → ℕ
pending none = 0
pending (some c) = c

-- `ws` says whether the destination is given; without it the string is only measured, and `fuel`
-- bounds the rounds. `none` means that this bound was too small.
unfoldable pub mbsrtowcs : ℕ → Memory → Bool → ℕ → ℕ → Option ℕ → Option Outcome
mbsrtowcs fuel mem true s wn st =
    if pending st == 0
    then end_write mem wn st (write_loop (suc wn) mem wn s)
    else end_write mem wn (some 0) (resume mem wn (pending st) s)
mbsrtowcs fuel mem false s wn st =
    if pending st == 0
    then end_count mem st (count_loop fuel mem 0 s)
    else end_count mem st (resume_count fuel mem (pending st) s)
