-- ===== src/Cpu/CpuList.antt =====
-- `CpuList` and the functions on it.
use android_vshell.Base.{ℕ, zero, suc, ◌+◌, ◌-◌, ◌%◌, ◌^◌, Bool, bit_and, bit_or}
use android_vshell.Base.{Option, none, some, List, [], ◌∷◌, ltb, leb, ◌==◌, if◌then◌else◌, length}
use android_vshell.Base.Bits.{bit}
use android_vshell.Cpu.Number.{parse_decimal}

pub record CpuList : Type 0 where
  pub mask : ℕ

unfoldable pub cpulist_init : CpuList
cpulist_init = record { mask = 0 }

unfoldable pub cpulist_and : CpuList → CpuList → CpuList
cpulist_and a b = record { mask = bit_and a.mask b.mask }

unfoldable pub cpulist_set : CpuList → ℕ → CpuList
cpulist_set list index =
    if ltb index 32 then record { mask = bit_or list.mask (2 ^ index) } else list

-- __builtin_popcount, on the lowest `n` bits.
unfoldable pub popcount : ℕ → ℕ → ℕ
popcount zero x = 0
popcount (suc n) x = popcount n x + bit n x

unfoldable pub cpulist_count : CpuList → ℕ
cpulist_count list = popcount 32 list.mask

-- `a <= b` on int, for the patterns of the two.
abbrev pub int_le : ℕ → ℕ → Bool
int_le a b = leb ((a + 2 ^ 31) % 2 ^ 32) ((b + 2 ^ 31) % 2 ^ 32)

-- `rounds` rounds of `cpulist_set(list, val)` with `val++`.
unfoldable pub set_rounds : ℕ → CpuList → ℕ → CpuList
set_rounds zero list val = list
set_rounds (suc rounds) list val = set_rounds rounds (cpulist_set list val) ((val + 1) % 2 ^ 32)

-- The values from `start` to `end`, if there are any.
unfoldable pub set_values : CpuList → ℕ → ℕ → CpuList
set_values list start end =
    let rounds = (end + 2 ^ 32 - start) % 2 ^ 32 + 1 in
    if int_le start end then set_rounds rounds list start else list

abbrev pub int_max : ℕ
int_max = 2 ^ 31 - 1

-- `for (val = start; val <= end; val++)`. No value of `val` fails the test where `end` is INT_MAX:
-- the loop does not end before `val++` overflows, and there is no result.
unfoldable pub set_range : CpuList → ℕ → ℕ → Option CpuList
set_range list start end = if end == int_max then none else some (set_values list start end)

-- The item before the next comma, and what lies behind that comma.
unfoldable pub split_item : List ℕ → List ℕ × List ℕ
split_item [] = ([], [])
split_item (c ∷ cs) =
    let rest = split_item cs in if c == b',' then ([], cs) else (c ∷ rest.0, rest.1)

-- The first and the last value of an item, or BAD_FORMAT.
unfoldable pub parse_item : List ℕ → Option (ℕ × ℕ)
parse_item item = elim (parse_decimal item) [
  | none ↦ none
  | some (start, []) ↦ some (start, start)
  | some (start, c ∷ rest) ↦
      if c == b'-'
      then elim (parse_decimal rest) as (λ r. Option (ℕ × ℕ)) [
        | none ↦ none
        | some (end, more) ↦ some (start, end)
      ]
      else some (start, start)
]

-- The outer loop; each round takes a byte at least. `none`: a range does not end, or the fuel ran
-- out.
unfoldable pub parse_items : ℕ → CpuList → List ℕ → Option CpuList
parse_items zero list line = none
parse_items (suc fuel) list [] = some list
parse_items (suc fuel) list (c ∷ cs) =
    let (item, rest) = split_item (c ∷ cs) in
    let next = elim (parse_item item) as (λ r. Option CpuList) [
      | none ↦ some list
      | some (start, end) ↦ elim (set_range list start end) [
        | none ↦ none
        | some list' ↦ parse_items fuel list' rest
      ]
    ] in
    if c == b'\n' then some list else next

unfoldable pub cpulist_parse : CpuList → List ℕ → Option CpuList
cpulist_parse list line = parse_items (suc (length line)) list line
