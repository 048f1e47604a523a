-- ===== src/Cpu/Number.antt =====
-- `parse_number` and its two callers. A range of memory is the list of its bytes; an int is the
-- 32-bit pattern that wrapping arithmetic leaves, since the source ignores overflow.
use android_vshell.Base.{ℕ, ◌+◌, ◌-◌, ◌*◌, ◌%◌, ◌^◌, Option, none, some, List, [], ◌∷◌}
use android_vshell.Base.{ltb, leb, if◌then◌else◌}

-- `(unsigned)(c - from)`
abbrev pub distance : ℕ → ℕ → ℕ
distance from c = (c + 2 ^ 32 - from) % 2 ^ 32

-- The digit `d` of the loop, or a `break`.
unfoldable pub digit : ℕ → ℕ → Option ℕ
digit base c =
    let d =
      if ltb (distance b'0' c) 10
      then some (distance b'0' c)
      else if ltb (distance b'a' c) 6
      then some (distance b'a' c + 10)
      else if ltb (distance b'A' c) 6
      then some (distance b'A' c + 10)
      else none in
    elim d [ none ↦ none | some v ↦ if leb base v then none else some v ]

-- `val` and the bytes from `p` on, when the loop ends.
unfoldable pub number_loop : ℕ → ℕ → List ℕ → ℕ × List ℕ
number_loop base val [] = (val, [])
number_loop base val (c ∷ cs) = elim (digit base c) [
  | none ↦ (val, c ∷ cs)
  | some d ↦ number_loop base ((val * base + d) % 2 ^ 32) cs
]

-- `none` is a null pointer: no digit was read.
unfoldable pub parse_number : ℕ → List ℕ → Option (ℕ × List ℕ)
parse_number base [] = none
parse_number base (c ∷ cs) = elim (digit base c) [
  | none ↦ none
  | some d ↦ some (number_loop base 0 (c ∷ cs))
]

unfoldable pub parse_decimal : List ℕ → Option (ℕ × List ℕ)
parse_decimal = parse_number 10

unfoldable pub parse_hexadecimal : List ℕ → Option (ℕ × List ℕ)
parse_hexadecimal = parse_number 16
