-- ===== src/Multibyte/Step.antt =====
-- One character of musl-multibyte/mbsrtowcs.c. Memory is a function from addresses to bytes; both
-- loops of the source share the tests, and each has its own way to take a longer sequence.
use android_vshell.Base.{ℕ, ◌+◌, ◌-◌, ◌*◌, ◌%◌, ◌^◌, Bool, not, bit_and, bit_or}
use android_vshell.Base.{◌==◌, if◌then◌else◌}
use android_vshell.Multibyte.Table.{u32_mod, sub32, is_not_lead, lead_state, is_out_of_bounds}
use android_vshell.Multibyte.Table.{is_ascii, is_not_trail}

abbrev pub Memory : Type 0
Memory = ℕ → ℕ

-- The character that was read and the address behind it, or `c` and `s` at a `break`.
pub data Step : Type 0 where
  char : ℕ → ℕ → Step
  stop : ℕ → ℕ → Step

-- `c = (c<<6) | *s++-0x80`
unfoldable pub add_trail : ℕ → ℕ → ℕ
add_trail c b = bit_or (c * 2 ^ 6 % u32_mod) (sub32 b 0x80)

-- `c & (1U<<k)` is not zero.
unfoldable pub has_flag : ℕ → ℕ → Bool
has_flag c k = not (bit_and c (2 ^ k) == 0)

-- From the label `resume`; `s` is the address of the first byte after the lead byte.
unfoldable pub decode : Memory → ℕ → ℕ → Step
decode mem c s =
    if is_out_of_bounds c (mem s)
    then stop c (s - 1)
    else (let c₁ = add_trail c (mem s) in
        if not (has_flag c₁ 31)
        then char c₁ (s + 1)
        else if is_not_trail (mem (s + 1))
        then stop c₁ (s - 1)
        else (let c₂ = add_trail c₁ (mem (s + 1)) in
            if not (has_flag c₂ 31)
            then char c₂ (s + 2)
            else if is_not_trail (mem (s + 2))
            then stop c₂ (s - 1)
            else char (add_trail c₂ (mem (s + 2))) (s + 3)))

-- From the label `resume0`, where no character is built: `char 0` holds the address behind it.
unfoldable pub skip : Memory → ℕ → ℕ → Step
skip mem c s =
    if is_out_of_bounds c (mem s)
    then stop c (s - 1)
    else if not (has_flag c 25)
    then char 0 (s + 1)
    else if is_not_trail (mem (s + 1))
    then stop c (s - 1)
    else if not (has_flag c 19)
    then char 0 (s + 2)
    else if is_not_trail (mem (s + 2))
    then stop c (s - 1)
    else char 0 (s + 3)

-- The part of a round behind the word-wise copy: an ASCII byte, or a lead byte and what follows.
unfoldable pub next_char : Memory → ℕ → Step
next_char mem s =
    if is_ascii (mem s)
    then char (mem s) (s + 1)
    else if is_not_lead (mem s)
    then stop 0 s
    else decode mem (lead_state (mem s)) (s + 1)

-- The same for the loop that only counts.
unfoldable pub next_skip : Memory → ℕ → Step
next_skip mem s =
    if is_ascii (mem s)
    then char 0 (s + 1)
    else if is_not_lead (mem s)
    then stop 0 s
    else skip mem (lead_state (mem s)) (s + 1)
