-- ===== src/Multibyte/Table.antt =====
-- The state table of musl-multibyte/internal.c and the tests of internal.h, on 32-bit words.
use android_vshell.Base.{ℕ, ◌+◌, ◌-◌, ◌*◌, ◌/◌, ◌%◌, ◌^◌, Bool, not, bit_and, bit_or, List, [], ◌∷◌}
use android_vshell.Base.{ltb, leb, ◌==◌, if◌then◌else◌, get_or}

abbrev pub u32_mod : ℕ
u32_mod = 2 ^ 32

-- `a - b` on unsigned int.
abbrev pub sub32 : ℕ → ℕ → ℕ
sub32 a b = (a + u32_mod - b) % u32_mod

-- R(a,b), the interval [a,b) of the next byte in the upper six bits, as a negative offset.
unfoldable pub range_code : ℕ → ℕ → ℕ
range_code a b = if a == 0x80 then sub32 0x40 b * 2 ^ 23 % u32_mod else sub32 0 a * 2 ^ 23 % u32_mod

-- C(x)
unfoldable pub two_bytes : ℕ → ℕ
unfolding range_code
two_bytes x = if ltb x 2 then u32_mod - 1 else bit_or (range_code 0x80 0xc0) x

-- D(x)
unfoldable pub two_bytes_high : ℕ → ℕ
unfolding two_bytes
two_bytes_high x = two_bytes (x + 16)

-- E(x)
unfoldable pub three_bytes : ℕ → ℕ
unfolding range_code
three_bytes x =
    let next =
      if x == 0
      then range_code 0xa0 0xc0
      else if x == 0xd
      then range_code 0x80 0xa0
      else range_code 0x80 0xc0 in
    bit_or (bit_or next (range_code 0x80 0xc0 / 2 ^ 6)) x

-- F(x)
unfoldable pub four_bytes : ℕ → ℕ
unfolding range_code
four_bytes x =
    let next =
      if leb 5 x
      then 0
      else if x == 0
      then range_code 0x90 0xc0
      else if x == 4
      then range_code 0x80 0xa0
      else range_code 0x80 0xc0 in
    bit_or (bit_or (bit_or next (range_code 0x80 0xc0 / 2 ^ 6)) (range_code 0x80 0xc0 / 2 ^ 12)) x

unfoldable pub bittab : List ℕ
unfolding two_bytes two_bytes_high three_bytes four_bytes
bittab =
    two_bytes 0x2
    ∷ two_bytes 0x3
    ∷ two_bytes 0x4
    ∷ two_bytes 0x5
    ∷ two_bytes 0x6
    ∷ two_bytes 0x7
    ∷ two_bytes 0x8
    ∷ two_bytes 0x9
    ∷ two_bytes 0xa
    ∷ two_bytes 0xb
    ∷ two_bytes 0xc
    ∷ two_bytes 0xd
    ∷ two_bytes 0xe
    ∷ two_bytes 0xf
    ∷ two_bytes_high 0x0
    ∷ two_bytes_high 0x1
    ∷ two_bytes_high 0x2
    ∷ two_bytes_high 0x3
    ∷ two_bytes_high 0x4
    ∷ two_bytes_high 0x5
    ∷ two_bytes_high 0x6
    ∷ two_bytes_high 0x7
    ∷ two_bytes_high 0x8
    ∷ two_bytes_high 0x9
    ∷ two_bytes_high 0xa
    ∷ two_bytes_high 0xb
    ∷ two_bytes_high 0xc
    ∷ two_bytes_high 0xd
    ∷ two_bytes_high 0xe
    ∷ two_bytes_high 0xf
    ∷ three_bytes 0x0
    ∷ three_bytes 0x1
    ∷ three_bytes 0x2
    ∷ three_bytes 0x3
    ∷ three_bytes 0x4
    ∷ three_bytes 0x5
    ∷ three_bytes 0x6
    ∷ three_bytes 0x7
    ∷ three_bytes 0x8
    ∷ three_bytes 0x9
    ∷ three_bytes 0xa
    ∷ three_bytes 0xb
    ∷ three_bytes 0xc
    ∷ three_bytes 0xd
    ∷ three_bytes 0xe
    ∷ three_bytes 0xf
    ∷ four_bytes 0x0
    ∷ four_bytes 0x1
    ∷ four_bytes 0x2
    ∷ four_bytes 0x3
    ∷ four_bytes 0x4
    ∷ []

-- SA and SB, the first and the last byte that start a longer sequence.
abbrev pub sa : ℕ
sa = 0xc2

abbrev pub sb : ℕ
sb = 0xf4

-- `*s-SA > SB-SA`
abbrev pub is_not_lead : ℕ → Bool
is_not_lead b = ltb (sb - sa) (sub32 b sa)

-- `bittab[*s-SA]`, for a byte that passed the test.
unfoldable pub lead_state : ℕ → ℕ
unfolding bittab
lead_state b = get_or bittab (b - sa) 0

-- `(int32_t)(c)>>26` as a 32-bit pattern.
abbrev pub offset : ℕ → ℕ
offset c = if ltb c (2 ^ 31) then c / 2 ^ 26 else c / 2 ^ 26 + (2 ^ 32 - 2 ^ 6)

-- OOB(c,b) is not zero.
unfoldable pub is_out_of_bounds : ℕ → ℕ → Bool
is_out_of_bounds c b = not (
    bit_and (bit_or (sub32 (b / 2 ^ 3) 0x10) ((b / 2 ^ 3 + offset c) % u32_mod)) (u32_mod - 8) == 0)

-- `*s-1u < 0x7f`
abbrev pub is_ascii : ℕ → Bool
is_ascii b = ltb (sub32 b 1) 0x7f

-- `*s-0x80u >= 0x40`
unfoldable pub is_not_trail : ℕ → Bool
is_not_trail b = leb 0x40 (sub32 b 0x80)
