-- ===== src/Multibyte/Lead.antt =====
-- What internal.c's table says of each lead byte, found by evaluating all its entries.
use android_vshell.Base.{
  ℕ, ◌+◌, ◌-◌, ◌*◌, ◌%◌, ◌^◌, ◌≤◌, ◌<◌, ◌≡◌, refl, sym, Bool, true, false, not, ◌&&◌,
}
use android_vshell.Base.{
  ltb, leb, ◌==◌, ==_iff, if◌then◌else◌, every_until, every_until-holds, arith,
}
use mathlib.Core.Path.{subst}
use android_vshell.Base.Bits.{bit_and-pow, bit_or-fields}
use android_vshell.Multibyte.Table.{u32_mod, sub32, lead_state, is_out_of_bounds}
use android_vshell.Multibyte.Table.{bittab}
use android_vshell.Multibyte.Step.{add_trail, has_flag}

-- The payload and the marker bits below the interval of the next byte.
unfoldable pub marks : ℕ → ℕ
marks b =
    if ltb b 0xe0
    then b - 0xc0
    else if ltb b 0xf0
    then 0x3000000 + (b - 0xe0)
    else 0x30c0000 + (b - 0xf0)

-- The bytes that may come second. (Unicode ends F4 at 8F; the table lets 9F through.)
unfoldable pub is_second : ℕ → ℕ → Bool
is_second b n =
    leb (if b == 0xe0 then 0xa0 else if b == 0xf0 then 0x90 else 0x80) n
    && ltb n (if b == 0xed then 0xa0 else if b == 0xf4 then 0xa0 else 0xc0)

abbrev same : Bool → Bool → Bool
same true b = b
same false b = not b

same_sound : (a b : Bool) → same a b ≡ true → a ≡ b
same_sound true b h = sym h
same_sound false b h = ground arith

abbrev agrees_low : ℕ → Bool
agrees_low b = lead_state b % 2 ^ 26 == marks b

abbrev agrees_next : ℕ → Bool
agrees_next b =
    every_until (λ n. same (is_out_of_bounds (lead_state b) n) (not (is_second b n))) 256

abbrev agrees : ℕ → Bool
agrees i = agrees_low (i + 0xc2) && agrees_next (i + 0xc2)

all_agree : every_until agrees 51 ≡ true
unfolding every_until lead_state bittab is_out_of_bounds marks is_second
all_agree = refl

and_parts : (p q : Bool) → (p && q) ≡ true → (p ≡ true) × (q ≡ true)
and_parts p q h = ground arith

lead_agrees : (b : ℕ) → 0xc2 ≤ b → b < 0xf5 → (agrees_low b ≡ true) × (agrees_next b ≡ true)
lead_agrees b lo hi =
    let e : b - 0xc2 + 0xc2 ≡ b = omega arith in
    let h : agrees (b - 0xc2) ≡ true = every_until-holds agrees 51 (omega arith) all_agree in
    subst (λ (t : ℕ). (agrees_low t ≡ true) × (agrees_next t ≡ true)) e (and_parts _ _ h)

-- The low 26 bits of a lead byte's state.
pub lead_state-marks : (b : ℕ) → 0xc2 ≤ b → b < 0xf5 → lead_state b % 2 ^ 26 ≡ marks b
lead_state-marks b lo hi = (==_iff _ _).0 (lead_agrees b lo hi).0

-- The second bytes that its state lets through.
pub out_of_bounds-second :
    (b n : ℕ)
    → 0xc2 ≤ b
    → b < 0xf5
    → n < 256
    → is_out_of_bounds (lead_state b) n ≡ not (is_second b n)
out_of_bounds-second b n lo hi small =
    same_sound _ _ (every_until-holds _ 256 small (lead_agrees b lo hi).1)

abbrev flags_agree : ℕ → Bool
flags_agree i =
    same (has_flag (lead_state (i + 0xc2)) 25) (leb 0xe0 (i + 0xc2))
    && same (has_flag (lead_state (i + 0xc2)) 19) (leb 0xf0 (i + 0xc2))

all_flags_agree : every_until flags_agree 51 ≡ true
unfolding every_until lead_state bittab has_flag
all_flags_agree = refl

-- The flags that say whether a third and a fourth byte follow.
pub lead_state_flags :
    (b : ℕ)
    → 0xc2 ≤ b
    → b < 0xf5
    → (has_flag (lead_state b) 25 ≡ leb 0xe0 b) × (has_flag (lead_state b) 19 ≡ leb 0xf0 b)
lead_state_flags b lo hi =
    let e : b - 0xc2 + 0xc2 ≡ b = omega arith in
    let h : flags_agree (b - 0xc2) ≡ true =
      every_until-holds flags_agree 51 (omega arith) all_flags_agree in
    let (third, fourth) = and_parts _ _ h in
    subst
      (λ (t : ℕ).
        (has_flag (lead_state t) 25 ≡ leb 0xe0 t) × (has_flag (lead_state t) 19 ≡ leb 0xf0 t))
      e (same_sound _ _ third, same_sound _ _ fourth)

-- A trailing byte moves the low 26 bits up and fills the six that fall free.
pub add_trail_lem : (c n : ℕ) → 0x80 ≤ n → n < 0xc0 → add_trail c n ≡ c % 2 ^ 26 * 64 + (n - 0x80)
unfolding add_trail
add_trail_lem c n lo hi =
    let e : c * 2 ^ 6 % u32_mod ≡ c % 2 ^ 26 * 2 ^ 6 = omega arith in
    let d : sub32 n 0x80 ≡ n - 0x80 = omega arith in
    rw (e, d) (bit_or-fields 6 (c % 2 ^ 26) (n - 0x80) (omega arith))

pub has_flag-top : (c : ℕ) → c < 2 ^ 32 → has_flag c 31 ≡ leb (2 ^ 31) c
unfolding has_flag
has_flag-top c h = ground (arith, bit_and-pow 31 c)
