-- ===== src/Multibyte/Arithmetic.antt =====
-- The words that mbsrtowcs.c builds, as plain arithmetic.
use android_vshell.Base.{ℕ, ◌+◌, ◌-◌, ◌*◌, ◌≤◌, ◌<◌, ◌≡◌, Bool, true, false, not, ◌&&◌, ◌||◌}
use android_vshell.Base.{Option, none, some, ltb, leb, if◌then◌else◌, arith}
use android_vshell.Multibyte.Table.{lead_state, is_not_trail}
use android_vshell.Multibyte.Step.{Memory, Step, char, stop, add_trail, has_flag}
use android_vshell.Multibyte.Lead.{marks, is_second, lead_state-marks, add_trail_lem, has_flag-top}

-- 0x80 to 0xbf
unfoldable pub is_trail : ℕ → Bool
is_trail n = leb 0x80 n && ltb n 0xc0

-- The character at an address and the address behind it, in plain arithmetic.
unfoldable pub read_char : Memory → ℕ → Option (ℕ × ℕ)
read_char mem s =
    let b = mem s in
    let t = s + 1 in
    let n₁ = mem t in
    let n₂ = mem (t + 1) in
    let n₃ = mem (t + 2) in
    if leb 1 b && ltb b 0x80
    then some (b, t)
    else if ltb b 0xc2 || leb 0xf5 b
    then none
    else if ltb b 0xe0
    then if is_second b n₁ then some ((b - 0xc0) * 64 + (n₁ - 0x80), t + 1) else none
    else if ltb b 0xf0
    then if is_second b n₁ && is_trail n₂
      then some (((b - 0xe0) * 64 + (n₁ - 0x80)) * 64 + (n₂ - 0x80), t + 2)
      else none
    else if is_second b n₁ && is_trail n₂ && is_trail n₃
    then some ((((b - 0xf0) * 64 + (n₁ - 0x80)) * 64 + (n₂ - 0x80)) * 64 + (n₃ - 0x80), t + 3)
    else none

pub second_trail : (b n : ℕ) → is_second b n ≡ true → (0x80 ≤ n) × (n < 0xc0)
unfolding is_second
second_trail b n h = ground arith

pub trail_test : (n : ℕ) → n < 256 → is_not_trail n ≡ not (is_trail n)
unfolding is_trail is_not_trail
trail_test n h = ground arith

abbrev pub forget : Step → Option (ℕ × ℕ)
forget (char c s) = some (c, s)
forget (stop c s) = none

-- The word after the second byte, and whether its top bit asks for a third.
pub after_second :
    (b n : ℕ)
    → 0xc2 ≤ b
    → b < 0xf5
    → is_second b n ≡ true
    → (add_trail (lead_state b) n ≡ marks b * 64 + (n - 0x80))
      × (has_flag (add_trail (lead_state b) n) 31 ≡ leb 0xe0 b)
unfolding marks
after_second b n lo hi ok =
    let (l, h) = second_trail b n ok in
    let sum : add_trail (lead_state b) n ≡ marks b * 64 + (n - 0x80) =
      omega (arith, add_trail_lem (lead_state b) n l h, lead_state-marks b lo hi) in
    (sum, ground (arith, sum, has_flag-top (add_trail (lead_state b) n)))

-- The third byte of a sequence of three, and of a sequence of four.
pub after_third :
    (b n m : ℕ)
    → 0xe0 ≤ b
    → b < 0xf0
    → is_second b n ≡ true
    → is_trail m ≡ true
    → (add_trail (add_trail (lead_state b) n) m ≡ ((b - 0xe0) * 64 + (n - 0x80)) * 64 + (m - 0x80))
      × (has_flag (add_trail (add_trail (lead_state b) n) m) 31 ≡ false)
unfolding marks is_trail
after_third b n m lo hi ok ok' =
    let (l, h) = second_trail b n ok in
    let first = (after_second b n (omega arith) (omega arith) ok).0 in
    let mark : marks b ≡ 0x3000000 + (b - 0xe0) = ground arith in
    let bounds : (0x80 ≤ m) × (m < 0xc0) = ground arith in
    let sum : add_trail (add_trail (lead_state b) n) m
        ≡ ((b - 0xe0) * 64 + (n - 0x80)) * 64 + (m - 0x80) =
      omega (arith, add_trail_lem (add_trail (lead_state b) n) m bounds.0 bounds.1, first, mark) in
    (sum, ground (arith, sum, has_flag-top (add_trail (add_trail (lead_state b) n) m)))

pub after_third_of_four :
    (b n m : ℕ)
    → 0xf0 ≤ b
    → b < 0xf5
    → is_second b n ≡ true
    → is_trail m ≡ true
    → (add_trail (add_trail (lead_state b) n) m
        ≡ 0xc0000000 + ((b - 0xf0) * 64 + (n - 0x80)) * 64 + (m - 0x80))
      × (has_flag (add_trail (add_trail (lead_state b) n) m) 31 ≡ true)
unfolding marks is_trail
after_third_of_four b n m lo hi ok ok' =
    let (l, h) = second_trail b n ok in
    let first = (after_second b n (omega arith) (omega arith) ok).0 in
    let mark : marks b ≡ 0x30c0000 + (b - 0xf0) = ground arith in
    let bounds : (0x80 ≤ m) × (m < 0xc0) = ground arith in
    let sum : add_trail (add_trail (lead_state b) n) m
        ≡ 0xc0000000 + ((b - 0xf0) * 64 + (n - 0x80)) * 64 + (m - 0x80) =
      omega (arith, add_trail_lem (add_trail (lead_state b) n) m bounds.0 bounds.1, first, mark) in
    (sum, ground (arith, sum, has_flag-top (add_trail (add_trail (lead_state b) n) m)))

pub after_fourth :
    (b n m k : ℕ)
    → 0xf0 ≤ b
    → b < 0xf5
    → is_second b n ≡ true
    → is_trail m ≡ true
    → is_trail k ≡ true
    → add_trail (add_trail (add_trail (lead_state b) n) m) k
      ≡ (((b - 0xf0) * 64 + (n - 0x80)) * 64 + (m - 0x80)) * 64 + (k - 0x80)
unfolding is_trail
after_fourth b n m k lo hi ok ok' ok'' =
    let (l, h) = second_trail b n ok in
    let third = (after_third_of_four b n m lo hi ok ok').0 in
    let bounds : ((0x80 ≤ m) × (m < 0xc0)) × (0x80 ≤ k) × (k < 0xc0) = ground arith in
    omega
      (arith, add_trail_lem (add_trail (add_trail (lead_state b) n) m) k bounds.1 bounds.2, third)
