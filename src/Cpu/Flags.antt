-- ===== src/Cpu/Flags.antt =====
-- The flags of cpu-features.c and cpu-features.h, by the numbers of their bits, and how they are set.
use android_vshell.Base.{ℕ, ◌^◌, Bool, not, bit_and, bit_or, ◌==◌, List, [], ◌∷◌, if◌then◌else◌}

-- `x & (1 << k)` is not 0.
unfoldable pub has : ℕ → ℕ → Bool
has x k = not (bit_and x (2 ^ k) == 0)

-- The word with these bits.
unfoldable pub mask : List ℕ → ℕ
mask [] = 0
mask (k ∷ ks) = bit_or (2 ^ k) (mask ks)

-- `if (test) features |= flags;`
unfoldable pub set_if : Bool → List ℕ → ℕ → ℕ
set_if test flags features = if test then bit_or features (mask flags) else features
