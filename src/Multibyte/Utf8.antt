-- ===== src/Multibyte/Utf8.antt =====
-- The encoding form UTF-8, as the standard defines it, and strings in memory.
use android_vshell.Base.{ℕ, ◌+◌, ◌/◌, ◌%◌, ◌<◌, ◌≡◌, ◌⊎◌, List, [], ◌∷◌, ◌++◌, ltb, if◌then◌else◌}
use android_vshell.Multibyte.Step.{Memory}

-- A code point that is no surrogate.
abbrev pub IsScalar : ℕ → Type 0
IsScalar c = (c < 0x110000) × ((c < 0xd800) ⊎ (0xdfff < c))

unfoldable pub encode : ℕ → List ℕ
encode c =
    if ltb c 0x80
    then c ∷ []
    else if ltb c 0x800
    then (0xc0 + c / 64) ∷ (0x80 + c % 64) ∷ []
    else if ltb c 0x10000
    then (0xe0 + c / 4096) ∷ (0x80 + c / 64 % 64) ∷ (0x80 + c % 64) ∷ []
    else (0xf0 + c / 262144) ∷ (0x80 + c / 4096 % 64) ∷ (0x80 + c / 64 % 64) ∷ (0x80 + c % 64) ∷ []

unfoldable pub encode_all : List ℕ → List ℕ
encode_all [] = []
encode_all (c ∷ cs) = encode c ++ encode_all cs

-- The bytes from the address on.
abbrev pub Holds : Memory → ℕ → List ℕ → Type 0
Holds mem s [] = Unit {0}
Holds mem s (b ∷ bs) = (mem s ≡ b) × Holds mem (s + 1) bs

abbrev pub IsBytes : Memory → Type 0
IsBytes mem = (a : ℕ) → mem a < 256
