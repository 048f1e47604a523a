-- ===== src/Iconv/Units.antt =====
-- `get_16`, `put_16`, `get_32` and `put_32` of musl-locale/iconv.c, and a wchar_t in memory.
use android_vshell.Base.{ℕ, ◌+◌, ◌-◌, ◌*◌, ◌/◌, ◌%◌, ◌^◌, bit_or, List, [], ◌∷◌, get_or}
use Prim.Native.Nat.{bit_xor}

-- `s[i]`
abbrev pub byte : List ℕ → ℕ → ℕ
byte s i = get_or s i 0

unfoldable pub get_16 : List ℕ → ℕ → ℕ
get_16 s type = let e = type % 2 in bit_or (byte s e * 2 ^ 8) (byte s (1 - e))

-- The two bytes written.
unfoldable pub put_16 : ℕ → ℕ → List ℕ
put_16 c type =
    let high = c / 2 ^ 8 % 2 ^ 8 in
    let low = c % 2 ^ 8 in
    let e = type % 2 in byte (high ∷ low ∷ []) e ∷ byte (high ∷ low ∷ []) (1 - e) ∷ []

unfoldable pub get_32 : List ℕ → ℕ → ℕ
get_32 s type =
    let e = type % 4 in
    bit_or
      (bit_or (bit_or (byte s e * 2 ^ 24) (byte s (bit_xor e 1) * 2 ^ 16))
        (byte s (bit_xor e 2) * 2 ^ 8))
      (byte s (bit_xor e 3))

-- The four bytes written: `c>>24` stands at `e`, and so on, so that at `i` stands what is at `e^i`.
unfoldable pub put_32 : ℕ → ℕ → List ℕ
put_32 c type =
    let parts = c / 2 ^ 24 % 2 ^ 8 ∷ c / 2 ^ 16 % 2 ^ 8 ∷ c / 2 ^ 8 % 2 ^ 8 ∷ c % 2 ^ 8 ∷ [] in
    let e = type % 4 in
    byte parts e
    ∷ byte parts (bit_xor e 1)
    ∷ byte parts (bit_xor e 2)
    ∷ byte parts (bit_xor e 3)
    ∷ []

-- `*(wchar_t *)s` on a little-endian machine, and back.
unfoldable pub load_wchar : List ℕ → ℕ
load_wchar s = byte s 0 + 2 ^ 8 * byte s 1 + 2 ^ 16 * byte s 2 + 2 ^ 24 * byte s 3

unfoldable pub store_wchar : ℕ → List ℕ
store_wchar c = c % 2 ^ 8 ∷ c / 2 ^ 8 % 2 ^ 8 ∷ c / 2 ^ 16 % 2 ^ 8 ∷ c / 2 ^ 24 % 2 ^ 8 ∷ []
