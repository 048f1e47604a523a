-- ===== src/Multibyte/Words.antt =====
-- The word-wise test of mbsrtowcs.c: a word that passes holds four ASCII bytes, none of them null.
use android_vshell.Base.{
  ℕ, ◌+◌, ◌*◌, ◌^◌, ◌≤◌, ◌<◌, ◌≡◌, refl, ap, ◌∙◌, true, bit_and, bit_or, arith, ==_iff,
}
use android_vshell.Base.Bits.{bit, bit-bit_and, bit-bit_or}
use android_vshell.Multibyte.Table.{sub32, is_ascii}
use android_vshell.Multibyte.Step.{Memory}
use android_vshell.Multibyte.Mbsrtowcs.{load32, is_ascii_word}
use android_vshell.Multibyte.Utf8.{IsBytes}

-- A bit that the mask selects is clear in both words.
clear_bits :
    (k w v m : ℕ) → bit_and (bit_or w v) m ≡ 0 → bit k m ≡ 1 → (bit k w ≡ 0) × (bit k v ≡ 0)
clear_bits k w v m h one =
    let z : bit k (bit_and (bit_or w v) m) ≡ 0 = ap (bit k) h ∙ zero_bit k in
    (
      omega (arith, z, one, bit-bit_and k (bit_or w v) m, bit-bit_or k w v),
      omega (arith, z, one, bit-bit_and k (bit_or w v) m, bit-bit_or k w v),
    )
  where
    zero_bit : (k : ℕ) → bit k 0 ≡ 0
    zero_bit k = omega arith

module _ (b₀ b₁ b₂ b₃ : ℕ) (h₀ : b₀ < 256) (h₁ : b₁ < 256) (h₂ : b₂ < 256) (h₃ : b₃ < 256) where
  abbrev word : ℕ
  word = b₀ + 2 ^ 8 * b₁ + 2 ^ 16 * b₂ + 2 ^ 24 * b₃

  module _ (h : is_ascii_word word ≡ true) where
    none_set : bit_and (bit_or word (sub32 word 0x01010101)) 0x80808080 ≡ 0
    unfolding is_ascii_word
    none_set = (==_iff _ _).0 h

    clear : (k : ℕ) → bit k 0x80808080 ≡ 1 → (bit k word ≡ 0) × (bit k (sub32 word 0x01010101) ≡ 0)
    clear k one = clear_bits k word (sub32 word 0x01010101) 0x80808080 none_set one

    below : (b₀ < 128) × (b₁ < 128) × (b₂ < 128) × (b₃ < 128)
    below = (
      omega (arith, clear 7 refl),
      omega (arith, clear 15 refl),
      omega (arith, clear 23 refl),
      omega (arith, clear 31 refl),
    )

    nonzero₀ : 1 ≤ b₀
    nonzero₀ = omega (arith, clear 7 refl, below)

    nonzero₁ : 1 ≤ b₁
    nonzero₁ = omega (arith, clear 15 refl, below, nonzero₀)

    nonzero₂ : 1 ≤ b₂
    nonzero₂ = omega (arith, clear 23 refl, below, nonzero₀, nonzero₁)

    nonzero₃ : 1 ≤ b₃
    nonzero₃ = omega (arith, clear 31 refl, below, nonzero₀, nonzero₁, nonzero₂)

    nonzero : (1 ≤ b₀) × (1 ≤ b₁) × (1 ≤ b₂) × (1 ≤ b₃)
    nonzero = (nonzero₀, nonzero₁, nonzero₂, nonzero₃)

pub load32-ascii :
    (mem : Memory) (s : ℕ)
    → IsBytes mem
    → is_ascii_word (load32 mem s) ≡ true
    → (is_ascii (mem s) ≡ true)
      × (is_ascii (mem (s + 1)) ≡ true)
      × (is_ascii (mem (s + 2)) ≡ true)
      × (is_ascii (mem (s + 3)) ≡ true)
unfolding load32
load32-ascii mem s small h =
    let b =
      below (mem s) (mem (s + 1)) (mem (s + 2)) (mem (s + 3)) (small s) (small (s + 1))
        (small (s + 2)) (small (s + 3)) h in
    let n =
      nonzero (mem s) (mem (s + 1)) (mem (s + 2)) (mem (s + 3)) (small s) (small (s + 1))
        (small (s + 2)) (small (s + 3)) h in
    (ground (arith, b, n), ground (arith, b, n), ground (arith, b, n), ground (arith, b, n))
