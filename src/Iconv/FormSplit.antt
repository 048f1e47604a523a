-- ===== src/Iconv/FormSplit.antt =====
-- Bytes put together by get_16, get_32 or as a wchar_t, split again: the encodings of the number read.
use android_vshell.Base.{
  zero, suc, ℕ, ◌+◌, ◌-◌, ◌*◌, ◌%◌, ◌^◌, ◌<◌, ◌≤◌, ◌≡◌, refl, arith, drop, List, [], ◌∷◌, ◌++◌, All,
  length,
}
use Prim.Native.Nat.{bit_xor}
use android_vshell.Iconv.UnitLaws.{join_four}
use android_vshell.Iconv.Units.{byte, get_16, get_32, load_wchar}
use android_vshell.Iconv.Decode.{}
use android_vshell.Iconv.FormLaws.{join_two}
use android_vshell.Iconv.Forms.{two_le, two_be, four_le, four_be}

abbrev pub IsBytes : List ℕ → Type 0
IsBytes s = All (λ b. b < 256) s

same_four :
    {a b c d a' b' c' d' : ℕ} {s : List ℕ}
    → a ≡ a'
    → b ≡ b'
    → c ≡ c'
    → d ≡ d'
    → ◌≡◌ {A = List ℕ} (a ∷ b ∷ c ∷ d ∷ s) (a' ∷ b' ∷ c' ∷ d' ∷ s)
same_four p q r t = rw (p, q, r, t) refl

same_two :
    {a b a' b' : ℕ} {s : List ℕ} → a ≡ a' → b ≡ b' → ◌≡◌ {A = List ℕ} (a ∷ b ∷ s) (a' ∷ b' ∷ s)
same_two p q = rw (p, q) refl

pub four_be-get_32 :
    (s : List ℕ)
    → IsBytes s
    → 4 ≤ length s
    → get_32 s 192 < 0x110000
    → s ≡ four_be (get_32 s 192) ++ drop 4 s
unfolding get_32
four_be-get_32 [] small long h = ground arith
four_be-get_32 (a ∷ []) small long h = ground arith
four_be-get_32 (a ∷ b ∷ []) small long h = ground arith
four_be-get_32 (a ∷ b ∷ d ∷ []) small long h = ground arith
four_be-get_32 (a ∷ b ∷ d ∷ e ∷ s) (p, (q, (r, (t, _)))) long h =
    let v : get_32 (a ∷ b ∷ d ∷ e ∷ s) 192 ≡ a * 2 ^ 24 + b * 2 ^ 16 + d * 2 ^ 8 + e =
      join_four a b d e q r t in
    let n = get_32 (a ∷ b ∷ d ∷ e ∷ s) 192 in
    same_four (omega (arith, v, h)) (omega (arith, v, h)) (omega (arith, v, h))
      (omega (arith, v, h))

pub four_le-get_32 :
    (s : List ℕ)
    → IsBytes s
    → 4 ≤ length s
    → get_32 s 195 < 0x110000
    → s ≡ four_le (get_32 s 195) ++ drop 4 s
unfolding get_32
four_le-get_32 [] small long h = ground arith
four_le-get_32 (a ∷ []) small long h = ground arith
four_le-get_32 (a ∷ b ∷ []) small long h = ground arith
four_le-get_32 (a ∷ b ∷ d ∷ []) small long h = ground arith
four_le-get_32 (a ∷ b ∷ d ∷ e ∷ s) (p, (q, (r, (t, _)))) long h =
    let v : get_32 (a ∷ b ∷ d ∷ e ∷ s) 195 ≡ e * 2 ^ 24 + d * 2 ^ 16 + b * 2 ^ 8 + a =
      join_four e d b a r q p in
    let n = get_32 (a ∷ b ∷ d ∷ e ∷ s) 195 in
    same_four (omega (arith, v, h)) (omega (arith, v, h)) (omega (arith, v, h))
      (omega (arith, v, h))

pub four_le-load_wchar :
    (s : List ℕ)
    → IsBytes s
    → 4 ≤ length s
    → load_wchar s < 0x110000
    → s ≡ four_le (load_wchar s) ++ drop 4 s
unfolding load_wchar
four_le-load_wchar [] small long h = ground arith
four_le-load_wchar (a ∷ []) small long h = ground arith
four_le-load_wchar (a ∷ b ∷ []) small long h = ground arith
four_le-load_wchar (a ∷ b ∷ d ∷ []) small long h = ground arith
four_le-load_wchar (a ∷ b ∷ d ∷ e ∷ s) (p, (q, (r, (t, _)))) long h =
    same_four (omega (arith, h)) (omega (arith, h)) (omega (arith, h)) (omega (arith, h))

pub two_be-get_16 :
    (type : ℕ) (s : List ℕ)
    → type % 2 ≡ 0
    → IsBytes s
    → 2 ≤ length s
    → s ≡ two_be (get_16 s type) ++ drop 2 s
unfolding get_16
two_be-get_16 type [] even small long = ground arith
two_be-get_16 type (a ∷ []) even small long = ground arith
two_be-get_16 type (a ∷ b ∷ s) even (p, (q, _)) long =
    let v = join_two a b q in rw (even, v) (same_two (omega arith) (omega arith))

pub two_le-get_16 :
    (type : ℕ) (s : List ℕ)
    → type % 2 ≡ 1
    → IsBytes s
    → 2 ≤ length s
    → s ≡ two_le (get_16 s type) ++ drop 2 s
unfolding get_16
two_le-get_16 type [] even small long = ground arith
two_le-get_16 type (a ∷ []) even small long = ground arith
two_le-get_16 type (a ∷ b ∷ s) odd (p, (q, _)) long =
    let v = join_two b a p in rw (odd, v) (same_two (omega arith) (omega arith))

pub byte_small : (s : List ℕ) (i : ℕ) → IsBytes s → byte s i < 256
byte_small [] i small = omega arith
byte_small (b ∷ s) zero small = small.0
byte_small (b ∷ s) (suc i) small = byte_small s i small.1

pub get_16_small : (s : List ℕ) (type : ℕ) → IsBytes s → get_16 s type < 2 ^ 16
unfolding get_16
get_16_small s type small =
    let low = byte_small s (1 - type % 2) small in
    rw (join_two (byte s (type % 2)) (byte s (1 - type % 2)) low)
      (omega (arith, low, byte_small s (type % 2) small))

pub get_32_small : (s : List ℕ) (type : ℕ) → IsBytes s → get_32 s type < 2 ^ 32
unfolding get_32
get_32_small s type small =
    let e = type % 4 in
    let b = byte_small s (bit_xor e 1) small in
    let c = byte_small s (bit_xor e 2) small in
    let d = byte_small s (bit_xor e 3) small in
    rw
      (join_four (byte s e) (byte s (bit_xor e 1)) (byte s (bit_xor e 2)) (byte s (bit_xor e 3)) b c
        d)
      (omega (arith, b, c, d, byte_small s e small))

pub load_wchar_small : (s : List ℕ) → IsBytes s → load_wchar s < 2 ^ 32
unfolding load_wchar
load_wchar_small s small =
    omega (
      arith,
      byte_small s 0 small,
      byte_small s 1 small,
      byte_small s 2 small,
      byte_small s 3 small,
    )

pub IsBytes-drop : (n : ℕ) (s : List ℕ) → IsBytes s → IsBytes (drop n s)
IsBytes-drop zero s small = small
IsBytes-drop (suc n) [] small = tt
IsBytes-drop (suc n) (b ∷ s) small = IsBytes-drop n s small.1

pub long_drop : (s : List ℕ) → 4 ≤ length s → 2 ≤ length (drop 2 s)
long_drop [] h = omega arith
long_drop (a ∷ []) h = omega arith
long_drop (a ∷ b ∷ s) h = omega arith
