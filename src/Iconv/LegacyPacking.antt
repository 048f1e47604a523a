-- ===== src/Iconv/LegacyPacking.antt =====
-- How the tables of the 8-bit charmaps are packed: ten bits for each entry.
use android_vshell.Base.{
  ℕ, zero, suc, ◌+◌, ◌*◌, ◌/◌, ◌%◌, ◌^◌, ◌<◌, ◌≡◌, refl, sym, ap, ◌∙◌, arith, bit_or, List, [], ◌∷◌,
  All, drop,
}
use native.Mathlib.Nat.{pow-suc, div-div-eq-div-mul}
use android_vshell.Base.Bits.{bit_or-fields, bit_or_comm}
use android_vshell.Iconv.Units.{byte}
use android_vshell.Iconv.Decode.{legacy_index}
use android_vshell.Iconv.Encode.{}

-- The number that the bytes make up, the lowest first.
unfoldable pub value : List ℕ → ℕ
value [] = 0
value (b ∷ bs) = b + 2 ^ 8 * value bs

-- Ten bits from a position in the first byte on.
join_0 :
    (a b rest : ℕ)
    → a < 256
    → bit_or (a / 2 ^ 0) (b * 2 ^ 8 % 2 ^ 10) ≡ (a + 2 ^ 8 * (b + 2 ^ 8 * rest)) / 2 ^ 0 % 2 ^ 10
join_0 a b rest h =
    let high : b * 2 ^ 8 % 2 ^ 10 ≡ b % 2 ^ 2 * 2 ^ 8 = omega arith in
    rw high (
      bit_or_comm (a / 2 ^ 0) (b % 2 ^ 2 * 2 ^ 8)
      ∙ bit_or-fields 8 (b % 2 ^ 2) (a / 2 ^ 0) (omega arith)
      ∙ omega arith)

join_2 :
    (a b rest : ℕ)
    → a < 256
    → bit_or (a / 2 ^ 2) (b * 2 ^ 6 % 2 ^ 10) ≡ (a + 2 ^ 8 * (b + 2 ^ 8 * rest)) / 2 ^ 2 % 2 ^ 10
join_2 a b rest h =
    let high : b * 2 ^ 6 % 2 ^ 10 ≡ b % 2 ^ 4 * 2 ^ 6 = omega arith in
    rw high (
      bit_or_comm (a / 2 ^ 2) (b % 2 ^ 4 * 2 ^ 6)
      ∙ bit_or-fields 6 (b % 2 ^ 4) (a / 2 ^ 2) (omega arith)
      ∙ omega arith)

join_4 :
    (a b rest : ℕ)
    → a < 256
    → bit_or (a / 2 ^ 4) (b * 2 ^ 4 % 2 ^ 10) ≡ (a + 2 ^ 8 * (b + 2 ^ 8 * rest)) / 2 ^ 4 % 2 ^ 10
join_4 a b rest h =
    let high : b * 2 ^ 4 % 2 ^ 10 ≡ b % 2 ^ 6 * 2 ^ 4 = omega arith in
    rw high (
      bit_or_comm (a / 2 ^ 4) (b % 2 ^ 6 * 2 ^ 4)
      ∙ bit_or-fields 4 (b % 2 ^ 6) (a / 2 ^ 4) (omega arith)
      ∙ omega arith)

join_6 :
    (a b rest : ℕ)
    → a < 256
    → bit_or (a / 2 ^ 6) (b * 2 ^ 2 % 2 ^ 10) ≡ (a + 2 ^ 8 * (b + 2 ^ 8 * rest)) / 2 ^ 6 % 2 ^ 10
join_6 a b rest h =
    let high : b * 2 ^ 2 % 2 ^ 10 ≡ b % 2 ^ 8 * 2 ^ 2 = omega arith in
    rw high (
      bit_or_comm (a / 2 ^ 6) (b % 2 ^ 8 * 2 ^ 2)
      ∙ bit_or-fields 2 (b % 2 ^ 8) (a / 2 ^ 6) (omega arith)
      ∙ omega arith)

-- The first five bytes, which are four fields, and the rest.
value_five :
    (map : List ℕ)
    → All (λ b. b < 256) map
    → (value map
        ≡ byte map 0
          + 2 ^ 8
            * (byte map 1
                + 2 ^ 8
                  * (byte map 2
                      + 2 ^ 8 * (byte map 3 + 2 ^ 8 * (byte map 4 + 2 ^ 8 * value (drop 5 map))))))
      × (byte map 0 < 256)
      × (byte map 1 < 256)
      × (byte map 2 < 256)
      × (byte map 3 < 256)
      × (byte map 4 < 256)
      × All (λ b. b < 256) (drop 5 map)
unfolding value
value_five [] h = omega arith
value_five (a ∷ []) h = omega arith
value_five (a ∷ b ∷ []) h = omega arith
value_five (a ∷ b ∷ c ∷ []) h = omega arith
value_five (a ∷ b ∷ c ∷ d ∷ []) h = omega arith
value_five (a ∷ b ∷ c ∷ d ∷ e ∷ map) h =
    (omega arith, h.0, h.1.0, h.1.1.0, h.1.1.1.0, h.1.1.1.1.0, h.1.1.1.1.1)

byte-drop : (n q : ℕ) (map : List ℕ) → byte (drop n map) q ≡ byte map (q + n)
byte-drop zero q map = ap (byte map) (omega arith)
byte-drop (suc n) q [] = refl
byte-drop (suc n) q (b ∷ map) =
    let e : suc (q + n) ≡ q + suc n = omega arith in byte-drop n q map ∙ ap (byte (b ∷ map)) e

-- Four fields on, five bytes on.
legacy_index-drop :
    (map : List ℕ) (k : ℕ)
    → legacy_index map (suc (suc (suc (suc k)))) ≡ legacy_index (drop 5 map) k
unfolding legacy_index
legacy_index-drop map k =
    let n = suc (suc (suc (suc k))) in
    let a : n * 5 / 4 ≡ k * 5 / 4 + 5 = omega arith in
    let b : k * 5 / 4 + 5 + 1 ≡ k * 5 / 4 + 1 + 5 = omega arith in
    let c : 2 * n % 8 ≡ 2 * k % 8 = omega arith in
    rw (a, b, c, byte-drop 5 (k * 5 / 4) map, byte-drop 5 (k * 5 / 4 + 1) map) refl

pow_four : (k : ℕ) → 1024 ^ suc (suc (suc (suc k))) ≡ 1024 ^ 4 * 1024 ^ k
pow_four k = omega (
  arith,
  pow-suc 1024 (suc (suc (suc k))),
  pow-suc 1024 (suc (suc k)),
  pow-suc 1024 (suc k),
  pow-suc 1024 k,
)

-- Where all bytes of a table are below 256, the number that they make up, the lowest byte first, has
-- the index of every entry as its digit to the base 1024.
pub legacy_index-value :
    (map : List ℕ) (k : ℕ)
    → All (λ b. b < 256) map
    → legacy_index map k ≡ value map / 1024 ^ k % 1024
legacy_index-value map zero small =
    let f = value_five map small in
    unfold legacy_index in (join_0 (byte map 0) (byte map 1) 0 f.1 ∙ omega (arith, f.0))
legacy_index-value map (suc zero) small =
    let f = value_five map small in
    unfold legacy_index in (join_2 (byte map 1) (byte map 2) 0 f.2 ∙ omega (arith, f.0, f.1))
legacy_index-value map (suc (suc zero)) small =
    let f = value_five map small in
    unfold legacy_index in (join_4 (byte map 2) (byte map 3) 0 f.3 ∙ omega (arith, f.0, f.1, f.2))
legacy_index-value map (suc (suc (suc zero))) small =
    let f = value_five map small in
    unfold legacy_index in
    (join_6 (byte map 3) (byte map 4) 0 f.4 ∙ omega (arith, f.0, f.1, f.2, f.3))
legacy_index-value map (suc (suc (suc (suc k)))) small =
    let f = value_five map small in
    legacy_index-drop map k
    ∙ legacy_index-value (drop 5 map) k f.6
    ∙ (let e : value (drop 5 map) ≡ value map / 1024 ^ 4 =
          omega (arith, f.0, f.1, f.2, f.3, f.4, f.5) in
        let m : 1024 ^ suc (suc (suc (suc k))) ≡ 1024 ^ 4 * 1024 ^ k = pow_four k in
        rw (m, sym (div-div-eq-div-mul (value map) (1024 ^ 4) (1024 ^ k)))
          (ap (λ n. n / 1024 ^ k % 1024) e))
