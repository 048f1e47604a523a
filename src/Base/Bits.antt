-- ===== src/Base/Bits.antt =====
-- `|` and `&` on numbers of any width: the equation for the lowest bit, single bits, and fields.
use Prim.Native.Nat.{ℕ, zero, suc, ◌+◌, ◌*◌, ◌/◌, ◌%◌, ◌≤◌, ◌^◌, ◌<◌, min, max}
use Prim.Native.Nat.{bit_and, bit_or, digits, bit_and-bitwise, bit_or-bitwise}
use mathlib.Core.Path.{◌≡◌, refl, ap, sym}
use native.Mathlib.Nat.{pow-suc, mul_comm, div-div-eq-div-mul, zero-div}
use native.Mathlib.Omega.{arith}
use android_vshell.Base.Tests.{◌==◌, if◌then◌else◌}

-- `bit_or` and `bit_and` are a recursion on the binary digits of the first number, and any two
-- amounts of fuel that reach its last digit give the same.
module _ (z : ℕ → ℕ) (op : ℕ → ℕ → ℕ) where
  digits-enough :
      (x y fuel more : ℕ) → x ≤ more → x ≤ fuel → digits z op more x y ≡ digits z op fuel x y
  digits-enough zero y zero zero l r = refl
  digits-enough zero y zero (suc more) l r = refl
  digits-enough zero y (suc fuel) zero l r = refl
  digits-enough zero y (suc fuel) (suc more) l r = refl
  digits-enough (suc x) y fuel zero l r = absurd (omega arith)
  digits-enough (suc x) y zero (suc more) l r = absurd (omega arith)
  digits-enough (suc x) y (suc fuel) (suc more) l r =
      let rest = digits-enough (suc x / 2) (y / 2) fuel more (omega arith) (omega arith) in
      ap (λ (low : ℕ). low * 2 + op (suc x % 2) (y % 2)) rest

  -- The fuel that a native operation starts with is the number itself.
  digits-half :
      (x y : ℕ)
      → digits z op (suc x) (suc x) y
        ≡ digits z op (suc x / 2) (suc x / 2) (y / 2) * 2 + op (suc x % 2) (y % 2)
  digits-half x y =
      ap (λ (low : ℕ). low * 2 + op (suc x % 2) (y % 2))
        (digits-enough (suc x / 2) (y / 2) (suc x / 2) x (omega arith) (omega arith))

pub bit_or_step : (x y : ℕ) → bit_or x y ≡ bit_or (x / 2) (y / 2) * 2 + max (x % 2) (y % 2)
bit_or_step zero y = omega (arith, bit_or-bitwise 0 (y / 2), bit_or-bitwise 0 y)
bit_or_step (suc x) y =
    let half = digits-half (λ rest. rest) max x y in
    omega (arith, half, bit_or-bitwise (suc x / 2) (y / 2), bit_or-bitwise (suc x) y)

pub bit_and_step : (x y : ℕ) → bit_and x y ≡ bit_and (x / 2) (y / 2) * 2 + min (x % 2) (y % 2)
bit_and_step zero y = omega (arith, bit_and-bitwise 0 (y / 2), bit_and-bitwise 0 y)
bit_and_step (suc x) y =
    let half = digits-half (λ rest. 0) min x y in
    omega (arith, half, bit_and-bitwise (suc x / 2) (y / 2), bit_and-bitwise (suc x) y)

-- Bit `k` of `x`.
abbrev pub bit : ℕ → ℕ → ℕ
bit k x = x / 2 ^ k % 2

half-pow : (k x : ℕ) → x / 2 ^ suc k ≡ x / 2 / 2 ^ k
half-pow k x = rw (pow-suc 2 k, mul_comm (2 ^ k) 2) (sym (div-div-eq-div-mul x 2 (2 ^ k)))

pub bit-bit_or : (k a b : ℕ) → bit k (bit_or a b) ≡ max (bit k a) (bit k b)
bit-bit_or zero a b = omega (arith, bit_or_step a b)
bit-bit_or (suc k) a b =
    let half : bit_or a b / 2 ≡ bit_or (a / 2) (b / 2) = omega (arith, bit_or_step a b) in
    simp (half-pow, half) (bit-bit_or k (a / 2) (b / 2))

pub bit-bit_and : (k a b : ℕ) → bit k (bit_and a b) ≡ min (bit k a) (bit k b)
bit-bit_and zero a b = omega (arith, bit_and_step a b)
bit-bit_and (suc k) a b =
    let half : bit_and a b / 2 ≡ bit_and (a / 2) (b / 2) = omega (arith, bit_and_step a b) in
    simp (half-pow, half) (bit-bit_and k (a / 2) (b / 2))

zero_below : (n a : ℕ) → a ≤ n → (bit_and a 0 ≡ 0) × (bit_or a 0 ≡ a)
zero_below n zero h = (refl, refl)
zero_below zero (suc a) h = absurd (omega arith)
zero_below (suc n) (suc a) h =
    let half = zero_below n (suc a / 2) (omega arith) in
    (omega (arith, bit_and_step (suc a) 0, half.0), omega (arith, bit_or_step (suc a) 0, half.1))

pub bit_and-zero : (a : ℕ) → bit_and a 0 ≡ 0
bit_and-zero a = (zero_below a a (omega arith)).0

pub bit_or-zero : (a : ℕ) → bit_or a 0 ≡ a
bit_or-zero a = (zero_below a a (omega arith)).1

-- `x & (1 << k)`.
pub bit_and-pow : (k x : ℕ) → bit_and x (2 ^ k) ≡ bit k x * 2 ^ k
bit_and-pow zero x = omega (arith, bit_and_step x 1, bit_and-zero (x / 2))
bit_and-pow (suc k) x =
    let half : 2 ^ suc k / 2 ≡ 2 ^ k = omega (arith, pow-suc 2 k) in
    let low : 2 ^ suc k % 2 ≡ 0 = omega (arith, pow-suc 2 k) in
    let rest : bit_and (x / 2) (2 ^ suc k / 2) ≡ bit k (x / 2) * 2 ^ k =
      rw half (bit_and-pow k (x / 2)) in
    let double : bit k (x / 2) * 2 ^ suc k ≡ bit k (x / 2) * 2 ^ k * 2 =
      omega (arith, ap (λ (t : ℕ). bit k (x / 2) * t) (pow-suc 2 k)) in
    rw (half-pow k x, double) (omega (arith, bit_and_step x (2 ^ suc k), rest, low))

-- `(q << k) | y` is a sum when `y` fits `k` bits.
pub bit_or-fields : (k q y : ℕ) → y < 2 ^ k → bit_or (q * 2 ^ k) y ≡ q * 2 ^ k + y
bit_or-fields zero q y h = let e : y ≡ 0 = omega arith in rw e (omega (arith, bit_or-zero (q * 1)))
bit_or-fields (suc k) q y h =
    let double : q * 2 ^ suc k ≡ q * 2 ^ k * 2 =
      omega (arith, ap (λ (t : ℕ). q * t) (pow-suc 2 k)) in
    let half : q * 2 ^ k * 2 / 2 ≡ q * 2 ^ k = omega arith in
    let rest : bit_or (q * 2 ^ k * 2 / 2) (y / 2) ≡ q * 2 ^ k + y / 2 =
      rw half (bit_or-fields k q (y / 2) (omega (arith, pow-suc 2 k))) in
    rw double (omega (arith, bit_or_step (q * 2 ^ k * 2) y, rest))

pub bit-pow : (k i : ℕ) → bit k (2 ^ i) ≡ (if k == i then 1 else 0)
bit-pow zero zero = refl
bit-pow zero (suc i) = ground (arith, pow-suc 2 i)
bit-pow (suc k) zero = rw (half-pow k 1) (ground (arith, zero-div (2 ^ k)))
bit-pow (suc k) (suc i) =
    let half : 2 ^ suc i / 2 ≡ 2 ^ i = omega (arith, pow-suc 2 i) in
    rw (half-pow k (2 ^ suc i), half) (ground (arith, bit-pow k i))

bit_or_comm_below : (n a b : ℕ) → a ≤ n → b ≤ n → bit_or a b ≡ bit_or b a
bit_or_comm_below zero zero zero p q = refl
bit_or_comm_below zero zero (suc b) p q = absurd (omega arith)
bit_or_comm_below zero (suc a) b p q = absurd (omega arith)
bit_or_comm_below (suc n) a b p q = omega (
  arith,
  bit_or_step a b,
  bit_or_step b a,
  bit_or_comm_below n (a / 2) (b / 2) (omega arith) (omega arith),
)

pub bit_or_comm : (a b : ℕ) → bit_or a b ≡ bit_or b a
bit_or_comm a b = bit_or_comm_below (a + b) a b (omega arith) (omega arith)
