-- ===== src/Iconv/UnitLaws.antt =====
-- `put_16`, `put_32` and a stored wchar_t are read back by their counterparts.
use android_vshell.Base.{
  ℕ, ◌+◌, ◌*◌, ◌/◌, ◌%◌, ◌^◌, ◌<◌, ◌≡◌, ◌⊎◌, inl, inr, ◌∙◌, arith, bit_or, List, ◌++◌,
}
use android_vshell.Base.Bits.{bit_or-fields}
use android_vshell.Iconv.Units.{get_16, put_16, get_32, put_32, load_wchar, store_wchar}

-- Four bytes put together.
pub join_four :
    (a b c d : ℕ)
    → b < 256
    → c < 256
    → d < 256
    → bit_or (bit_or (bit_or (a * 2 ^ 24) (b * 2 ^ 16)) (c * 2 ^ 8)) d
      ≡ a * 2 ^ 24 + b * 2 ^ 16 + c * 2 ^ 8 + d
join_four a b c d p q r =
    let first = bit_or-fields 24 a (b * 2 ^ 16) (omega arith) in
    let two : a * 2 ^ 24 + b * 2 ^ 16 ≡ (a * 2 ^ 8 + b) * 2 ^ 16 = omega arith in
    let second = bit_or-fields 16 (a * 2 ^ 8 + b) (c * 2 ^ 8) (omega arith) in
    let three : (a * 2 ^ 8 + b) * 2 ^ 16 + c * 2 ^ 8 ≡ (a * 2 ^ 16 + b * 2 ^ 8 + c) * 2 ^ 8 =
      omega arith in
    let third = bit_or-fields 8 (a * 2 ^ 16 + b * 2 ^ 8 + c) d r in
    rw (first, two, second, three, third) (omega arith)

mod-two : (t : ℕ) → (t % 2 ≡ 0) ⊎ (t % 2 ≡ 1)
mod-two t = ground arith

pub get_16-put_16 : (c t : ℕ) (rest : List ℕ) → c < 2 ^ 16 → get_16 (put_16 c t ++ rest) t ≡ c
unfolding get_16 put_16
get_16-put_16 c t rest h = elim (mod-two t) [
  | inl e ↦ rw (e, bit_or-fields 8 (c / 2 ^ 8 % 2 ^ 8) (c % 2 ^ 8) (omega arith)) (omega arith)
  | inr e ↦ rw (e, bit_or-fields 8 (c / 2 ^ 8 % 2 ^ 8) (c % 2 ^ 8) (omega arith)) (omega arith)
]

-- The types are either both ends first.
abbrev pub IsOrder : ℕ → Type 0
IsOrder t = (t % 4 ≡ 0) ⊎ (t % 4 ≡ 3)

pub get_32-put_32 :
    (c t : ℕ) (rest : List ℕ) → IsOrder t → c < 2 ^ 32 → get_32 (put_32 c t ++ rest) t ≡ c
unfolding get_32 put_32
get_32-put_32 c t rest (inl e) h = rw e (
    join_four (c / 2 ^ 24 % 2 ^ 8) (c / 2 ^ 16 % 2 ^ 8) (c / 2 ^ 8 % 2 ^ 8) (c % 2 ^ 8)
      (omega arith) (omega arith) (omega arith)
    ∙ omega arith)
get_32-put_32 c t rest (inr e) h = rw e (
    join_four (c / 2 ^ 24 % 2 ^ 8) (c / 2 ^ 16 % 2 ^ 8) (c / 2 ^ 8 % 2 ^ 8) (c % 2 ^ 8)
      (omega arith) (omega arith) (omega arith)
    ∙ omega arith)

pub load_wchar-store_wchar :
    (c : ℕ) (rest : List ℕ) → c < 2 ^ 32 → load_wchar (store_wchar c ++ rest) ≡ c
unfolding load_wchar store_wchar
load_wchar-store_wchar c rest h = omega arith
