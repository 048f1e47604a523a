-- ===== src/Multibyte/Encode.antt =====
-- A round of mbsrtowcs.c against the encoding form UTF-8.
use android_vshell.Base.{ℕ, ◌+◌, ◌-◌, ◌*◌, ◌≤◌, ◌<◌, ◌≡◌, sym, true, false}
use android_vshell.Base.{some, ltb, arith, Bool-cases, ◌⊎◌, inl, inr}
use android_vshell.Base.{length, ◌↔◌, ◌∙◌, ap, ltb→lt}
use android_vshell.Multibyte.Table.{}
use android_vshell.Multibyte.Step.{Memory, next_char}
use android_vshell.Multibyte.Utf8.{encode, Holds, IsBytes}
use android_vshell.Multibyte.Lead.{is_second}
use android_vshell.Multibyte.Arithmetic.{is_trail, read_char, forget}
use android_vshell.Multibyte.Decode.{next_char-read_char}

-- The characters that the table accepts: the scalar values, and those up to 0x11ffff.
abbrev pub IsAccepted : ℕ → Type 0
IsAccepted c = (0 < c) × (c < 0x120000) × ((c < 0xd800) ⊎ (0xdfff < c))

pub read_char-encode :
    (mem : Memory) (s c : ℕ)
    → IsAccepted c
    → Holds mem s (encode c)
    → read_char mem s ≡ some (c, s + length (encode c))
unfolding read_char encode is_second is_trail
read_char-encode mem s c ok h = ground arith

module _ (mem : Memory) (s c t : ℕ) (small : IsBytes mem) (h : read_char mem s ≡ some (c, t)) where
  read_char-IsAccepted : IsAccepted c
  unfolding read_char is_second is_trail
  read_char-IsAccepted = ground (arith, small s)

  -- What a sequence of four bytes holds.
  four_bytes_read :
      0xf0 ≤ mem s
      → (t ≡ s + 4)
        × (mem s < 0xf5)
        × (0x80 ≤ mem (s + 1))
        × (mem (s + 1) < 0xc0)
        × (mem s ≡ 0xf0 → 0x90 ≤ mem (s + 1))
        × (0x80 ≤ mem (s + 1 + 1))
        × (mem (s + 1 + 1) < 0xc0)
        × (0x80 ≤ mem (s + 1 + 2))
        × (mem (s + 1 + 2) < 0xc0)
        × (c
            ≡ (((mem s - 0xf0) * 64 + (mem (s + 1) - 0x80)) * 64 + (mem (s + 1 + 1) - 0x80)) * 64
              + (mem (s + 1 + 2) - 0x80))
  unfolding read_char is_second is_trail
  four_bytes_read p = ground arith

  -- What a sequence of three bytes holds.
  three_bytes_read :
      0xe0 ≤ mem s
      → mem s < 0xf0
      → (t ≡ s + 3)
        × (0x80 ≤ mem (s + 1))
        × (mem (s + 1) < 0xc0)
        × (mem s ≡ 0xe0 → 0xa0 ≤ mem (s + 1))
        × (0x80 ≤ mem (s + 1 + 1))
        × (mem (s + 1 + 1) < 0xc0)
        × (c ≡ ((mem s - 0xe0) * 64 + (mem (s + 1) - 0x80)) * 64 + (mem (s + 1 + 1) - 0x80))
  unfolding read_char is_second is_trail
  three_bytes_read p q = ground arith

  few_bytes_read : mem s < 0xe0 → (t ≡ s + length (encode c)) × Holds mem s (encode c)
  unfolding read_char encode is_second
  few_bytes_read p = elim (Bool-cases (ltb c 0x80)) [
    | inl one ↦ rw one (ground arith, ground arith)
    | inr more ↦
        let two : ltb c 0x800 ≡ true = ground arith in rw (more, two) (ground arith, ground arith)
  ]

  three_bytes_back :
      0xe0 ≤ mem s → mem s < 0xf0 → (t ≡ s + length (encode c)) × Holds mem s (encode c)
  unfolding encode
  three_bytes_back p q =
      let f = three_bytes_read p q in
      let a : ltb c 0x80 ≡ false = ground arith in
      let b : ltb c 0x800 ≡ false = ground arith in
      let d : ltb c 0x10000 ≡ true = ground arith in rw (a, b, d) (omega arith, omega arith)

  four_bytes_back : 0xf0 ≤ mem s → (t ≡ s + length (encode c)) × Holds mem s (encode c)
  unfolding encode
  four_bytes_back p =
      let f = four_bytes_read p in
      let a : ltb c 0x80 ≡ false = ground arith in
      let b : ltb c 0x800 ≡ false = ground arith in
      let d : ltb c 0x10000 ≡ false = ground arith in
      let e : s + 1 + 1 + 1 ≡ s + 1 + 2 = omega arith in rw (a, b, d, e) (omega arith, omega arith)

  encode-read_char : (t ≡ s + length (encode c)) × Holds mem s (encode c)
  encode-read_char = elim (Bool-cases (ltb (mem s) 0xe0)) [
    | inl few ↦ few_bytes_read (ltb→lt _ _ few)
    | inr more ↦ elim (Bool-cases (ltb (mem s) 0xf0)) [
      | inl three ↦ three_bytes_back (ground arith) (ltb→lt _ _ three)
      | inr four ↦ four_bytes_back (ground arith)
    ]
  ]

-- In a memory of bytes, a round of the decoder reads `c` at `s` and goes on at `t` exactly if `c` is an
-- accepted character, its encoding stands at `s`, and `t` is the address behind it.
pub next_char-encode :
    (mem : Memory) (s c t : ℕ)
    → IsBytes mem
    → (forget (next_char mem s) ≡ some (c, t))
      ↔ (IsAccepted c × Holds mem s (encode c) × (t ≡ s + length (encode c)))
next_char-encode mem s c t small = rw (next_char-read_char mem s small) (
  λ h. (
    read_char-IsAccepted mem s c t small h,
    (encode-read_char mem s c t small h).1,
    (encode-read_char mem s c t small h).0,
  ),
  λ h. read_char-encode mem s c h.0 h.1 ∙ ap (λ u. some (c, u)) (sym h.2),
)
