-- ===== src/Ctype/ClassLaws.antt =====
-- The classes do not read outside their tables, and which classes exclude one another.
use android_vshell.Base.{
  ℕ, ◌+◌, ◌*◌, ◌/◌, ◌%◌, ◌^◌, ◌<◌, ◌≤◌, ◌≡◌, refl, arith, Bool, true, false, ◌&&◌,
}
use android_vshell.Base.{
  none, some, List, [], ◌∷◌, ltb, leb, ltb→lt, length, get_elem?, Returns, bind-Returns, Bool-cases,
  inl, inr, every_until, every_until-holds, Option-cases, zero, suc,
}
use android_vshell.Ctype.Alpha.{alpha_table}
use android_vshell.Ctype.Punct.{punct_table}
use android_vshell.Ctype.Class.{table_bit, iswalpha, iswpunct, iswcntrl, termux_iswprint}

-- A character that is printed is no control character.
termux_iswprint-iswcntrl : (wc : ℕ) → wc < 2 ^ 32 → (termux_iswprint wc && iswcntrl wc) ≡ false
unfolding termux_iswprint iswcntrl
termux_iswprint-iswcntrl wc h = ground arith

get_elem?-Returns : (xs : List ℕ) (i : ℕ) → i < length xs → Returns (get_elem? xs i)
get_elem?-Returns [] i h = absurd (omega arith)
get_elem?-Returns (x ∷ xs) zero h = (x, refl)
get_elem?-Returns (x ∷ xs) (suc i) h = get_elem?-Returns xs i (omega arith)

-- The block that the entry `i` names lies in a table of `n` bytes.
unfoldable is_inside : List ℕ → ℕ → ℕ → Bool
is_inside table n i = elim (get_elem? table i) [
  | none ↦ false
  | some block ↦ leb (block * 32 + 32) n
]

inside_block :
    (table : List ℕ) (n i : ℕ)
    → is_inside table n i ≡ true
    → (block : ℕ) × (get_elem? table i ≡ some block) × (block * 32 + 32 ≤ n)
unfolding is_inside
inside_block table n i h = elim (Option-cases (get_elem? table i)) [
  | inl missing ↦ absurd (ground (arith, missing, h))
  | inr (block, found) ↦ (block, found, ground (arith, found, h))
]

table_bit_total :
    (table : List ℕ) (wc : ℕ)
    → every_until (is_inside table (length table)) 512 ≡ true
    → wc < 0x20000
    → Returns (table_bit table wc)
unfolding table_bit
table_bit_total table wc sound h =
    let (block, found, fits) =
      inside_block table (length table) (wc / 2 ^ 8)
        (every_until-holds _ 512 (omega arith) sound) in
    rw found (
      bind-Returns (get_elem?-Returns table (block * 32 + wc % 2 ^ 8 / 2 ^ 3) (omega (arith, fits)))
        (λ bits. (_, refl)))

alpha_table_sound : every_until (is_inside alpha_table (length alpha_table)) 512 ≡ true
unfolding every_until is_inside alpha_table
alpha_table_sound = refl

punct_table_sound : every_until (is_inside punct_table (length punct_table)) 512 ≡ true
unfolding every_until is_inside punct_table
punct_table_sound = refl

-- For every character `iswalpha` and `iswpunct` return: no index leaves their tables.
pub iswalpha-iswpunct_total : (wc : ℕ) → Returns (iswalpha wc) × Returns (iswpunct wc)
unfolding iswalpha iswpunct
iswalpha-iswpunct_total wc = elim (Bool-cases (ltb wc 0x20000)) [
  | inl low ↦
      let h = ltb→lt _ _ low in
      rw low (
        table_bit_total alpha_table wc alpha_table_sound h,
        table_bit_total punct_table wc punct_table_sound h,
      )
  | inr high ↦ rw high ((_, refl), (false, refl))
]
