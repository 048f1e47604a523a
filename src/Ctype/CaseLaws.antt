-- ===== src/Ctype/CaseLaws.antt =====
-- The case mapping: what it does on ASCII and on Latin letters.
use android_vshell.Base.{
  ℕ, ◌+◌, ◌-◌, ◌<◌, ◌≡◌, refl, sym, ap, arith, Bool, true, false, ◌&&◌, Option, none, some, leb,
  ◌==◌, ==_iff, if◌then◌else◌, every_until, every_until-holds,
}
use android_vshell.Ctype.Alpha.{alpha_table}
use android_vshell.Ctype.Class.{iswalpha, table_bit}
use android_vshell.Ctype.CaseMaps.{casemaps}
use android_vshell.Ctype.Pairs.{pairs}
use android_vshell.Ctype.Case.{
  plus, minus, base, map_case, casemap_loop, pair_loop, is_uncased, cased, towcase, towupper,
  towlower,
}

-- Equal, and not `none`.
abbrev gives : ℕ → Option ℕ → Bool
gives c none = false
gives c (some d) = c == d

-- The lower case letter of ASCII.
abbrev ascii_lower : ℕ → ℕ
ascii_lower c = if leb b'A' c && leb c b'Z' then c + 32 else c

abbrev ascii_upper : ℕ → ℕ
ascii_upper c = if leb b'a' c && leb c b'z' then c - 32 else c

ascii_computed :
    every_until (λ c. gives (ascii_lower c) (towlower c) && gives (ascii_upper c) (towupper c)) 128
    ≡ true
unfolding every_until towlower towupper towcase iswalpha table_bit alpha_table is_uncased cased
    casemap_loop casemaps base plus minus map_case pair_loop pairs
ascii_computed = refl

gives_sound : (c : ℕ) (o : Option ℕ) → gives c o ≡ true → o ≡ some c
gives_sound c none h = absurd (ground (arith, h))
gives_sound c (some d) h = ap some (sym ((==_iff c d).0 h))

-- On ASCII the case mapping moves exactly the 26 letters of the other case, by 32.
towlower-towupper_ascii :
    (c : ℕ)
    → c < 128
    → (towlower c ≡ some (if leb b'A' c && leb c b'Z' then c + 32 else c))
      × (towupper c ≡ some (if leb b'a' c && leb c b'z' then c - 32 else c))
towlower-towupper_ascii c h =
    let both = every_until-holds _ 128 h ascii_computed in
    (
      gives_sound (ascii_lower c) (towlower c) (ground (arith, both)),
      gives_sound (ascii_upper c) (towupper c) (ground (arith, both)),
    )

-- Mapping twice in the same direction.
unfoldable settles : Bool → ℕ → Bool
settles lower c = elim (towcase lower c) [ none ↦ false | some d ↦ gives d (towcase lower d) ]

settles_computed : (lower : Bool) → every_until (settles lower) 0x250 ≡ true
unfolding settles every_until towcase iswalpha table_bit alpha_table is_uncased cased casemap_loop
    casemaps base plus minus map_case pair_loop pairs
settles_computed true = refl
settles_computed false = refl

-- Below 0x250, in ASCII and the Latin letters of the following blocks, a mapped character is mapped to
-- itself when it is mapped again in the same direction.
pub towcase-towcase :
    (lower : Bool) (c d : ℕ) → c < 0x250 → towcase lower c ≡ some d → towcase lower d ≡ some d
unfolding settles
towcase-towcase lower c d h mapped =
    let settled = every_until-holds (settles lower) 0x250 h (settles_computed lower) in
    gives_sound d (towcase lower d) (ground (arith, settled, mapped))
