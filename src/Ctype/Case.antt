-- ===== src/Ctype/Case.antt =====
-- `__towcase` of musl-ctype/towctrans.c and its callers, also those of iswlower.c, iswupper.c and
-- wctrans.c. A character is its 32-bit pattern; `none` is a read outside the table of iswalpha.
use android_vshell.Base.{ℕ, suc, ◌+◌, ◌-◌, ◌%◌, ◌^◌, Bool, true, false, not, ◌&&◌, ◌||◌}
use android_vshell.Base.{Option, none, some, List, [], ◌∷◌, ltb, leb, ◌==◌, if◌then◌else◌, ◌>>=◌}
use android_vshell.Base.Int.{ℤ, pos, negsuc}
use android_vshell.Ctype.Class.{sub32, iswalpha}
use android_vshell.Ctype.CaseMaps.{CaseMap, casemaps}
use android_vshell.Ctype.Pairs.{pairs}

-- `wc + d` and `wc - d`.
unfoldable pub plus : ℕ → ℤ → ℕ
plus wc (pos d) = (wc + d) % 2 ^ 32
plus wc (negsuc d) = sub32 wc (suc d)

unfoldable pub minus : ℕ → ℤ → ℕ
minus wc (pos d) = sub32 wc d
minus wc (negsuc d) = (wc + suc d) % 2 ^ 32

abbrev pub is_one : ℤ → Bool
is_one (pos d) = d == 1
is_one (negsuc d) = false

-- The first letter of a row: of the upper case for tolower, else of the lower case.
unfoldable pub base : Bool → CaseMap → ℕ
base true row = row.upper
base false row = plus row.upper row.lower

abbrev pub as_int : Bool → ℕ
as_int true = 1
as_int false = 0

-- What a row makes of its letter.
unfoldable pub map_case : Bool → CaseMap → ℕ → ℕ
map_case lower row wc =
    if is_one row.lower
    then sub32 (wc + as_int lower) (sub32 wc row.upper % 2)
    else if lower
    then plus wc row.lower
    else minus wc row.lower

unfoldable pub casemap_loop : Bool → ℕ → List CaseMap → Option ℕ
casemap_loop lower wc [] = none
casemap_loop lower wc (row ∷ rows) =
    let rest = casemap_loop lower wc rows in
    if ltb (sub32 wc (base lower row)) row.len then some (map_case lower row wc) else rest

unfoldable pub pair_loop : Bool → ℕ → List (ℕ × ℕ) → Option ℕ
pair_loop lower wc [] = none
pair_loop lower wc ((u, l) ∷ rows) =
    let rest = pair_loop lower wc rows in
    if (if lower then u else l) == wc then some (if lower then l else u) else rest

-- The ranges without cased letters.
unfoldable pub is_uncased : ℕ → Bool
is_uncased wc =
    leb (sub32 wc 0x0600) (0x0fff - 0x0600)
    || leb (sub32 wc 0x2e00) (0xa63f - 0x2e00)
    || leb (sub32 wc 0xa800) (0xfeff - 0xa800)

-- Behind the first test.
unfoldable pub cased : Bool → ℕ → ℕ
cased lower wc =
    let deseret = if lower then 0x10400 else 0x10428 in
    let last = if ltb (sub32 wc deseret) 0x28 then if lower then wc + 0x28 else wc - 0x28 else wc in
    let tables = elim (casemap_loop lower wc casemaps) as (λ r. ℕ) [
      | some c ↦ c
      | none ↦ elim (pair_loop lower wc pairs) as (λ r. ℕ) [ some c ↦ c | none ↦ last ]
    ] in
    if lower && ltb (sub32 wc 0x10a0) 0x2e
    then if ltb 0x10c5 wc && not (wc == 0x10c7) && not (wc == 0x10cd)
      then wc
      else wc + 0x2d00 - 0x10a0
    else if not lower && ltb (sub32 wc 0x2d00) 0x26
    then if ltb 0x2d25 wc && not (wc == 0x2d27) && not (wc == 0x2d2d)
      then wc
      else wc + 0x10a0 - 0x2d00
    else tables

unfoldable pub towcase : Bool → ℕ → Option ℕ
towcase lower wc = do
  alpha ← iswalpha wc
  some (if not alpha || is_uncased wc then wc else cased lower wc)

unfoldable pub towupper : ℕ → Option ℕ
towupper wc = towcase false wc

unfoldable pub towlower : ℕ → Option ℕ
towlower wc = towcase true wc

unfoldable pub iswlower : ℕ → Option Bool
iswlower wc = do upper ← towupper wc; some (not (upper == wc) || wc == 0xdf)

unfoldable pub iswupper : ℕ → Option Bool
iswupper wc = do lower ← towlower wc; some (not (lower == wc))
