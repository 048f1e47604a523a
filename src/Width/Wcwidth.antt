-- ===== src/Width/Wcwidth.antt =====
-- `wcwidth` of wcwidth.c and `wcswidth` of wcswidth.c, for the values of wchar_t that are not negative.
use android_vshell.Base.{ℕ, Bool, true, false, ◌&&◌, ◌||◌, Option, none, some, List, [], ◌∷◌}
use android_vshell.Base.{◌++◌, ltb, leb, ◌==◌, if◌then◌else◌, length}
use android_vshell.Base.Int.{ℤ, pos, negsuc, ◌+ℤ◌, is_neg}
use android_vshell.Width.Table.{Interval, intable}
use android_vshell.Width.ZeroLow.{zero_width_low}
use android_vshell.Width.ZeroHigh.{zero_width_high}
use android_vshell.Width.Wide.{wide_eastasian}

unfoldable pub zero_width : List Interval
zero_width = zero_width_low ++ zero_width_high

-- The characters that the source lists by hand.
unfoldable pub is_invisible : ℕ → Bool
is_invisible ucs =
    ucs == 0
    || ucs == 0x034f
    || (leb 0x200b ucs && leb ucs 0x200f)
    || ucs == 0x2028
    || ucs == 0x2029
    || (leb 0x202a ucs && leb ucs 0x202e)
    || (leb 0x2060 ucs && leb ucs 0x2063)

-- The control characters of ASCII and of ISO 8859.
unfoldable pub is_control : ℕ → Bool
is_control ucs = ltb ucs 32 || (leb 0x07f ucs && ltb ucs 0x0a0)

-- `none` where a table search does not return.
unfoldable pub wcwidth : ℕ → Option ℤ
unfolding is_invisible is_control
wcwidth ucs =
    if is_invisible ucs
    then some (pos 0)
    else if is_control ucs
    then some (negsuc 0)
    else elim (intable zero_width (length zero_width) ucs) [
      | none ↦ none
      | some true ↦ some (pos 0)
      | some false ↦ elim (intable wide_eastasian (length wide_eastasian) ucs) [
        | none ↦ none
        | some wide ↦ some (if wide then pos 2 else pos 1)
      ]
    ]

-- The loop, with `l` and `k` as at the head of a round. `wcs` is what is left of the array, whose
-- end stands for a read outside it; `n` is the number of characters still allowed.
unfoldable pub wcswidth_loop : List ℕ → ℕ → ℤ → ℤ → Option ℤ
wcswidth_loop wcs ℕ.zero l k = some (if is_neg k then k else l)
wcswidth_loop [] (ℕ.suc n) l k = none
wcswidth_loop (c ∷ wcs) (ℕ.suc n) l k =
    let round = elim (wcwidth c) as (λ w. Option ℤ) [
      | none ↦ none
      | some k' ↦ if is_neg k' then some k' else wcswidth_loop wcs n (l +ℤ k') k'
    ] in
    if c == 0 then some (if is_neg k then k else l) else round

unfoldable pub wcswidth : List ℕ → ℕ → Option ℤ
unfolding wcswidth_loop
wcswidth wcs n = wcswidth_loop wcs n (pos 0) (pos 0)
