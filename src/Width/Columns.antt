-- ===== src/Width/Columns.antt =====
-- What `wcwidth` and `wcswidth` compute, in terms of the meaning of the tables.
use android_vshell.Base.{ℕ, zero, suc, ◌≡◌, refl, Bool, true, false}
use android_vshell.Base.{some, List, [], ◌∷◌, length, ◌==◌, if◌then◌else◌, arith}
use android_vshell.Base.{◌≢◌, ◌+◌, ◌||◌}
use android_vshell.Base.Int.{ℤ, pos, negsuc, is_neg, pos_part}
use android_vshell.Width.Table.{intable, covers, is_ascending}
use android_vshell.Width.Wide.{wide_eastasian}
use android_vshell.Width.Wcwidth.{
  zero_width, is_invisible, is_control, wcwidth, wcswidth_loop, wcswidth,
}
use android_vshell.Width.Search.{intable-covers}

zero_width-ascending : is_ascending zero_width ≡ true
unfolding zero_width is_ascending
zero_width-ascending = refl

wide_eastasian-ascending : is_ascending wide_eastasian ≡ true
unfolding is_ascending
wide_eastasian-ascending = refl

-- The width by the meaning of the tables alone.
unfoldable pub width : ℕ → ℤ
width ucs =
    if is_invisible ucs
    then pos 0
    else if is_control ucs
    then negsuc 0
    else if covers zero_width ucs
    then pos 0
    else if covers wide_eastasian ucs
    then pos 2
    else pos 1

in_zero_width : (c : ℕ) → intable zero_width (length zero_width) c ≡ some (covers zero_width c)
unfolding zero_width
in_zero_width c = intable-covers _ _ c (unfold zero_width in zero_width-ascending)

in_wide_eastasian :
    (c : ℕ) → intable wide_eastasian (length wide_eastasian) c ≡ some (covers wide_eastasian c)
in_wide_eastasian c = intable-covers _ _ c wide_eastasian-ascending

-- For every character the tables' searches return, and `wcwidth` is the width that the tables mean:
-- 0 for the listed invisible characters, -1 for control characters, else 0, 2 or 1 by the tables.
pub wcwidth-width : (ucs : ℕ) → wcwidth ucs ≡ some (width ucs)
unfolding wcwidth width
wcwidth-width ucs = ground (arith, in_zero_width ucs, in_wide_eastasian ucs)

-- The characters that `wcswidth` looks at: at most `n`, and none from the first null on.
unfoldable pub text : ℕ → List ℕ → List ℕ
text zero wcs = []
text (suc n) [] = []
text (suc n) (c ∷ wcs) = if c == 0 then [] else c ∷ text n wcs

-- The array holds a null, or at least `n` characters.
unfoldable pub is_readable : ℕ → List ℕ → Bool
is_readable zero wcs = true
is_readable (suc n) [] = false
is_readable (suc n) (c ∷ wcs) = c == 0 || is_readable n wcs

unfoldable pub has_control : List ℕ → Bool
has_control [] = false
has_control (c ∷ cs) = is_control c || has_control cs

unfoldable pub columns : List ℕ → ℕ
columns [] = 0
columns (c ∷ cs) = pos_part (width c) + columns cs

is_neg-width : (c : ℕ) → c ≢ 0 → is_neg (width c) ≡ is_control c
unfolding width is_control is_invisible
is_neg-width c h = ground arith

neg_width : (c : ℕ) → is_neg (width c) ≡ true → width c ≡ negsuc 0
unfolding width
neg_width c h = ground arith

wcswidth_loop-columns :
    (n : ℕ) (wcs : List ℕ) (l k : ℕ)
    → is_readable n wcs ≡ true
    → wcswidth_loop wcs n (pos l) (pos k)
      ≡ some (if has_control (text n wcs) then negsuc 0 else pos (l + columns (text n wcs)))
unfolding wcswidth_loop text is_readable has_control columns
wcswidth_loop-columns zero wcs l k r = ground arith
wcswidth_loop-columns (suc n) [] l k r = cc
wcswidth_loop-columns (suc n) (c ∷ wcs) l k r = ground (
  arith,
  wcwidth-width c,
  is_neg-width c,
  neg_width c,
  wcswidth_loop-columns n wcs (l + pos_part (width c)) (pos_part (width c)),
)

-- On an array with a null or at least `n` characters `wcswidth` stays inside the array. It returns
-- -1 if one of the characters before the null and among the first `n` is a control character, and
-- the sum of their widths otherwise.
pub wcswidth-columns :
    (wcs : List ℕ) (n : ℕ)
    → is_readable n wcs ≡ true
    → wcswidth wcs n
      ≡ some (if has_control (text n wcs) then negsuc 0 else pos (columns (text n wcs)))
unfolding wcswidth
wcswidth-columns wcs n r = ground (arith, wcswidth_loop-columns n wcs 0 0)
