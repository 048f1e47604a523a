-- ===== src/Width/Runs.antt =====
-- Runs of the width functions, and their theorems at concrete inputs.
use android_vshell.Base.{◌≡◌, refl, some, [], ◌∷◌, length}
use android_vshell.Base.Int.{pos}
use android_vshell.Width.Table.{search_loop, intable, covers, is_ascending}
use android_vshell.Width.Wide.{wide_eastasian}
use android_vshell.Width.Wcwidth.{wcwidth, wcswidth, zero_width, is_control, is_invisible}
use android_vshell.Width.Search.{intable-covers}
use android_vshell.Width.Columns.{
  wcwidth-width, width, wcswidth-columns, is_readable, text, has_control, columns,
}

hangul : wcwidth 0x1100 ≡ some (pos 2)
unfolding wcwidth zero_width intable search_loop
hangul = refl

acute : wcwidth 0x301 ≡ some (pos 0)
unfolding wcwidth zero_width intable search_loop
acute = refl

intable-covers_example :
    intable wide_eastasian (length wide_eastasian) 0x1101 ≡ some (covers wide_eastasian 0x1101)
unfolding is_ascending
intable-covers_example = intable-covers _ _ 0x1101 refl

wcwidth-width_example : wcwidth 0x4e00 ≡ some (width 0x4e00)
wcwidth-width_example = wcwidth-width 0x4e00

-- One narrow and one wide character, then a null.
wcswidth-columns_example : wcswidth (0x41 ∷ 0x4e00 ∷ 0 ∷ []) 7 ≡ some (pos 3)
unfolding is_readable text has_control columns width covers zero_width is_control is_invisible
wcswidth-columns_example = wcswidth-columns (0x41 ∷ 0x4e00 ∷ 0 ∷ []) 7 refl
