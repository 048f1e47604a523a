-- ===== src/Iconv/Names.antt =====
-- `find_charmap`, `iconv_open` and `iconv_close` of musl-locale/iconv.c. An address in `charmaps` is
-- its index, and a name is the list of its bytes before the null.
use android_vshell.Base.{ℕ, ◌+◌, ◌-◌, ◌*◌, ◌^◌, Option, none, some, List, ◌++◌}
use android_vshell.Base.{leb, if◌then◌else◌, length, get_or}
use android_vshell.Iconv.Charmap.{layout, find_loop}
use android_vshell.Iconv.Special.{special_charmaps}
use android_vshell.Iconv.Codepages.{codepages}

unfoldable pub charmaps : List ℕ
unfolding layout
charmaps = layout (special_charmaps ++ codepages)

-- `none` is -1.
unfoldable pub find_charmap : List ℕ → Option ℕ
find_charmap name = elim (find_loop (length charmaps) name charmaps) [
  | none ↦ none
  | some from_type ↦ some (length charmaps - length from_type)
]

-- The descriptor, or `none` for -1 with EINVAL.
unfoldable pub iconv_open : List ℕ → List ℕ → Option ℕ
iconv_open to from = elim (find_charmap to) [
  | none ↦ none
  | some t ↦ elim (find_charmap from) [
    | none ↦ none
    | some f ↦ if leb 208 (get_or charmaps t 0) then none else some (f * 2 ^ 16 + t)
  ]
]

unfoldable pub iconv_close : ℕ → ℕ
iconv_close descriptor = 0
