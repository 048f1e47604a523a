-- ===== src/Ctype/Runs.antt =====
-- Runs of the classes and of the case mapping, and their theorems at concrete inputs.
use android_vshell.Base.{◌≡◌, ◌||◌, [], refl, true, some, Returns, arith}
use android_vshell.Ctype.Alpha.{alpha_table}
use android_vshell.Ctype.Class.{iswalpha, iswpunct, table_bit}
use android_vshell.Ctype.ClassLaws.{iswalpha-iswpunct_total}
use android_vshell.Ctype.CaseMaps.{casemaps}
use android_vshell.Ctype.Case.{
  base, plus, minus, map_case, casemap_loop, is_uncased, cased, towcase, towlower, towupper,
}
use android_vshell.Ctype.CaseLaws.{towcase-towcase}
use android_vshell.Base.{ℕ, Bool, ◌==◌, ◌≢◌, ◌⊎◌}
use android_vshell.Base.Text.{codes}
use android_vshell.Ctype.ByName.{
  iswctype, wctype, wctrans, towctrans, same_string, names, wctype_loop,
}
use android_vshell.Ctype.NameLaws.{Class, name_of, test_of, iswctype-wctype}

sigma : towlower 0x3a3 ≡ some 0x3c3
unfolding towlower towcase iswalpha table_bit alpha_table is_uncased cased casemap_loop casemaps
    base plus map_case
sigma = refl

iswalpha-iswpunct_total_example : Returns (iswalpha 0x3b1) × Returns (iswpunct 0x3b1)
iswalpha-iswpunct_total_example = iswalpha-iswpunct_total 0x3b1

towcase-towcase_example : towcase true 0xe0 ≡ some 0xe0
unfolding towcase iswalpha table_bit alpha_table is_uncased cased casemap_loop casemaps base plus
    map_case
towcase-towcase_example = towcase-towcase true 0xc0 0xe0 (omega arith) refl

-- A libc whose blanks are the space and the tab.
abbrev isblank : ℕ → Bool
isblank c = (c == 32) || (c == 9)

iswctype-wctype_example :
    ((k : Class) × (codes "punct" ≡ codes (name_of k))
      × (iswctype isblank b'!' (wctype (codes "punct")) ≡ test_of isblank k b'!'))
    ⊎ (((k : Class) → codes "punct" ≢ codes (name_of k)) × (wctype (codes "punct") ≡ 0))
iswctype-wctype_example = iswctype-wctype isblank b'!' (codes "punct")

numbers : (wctype (codes "punct") ≡ 9) × (wctype (codes "punc") ≡ 0) × (wctype [] ≡ 0)
unfolding wctype wctype_loop same_string names
numbers = (refl, refl, refl)

mapped_by_name : towctrans 0x3c3 (wctrans (codes "toupper")) ≡ some 0x3a3
unfolding towctrans wctrans same_string towupper towcase iswalpha table_bit alpha_table is_uncased
    cased casemap_loop casemaps base plus minus map_case
mapped_by_name = refl
