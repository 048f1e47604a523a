-- ===== src/Ctype/ByName.antt =====
-- Classes and case mappings that are asked for by name: iswctype.c, wctrans.c and iswblank.c of
-- musl-ctype. A name is the list of its bytes before the null.
use android_vshell.Base.{ℕ, zero, suc, ◌+◌, Bool, false, not, ◌&&◌}
use android_vshell.Base.{
  Option, some, List, [], ◌∷◌, ◌++◌, ◌==◌, if◌then◌else◌, drop, get_or, length,
}
use android_vshell.Base.Text.{codes}
use android_vshell.Ctype.Class.{
  iswalpha, iswalnum, iswcntrl, iswdigit, termux_iswprint, iswgraph, iswpunct, iswspace, iswxdigit,
}
use android_vshell.Ctype.Case.{iswlower, iswupper, towlower, towupper}

-- isblank of libc on the character.
unfoldable pub iswblank : (ℕ → Bool) → ℕ → Bool
iswblank isblank wc = isblank wc

unfoldable pub iswctype : (ℕ → Bool) → ℕ → ℕ → Option Bool
iswctype isblank wc type =
    if type == 1
    then iswalnum wc
    else if type == 2
    then iswalpha wc
    else if type == 3
    then some (iswblank isblank wc)
    else if type == 4
    then some (iswcntrl wc)
    else if type == 5
    then some (iswdigit wc)
    else if type == 6
    then some (iswgraph wc)
    else if type == 7
    then iswlower wc
    else if type == 8
    then some (termux_iswprint wc)
    else if type == 9
    then iswpunct wc
    else if type == 10
    then some (iswspace wc)
    else if type == 11
    then iswupper wc
    else if type == 12
    then some (iswxdigit wc)
    else some false

-- `!strcmp(s, p)`, with `s` before its null and `p` from an address on.
unfoldable pub same_string : List ℕ → List ℕ → Bool
same_string [] p = get_or p 0 0 == 0
same_string (a ∷ s) [] = false
same_string (a ∷ s) (b ∷ p) =
    let rest = same_string s p in if a == b && not (b == 0) then rest else false

-- The array `names`, with its last null.
unfoldable pub names : List ℕ
names =
    codes "alnum"
    ++ (0
        ∷ (codes "alpha"
            ++ (0
                ∷ (codes "blank"
                    ++ (0
                        ∷ (codes "cntrl"
                            ++ (0
                                ∷ (codes "digit"
                                    ++ (0
                                        ∷ (codes "graph"
                                            ++ (0
                                                ∷ (codes "lower"
                                                    ++ (0
                                                        ∷ (codes "print"
                                                            ++ (0
                                                            ∷ (codes "punct"
                                                            ++ (0
                                                            ∷ (codes "space"
                                                            ++ (0
                                                            ∷ (codes "upper"
                                                            ++ (0
                                                            ∷ (codes "xdigit"
                                                            ++ (0 ∷ [])))))))))))))))))))))))

-- The loop from `i` and `p` on. `*s` is 0 for the empty name.
unfoldable pub wctype_loop : ℕ → List ℕ → ℕ → List ℕ → ℕ
wctype_loop zero s i p = 0
wctype_loop (suc fuel) s i p =
    let later = wctype_loop fuel s (i + 1) (drop 6 p) in
    if get_or p 0 0 == 0
    then 0
    else if (get_or s 0 0 == get_or p 0 0) && same_string s p
    then i
    else later

-- Each round passes six bytes of `names`.
unfoldable pub wctype : List ℕ → ℕ
wctype s = wctype_loop (length names) s 1 names

unfoldable pub wctrans : List ℕ → ℕ
wctrans class =
    if same_string class (codes "toupper" ++ (0 ∷ []))
    then 1
    else if same_string class (codes "tolower" ++ (0 ∷ []))
    then 2
    else 0

unfoldable pub towctrans : ℕ → ℕ → Option ℕ
towctrans wc trans = if trans == 1 then towupper wc else if trans == 2 then towlower wc else some wc
