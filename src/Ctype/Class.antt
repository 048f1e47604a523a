-- ===== src/Ctype/Class.antt =====
-- The character classes of musl-ctype: iswalpha.c, iswpunct.c, iswdigit.c, iswalnum.c, iswcntrl.c,
-- iswxdigit.c, iswspace.c, iswgraph.c. A character is its 32-bit pattern.
use android_vshell.Base.{
  ℕ, ◌+◌, ◌-◌, ◌*◌, ◌/◌, ◌%◌, ◌^◌, Bool, true, false, not, ◌&&◌, ◌||◌, bit_or,
}
use android_vshell.Base.{
  Option, some, List, [], ◌∷◌, ltb, leb, ◌==◌, if◌then◌else◌, get_elem?, ◌>>=◌,
}
use android_vshell.Ctype.Alpha.{alpha_table}
use android_vshell.Ctype.Punct.{punct_table}

-- `a - b` on unsigned int.
abbrev pub sub32 : ℕ → ℕ → ℕ
sub32 a b = (a + 2 ^ 32 - b) % 2 ^ 32

-- `(table[table[wc>>8]*32+((wc&255)>>3)]>>(wc&7))&1`; `none` is a read outside the table.
unfoldable pub table_bit : List ℕ → ℕ → Option Bool
table_bit table wc = do
  block ← get_elem? table (wc / 2 ^ 8)
  bits ← get_elem? table (block * 32 + wc % 2 ^ 8 / 2 ^ 3)
  some (bits / 2 ^ (wc % 2 ^ 3) % 2 == 1)

unfoldable pub iswalpha : ℕ → Option Bool
iswalpha wc = if ltb wc 0x20000 then table_bit alpha_table wc else some (ltb wc 0x2fffe)

unfoldable pub iswpunct : ℕ → Option Bool
iswpunct wc = if ltb wc 0x20000 then table_bit punct_table wc else some false

unfoldable pub iswdigit : ℕ → Bool
iswdigit wc = ltb (sub32 wc b'0') 10

unfoldable pub iswalnum : ℕ → Option Bool
iswalnum wc = do alpha ← iswalpha wc; some (iswdigit wc || alpha)

unfoldable pub iswcntrl : ℕ → Bool
iswcntrl wc =
    ltb wc 32 || ltb (sub32 wc 0x7f) 33 || ltb (sub32 wc 0x2028) 2 || ltb (sub32 wc 0xfff9) 3

unfoldable pub iswxdigit : ℕ → Bool
iswxdigit wc = ltb (sub32 wc b'0') 10 || ltb (sub32 (bit_or wc 32) b'a') 6

-- The list `spaces` without its null.
unfoldable pub spaces : List ℕ
spaces =
    b' ' ∷ b'\t' ∷ b'\n' ∷ b'\r' ∷ 11 ∷ 12 ∷ 0x0085 ∷ 0x2000 ∷ 0x2001 ∷ 0x2002 ∷ 0x2003 ∷ 0x2004
    ∷ 0x2005 ∷ 0x2006 ∷ 0x2008 ∷ 0x2009 ∷ 0x200a ∷ 0x2028 ∷ 0x2029 ∷ 0x205f ∷ 0x3000 ∷ []

-- wcschr, for a character that is not null.
unfoldable pub wcschr : List ℕ → ℕ → Bool
wcschr [] wc = false
wcschr (c ∷ cs) wc = c == wc || wcschr cs wc

unfoldable pub iswspace : ℕ → Bool
iswspace wc = not (wc == 0) && wcschr spaces wc

-- `wc & 0x7f` keeps 7 bits, and `(wc & 0xfffe) == 0xfffe` is about the bits 1 to 15.
unfoldable pub termux_iswprint : ℕ → Bool
termux_iswprint wc =
    if ltb wc 0xff
    then leb 0x21 ((wc + 1) % 2 ^ 7)
    else if ltb wc 0x2028
        || ltb (sub32 wc 0x202a) (0xd800 - 0x202a)
        || ltb (sub32 wc 0xe000) (0xfff9 - 0xe000)
    then true
    else not (ltb (0x10ffff - 0xfffc) (sub32 wc 0xfffc) || (wc / 2 % 2 ^ 15 == 0x7fff))

unfoldable pub iswgraph : ℕ → Bool
iswgraph wc = not (iswspace wc) && termux_iswprint wc
