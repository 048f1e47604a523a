-- ===== src/Iconv/Decode/EastAsian.antt =====
-- The first switch of `iconv` for the encodings of East Asia, over their tables.
use android_vshell.Base.{
  ℕ, ◌+◌, ◌-◌, ◌*◌, ◌/◌, ◌%◌, ◌^◌, Bool, true, false, not, ◌&&◌, ◌||◌, bit_or,
}
use android_vshell.Base.{
  ◌>>=◌, Option, none, some, List, ltb, leb, ◌==◌, if◌then◌else◌, length, get_elem?,
}
use android_vshell.Iconv.Charmap.{sub32}
use android_vshell.Iconv.Units.{byte}
use android_vshell.Iconv.Packed.{read, entries}
use android_vshell.Iconv.Select.{select}
use android_vshell.Iconv.Tables.Jis0208.{jis0208}
use android_vshell.Iconv.Tables.Gb18030.{gb18030}
use android_vshell.Iconv.Tables.Big5.{big5}
use android_vshell.Iconv.Tables.Hkscs.{hkscs}
use android_vshell.Iconv.Tables.HkscsPlanes.{hkscs_planes}
use android_vshell.Iconv.Tables.Ksc.{ksc}
use android_vshell.Iconv.Decode.Kinds.{
  Kind, gb18030_kind, gb2312, Decoded, char, pair, ilseq, starved, outside, table_char,
}

-- The row of jis0208 for a lead byte, and the column and the half of the row for the byte behind it.
-- A byte behind it that is in neither range is left as it is.
unfoldable pub sjis_row : ℕ → Option ℕ
sjis_row c =
    if leb (sub32 c 129) (159 - 129)
    then some ((c - 129) * 2)
    else if leb (sub32 c 224) (239 - 224)
    then some ((c - 193) * 2)
    else none

unfoldable pub sjis_cell : ℕ → ℕ → Option (ℕ × ℕ)
sjis_cell row d =
    if leb (sub32 d 64) (158 - 64)
    then if d == 127 then none else some (row, (if ltb 127 d then d - 1 else d) - 64)
    else if leb (sub32 d 159) (252 - 159)
    then some (row + 1, d - 159)
    else some (row, d)

unfoldable pub decode_shift_jis : ℕ → List ℕ → ℕ → Decoded
decode_shift_jis c s st =
    if leb (sub32 c 0xa1) (0xdf - 0xa1)
    then char 1 (c + 0xff61 - 0xa1) st
    else if ltb (length s) 2
    then starved
    else elim (sjis_row c) [
      | none ↦ ilseq
      | some row ↦ elim (sjis_cell row (byte s 1)) [
        | none ↦ ilseq
        | some (i, j) ↦ table_char (read jis0208 i j) st
      ]
    ]

unfoldable pub decode_euc_jp : ℕ → List ℕ → ℕ → Decoded
decode_euc_jp c s st =
    let d = byte s 1 in
    if ltb (length s) 2
    then starved
    else if c == 0x8e
    then if ltb (0xdf - 0xa1) (sub32 d 0xa1) then ilseq else char 2 (d + 0xff61 - 0xa1) st
    else if leb 84 (sub32 c 0xa1) || leb 94 (sub32 d 0xa1)
    then ilseq
    else table_char (read jis0208 (sub32 c 0xa1) (sub32 d 0xa1)) st

-- The four bytes of GB18030, of which the first, less 0x81, is `c` and the second is `d`.
unfoldable pub decode_gb_four : ℕ → ℕ → List ℕ → ℕ → Decoded
decode_gb_four c d s st =
    let d₂ = byte s 2 in
    let d₃ = byte s 3 in
    let index = (10 * c + d - b'0') * 1260 + 10 * (d₂ - 0x81) + (d₃ - b'0') + 128 in
    if ltb (length s) 4
    then starved
    else if ltb 126 (sub32 d₂ 0x81)
    then ilseq
    else if ltb 9 (sub32 d₃ b'0')
    then ilseq
    else elim (select (entries gb18030) 0 index) [ none ↦ outside | some r ↦ char 4 r st ]

-- GBK, and what GB2312 and GB18030 have besides.
unfoldable pub decode_gb : Kind → ℕ → List ℕ → ℕ → Decoded
decode_gb kind c₀ s st =
    let c = sub32 c₀ 0x81 in
    let d = byte s 1 in
    let is_gb2312 = elim kind as (λ k. Bool) [ gb2312 ↦ true | _ ↦ false ] in
    let is_gb18030 = elim kind as (λ k. Bool) [ gb18030_kind ↦ true | _ ↦ false ] in
    if is_gb2312 && ltb c₀ 0xa1
    then ilseq
    else if leb 126 c
    then ilseq
    else if ltb (length s) 2
    then starved
    else if ltb d 0xa1 && is_gb2312
    then ilseq
    else if leb 191 (sub32 d 0x40) || d == 127
    then if ltb 9 (sub32 d b'0') || not is_gb18030 then ilseq else decode_gb_four c d s st
    else elim (read gb18030 c (if ltb 63 (d - 0x40) then d - 0x40 - 1 else d - 0x40)) [
      | none ↦ outside
      | some v ↦ char 2 v st
    ]

-- `hkscs[i]`
unfoldable pub hkscs_at : ℕ → Option ℕ
hkscs_at i =
    if ltb i 4867 then read hkscs (i / 157) (i % 157) else get_elem? hkscs_planes (i - 4867)

-- A code point of HKSCS from its index: a bit of the second part stands for plane 2.
unfoldable pub hkscs_char : ℕ → Option ℕ
hkscs_char i = do
  planes ← hkscs_at (4867 + i / 16)
  low ← hkscs_at i
  some (bit_or (planes / 2 ^ (i % 16) % 2 * 2 ^ 17) low)

unfoldable pub decode_big5 : ℕ → List ℕ → ℕ → Decoded
decode_big5 c s st =
    let d₀ = byte s 1 in
    let d = if ltb 0x3e (d₀ - 0x40) then d₀ - 0x40 - 0x22 else d₀ - 0x40 in
    let row = if ltb c 0xa1 then c - 0x87 else c - (0x87 + (0xfa - 0xa1)) in
    let i = sub32 c 0xa1 in
    if ltb (length s) 2
    then starved
    else if leb (0xff - 0x40) (sub32 d₀ 0x40) || ltb (sub32 d₀ 0x7f) (0xa1 - 0x7f)
    then ilseq
    else if leb (0xfa - 0xa1) i
    then if leb (0xff - 0x87) (sub32 c 0x87) then ilseq else elim (hkscs_char (row * 157 + d)) [
      | none ↦ outside
      | some v ↦ if v / 256 == 0xdc then pair (v % 256) else table_char (some v) st
    ]
    else elim (read big5 i d) [
      | none ↦ outside
      | some v ↦
          table_char
            (some
              (bit_or v (if i == 0x27 && (d == 0x3a || d == 0x3c || d == 0x42) then 2 ^ 17 else 0)))
            st
    ]

-- The columns of the rows that EUC_KR has besides KS X 1001: letters, and bytes from 0x81 on.
unfoldable pub uhc_column : ℕ → Option ℕ
uhc_column d =
    if ltb (sub32 d b'A') 26
    then some (d - b'A')
    else if ltb (sub32 d b'a') 26
    then some (d - b'a' + 26)
    else if ltb (sub32 d 0x81) (0xff - 0x81)
    then some (d - 0x81 + 52)
    else none

unfoldable pub decode_euc_kr : ℕ → List ℕ → ℕ → Decoded
decode_euc_kr c₀ s st =
    let c = sub32 c₀ 0xa1 in
    let d = sub32 (byte s 1) 0xa1 in
    let c' = (c + (0xa1 - 0x81)) % 2 ^ 32 in
    let d' = (d + 0xa1) % 2 ^ 32 in
    if ltb (length s) 2
    then starved
    else if leb 93 c || leb 94 d
    then if leb 93 c' || (leb (0xc6 - 0x81) c' && ltb 0x52 d')
      then ilseq
      else elim (uhc_column d') [
        | none ↦ ilseq
        | some j ↦
            (let index = if ltb c' 0x20 then 178 * c' + j else 178 * 0x20 + 84 * (c' - 0x20) + j in
              elim (select (entries ksc) 0xac00 (index + 0xac00)) [
                | none ↦ outside
                | some r ↦ char 2 r st
              ])
      ]
    else table_char (read ksc c d) st
