-- ===== src/Iconv/Decode/Kinds.antt =====
-- The encodings by their cases in the switches of `iconv`, and what the first switch comes to.
use android_vshell.Base.{ℕ, Bool, ◌||◌}
use android_vshell.Base.{Option, none, some, ltb, ◌==◌, if◌then◌else◌}
use android_vshell.Iconv.Charmap.{sub32}

-- The cases of both switches.
pub data Kind : Type 0 where
  utf_32 utf_16 wchar_t us_ascii utf_8 euc_jp shift_jis gb18030_kind gbk gb2312 big5_kind euc_kr
        legacy :
      Kind

-- The codes from 0300 to 0350 in octal, and all others.
unfoldable pub kind_of : ℕ → Kind
kind_of type =
    if type == 192 || type == 195
    then utf_32
    else if type == 193 || type == 194 || type == 196 || type == 197
    then utf_16
    else if type == 198
    then wchar_t
    else if type == 199
    then us_ascii
    else if type == 200
    then utf_8
    else if type == 208
    then euc_jp
    else if type == 209
    then shift_jis
    else if type == 216
    then gb18030_kind
    else if type == 217
    then gbk
    else if type == 218
    then gb2312
    else if type == 224
    then big5_kind
    else if type == 232
    then euc_kr
    else legacy

-- `type-UCS2BE < 2U`
abbrev pub is_ucs2 : ℕ → Bool
is_ucs2 type = ltb (sub32 type 196) 2

-- mbrtowc from libc: a character, its bytes and the new state; a null character; (size_t)-1; (size_t)-2.
pub data Mbr : Type 0 where
  character : ℕ → ℕ → ℕ → Mbr
  null : ℕ → Mbr
  invalid incomplete : Mbr

-- `l` bytes, the character and the state of mbrtowc; a pair of characters, by `c%256`; the two gotos;
-- a read outside a table, of which the source says nothing.
pub data Decoded : Type 0 where
  char : ℕ → ℕ → ℕ → Decoded
  pair : ℕ → Decoded
  ilseq starved outside : Decoded

-- `if (!c) goto ilseq;` behind a table.
unfoldable pub table_char : Option ℕ → ℕ → Decoded
table_char none st = outside
table_char (some c) st = if c == 0 then ilseq else char 2 c st
