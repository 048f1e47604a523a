-- ===== src/Iconv/Decode.antt =====
-- The first switch of `iconv`: one character of the input. Inputs are the bytes that `*inb` counts.
mod Kinds
mod Unicode
mod EastAsian
unfoldable pub use Kinds.*
unfoldable pub use Unicode.*
unfoldable pub use EastAsian.*
use android_vshell.Base.{ℕ, ◌+◌, ◌-◌, ◌*◌, ◌/◌, ◌%◌, ◌^◌, ◌||◌, bit_or}
use android_vshell.Base.{none, some, List, [], ◌∷◌, ltb, leb, ◌==◌, if◌then◌else◌, get_elem?}
use android_vshell.Iconv.Charmap.{sub32}
use android_vshell.Iconv.Units.{byte}
use android_vshell.Iconv.Tables.LegacyChars.{legacy_chars}

-- `map[k*5/4]>>2*k%8 | (map[k*5/4+1]<<(8-2*k%8) & 1023)`: ten bits of the table behind a type.
unfoldable pub legacy_index : List ℕ → ℕ → ℕ
legacy_index map k =
    let shift = 2 * k % 8 in
    bit_or (byte map (k * 5 / 4) / 2 ^ shift) (byte map (k * 5 / 4 + 1) * 2 ^ (8 - shift) % 2 ^ 10)

unfoldable pub decode_legacy : ℕ → List ℕ → ℕ → ℕ → Decoded
decode_legacy type map c st =
    if ltb c (128 + type)
    then char 1 c st
    else elim (get_elem? legacy_chars (legacy_index map (c - (128 + type)))) [
      | none ↦ outside
      | some v ↦ if v == 0 then char 1 c st else if v == 1 then ilseq else char 1 v st
    ]

-- The switch, for a byte `c` that is not plain ASCII.
unfoldable pub decode_byte : (ℕ → List ℕ → Mbr) → ℕ → List ℕ → ℕ → List ℕ → ℕ → Decoded
decode_byte mbrtowc type map c s st = elim (kind_of type) [
  | utf_8 ↦ decode_utf_8 mbrtowc s st
  | us_ascii ↦ ilseq
  | wchar_t ↦ decode_wchar_t s st
  | utf_32 ↦ decode_utf_32 type s st
  | utf_16 ↦ decode_utf_16 type s st
  | shift_jis ↦ decode_shift_jis c s st
  | euc_jp ↦ decode_euc_jp c s st
  | gb2312 ↦ decode_gb gb2312 c s st
  | gbk ↦ decode_gb gbk c s st
  | gb18030_kind ↦ decode_gb gb18030_kind c s st
  | big5_kind ↦ decode_big5 c s st
  | euc_kr ↦ decode_euc_kr c s st
  | legacy ↦ decode_legacy type map c st
]

-- `c >= 128 || type-UTF_32BE < 7U`, the switch, and else the byte itself.
unfoldable pub decode : (ℕ → List ℕ → Mbr) → ℕ → List ℕ → List ℕ → ℕ → Decoded
decode mbrtowc type map [] st = starved
decode mbrtowc type map (c ∷ cs) st =
    if leb 128 c || ltb (sub32 type 192) 7
    then decode_byte mbrtowc type map c (c ∷ cs) st
    else char 1 c st
