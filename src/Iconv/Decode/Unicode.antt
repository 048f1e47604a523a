-- ===== src/Iconv/Decode/Unicode.antt =====
-- The first switch of `iconv` for the forms of Unicode.
use android_vshell.Base.{ℕ, ◌+◌, ◌-◌, ◌*◌, ◌^◌, ◌||◌}
use android_vshell.Base.{List, ltb, leb, if◌then◌else◌, length, drop}
use android_vshell.Iconv.Charmap.{sub32}
use android_vshell.Iconv.Units.{get_16, get_32, load_wchar}
use android_vshell.Iconv.Decode.Kinds.{
  is_ucs2, Mbr, character, null, invalid, incomplete, Decoded, char, ilseq, starved,
}

unfoldable pub decode_utf_8 : (ℕ → List ℕ → Mbr) → List ℕ → ℕ → Decoded
decode_utf_8 mbrtowc s st = elim (mbrtowc st s) [
  | character l c st' ↦ char l c st'
  | null st' ↦ char 1 0 st'
  | invalid ↦ ilseq
  | incomplete ↦ starved
]

-- Behind the reading of four bytes.
unfoldable pub check_scalar : ℕ → ℕ → Decoded
check_scalar c st = if ltb (sub32 c 0xd800) 0x800 || leb 0x110000 c then ilseq else char 4 c st

unfoldable pub decode_wchar_t : List ℕ → ℕ → Decoded
decode_wchar_t s st = if ltb (length s) 4 then starved else check_scalar (load_wchar s) st

unfoldable pub decode_utf_32 : ℕ → List ℕ → ℕ → Decoded
decode_utf_32 type s st = if ltb (length s) 4 then starved else check_scalar (get_32 s type) st

unfoldable pub decode_utf_16 : ℕ → List ℕ → ℕ → Decoded
decode_utf_16 type s st =
    let c = get_16 s type in
    let d = get_16 (drop 2 s) type in
    if ltb (length s) 2
    then starved
    else if ltb (sub32 c 0xdc00) 0x400
    then ilseq
    else if ltb (sub32 c 0xd800) 0x400
    then if is_ucs2 type
      then ilseq
      else if ltb (length s) 4
      then starved
      else if leb 0x400 (sub32 d 0xdc00)
      then ilseq
      else char 4 ((c - 0xd7c0) * 2 ^ 10 + (d - 0xdc00)) st
    else char 2 c st
