-- ===== src/Iconv/Encode.antt =====
-- The second switch of `iconv`: what is written for a character.
use android_vshell.Base.{ℕ, zero, suc, ◌+◌, ◌-◌, ◌/◌, ◌%◌, ◌^◌, ◌||◌, bit_or}
use android_vshell.Base.{
  Option, none, some, List, [], ◌∷◌, ◌++◌, ltb, leb, ◌==◌, if◌then◌else◌, length, get_elem?,
}
use android_vshell.Iconv.Charmap.{sub32}
use android_vshell.Iconv.Units.{put_16, put_32, store_wchar}
use android_vshell.Iconv.Tables.LegacyChars.{legacy_chars}
use android_vshell.Iconv.Decode.{
  utf_32, utf_16, wchar_t, us_ascii, utf_8, kind_of, is_ucs2, legacy_index,
}

-- The bytes written and what is added to `x`; the goto; a failure of wctomb with four bytes of room,
-- which adds -1 to `*out` and subtracts it from `*outb`; a read outside a table.
pub data Encoded : Type 0 where
  wrote : List ℕ → ℕ → Encoded
  too_big back outside : Encoded

unfoldable pub put : List ℕ → ℕ → ℕ → Encoded
put bytes x room = if ltb room (length bytes) then too_big else wrote bytes x

-- wctomb from libc: the bytes of a character, or -1.
unfoldable pub encode_utf_8 : (ℕ → Option (List ℕ)) → ℕ → ℕ → Encoded
encode_utf_8 wctomb c room = elim (wctomb c) [
  | none ↦ if ltb room 4 then too_big else back
  | some bytes ↦ if ltb room 4 then put bytes 0 room else wrote bytes 0
]

-- The rounds of the search from `k` on: the index found, if any. The outer `none` is a read outside
-- the table of characters.
unfoldable pub find_legacy : List ℕ → ℕ → ℕ → ℕ → Option (Option ℕ)
find_legacy tomap d zero k = some none
find_legacy tomap d (suc rounds) k =
    let later = find_legacy tomap d rounds (k + 1) in
    elim (get_elem? legacy_chars (legacy_index tomap k)) [
      | none ↦ none
      | some v ↦ if d == v then some (some k) else later
    ]

-- From `subst` on: the character `*`. `c < 128+totype` always holds for it.
abbrev pub substitute : ℕ → Encoded
substitute room = put (b'*' ∷ []) 1 room

unfoldable pub encode_legacy : ℕ → List ℕ → ℕ → ℕ → Encoded
encode_legacy totype tomap c room =
    if ltb room 1
    then too_big
    else if ltb c (128 + totype)
    then wrote ((c % 2 ^ 8) ∷ []) 0
    else elim (find_legacy tomap c (sub32 128 totype) 0) [
      | none ↦ outside
      | some none ↦ substitute room
      | some (some k) ↦ wrote ((k + 128) % 2 ^ 8 ∷ []) 0
    ]

-- The source tests `type`, the source's encoding, for UCS-2.
unfoldable pub encode_utf_16 : ℕ → ℕ → ℕ → ℕ → Encoded
encode_utf_16 type totype c room =
    if ltb c 0x10000 || is_ucs2 type
    then put (put_16 (if leb 0x10000 c then 0xfffd else c) totype) 0 room
    else put
        (put_16 (bit_or ((c - 0x10000) / 2 ^ 10) 0xd800) totype
          ++ put_16 (bit_or ((c - 0x10000) % 2 ^ 10) 0xdc00) totype)
        0 room

unfoldable pub encode : (ℕ → Option (List ℕ)) → ℕ → ℕ → List ℕ → ℕ → ℕ → Encoded
encode wctomb type totype tomap c room = elim (kind_of totype) [
  | wchar_t ↦ put (store_wchar c) 0 room
  | utf_8 ↦ encode_utf_8 wctomb c room
  | us_ascii ↦ if ltb 0x7f c then substitute room else encode_legacy totype tomap c room
  | utf_16 ↦ encode_utf_16 type totype c room
  | utf_32 ↦ put (put_32 c totype) 0 room
  | _ ↦ encode_legacy totype tomap c room
]
