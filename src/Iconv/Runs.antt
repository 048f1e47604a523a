-- ===== src/Iconv/Runs.antt =====
-- Runs of the conversion, and its theorems at concrete inputs.
use android_vshell.Base.{
  ◌↔◌, true, false, ℕ, ◌+◌, ◌*◌, ◌/◌, ◌%◌, ◌^◌, ◌<◌, ◌≡◌, ◌≢◌, inl, inr, refl, arith, none, some,
  List, [], ◌∷◌,
}
use android_vshell.Iconv.Convert.{eilseq, failed}
use android_vshell.Iconv.Short.{is_short}
use android_vshell.Iconv.Malformed.{iconv-malformed}
use android_vshell.Base.{◌⊎◌, ◌++◌}
use android_vshell.Iconv.Convert.{undefined}
use android_vshell.Iconv.Defined.{iconv_defined}
use android_vshell.Base.Text.{codes}
use android_vshell.Iconv.Charmap.{
  layout, charmap_bytes, c_strings, bytes_onto, find_loop, c_string, fuzzycmp, skip_others,
  is_skipped, type_at, next_alias, table_size,
}
use android_vshell.Iconv.Special.{special_charmaps}
use android_vshell.Iconv.Codepages.{codepages}
use android_vshell.Iconv.Names.{charmaps, find_charmap, iconv_open}
use android_vshell.Iconv.Units.{get_32, put_16}
use android_vshell.Iconv.Decode.{
  Mbr, kind_of, decode, decode_byte, decode_utf_32, check_scalar, legacy_index, decode_legacy, char,
}
use android_vshell.Iconv.Decode.{
  shift_jis, legacy, outside, decode_shift_jis, sjis_row, sjis_cell, table_char,
}
use android_vshell.Iconv.Tables.Jis0208.{jis0208}
use android_vshell.Iconv.Tables.Jis02081.{jis0208_1}
use android_vshell.Iconv.Tables.Jis02082.{jis0208_2}
use android_vshell.Iconv.Tables.Jis02083.{jis0208_3}
use android_vshell.Iconv.Packed.{read}
use android_vshell.Iconv.FormReads.{IsRead, decode-IsRead}
use android_vshell.Iconv.TableBounds.{decode-inside}
use android_vshell.Iconv.Select.{select}
use android_vshell.Iconv.SelectLaws.{IsSelected, select-IsSelected}
use android_vshell.Iconv.NameLaws.{plain, ends, fuzzycmp-plain}
use android_vshell.Iconv.Encode.{encode, encode_utf_16, encode_legacy, find_legacy, put}
use android_vshell.Iconv.Convert.{
  Libc, Buffers, returned, out_of_fuel, e2big, describe, round, emit, convert, iconv,
}
use android_vshell.Iconv.Forms.{type_of, utf_32be, utf_16le, text_bytes, form_bytes}
use android_vshell.Iconv.Packed.{entries_of}
use android_vshell.Iconv.Tables.LegacyChars.{legacy_chars}
use android_vshell.Iconv.TranscodeText.{iconv-text_bytes}
use android_vshell.Iconv.Bounds.{IsShort}
use android_vshell.Iconv.Advance.{IsReader}
use android_vshell.Iconv.Kept.{IsKept, iconv-Keeps}
use android_vshell.Iconv.Total.{iconv_total}
use android_vshell.Iconv.Forget.{forget, IsStateless}
use android_vshell.Iconv.Resume.{more}
use android_vshell.Iconv.Resume.{iconv-resumed}
use android_vshell.Iconv.LegacyLaws.{decode_legacy-encode_legacy}
use android_vshell.Iconv.LegacyPacking.{value, legacy_index-value}

-- A libc of one byte per character.
abbrev single : Libc
single = record {
  mbrtowc = λ st s. elim s [ [] ↦ Mbr.incomplete | b ∷ bs ↦ Mbr.character 1 b st ];
  wctomb = λ c. some (c ∷ []);
}

single-IsShort : IsShort single.wctomb
single-IsShort c bytes h = ground (arith, h)

-- From UTF-32BE to UTF-16LE.
abbrev narrow : ℕ
narrow = 92 * 2 ^ 16 + 64

narrow_open : iconv_open (codes "UTF-16LE") (codes "UCS-4") ≡ some narrow
unfolding describe charmaps layout charmap_bytes c_strings bytes_onto special_charmaps codepages
    iconv_open find_charmap find_loop c_string fuzzycmp skip_others is_skipped type_at next_alias
    table_size
narrow_open = refl

-- "a😀".
abbrev greeting : List ℕ
greeting = 0x61 ∷ 0x1f600 ∷ []

abbrev greeting_bytes : List ℕ
greeting_bytes = 0 ∷ 0 ∷ 0 ∷ 0x61 ∷ 0 ∷ 1 ∷ 0xf6 ∷ 0 ∷ []

iconv-text_bytes_example :
    iconv single narrow (some (text_bytes utf_32be greeting)) 9
    ≡ returned
        (record {
          input = [];
          out = 0x61 ∷ 0 ∷ 0x3d ∷ 0xd8 ∷ 0 ∷ 0xde ∷ [];
          room = 3;
          errno = none;
        })
        0
unfolding describe charmaps layout charmap_bytes c_strings bytes_onto special_charmaps codepages
    text_bytes form_bytes
iconv-text_bytes_example =
    iconv-text_bytes single narrow utf_32be utf_16le greeting 9 refl refl
      ((omega arith, inl (omega arith)), ((omega arith, inr (omega arith)), tt))
      ((omega arith, inl (omega arith)), ((omega arith, inr (omega arith)), tt)) (omega arith)

-- What is left where there is room for the first character only.
abbrev stopped : Buffers
stopped = record {
  input = 0 ∷ 1 ∷ 0xf6 ∷ 0 ∷ [];
  out = 0x61 ∷ 0 ∷ [];
  room = 1;
  errno = some e2big;
}

narrow-IsStateless : IsStateless (describe (narrow / 2 ^ 16) (narrow % 2 ^ 16))
unfolding describe charmaps layout charmap_bytes c_strings bytes_onto special_charmaps codepages
    kind_of
narrow-IsStateless = record {
  not_utf_8 = λ h. ground (arith, h);
  not_big5 = λ h. ground (arith, h);
}

iconv-resumed_example :
    forget (iconv single narrow (some greeting_bytes) 6)
    ≡ forget (convert 10 single (describe (narrow / 2 ^ 16) (narrow % 2 ^ 16)) 0 (more 3 stopped) 0)
unfolding describe charmaps layout charmap_bytes c_strings bytes_onto special_charmaps codepages
    iconv convert round emit decode kind_of decode_byte decode_utf_32 check_scalar get_32 encode
    encode_utf_16 put put_16
iconv-resumed_example =
    iconv-resumed single narrow greeting_bytes 3 3 stopped single-IsShort narrow-IsStateless refl
      refl

single-IsReader : IsReader single.mbrtowc
single-IsReader st [] l c st' h = ground (arith, h)
single-IsReader st (b ∷ bs) l c st' h = ground (arith, h)

iconv-Keeps_example :
    (iconv single narrow (some greeting_bytes) 3 ≡ undefined)
    ⊎ ((r : Buffers) × ((iconv single narrow (some greeting_bytes) 3 ≡ failed r)
          ⊎ ((y : ℕ) × (iconv single narrow (some greeting_bytes) 3 ≡ returned r y)))
        × IsKept (record { input = greeting_bytes; out = []; room = 3; errno = none }) r)
iconv-Keeps_example = iconv-Keeps single narrow greeting_bytes 3 single-IsShort single-IsReader

iconv_total_example : iconv single narrow (some greeting_bytes) 3 ≢ out_of_fuel
iconv_total_example = iconv_total single narrow greeting_bytes 3 single-IsReader

-- The table of ISO-8859-2, and all that follows it.
abbrev latin2 : List ℕ
latin2 = (describe 0 280).tomap

-- U+0104, which the charmap reads from 0xa1, is written as 0x81.
decode_legacy-encode_legacy_example :
    (0x81 + 32 < 256) × (decode_legacy 32 latin2 (0x81 + 32) 0 ≡ char 1 0x104 0)
unfolding describe charmaps layout charmap_bytes c_strings bytes_onto special_charmaps codepages
    encode_legacy find_legacy legacy_index legacy_chars entries_of
decode_legacy-encode_legacy_example =
    decode_legacy-encode_legacy 32 0x104 1 0x81 0 latin2 refl (omega arith) (omega arith)

legacy_index-value_example :
    legacy_index (0x00 ∷ 0xd8 ∷ 0x10 ∷ 0xcb ∷ 0x1a ∷ []) 1
    ≡ value (0x00 ∷ 0xd8 ∷ 0x10 ∷ 0xcb ∷ 0x1a ∷ []) / 1024 ^ 1 % 1024
legacy_index-value_example =
    legacy_index-value (0x00 ∷ 0xd8 ∷ 0x10 ∷ 0xcb ∷ 0x1a ∷ []) 1
      (omega arith, (omega arith, (omega arith, (omega arith, (omega arith, tt)))))

-- U+1F600 in UTF-16, with a letter behind it.
decode-IsRead_example :
    (decode single.mbrtowc (type_of utf_16le) [] (0x3d ∷ 0xd8 ∷ 0 ∷ 0xde ∷ 0x61 ∷ 0 ∷ []) 7
      ≡ char 4 0x1f600 7)
    ↔ IsRead utf_16le (0x3d ∷ 0xd8 ∷ 0 ∷ 0xde ∷ 0x61 ∷ 0 ∷ []) 7 4 0x1f600 7
decode-IsRead_example =
    decode-IsRead single.mbrtowc [] 7 utf_16le 4 0x1f600 7 (0x3d ∷ 0xd8 ∷ 0 ∷ 0xde ∷ 0x61 ∷ 0 ∷ [])
      (omega arith, (omega arith, (omega arith, (omega arith, (omega arith, (omega arith, tt))))))

euc_jp_not : kind_of 208 ≢ shift_jis
unfolding kind_of
euc_jp_not h = ground (arith, h)

euc_jp_nor : kind_of 208 ≢ legacy
unfolding kind_of
euc_jp_nor h = ground (arith, h)

decode-inside_example : decode single.mbrtowc 208 [] (0xb0 ∷ 0xa1 ∷ []) 0 ≢ outside
decode-inside_example =
    decode-inside single.mbrtowc 208 [] (0xb0 ∷ 0xa1 ∷ []) 0 euc_jp_not euc_jp_nor
      (omega arith, (omega arith, tt))

-- SHIFT_JIS does read outside of its table: this would be row 92 of 84.
shift_jis_outside : decode_shift_jis 0xef (0xef ∷ 0x40 ∷ []) 0 ≡ outside
unfolding decode_shift_jis sjis_row sjis_cell table_char read jis0208 jis0208_1 jis0208_2 jis0208_3
shift_jis_outside = refl

-- The second number that 0, 2 and 3 leave free.
select-IsSelected_example :
    (r : ℕ) × (select (3 ∷ 0 ∷ 2 ∷ []) 0 1 ≡ some r) × IsSelected (3 ∷ 0 ∷ 2 ∷ []) 0 1 r
select-IsSelected_example =
    select-IsSelected 0 1 (3 ∷ 0 ∷ 2 ∷ []) (omega arith, (omega arith, (omega arith, tt)))
      (omega arith) (omega arith)

fuzzycmp-plain_example :
    (fuzzycmp (codes "UTF-8") (codes "utf8") ≡ false)
    ↔ ((plain (codes "UTF-8") ≡ codes "utf8") × (ends (codes "UTF-8") ≡ true))
fuzzycmp-plain_example = fuzzycmp-plain (codes "UTF-8") (codes "utf8") (ground arith)

-- "a", then a surrogate, which is no character.
surrogate_unread : (l c st : ℕ) → ¬ IsRead utf_32be (0 ∷ 0 ∷ 0xd8 ∷ 0 ∷ []) 0 l c st
unfolding form_bytes
surrogate_unread l c st r = ground (arith, r.front, r.held)

iconv-malformed_example :
    iconv single narrow (some (text_bytes utf_32be (0x61 ∷ []) ++ (0 ∷ 0 ∷ 0xd8 ∷ 0 ∷ []))) 9
    ≡ failed (record {
      input = 0 ∷ 0 ∷ 0xd8 ∷ 0 ∷ [];
      out = 0x61 ∷ 0 ∷ [];
      room = 7;
      errno = some eilseq;
    })
unfolding describe charmaps layout charmap_bytes c_strings bytes_onto special_charmaps codepages
    text_bytes form_bytes is_short
iconv-malformed_example =
    iconv-malformed single narrow utf_32be utf_16le (0x61 ∷ []) 0 (0 ∷ 0xd8 ∷ 0 ∷ []) 9 refl refl
      ((omega arith, inl (omega arith)), tt) ((omega arith, inl (omega arith)), tt) (omega arith)
      (omega arith, (omega arith, (omega arith, (omega arith, tt)))) surrogate_unread

-- From EUC-JP to UTF-16LE.
abbrev japanese : ℕ
japanese = 149 * 2 ^ 16 + 64

japanese_type : (describe (japanese / 2 ^ 16) (japanese % 2 ^ 16)).type ≡ 208
unfolding describe charmaps layout charmap_bytes c_strings bytes_onto special_charmaps codepages
japanese_type = refl

iconv_defined_example : iconv single japanese (some (0xb0 ∷ 0xa1 ∷ [])) 4 ≢ undefined
unfolding describe charmaps layout charmap_bytes c_strings bytes_onto special_charmaps codepages
    kind_of
iconv_defined_example =
    iconv_defined single japanese utf_16le (0xb0 ∷ 0xa1 ∷ []) 4 (λ h. ground (arith, h))
      (λ h. ground (arith, h)) (λ h. ground (arith, h)) refl (omega arith, (omega arith, tt))
