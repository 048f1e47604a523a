-- ===== src/Iconv/Plain.antt =====
-- Only BIG5 reads a pair of characters.
use android_vshell.Base.{ℕ, ◌≢◌, arith, Option, none, some, List, [], ◌∷◌}
use android_vshell.Iconv.Decode.{
  Kind, kind_of, big5_kind, gb2312, gbk, gb18030_kind, Mbr, Decoded, pair, table_char, decode,
  decode_byte, decode_legacy, decode_utf_8, check_scalar, decode_wchar_t, decode_utf_32,
  decode_utf_16, decode_shift_jis, decode_euc_jp, decode_gb_four, decode_gb, decode_euc_kr,
}

-- No pair of characters is read.
abbrev pub IsPlain : Decoded → Type 0
IsPlain (pair k) = ⊥
IsPlain _ = Unit {0}

table_char-IsPlain : (o : Option ℕ) (st : ℕ) → IsPlain (table_char o st)
unfolding table_char
table_char-IsPlain none st = tt
table_char-IsPlain (some c) st = ground arith

decode_utf_8-IsPlain :
    (mbrtowc : ℕ → List ℕ → Mbr) (s : List ℕ) (st : ℕ) → IsPlain (decode_utf_8 mbrtowc s st)
unfolding decode_utf_8
decode_utf_8-IsPlain mbrtowc s st = ground arith

decode_utf_16-IsPlain : (type : ℕ) (s : List ℕ) (st : ℕ) → IsPlain (decode_utf_16 type s st)
unfolding decode_utf_16
decode_utf_16-IsPlain type s st = ground arith

decode_utf_32-IsPlain : (type : ℕ) (s : List ℕ) (st : ℕ) → IsPlain (decode_utf_32 type s st)
unfolding decode_utf_32 check_scalar
decode_utf_32-IsPlain type s st = ground arith

decode_wchar_t-IsPlain : (s : List ℕ) (st : ℕ) → IsPlain (decode_wchar_t s st)
unfolding decode_wchar_t check_scalar
decode_wchar_t-IsPlain s st = ground arith

decode_shift_jis-IsPlain : (c : ℕ) (s : List ℕ) (st : ℕ) → IsPlain (decode_shift_jis c s st)
unfolding decode_shift_jis
decode_shift_jis-IsPlain c s st = grind (arith, table_char-IsPlain)

decode_euc_jp-IsPlain : (c : ℕ) (s : List ℕ) (st : ℕ) → IsPlain (decode_euc_jp c s st)
unfolding decode_euc_jp
decode_euc_jp-IsPlain c s st = grind (arith, table_char-IsPlain)

decode_gb_four-IsPlain : (c d : ℕ) (s : List ℕ) (st : ℕ) → IsPlain (decode_gb_four c d s st)
unfolding decode_gb_four
decode_gb_four-IsPlain c d s st = grind arith

decode_gb-IsPlain : (kind : Kind) (c : ℕ) (s : List ℕ) (st : ℕ) → IsPlain (decode_gb kind c s st)
unfolding decode_gb
decode_gb-IsPlain kind c s st = grind (arith, decode_gb_four-IsPlain)

decode_euc_kr-IsPlain : (c : ℕ) (s : List ℕ) (st : ℕ) → IsPlain (decode_euc_kr c s st)
unfolding decode_euc_kr
decode_euc_kr-IsPlain c s st = grind (arith, table_char-IsPlain)

decode_legacy-IsPlain :
    (type : ℕ) (map : List ℕ) (c : ℕ) (st : ℕ) → IsPlain (decode_legacy type map c st)
unfolding decode_legacy
decode_legacy-IsPlain type map c st = grind arith

decode_byte-IsPlain :
    (mbrtowc : ℕ → List ℕ → Mbr) (type : ℕ) (map : List ℕ) (c : ℕ) (s : List ℕ) (st : ℕ)
    → kind_of type ≢ big5_kind
    → IsPlain (decode_byte mbrtowc type map c s st)
unfolding decode_byte
decode_byte-IsPlain mbrtowc type map c s st other = ground (
  arith,
  other,
  decode_utf_8-IsPlain mbrtowc s st,
  decode_utf_16-IsPlain type s st,
  decode_utf_32-IsPlain type s st,
  decode_wchar_t-IsPlain s st,
  decode_shift_jis-IsPlain c s st,
  decode_euc_jp-IsPlain c s st,
  decode_gb-IsPlain gb2312 c s st,
  decode_gb-IsPlain gbk c s st,
  decode_gb-IsPlain gb18030_kind c s st,
  decode_euc_kr-IsPlain c s st,
  decode_legacy-IsPlain type map c st,
)

pub decode_other-IsPlain :
    (mbrtowc : ℕ → List ℕ → Mbr) (type : ℕ) (map : List ℕ) (s : List ℕ) (st : ℕ)
    → kind_of type ≢ big5_kind
    → IsPlain (decode mbrtowc type map s st)
unfolding decode
decode_other-IsPlain mbrtowc type map [] st other = tt
decode_other-IsPlain mbrtowc type map (c ∷ cs) st other =
    ground (arith, decode_byte-IsPlain mbrtowc type map c (c ∷ cs) st other)
