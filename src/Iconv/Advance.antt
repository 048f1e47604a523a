-- ===== src/Iconv/Advance.antt =====
-- Each character that the first switch reads takes a byte at least, and only mbrtowc changes its state.
use android_vshell.Base.{
  ℕ, ◌≤◌, ◌≡◌, ◌≢◌, refl, arith, Option, none, some, List, [], ◌∷◌, length, ◌⊎◌, inl, inr,
}
use android_vshell.Iconv.Decode.{
  Kind, kind_of, utf_8, utf_32, utf_16, wchar_t, us_ascii, euc_jp, shift_jis, big5_kind, euc_kr,
  legacy, gb2312, gbk, gb18030_kind, invalid, incomplete, Mbr, character, null, Decoded, char, pair,
  ilseq, starved, outside, table_char, decode, decode_byte, decode_utf_8, check_scalar,
  decode_wchar_t, decode_utf_32, decode_utf_16, decode_shift_jis, decode_euc_jp, decode_gb_four,
  decode_gb, decode_big5, decode_euc_kr, decode_legacy,
}

abbrev pub Advances : ℕ → Decoded → Type 0
Advances st (char l c st') = (1 ≤ l) × (st' ≡ st)
Advances st _ = Unit {0}

table_char-Advances : (o : Option ℕ) (st : ℕ) → Advances st (table_char o st)
unfolding table_char
table_char-Advances none st = tt
table_char-Advances (some c) st = ground arith

decode_utf_16-Advances : (type : ℕ) (s : List ℕ) (st : ℕ) → Advances st (decode_utf_16 type s st)
unfolding decode_utf_16
decode_utf_16-Advances type s st = ground arith

decode_utf_32-Advances : (type : ℕ) (s : List ℕ) (st : ℕ) → Advances st (decode_utf_32 type s st)
unfolding decode_utf_32 check_scalar
decode_utf_32-Advances type s st = ground arith

decode_wchar_t-Advances : (s : List ℕ) (st : ℕ) → Advances st (decode_wchar_t s st)
unfolding decode_wchar_t check_scalar
decode_wchar_t-Advances s st = ground arith

decode_shift_jis-Advances : (c : ℕ) (s : List ℕ) (st : ℕ) → Advances st (decode_shift_jis c s st)
unfolding decode_shift_jis
decode_shift_jis-Advances c s st = grind (arith, table_char-Advances)

decode_euc_jp-Advances : (c : ℕ) (s : List ℕ) (st : ℕ) → Advances st (decode_euc_jp c s st)
unfolding decode_euc_jp
decode_euc_jp-Advances c s st = grind (arith, table_char-Advances)

decode_gb_four-Advances : (c d : ℕ) (s : List ℕ) (st : ℕ) → Advances st (decode_gb_four c d s st)
unfolding decode_gb_four
decode_gb_four-Advances c d s st = grind arith

decode_gb-Advances :
    (kind : Kind) (c : ℕ) (s : List ℕ) (st : ℕ) → Advances st (decode_gb kind c s st)
unfolding decode_gb
decode_gb-Advances kind c s st = grind (arith, decode_gb_four-Advances)

decode_big5-Advances : (c : ℕ) (s : List ℕ) (st : ℕ) → Advances st (decode_big5 c s st)
unfolding decode_big5
decode_big5-Advances c s st = grind (arith, table_char-Advances)

decode_euc_kr-Advances : (c : ℕ) (s : List ℕ) (st : ℕ) → Advances st (decode_euc_kr c s st)
unfolding decode_euc_kr
decode_euc_kr-Advances c s st = grind (arith, table_char-Advances)

decode_legacy-Advances :
    (type : ℕ) (map : List ℕ) (c : ℕ) (st : ℕ) → Advances st (decode_legacy type map c st)
unfolding decode_legacy
decode_legacy-Advances type map c st = grind arith

-- What libc documents of mbrtowc: a character takes a byte at least, and no more than there are.
abbrev pub IsReader : (ℕ → List ℕ → Mbr) → Type 0
IsReader mbrtowc =
    (st : ℕ) (s : List ℕ) (l c st' : ℕ)
    → mbrtowc st s ≡ character l c st'
    → (1 ≤ l) × (l ≤ length s)

abbrev pub Takes : Decoded → Type 0
Takes (char l c st) = 1 ≤ l
Takes _ = Unit {0}

Advances-Takes : (st : ℕ) (d : Decoded) → Advances st d → Takes d
Advances-Takes st (char l c st') h = h.0
Advances-Takes st (pair k) h = tt
Advances-Takes st ilseq h = tt
Advances-Takes st starved h = tt
Advances-Takes st outside h = tt

decode_byte-Advances :
    (mbrtowc : ℕ → List ℕ → Mbr) (type : ℕ) (map : List ℕ) (c : ℕ) (s : List ℕ) (st : ℕ)
    → kind_of type ≢ utf_8
    → Advances st (decode_byte mbrtowc type map c s st)
unfolding decode_byte
decode_byte-Advances mbrtowc type map c s st other = ground (
  arith,
  other,
  decode_utf_16-Advances type s st,
  decode_utf_32-Advances type s st,
  decode_wchar_t-Advances s st,
  decode_shift_jis-Advances c s st,
  decode_euc_jp-Advances c s st,
  decode_gb-Advances gb2312 c s st,
  decode_gb-Advances gbk c s st,
  decode_gb-Advances gb18030_kind c s st,
  decode_big5-Advances c s st,
  decode_euc_kr-Advances c s st,
  decode_legacy-Advances type map c st,
)

pub decode-Advances :
    (mbrtowc : ℕ → List ℕ → Mbr) (type : ℕ) (map : List ℕ) (s : List ℕ) (st : ℕ)
    → kind_of type ≢ utf_8
    → Advances st (decode mbrtowc type map s st)
unfolding decode
decode-Advances mbrtowc type map [] st other = tt
decode-Advances mbrtowc type map (c ∷ cs) st other =
    ground (arith, decode_byte-Advances mbrtowc type map c (c ∷ cs) st other)

decode_utf_8-Takes :
    (mbrtowc : ℕ → List ℕ → Mbr) (s : List ℕ) (st : ℕ)
    → IsReader mbrtowc
    → Takes (decode_utf_8 mbrtowc s st)
unfolding decode_utf_8
decode_utf_8-Takes mbrtowc s st reader = go (mbrtowc st s) refl
  where
    go :
        (r : Mbr)
        → mbrtowc st s ≡ r
        → Takes (elim r as (λ r. Decoded) [
          | character l c st' ↦ char l c st'
          | null st' ↦ char 1 0 st'
          | invalid ↦ ilseq
          | incomplete ↦ starved
        ])
    go (character l c st') e = (reader st s l c st' e).0
    go (null st') e = omega arith
    go invalid e = tt
    go incomplete e = tt

decode_byte-utf_8 :
    (mbrtowc : ℕ → List ℕ → Mbr) (type : ℕ) (map : List ℕ) (c : ℕ) (s : List ℕ) (st : ℕ)
    → kind_of type ≡ utf_8
    → decode_byte mbrtowc type map c s st ≡ decode_utf_8 mbrtowc s st
unfolding decode_byte
decode_byte-utf_8 mbrtowc type map c s st e = rw (e, decode_byte) refl

is_utf_8 : (k : Kind) → (k ≡ utf_8) ⊎ (k ≢ utf_8)
is_utf_8 utf_8 = inl refl
is_utf_8 utf_32 = inr (λ h. absurd (ground (arith, h)))
is_utf_8 utf_16 = inr (λ h. absurd (ground (arith, h)))
is_utf_8 wchar_t = inr (λ h. absurd (ground (arith, h)))
is_utf_8 us_ascii = inr (λ h. absurd (ground (arith, h)))
is_utf_8 euc_jp = inr (λ h. absurd (ground (arith, h)))
is_utf_8 shift_jis = inr (λ h. absurd (ground (arith, h)))
is_utf_8 gb18030_kind = inr (λ h. absurd (ground (arith, h)))
is_utf_8 gbk = inr (λ h. absurd (ground (arith, h)))
is_utf_8 gb2312 = inr (λ h. absurd (ground (arith, h)))
is_utf_8 big5_kind = inr (λ h. absurd (ground (arith, h)))
is_utf_8 euc_kr = inr (λ h. absurd (ground (arith, h)))
is_utf_8 legacy = inr (λ h. absurd (ground (arith, h)))

pub decode-Takes :
    (mbrtowc : ℕ → List ℕ → Mbr) (type : ℕ) (map : List ℕ) (s : List ℕ) (st : ℕ)
    → IsReader mbrtowc
    → Takes (decode mbrtowc type map s st)
unfolding decode
decode-Takes mbrtowc type map [] st reader = tt
decode-Takes mbrtowc type map (c ∷ cs) st reader = elim (is_utf_8 (kind_of type)) [
  | inl e ↦
      let taken : Takes (decode_byte mbrtowc type map c (c ∷ cs) st) =
        rw (decode_byte-utf_8 mbrtowc type map c (c ∷ cs) st e)
          (decode_utf_8-Takes mbrtowc (c ∷ cs) st reader) in
      ground (arith, taken)
  | inr other ↦ Advances-Takes st _ (decode-Advances mbrtowc type map (c ∷ cs) st other)
]
