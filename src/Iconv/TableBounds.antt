-- ===== src/Iconv/TableBounds.antt =====
-- Which encodings of the first switch keep to their tables.
use android_vshell.Base.{
  ◌&&◌, ◌||◌, bind-Returns, Option-cases, bit_or, if◌then◌else◌, ◌==◌, Bool-cases, ltb→lt, inl, inr,
  false, ltb, ℕ, ◌+◌, ◌-◌, ◌*◌, ◌/◌, ◌%◌, ◌^◌, ◌<◌, ◌≡◌, ◌≢◌, refl, sym, ap, ◌∙◌, arith, none, some,
  Returns, List, [], ◌∷◌, length,
}
use android_vshell.Iconv.Packed.{Table, read, entries}
use android_vshell.Iconv.Select.{select}
use android_vshell.Iconv.Tables.Jis0208.{jis0208}
use android_vshell.Iconv.Tables.Gb18030.{gb18030}
use android_vshell.Iconv.Tables.Big5.{big5}
use android_vshell.Iconv.Tables.Ksc.{ksc}
use android_vshell.Iconv.Tables.Hkscs.{hkscs}
use android_vshell.Iconv.Tables.HkscsPlanes.{hkscs_planes}
use android_vshell.Iconv.Decode.{
  Mbr, ilseq, pair, outside, char, Kind, shift_jis, utf_32, utf_16, wchar_t, us_ascii, utf_8,
  euc_jp, big5_kind, euc_kr, legacy, gb2312, gbk, gb18030_kind, table_char, decode_utf_8,
  decode_wchar_t, decode_utf_32, decode_utf_16, check_scalar, decode_euc_jp, decode_gb,
  decode_gb_four, hkscs_at, hkscs_char, decode_big5, uhc_column, decode_euc_kr, decode_byte, decode,
  kind_of,
}
use android_vshell.Iconv.FormSplit.{IsBytes, byte_small}
use android_vshell.Iconv.TableSizes.{
  read_total, get_elem?_total, jis0208_size, gb18030_size, big5_size, ksc_size, hkscs_size,
  hkscs_planes_size, select_inside,
}
use android_vshell.Iconv.Units.{byte}
use android_vshell.Iconv.Charmap.{sub32}

table_char-inside : (v st : ℕ) → table_char (some v) st ≢ outside
unfolding table_char
table_char-inside v st h = ground (arith, h)

read_inside :
    (table : Table) (i j st : ℕ)
    → i < length table.rows
    → j < table.width
    → table_char (read table i j) st ≢ outside
read_inside table i j st h k e =
    let (v, f) = read_total table i j h k in
    table_char-inside v st (sym (ap (λ o. table_char o st) f) ∙ e)

decode_utf_8-inside :
    (mbrtowc : ℕ → List ℕ → Mbr) (s : List ℕ) (st : ℕ) → decode_utf_8 mbrtowc s st ≢ outside
unfolding decode_utf_8
decode_utf_8-inside mbrtowc s st h = ground (arith, h)

decode_utf_16-inside : (type : ℕ) (s : List ℕ) (st : ℕ) → decode_utf_16 type s st ≢ outside
unfolding decode_utf_16
decode_utf_16-inside type s st h = ground (arith, h)

decode_utf_32-inside : (type : ℕ) (s : List ℕ) (st : ℕ) → decode_utf_32 type s st ≢ outside
unfolding decode_utf_32 check_scalar
decode_utf_32-inside type s st h = ground (arith, h)

decode_euc_jp-inside : (c : ℕ) (s : List ℕ) (st : ℕ) → decode_euc_jp c s st ≢ outside
unfolding decode_euc_jp
decode_euc_jp-inside c s st h = ground (
  arith,
  h,
  jis0208_size.0,
  jis0208_size.1,
  read_inside jis0208 (sub32 c 0xa1) (sub32 (byte s 1) 0xa1) st,
)

decode_wchar_t-inside : (s : List ℕ) (st : ℕ) → decode_wchar_t s st ≢ outside
unfolding decode_wchar_t check_scalar
decode_wchar_t-inside s st h = ground (arith, h)

decode_gb_four-inside :
    (c d : ℕ) (s : List ℕ) (st : ℕ)
    → c < 126
    → d < 256
    → IsBytes s
    → decode_gb_four c d s st ≢ outside
unfolding decode_gb_four
decode_gb_four-inside c d s st p q small h =
    let d₂ = byte s 2 in
    let d₃ = byte s 3 in
    let index = (10 * c + d - b'0') * 1260 + 10 * (d₂ - 0x81) + (d₃ - b'0') + 128 in
    let bound : index + gb18030.width * length gb18030.rows < 2 ^ 31 =
      rw (gb18030_size.0, gb18030_size.1)
        (omega (arith, byte_small s 2 small, byte_small s 3 small)) in
    let found = select_inside gb18030 0 index (omega arith) bound in ground (arith, h, found.1)

gb_read-inside :
    (c d st : ℕ)
    → c < 126
    → sub32 d 0x40 < 191
    → d < 256
    → (d == 127) ≡ false
    → elim (read gb18030 c (if ltb 63 (d - 0x40) then d - 0x40 - 1 else d - 0x40)) [
      | none ↦ outside
      | some v ↦ char 2 v st
    ]
      ≢ outside
gb_read-inside c d st p q b n h =
    let j = if ltb 63 (d - 0x40) then d - 0x40 - 1 else d - 0x40 in
    let column : j < 190 = ground arith in
    let found =
      read_total gb18030 c j (omega (arith, gb18030_size.0)) (omega (arith, gb18030_size.1)) in
    ground (arith, h, found.1)

decode_gb-inside :
    (kind : Kind) (c : ℕ) (s : List ℕ) (st : ℕ) → IsBytes s → decode_gb kind c s st ≢ outside
unfolding decode_gb
decode_gb-inside kind c s st small h =
    let b = byte_small s 1 small in
    let four : sub32 c 0x81 < 126 → decode_gb_four (sub32 c 0x81) (byte s 1) s st ≢ outside =
      λ p. decode_gb_four-inside (sub32 c 0x81) (byte s 1) s st p b small in
    ground (arith, h, b, gb_read-inside (sub32 c 0x81) (byte s 1) st, four)

uhc_column-le : (d j : ℕ) → d < 2 ^ 32 → uhc_column d ≡ some j → j < 178
unfolding uhc_column
uhc_column-le d j b h = ground (arith, h)

uhc-inside :
    (c d st : ℕ)
    → c < 93
    → d < 2 ^ 32
    → elim (uhc_column d) [
      | none ↦ ilseq
      | some j ↦
          (let index = if ltb c 0x20 then 178 * c + j else 178 * 0x20 + 84 * (c - 0x20) + j in
            elim (select (entries ksc) 0xac00 (index + 0xac00)) [
              | none ↦ outside
              | some r ↦ char 2 r st
            ])
    ]
      ≢ outside
uhc-inside c d st p b h = elim (Option-cases (uhc_column d)) [
  | inl e ↦ ground (arith, h, e)
  | inr (j, e) ↦
      let index = if ltb c 0x20 then 178 * c + j else 178 * 0x20 + 84 * (c - 0x20) + j in
      let small : index < 100000 = ground (arith, uhc_column-le d j b e) in
      let bound : index + 0xac00 + ksc.width * length ksc.rows < 2 ^ 31 =
        rw (ksc_size.0, ksc_size.1) (omega (arith, small)) in
      let found = select_inside ksc 0xac00 (index + 0xac00) (omega arith) bound in
      ground (arith, h, e, found.1)
]

decode_euc_kr-inside : (c : ℕ) (s : List ℕ) (st : ℕ) → decode_euc_kr c s st ≢ outside
unfolding decode_euc_kr
decode_euc_kr-inside c s st h =
    let i = sub32 c 0xa1 in
    let j = sub32 (byte s 1) 0xa1 in
    ground (
      arith,
      h,
      uhc-inside ((i + (0xa1 - 0x81)) % 2 ^ 32) ((j + 0xa1) % 2 ^ 32) st,
      read_inside ksc i j st,
      ksc_size.0,
      ksc_size.1,
    )

hkscs_at-inside : (i : ℕ) → i < 4867 + 305 → Returns (hkscs_at i)
unfolding hkscs_at
hkscs_at-inside i h = elim (Bool-cases (ltb i 4867)) [
  | inl t ↦
      let (v, e) =
        read_total hkscs (i / 157) (i % 157) (omega (arith, hkscs_size.0, ltb→lt i 4867 t))
          (omega (arith, hkscs_size.1)) in
      (v, rw (hkscs_at, t) e)
  | inr t ↦
      let (v, e) = get_elem?_total hkscs_planes (i - 4867) (ground (arith, hkscs_planes_size)) in
      (v, rw (hkscs_at, t) e)
]

hkscs_char-inside : (i : ℕ) → i < 4867 → Returns (hkscs_char i)
unfolding hkscs_char
hkscs_char-inside i h =
    bind-Returns (hkscs_at-inside (4867 + i / 16) (omega arith))
      (λ planes. bind-Returns (hkscs_at-inside i (omega arith)) (λ low. (_, refl)))

hkscs_pair-inside :
    (i st : ℕ)
    → i < 4867
    → elim (hkscs_char i) [
      | none ↦ outside
      | some v ↦ if v / 256 == 0xdc then pair (v % 256) else table_char (some v) st
    ]
      ≢ outside
unfolding table_char
hkscs_pair-inside i st p h = let found = hkscs_char-inside i p in ground (arith, h, found.1)

big5-inside :
    (i d x st : ℕ)
    → i < 89
    → d < 157
    → elim (read big5 i d) [ none ↦ outside | some v ↦ table_char (some (bit_or v x)) st ] ≢ outside
unfolding table_char
big5-inside i d x st p q h =
    let found = read_total big5 i d (omega (arith, big5_size.0)) (omega (arith, big5_size.1)) in
    ground (arith, h, found.1)

decode_big5-inside :
    (c : ℕ) (s : List ℕ) (st : ℕ) → c < 256 → byte s 1 < 256 → decode_big5 c s st ≢ outside
unfolding decode_big5
decode_big5-inside c s st p q h =
    let d₀ = byte s 1 in
    let d = if ltb 0x3e (d₀ - 0x40) then d₀ - 0x40 - 0x22 else d₀ - 0x40 in
    let row = if ltb c 0xa1 then c - 0x87 else c - (0x87 + (0xfa - 0xa1)) in
    let i = sub32 c 0xa1 in
    let x = if i == 0x27 && (d == 0x3a || d == 0x3c || d == 0x42) then 2 ^ 17 else 0 in
    ground (arith, h, hkscs_pair-inside (row * 157 + d) st, big5-inside i d x st)

us_ascii-inside : ilseq ≢ outside
us_ascii-inside h = ground (arith, h)

module _ (mbrtowc : ℕ → List ℕ → Mbr) (type : ℕ) (map : List ℕ) (c : ℕ) (s : List ℕ) (st : ℕ) where
  decode_byte-inside :
      (kind : Kind)
      → kind_of type ≡ kind
      → kind ≢ shift_jis
      → kind ≢ legacy
      → c < 256
      → IsBytes s
      → decode_byte mbrtowc type map c s st ≢ outside
  unfolding decode_byte
  decode_byte-inside utf_32 k n m b small = rw (decode_byte, k) (decode_utf_32-inside type s st)
  decode_byte-inside utf_16 k n m b small = rw (decode_byte, k) (decode_utf_16-inside type s st)
  decode_byte-inside wchar_t k n m b small = rw (decode_byte, k) (decode_wchar_t-inside s st)
  decode_byte-inside us_ascii k n m b small = rw (decode_byte, k) us_ascii-inside
  decode_byte-inside utf_8 k n m b small = rw (decode_byte, k) (decode_utf_8-inside mbrtowc s st)
  decode_byte-inside euc_jp k n m b small = rw (decode_byte, k) (decode_euc_jp-inside c s st)
  decode_byte-inside shift_jis k n m b small = absurd (n refl)
  decode_byte-inside gb18030_kind k n m b small =
      rw (decode_byte, k) (decode_gb-inside gb18030_kind c s st small)
  decode_byte-inside gbk k n m b small = rw (decode_byte, k) (decode_gb-inside gbk c s st small)
  decode_byte-inside gb2312 k n m b small =
      rw (decode_byte, k) (decode_gb-inside gb2312 c s st small)
  decode_byte-inside big5_kind k n m b small =
      rw (decode_byte, k) (decode_big5-inside c s st b (byte_small s 1 small))
  decode_byte-inside euc_kr k n m b small = rw (decode_byte, k) (decode_euc_kr-inside c s st)
  decode_byte-inside legacy k n m b small = absurd (m refl)

-- Where the source's encoding is neither SHIFT_JIS nor an 8-bit charmap, the first switch reads no
-- table outside of its bounds, whatever the bytes.
pub decode-inside :
    (mbrtowc : ℕ → List ℕ → Mbr) (type : ℕ) (map s : List ℕ) (st : ℕ)
    → kind_of type ≢ shift_jis
    → kind_of type ≢ legacy
    → IsBytes s
    → decode mbrtowc type map s st ≢ outside
unfolding decode
decode-inside mbrtowc type map [] st n m small h = ground (arith, h)
decode-inside mbrtowc type map (c ∷ s) st n m small h = ground (
  arith,
  h,
  decode_byte-inside mbrtowc type map c (c ∷ s) st (kind_of type) refl n m small.0 small,
)
