-- ===== src/Iconv/TableSizes.antt =====
-- The sizes of the tables, and reads inside of them.
use android_vshell.Base.{
  true, ltb, ℕ, zero, suc, ◌+◌, ◌*◌, ◌/◌, ◌^◌, ◌<◌, ◌≤◌, ◌≡◌, refl, ◌∙◌, arith, Returns, List, [],
  ◌∷◌, ◌++◌, All, length, length-append, get_elem?,
}
use native.Mathlib.Nat.{mul-suc}
use android_vshell.Iconv.Packed.{Table, entry, read, row_entries, entries_of, entries}
use android_vshell.Iconv.Select.{select}
use android_vshell.Iconv.SelectLaws.{select-IsSelected}
use android_vshell.Iconv.Tables.Jis0208.{jis0208}
use android_vshell.Iconv.Tables.Jis02081.{jis0208_1}
use android_vshell.Iconv.Tables.Jis02082.{jis0208_2}
use android_vshell.Iconv.Tables.Jis02083.{jis0208_3}
use android_vshell.Iconv.Tables.Gb18030.{gb18030}
use android_vshell.Iconv.Tables.Gb180301.{gb18030_1}
use android_vshell.Iconv.Tables.Gb180302.{gb18030_2}
use android_vshell.Iconv.Tables.Gb180303.{gb18030_3}
use android_vshell.Iconv.Tables.Gb180304.{gb18030_4}
use android_vshell.Iconv.Tables.Gb180305.{gb18030_5}
use android_vshell.Iconv.Tables.Gb180306.{gb18030_6}
use android_vshell.Iconv.Tables.Gb180307.{gb18030_7}
use android_vshell.Iconv.Tables.Gb180308.{gb18030_8}
use android_vshell.Iconv.Tables.Gb180309.{gb18030_9}
use android_vshell.Iconv.Tables.Big5.{big5}
use android_vshell.Iconv.Tables.Big51.{big5_1}
use android_vshell.Iconv.Tables.Big52.{big5_2}
use android_vshell.Iconv.Tables.Big53.{big5_3}
use android_vshell.Iconv.Tables.Big54.{big5_4}
use android_vshell.Iconv.Tables.Big55.{big5_5}
use android_vshell.Iconv.Tables.Ksc.{ksc}
use android_vshell.Iconv.Tables.Ksc1.{ksc_1}
use android_vshell.Iconv.Tables.Ksc2.{ksc_2}
use android_vshell.Iconv.Tables.Ksc3.{ksc_3}
use android_vshell.Iconv.Tables.Hkscs.{hkscs}
use android_vshell.Iconv.Tables.Hkscs1.{hkscs_1}
use android_vshell.Iconv.Tables.Hkscs2.{hkscs_2}
use android_vshell.Iconv.Tables.HkscsPlanes.{hkscs_planes}

row_entries_small : (n row : ℕ) → All (λ v. v < 2 ^ 16) (row_entries n row)
unfolding row_entries
row_entries_small zero row = tt
row_entries_small (suc n) row = (omega arith, row_entries_small n (row / 2 ^ 16))

All-append :
    (xs ys : List ℕ)
    → All (λ v. v < 2 ^ 16) xs
    → All (λ v. v < 2 ^ 16) ys
    → All (λ v. v < 2 ^ 16) (xs ++ ys)
All-append [] ys p q = q
All-append (x ∷ xs) ys p q = (p.0, All-append xs ys p.1 q)

entries_of_small : (width : ℕ) (rows : List ℕ) → All (λ v. v < 2 ^ 16) (entries_of width rows)
unfolding entries_of
entries_of_small width [] = tt
entries_of_small width (row ∷ rows) =
    All-append (row_entries width row) (entries_of width rows) (row_entries_small width row)
      (entries_of_small width rows)

length-row_entries : (n row : ℕ) → length (row_entries n row) ≡ n
unfolding row_entries
length-row_entries zero row = refl
length-row_entries (suc n) row = omega (arith, length-row_entries n (row / 2 ^ 16))

length-entries_of :
    (width : ℕ) (rows : List ℕ) → length (entries_of width rows) ≡ width * length rows
unfolding entries_of
length-entries_of width [] = omega arith
length-entries_of width (row ∷ rows) =
    length-append (row_entries width row) (entries_of width rows)
    ∙ omega (
      arith,
      length-row_entries width row,
      length-entries_of width rows,
      mul-suc width (length rows),
    )

pub get_elem?_total : (xs : List ℕ) (i : ℕ) → i < length xs → Returns (get_elem? xs i)
get_elem?_total [] i h = ground arith
get_elem?_total (x ∷ xs) zero h = (x, refl)
get_elem?_total (x ∷ xs) (suc i) h = get_elem?_total xs i (omega arith)

pub read_total :
    (table : Table) (i j : ℕ) → i < length table.rows → j < table.width → Returns (read table i j)
unfolding read
read_total table i j h k =
    let (row, e) = get_elem?_total table.rows i h in
    let t : ltb j table.width ≡ true = ground arith in
    (entry table.width row j, rw (read, t, e) refl)

pub jis0208_size : (length jis0208.rows ≡ 84) × (jis0208.width ≡ 94)
unfolding jis0208 jis0208_1 jis0208_2 jis0208_3
jis0208_size = (refl, refl)

pub gb18030_size : (length gb18030.rows ≡ 126) × (gb18030.width ≡ 190)
unfolding gb18030 gb18030_1 gb18030_2 gb18030_3 gb18030_4 gb18030_5 gb18030_6 gb18030_7 gb18030_8
    gb18030_9
gb18030_size = (refl, refl)

pub big5_size : (length big5.rows ≡ 89) × (big5.width ≡ 157)
unfolding big5 big5_1 big5_2 big5_3 big5_4 big5_5
big5_size = (refl, refl)

pub ksc_size : (length ksc.rows ≡ 93) × (ksc.width ≡ 94)
unfolding ksc ksc_1 ksc_2 ksc_3
ksc_size = (refl, refl)

pub hkscs_size : (length hkscs.rows ≡ 31) × (hkscs.width ≡ 157)
unfolding hkscs hkscs_1 hkscs_2
hkscs_size = (refl, refl)

pub hkscs_planes_size : length hkscs_planes ≡ 305
unfolding hkscs_planes
hkscs_planes_size = refl

-- The loop that counts the entries of a whole table finds a number.
pub select_inside :
    (table : Table) (d c : ℕ)
    → d ≤ c
    → c + table.width * length table.rows < 2 ^ 31
    → Returns (select (entries table) d c)
unfolding entries
select_inside table d c h b =
    let e = length-entries_of table.width table.rows in
    let (r, f, s) =
      select-IsSelected d c (entries_of table.width table.rows)
        (entries_of_small table.width table.rows) h (rw e b) in
    (r, f)
