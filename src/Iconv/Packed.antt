-- ===== src/Iconv/Packed.antt =====
-- Tables of 16-bit entries. A row is one number, the entries being its digits to the base 2 ^ 16.
use android_vshell.Base.{
  ℕ, zero, suc, ◌-◌, ◌*◌, ◌/◌, ◌%◌, ◌^◌, Option, none, some, List, [], ◌∷◌, ◌++◌,
}
use android_vshell.Base.{ltb, if◌then◌else◌, get_elem?}

pub record Table : Type 0 where
  pub rows : List ℕ
  pub width : ℕ

-- The entry `j` of a row; the first is the highest digit.
unfoldable pub entry : ℕ → ℕ → ℕ → ℕ
entry width row j = row / 2 ^ (16 * (width - 1 - j)) % 2 ^ 16

-- `table[i][j]`; `none` where an index is out of range.
unfoldable pub read : Table → ℕ → ℕ → Option ℕ
read table i j =
    if ltb j table.width
    then elim (get_elem? table.rows i) [ none ↦ none | some row ↦ some (entry table.width row j) ]
    else none

-- The lowest `n` entries of a row, the last entry first.
unfoldable pub row_entries : ℕ → ℕ → List ℕ
row_entries zero row = []
row_entries (suc n) row = (row % 2 ^ 16) ∷ row_entries n (row / 2 ^ 16)

-- All entries, for the loops that count them. Their order does not matter there.
unfoldable pub entries_of : ℕ → List ℕ → List ℕ
entries_of width [] = []
entries_of width (row ∷ rows) = row_entries width row ++ entries_of width rows

unfoldable pub entries : Table → List ℕ
entries table = entries_of table.width table.rows
