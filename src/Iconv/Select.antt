-- ===== src/Iconv/Select.antt =====
-- The loops of iconv.c that count the entries of a table between two numbers, to find the character
-- with a given index among those that the table does not have.
use android_vshell.Base.{ℕ, zero, suc, ◌+◌, ◌%◌, ◌^◌, Option, none, some, List, [], ◌∷◌}
use android_vshell.Base.{leb, if◌then◌else◌, length}
use android_vshell.Iconv.Charmap.{sub32}

-- How many entries `v` have `v-d <= c-d`, on unsigned int.
unfoldable pub count_between : List ℕ → ℕ → ℕ → ℕ
count_between [] d c = 0
count_between (v ∷ vs) d c = (if leb (sub32 v d) (sub32 c d) then 1 else 0) + count_between vs d c

-- `for (d=...; d<=c; ) { k = ...; d = c+1; c += k; }`, with the last `c`. `none`: fuel ran out.
unfoldable pub select_loop : ℕ → List ℕ → ℕ → ℕ → Option ℕ
select_loop zero table d c = none
select_loop (suc fuel) table d c =
    let next = select_loop fuel table ((c + 1) % 2 ^ 32) ((c + count_between table d c) % 2 ^ 32) in
    if leb d c then next else some c

-- A round that goes on finds an entry that no round before it found.
unfoldable pub select : List ℕ → ℕ → ℕ → Option ℕ
select table d c = select_loop (length table + 3) table d c
