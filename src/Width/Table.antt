-- ===== src/Width/Table.antt =====
-- The rows of the tables of wcwidth.c, and `intable`, its binary search.
use android_vshell.Base.{
  ℕ, zero, suc, ◌+◌, ◌-◌, ◌/◌, Bool, true, false, ◌&&◌, ◌||◌, Option, none, some,
}
use android_vshell.Base.{List, [], ◌∷◌, ltb, leb, if◌then◌else◌, get_elem?}

-- struct width_interval
pub record Interval : Type 0 where
  pub start : ℕ
  pub end : ℕ

abbrev pub at : ℕ → ℕ → Interval
at a b = record { start = a; end = b }

-- The loop over `bot` and `top`. The source's `top` may become -1, so `past` is `top + 1`: the test
-- `top >= bot` is `bot < past`, and `top = mid - 1` is `past = mid`.
-- `none` stands for a read outside the table, or for fuel that ran out.
unfoldable pub search_loop : ℕ → List Interval → ℕ → ℕ → ℕ → Option Bool
search_loop zero table c bot past = none
search_loop (suc fuel) table c bot past =
    let mid = (bot + (past - 1)) / 2 in
    let above = search_loop fuel table c (mid + 1) past in
    let below = search_loop fuel table c bot mid in
    if ltb bot past
    then elim (get_elem? table mid) [
      | none ↦ none
      | some row ↦ if ltb row.end c then above else if ltb c row.start then below else some true
    ]
    else some false

-- The fuel is one more than the length: each round narrows the range.
unfoldable pub intable : List Interval → ℕ → ℕ → Option Bool
intable [] table_length c = none
intable (row ∷ rows) table_length c =
    let found = search_loop (suc table_length) (row ∷ rows) c 0 table_length in
    if ltb c row.start then some false else found

-- What the table means: `c` lies in one of its rows.
unfoldable pub covers : List Interval → ℕ → Bool
covers [] c = false
covers (row ∷ rows) c = (leb row.start c && leb c row.end) || covers rows c

-- The rows are intervals in ascending order, with no overlap.
unfoldable pub is_ascending : List Interval → Bool
is_ascending [] = true
is_ascending (a ∷ []) = leb a.start a.end
is_ascending (a ∷ b ∷ rows) = leb a.start a.end && ltb a.end b.start && is_ascending (b ∷ rows)
