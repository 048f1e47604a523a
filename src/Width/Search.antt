-- ===== src/Width/Search.antt =====
-- The binary search of wcwidth.c finds what a scan of the whole table finds.
use android_vshell.Base.{
  ℕ, zero, suc, ◌+◌, ◌-◌, ◌/◌, ◌≤◌, ◌<◌, ◌≡◌, refl, ◌⊎◌, inl, inr, true, false,
}
use android_vshell.Base.{
  some, List, [], ◌∷◌, length, get_elem?, ltb, arith, ltb→lt, lt→ltb, Bool-cases,
}
use android_vshell.Width.Table.{Interval, at, search_loop, intable, covers, is_ascending}

-- A read that is always inside the table where it is used.
abbrev row : List Interval → ℕ → Interval
row [] i = at 0 0
row (r ∷ rows) zero = r
row (r ∷ rows) (suc i) = row rows i

get_elem?-row : (t : List Interval) (i : ℕ) → i < length t → get_elem? t i ≡ some (row t i)
get_elem?-row [] i h = absurd (omega arith)
get_elem?-row (r ∷ t) zero h = refl
get_elem?-row (r ∷ t) (suc i) h = get_elem?-row t i (omega arith)

covers_hit :
    (t : List Interval) (c i : ℕ)
    → i < length t
    → (row t i).start ≤ c
    → c ≤ (row t i).end
    → covers t c ≡ true
unfolding covers
covers_hit [] c i h p q = absurd (omega arith)
covers_hit (r ∷ t) c zero h p q = ground arith
covers_hit (r ∷ t) c (suc i) h p q = ground (arith, covers_hit t c i)

abbrev Outside : ℕ → Interval → Type 0
Outside c r = (r.end < c) ⊎ (c < r.start)

covers_miss :
    (t : List Interval) (c : ℕ)
    → ((i : ℕ) → i < length t → Outside c (row t i))
    → covers t c ≡ false
unfolding covers
covers_miss [] c h = refl
covers_miss (r ∷ t) c h =
    ground (arith, h 0 (omega arith), covers_miss t c (λ i p. h (suc i) (omega arith)))

-- A later row starts past the end of an earlier one.
head_below :
    (a : Interval) (t : List Interval) (j : ℕ)
    → is_ascending (a ∷ t) ≡ true
    → j < length t
    → (a.end < (row t j).start) × ((row t j).start ≤ (row t j).end)
unfolding is_ascending
head_below a [] j h p = absurd (omega arith)
head_below a (b ∷ []) zero h p = ground arith
head_below a (b ∷ []) (suc j) h p = absurd (omega arith)
head_below a (b ∷ d ∷ t) zero h p = ground arith
head_below a (b ∷ d ∷ t) (suc j) h p = ground (arith, head_below b (d ∷ t) j)

is_ascending-tail :
    (a : Interval) (t : List Interval) → is_ascending (a ∷ t) ≡ true → is_ascending t ≡ true
unfolding is_ascending
is_ascending-tail a [] h = refl
is_ascending-tail a (b ∷ t) h = ground arith

ascending :
    (t : List Interval) (i j : ℕ)
    → is_ascending t ≡ true
    → i < j
    → j < length t
    → ((row t i).end < (row t j).start) × ((row t j).start ≤ (row t j).end)
ascending [] i j h p q = absurd (omega arith)
ascending (a ∷ t) i zero h p q = absurd (omega arith)
ascending (a ∷ t) zero (suc j) h p q = head_below a t j h (omega arith)
ascending (a ∷ t) (suc i) (suc j) h p q =
    ascending t i j (is_ascending-tail a t h) (omega arith) (omega arith)

row_proper :
    (t : List Interval) (i : ℕ)
    → is_ascending t ≡ true
    → i < length t
    → (row t i).start ≤ (row t i).end
unfolding is_ascending
row_proper [] i h p = absurd (omega arith)
row_proper (a ∷ []) zero h p = ground arith
row_proper (a ∷ []) (suc i) h p = absurd (omega arith)
row_proper (a ∷ b ∷ t) zero h p = ground arith
row_proper (a ∷ b ∷ t) (suc i) h p = row_proper (b ∷ t) i (ground arith) (omega arith)

module _ (t : List Interval) (c : ℕ) (sorted : is_ascending t ≡ true) where
  -- The rows before `bot` end below `c`, and those from `past` on start above it.
  record Inv (bot past : ℕ) : Type 0 where
    inside : past ≤ length t
    below : (i : ℕ) → i < bot → i < length t → (row t i).end < c
    above : (i : ℕ) → past ≤ i → i < length t → c < (row t i).start

  module _ (bot past mid : ℕ) (inv : Inv bot past) (lo : bot ≤ mid) (hi : mid < past) where
    Inv-above : (row t mid).end < c → Inv (mid + 1) past
    Inv-above h = record {
      inside = inv.inside;
      below = λ i p q. elim (split i p) [
        | inl e ↦ rw e h
        | inr l ↦
            omega (arith, ascending t i mid sorted l mid_inside, row_proper t mid sorted mid_inside)
      ];
      above = inv.above;
    }
      where
        mid_inside : mid < length t
        mid_inside = omega (arith, inv.inside)

        split : (i : ℕ) → i < mid + 1 → (i ≡ mid) ⊎ (i < mid)
        split i p = omega arith

    Inv-below : c < (row t mid).start → Inv bot mid
    Inv-below h = record {
      inside = omega (arith, inv.inside);
      below = inv.below;
      above = λ i p q. elim (split i p) [
        | inl e ↦ rw e h
        | inr l ↦ omega (arith, ascending t mid i sorted l q, row_proper t mid sorted mid_inside)
      ];
    }
      where
        mid_inside : mid < length t
        mid_inside = omega (arith, inv.inside)

        split : (i : ℕ) → mid ≤ i → (i ≡ mid) ⊎ (mid < i)
        split i p = omega arith

  Inv-outside : (bot past : ℕ) → Inv bot past → past ≤ bot → covers t c ≡ false
  Inv-outside bot past inv h = covers_miss t c λ i p. elim (split i) [
    | inl l ↦ inl (inv.below i l p)
    | inr g ↦ inr (inv.above i (omega arith) p)
  ]
    where
      split : (i : ℕ) → (i < bot) ⊎ (bot ≤ i)
      split i = omega arith

  -- A round that still has rows to look at, given the rounds after it.
  round-covers :
      (fuel bot past : ℕ)
      → ((b p : ℕ) → p - b < fuel → Inv b p → search_loop fuel t c b p ≡ some (covers t c))
      → past - bot < suc fuel
      → Inv bot past
      → bot < past
      → search_loop (suc fuel) t c bot past ≡ some (covers t c)
  unfolding search_loop
  round-covers fuel bot past rest f inv p =
      let mid : ℕ = (bot + (past - 1)) / 2 in
      let lo : bot ≤ mid = omega arith in
      let hi : mid < past = omega arith in
      let inside : mid < length t = omega (arith, inv.inside) in
      rw (lt→ltb bot past p, get_elem?-row t mid inside)
        (elim (Bool-cases (ltb (row t mid).end c)) [
          | inl up ↦
              rw up (
                rest (mid + 1) past (omega arith)
                  (Inv-above bot past mid inv lo hi (ltb→lt _ _ up)))
          | inr not_up ↦ elim (Bool-cases (ltb c (row t mid).start)) [
            | inl down ↦
                rw (not_up, down)
                  (rest bot mid (omega arith) (Inv-below bot past mid inv lo hi (ltb→lt _ _ down)))
            | inr hit ↦ rw (not_up, hit, covers_hit t c mid inside (ground arith) (ground arith))
          ]
        ])

  search_loop-covers :
      (fuel bot past : ℕ)
      → past - bot < fuel
      → Inv bot past
      → search_loop fuel t c bot past ≡ some (covers t c)
  unfolding search_loop
  search_loop-covers zero bot past f inv = absurd (omega arith)
  search_loop-covers (suc fuel) bot past f inv = elim (Bool-cases (ltb bot past)) [
    | inr done ↦ rw (done, Inv-outside bot past inv (ground arith))
    | inl more ↦ round-covers fuel bot past (search_loop-covers fuel) f inv (ltb→lt bot past more)
  ]

before_all :
    (a : Interval) (t : List Interval) (c i : ℕ)
    → is_ascending (a ∷ t) ≡ true
    → c < a.start
    → i < length (a ∷ t)
    → c < (row (a ∷ t) i).start
before_all a t c zero sorted h p = h
before_all a t c (suc i) sorted h p =
    omega (arith, head_below a t i sorted (omega arith), row_proper (a ∷ t) 0 sorted (omega arith))

-- On a table with at least one row, whose rows ascend, `intable` with the table's length returns,
-- reads no row outside the table, and answers whether some row contains the character.
pub intable-covers :
    (a : Interval) (t : List Interval) (c : ℕ)
    → is_ascending (a ∷ t) ≡ true
    → intable (a ∷ t) (length (a ∷ t)) c ≡ some (covers (a ∷ t) c)
unfolding intable
intable-covers a t c sorted = elim (Bool-cases (ltb c a.start)) [
  | inl early ↦
      rw
        (early, covers_miss (a ∷ t) c (λ i p. inr (before_all a t c i sorted (ltb→lt _ _ early) p)))
  | inr other ↦ rw other (
      search_loop-covers (a ∷ t) c sorted (suc (length (a ∷ t))) 0 (length (a ∷ t)) (omega arith)
        (record {
          inside = omega arith;
          below = λ i p. absurd (omega arith);
          above = λ i p q. absurd (omega arith);
        }))
]
