-- ===== src/Iconv/SelectLaws.antt =====
-- What the loops that count entries find.
use android_vshell.Base.{
  true, false, ℕ, zero, suc, ◌+◌, ◌%◌, ◌^◌, ◌<◌, ◌≤◌, ◌≡◌, ◌≢◌, ◌⊎◌, inl, inr, refl, ◌∙◌, arith,
  ◌&&◌, some, List, [], ◌∷◌, All, length, leb, if◌then◌else◌,
}
use android_vshell.Iconv.Select.{count_between, select_loop, select}

-- How many of the entries lie between two numbers.
unfoldable pub between : List ℕ → ℕ → ℕ → ℕ
between [] d c = 0
between (v ∷ vs) d c = (if leb d v && leb v c then 1 else 0) + between vs d c

-- How many lie from a number on.
above : List ℕ → ℕ → ℕ
above [] d = 0
above (v ∷ vs) d = (if leb d v then 1 else 0) + above vs d

above-length : (table : List ℕ) (d : ℕ) → above table d ≤ length table
unfolding above
above-length [] d = omega arith
above-length (v ∷ vs) d = ground (arith, above-length vs d)

between-split :
    (table : List ℕ) (d c r : ℕ)
    → d ≤ c + 1
    → c ≤ r
    → between table d r ≡ between table d c + between table (c + 1) r
unfolding between
between-split [] d c r h k = omega arith
between-split (v ∷ vs) d c r h k = ground (arith, between-split vs d c r h k)

above-split :
    (table : List ℕ) (d c : ℕ) → d ≤ c + 1 → above table d ≡ between table d c + above table (c + 1)
unfolding between above
above-split [] d c h = omega arith
above-split (v ∷ vs) d c h = ground (arith, above-split vs d c h)

between-none : (table : List ℕ) (d c : ℕ) → d ≤ c → between table d c ≡ 0 → All (λ v. v ≢ c) table
unfolding between
between-none [] d c h e = tt
between-none (v ∷ vs) d c h e =
    ((λ k. ground (arith, k)), between-none vs d c h (ground (arith, e)))

between-empty : (table : List ℕ) (c : ℕ) → between table (c + 1) c ≡ 0
unfolding between
between-empty [] c = refl
between-empty (v ∷ vs) c = ground (arith, between-empty vs c)

count_between-between :
    (table : List ℕ) (d c : ℕ)
    → All (λ v. v < 2 ^ 16) table
    → d ≤ c
    → c < 2 ^ 31
    → count_between table d c ≡ between table d c
unfolding count_between between
count_between-between [] d c small h k = refl
count_between-between (v ∷ vs) d c (s, small) h k =
    ground (arith, count_between-between vs d c small h k)

-- The number found: as far beyond `c` as there are entries up to it, and none of them.
pub record IsSelected (table : List ℕ) (d c r : ℕ) : Type 0 where
  pub counted : r ≡ c + between table d r
  pub absent : All (λ v. v ≢ r) table

zero-cases : (n : ℕ) → (n ≡ 0) ⊎ (1 ≤ n)
zero-cases n = ground arith

-- A round, after which the loop goes on.
round_on :
    (fuel d c : ℕ) (table : List ℕ)
    → All (λ v. v < 2 ^ 16) table
    → d ≤ c
    → c + between table d c < 2 ^ 31
    → select_loop (suc fuel) table d c ≡ select_loop fuel table (c + 1) (c + between table d c)
unfolding select_loop
round_on fuel d c table small h b =
    let t : leb d c ≡ true = ground arith in
    let e : (c + 1) % 2 ^ 32 ≡ c + 1 = omega arith in
    let f : (c + between table d c) % 2 ^ 32 ≡ c + between table d c = omega arith in
    rw (select_loop, t, count_between-between table d c small h (omega arith), e, f) refl

round_last : (fuel c : ℕ) (table : List ℕ) → select_loop (suc fuel) table (c + 1) c ≡ some c
unfolding select_loop
round_last fuel c table = let t : leb (c + 1) c ≡ false = ground arith in rw (select_loop, t) refl

selected_last :
    (fuel c k : ℕ) (table : List ℕ) → k ≡ 0 → select_loop (suc fuel) table (c + 1) (c + k) ≡ some c
selected_last fuel c k table e = let f : c + k ≡ c = omega arith in rw f (round_last fuel c table)

select_loop-IsSelected :
    (fuel d c : ℕ) (table : List ℕ)
    → All (λ v. v < 2 ^ 16) table
    → d ≤ c
    → c + above table d < 2 ^ 31
    → above table d + 2 ≤ fuel
    → (r : ℕ) × (select_loop fuel table d c ≡ some r) × (c ≤ r) × IsSelected table d c r
select_loop-IsSelected zero d c table small h b f = ground arith
select_loop-IsSelected (suc zero) d c table small h b f = ground arith
select_loop-IsSelected (suc (suc fuel)) d c table small h b f =
    let split = above-split table d c (omega arith) in
    let on = round_on (suc fuel) d c table small h (omega (arith, split)) in
    elim (zero-cases (between table d c)) [
      | inl e ↦ (
        c,
        on ∙ selected_last fuel c _ table e,
        omega arith,
        record { counted = rw e (omega arith); absent = between-none table d c h e },
      )
      | inr k ↦
          let (r, e, le, s) =
            select_loop-IsSelected (suc fuel) (c + 1) (c + between table d c) table small
              (omega arith) (omega (arith, split)) (omega (arith, split)) in
          let parts = between-split table d c r (omega arith) (omega arith) in
          (
            r,
            on ∙ e,
            omega arith,
            record { counted = omega (arith, parts, s.counted); absent = s.absent },
          )
    ]

-- On a table of 16-bit entries and small numbers, the loop ends: it finds the number behind `c` that
-- is as far from `c` as there are entries from `d` up to that number, which is not an entry itself.
pub select-IsSelected :
    (d c : ℕ) (table : List ℕ)
    → All (λ v. v < 2 ^ 16) table
    → d ≤ c
    → c + length table < 2 ^ 31
    → (r : ℕ) × (select table d c ≡ some r) × IsSelected table d c r
unfolding select
select-IsSelected d c table small h b =
    let a = above-length table d in
    let (r, e, le, s) =
      select_loop-IsSelected (length table + 3) d c table small h (omega (arith, a))
        (omega (arith, a)) in
    (r, e, s)
