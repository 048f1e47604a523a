-- ===== src/Cpu/ListLaws.antt =====
-- `cpulist_parse` reads the kernel's format: items joined by commas, each a number or two numbers
-- joined by a dash, and a newline at the end.
use android_vshell.Base.{ℕ, zero, suc, ◌+◌, ◌^◌, ◌≤◌, ◌<◌, ◌≡◌, ◌≢◌, refl, sym, ap, ◌∙◌, arith}
use android_vshell.Base.{
  none, some, List, [], ◌∷◌, ◌++◌, length, length-append, All, ◌==◌, Bool-cases, Option-cases, inl,
  inr, false, ==_iff,
}
use mathlib.Core.List.{append_assoc, append-nil}
use android_vshell.Cpu.Number.{digit, parse_decimal}
use android_vshell.Cpu.CpuList.{
  CpuList, int_max, set_values, set_range, split_item, parse_item, parse_items, cpulist_parse,
}
use android_vshell.Cpu.NumberLaws.{
  print, print-digit, parse_decimal-print, Stops, IsDigit, print-IsDigit, All-append,
}

pub data Item : Type 0 where
  one : ℕ → Item
  span : ℕ → ℕ → Item

-- Numbers that fit an int; the last one of a range is smaller than INT_MAX.
abbrev pub IsSmall : Item → Type 0
IsSmall (one n) = n < int_max
IsSmall (span a b) = (a < 2 ^ 31) × (b < int_max)

abbrev decimal : ℕ → List ℕ
decimal n = print 9 n

unfoldable pub print_item : Item → List ℕ
print_item (one n) = decimal n
print_item (span a b) = decimal a ++ (b'-' ∷ decimal b)

unfoldable pub print_items : List Item → List ℕ
print_items [] = b'\n' ∷ []
print_items (x ∷ []) = print_item x ++ (b'\n' ∷ [])
print_items (x ∷ y ∷ xs) = print_item x ++ (b',' ∷ print_items (y ∷ xs))

abbrev pub first : Item → ℕ
first (one n) = n
first (span a b) = a

abbrev pub last : Item → ℕ
last (one n) = n
last (span a b) = b

unfoldable pub set_items : CpuList → List Item → CpuList
set_items list [] = list
set_items list (x ∷ xs) = set_items (set_values list (first x) (last x)) xs

-- What may follow an item: nothing, or a byte that is neither a digit nor a dash.
abbrev Follows : List ℕ → Type 0
Follows [] = Unit {0}
Follows (c ∷ cs) = (digit 10 c ≡ none) × (c ≢ b'-')

Follows-Stops : (rest : List ℕ) → Follows rest → Stops rest
Follows-Stops [] h = tt
Follows-Stops (c ∷ cs) h = h.0

decimal-print :
    (n : ℕ) (rest : List ℕ)
    → n < 2 ^ 31
    → Stops rest
    → parse_decimal (decimal n ++ rest) ≡ some (n, rest)
decimal-print n rest small stops =
    parse_decimal-print 9 n rest (omega arith) stops ∙ ap (λ (v : ℕ). some (v, rest)) (omega arith)

parse_item-print :
    (x : Item) (rest : List ℕ)
    → IsSmall x
    → Follows rest
    → parse_item (print_item x ++ rest) ≡ some (first x, last x)
unfolding parse_item print_item
parse_item-print (one n) [] small h = rw (decimal-print n [] (omega (arith, small)) tt, parse_item)
parse_item-print (one n) (c ∷ cs) small h =
    rw (decimal-print n (c ∷ cs) (omega (arith, small)) h.0, parse_item) (ground (arith, h.1))
parse_item-print (span a b) rest small h = rw (
  append_assoc,
  decimal-print a (b'-' ∷ (decimal b ++ rest)) small.0 dash,
  parse_item,
  decimal-print b rest (omega (arith, small.1)) (Follows-Stops rest h),
)
  where
    dash : digit 10 b'-' ≡ none
    dash = unfold digit in refl

-- Bytes that are no comma and no newline.
abbrev IsPlain : ℕ → Type 0
IsPlain c = (c ≢ b',') × (c ≢ b'\n')

digits-IsPlain : (xs : List ℕ) → All IsDigit xs → All IsPlain xs
digits-IsPlain [] h = tt
digits-IsPlain (x ∷ xs) h = ((omega (arith, h.0), omega (arith, h.0)), digits-IsPlain xs h.1)

decimal-IsPlain : (n : ℕ) → n < 2 ^ 31 → All IsPlain (decimal n)
decimal-IsPlain n small = digits-IsPlain _ (print-IsDigit 9 n (omega arith))

print_item-IsPlain : (x : Item) → IsSmall x → All IsPlain (print_item x)
unfolding print_item
print_item-IsPlain (one n) small = decimal-IsPlain n (omega (arith, small))
print_item-IsPlain (span a b) small =
    All-append IsPlain (decimal a) (b'-' ∷ decimal b) (decimal-IsPlain a small.0)
      ((omega arith, omega arith), decimal-IsPlain b (omega (arith, small.1)))

split_item-comma :
    (xs rest : List ℕ) → All IsPlain xs → split_item (xs ++ (b',' ∷ rest)) ≡ (xs, rest)
unfolding split_item
split_item-comma [] rest h = refl
split_item-comma (x ∷ xs) rest h = ground (arith, h.0.0, split_item-comma xs rest h.1)

split_item-newline :
    (xs : List ℕ) → All IsPlain xs → split_item (xs ++ (b'\n' ∷ [])) ≡ (xs ++ (b'\n' ∷ []), [])
unfolding split_item
split_item-newline [] h = refl
split_item-newline (x ∷ xs) h = ground (arith, h.0.0, split_item-newline xs h.1)

print_item-head :
    (x : Item) → IsSmall x → (c : ℕ) × (cs : List ℕ) × (c ≢ b'\n') × (print_item x ≡ c ∷ cs)
unfolding print_item
print_item-head (one n) small =
    let (d, cs, p, e) = print-digit 9 n (omega arith) in (d + b'0', cs, omega arith, e)
print_item-head (span a b) small =
    let (d, cs, p, e) = print-digit 9 a (omega (arith, small.0)) in
    (d + b'0', cs ++ (b'-' ∷ decimal b), omega arith, rw e)

parse_items_step :
    (fuel : ℕ) (list : CpuList) (c : ℕ) (cs item rest : List ℕ) (a b : ℕ)
    → c ≢ b'\n'
    → split_item (c ∷ cs) ≡ (item, rest)
    → parse_item item ≡ some (a, b)
    → (b == int_max) ≡ false
    → parse_items (suc fuel) list (c ∷ cs) ≡ parse_items fuel (set_values list a b) rest
unfolding parse_items set_range
parse_items_step fuel list c cs item rest a b h split parsed ends =
    let line_goes_on : (c == b'\n') ≡ false = ground arith in
    rw (line_goes_on, split, parsed, ends, split)

last-IsSmall : (x : Item) → IsSmall x → (last x == int_max) ≡ false
last-IsSmall (one n) small = ground (arith, small)
last-IsSmall (span a b) small = ground (arith, small)

-- A round of the loop takes a printed item and what ends it.
parse_items_item :
    (fuel : ℕ) (list : CpuList) (x : Item) (tail item rest : List ℕ)
    → IsSmall x
    → split_item (print_item x ++ tail) ≡ (item, rest)
    → parse_item item ≡ some (first x, last x)
    → parse_items (suc fuel) list (print_item x ++ tail)
      ≡ parse_items fuel (set_values list (first x) (last x)) rest
parse_items_item fuel list x tail item rest small split parsed =
    let (c, cs, h, e) = print_item-head x small in
    let f : print_item x ++ tail ≡ c ∷ (cs ++ tail) = ap (λ t. t ++ tail) e in
    ap (parse_items (suc fuel) list) f
    ∙ parse_items_step fuel list c (cs ++ tail) item rest (first x) (last x) h
        (ap split_item (sym f) ∙ split) parsed (last-IsSmall x small)

parse_items-print :
    (fuel : ℕ) (list : CpuList) (xs : List Item)
    → All IsSmall xs
    → length (print_items xs) < fuel
    → parse_items fuel list (print_items xs) ≡ some (set_items list xs)
unfolding print_items set_items
parse_items-print zero list xs small h = absurd (omega arith)
parse_items-print (suc fuel) list [] small h = unfold parse_items in refl
parse_items-print (suc zero) list (x ∷ []) small h =
    absurd (omega (arith, length-append (print_item x) (b'\n' ∷ [])))
parse_items-print (suc (suc fuel)) list (x ∷ []) small h =
    parse_items_item (suc fuel) list x (b'\n' ∷ []) (print_item x ++ (b'\n' ∷ [])) [] small.0
      (split_item-newline (print_item x) (print_item-IsPlain x small.0))
      (parse_item-print x (b'\n' ∷ []) small.0 (newline_digit, omega arith))
    ∙ end_of_line
  where
    newline_digit : digit 10 b'\n' ≡ none
    newline_digit = unfold digit in refl

    end_of_line :
        parse_items (suc fuel) (set_values list (first x) (last x)) []
        ≡ some (set_values list (first x) (last x))
    end_of_line = unfold parse_items in refl
parse_items-print (suc fuel) list (x ∷ y ∷ xs) small h =
    parse_items_item fuel list x (b',' ∷ print_items (y ∷ xs)) (print_item x) (print_items (y ∷ xs))
      small.0
      (split_item-comma (print_item x) (print_items (y ∷ xs)) (print_item-IsPlain x small.0))
      (ap parse_item (sym (append-nil (print_item x))) ∙ parse_item-print x [] small.0 tt)
    ∙ parse_items-print fuel (set_values list (first x) (last x)) (y ∷ xs) small.1
        (omega (arith, length-append (print_item x) (b',' ∷ print_items (y ∷ xs))))

-- Where the numbers fit an int and no range ends in INT_MAX, a printed list of items is parsed to its
-- end: the bits of every item's range are set, in order.
pub cpulist_parse-print :
    (list : CpuList) (xs : List Item)
    → All IsSmall xs
    → cpulist_parse list (print_items xs) ≡ some (set_items list xs)
unfolding cpulist_parse
cpulist_parse-print list xs small = parse_items-print _ list xs small (omega arith)

split_item-shorter : (c : ℕ) (cs : List ℕ) → length (split_item (c ∷ cs)).1 ≤ length cs
unfolding split_item
split_item-shorter c [] = ground arith
split_item-shorter c (d ∷ cs) = ground (arith, split_item-shorter d cs)

-- The items of a line: what stands between its commas.
unfoldable pub items : ℕ → List ℕ → List (List ℕ)
items zero line = []
items (suc fuel) [] = []
items (suc fuel) (c ∷ cs) = let (item, rest) = split_item (c ∷ cs) in item ∷ items fuel rest

-- No item ends in INT_MAX.
abbrev pub IsBelowMax : List ℕ → Type 0
IsBelowMax item = (a : ℕ) → parse_item item ≢ some (a, int_max)

abbrev pub IsFinite : List ℕ → Type 0
IsFinite line = All IsBelowMax (items (suc (length line)) line)

parse_items_total :
    (fuel : ℕ) (list : CpuList) (line : List ℕ)
    → length line < fuel
    → All IsBelowMax (items fuel line)
    → (r : CpuList) × (parse_items fuel list line ≡ some r)
unfolding parse_items items set_range
parse_items_total zero list line h below = absurd (omega arith)
parse_items_total (suc fuel) list [] h below = (list, refl)
parse_items_total (suc fuel) list (c ∷ cs) h below =
    let (item, rest) = split_item (c ∷ cs) in
    elim (Bool-cases (c == b'\n')) [
      | inl ends ↦ (list, rw ends)
      | inr goes_on ↦ elim (Option-cases (parse_item (split_item (c ∷ cs)).0)) [
        | inl bad ↦ (list, rw (goes_on, bad))
        | inr (ab, ok) ↦
            let finite : (ab.1 == int_max) ≡ false = not_max c cs ab ok below.0 in
            let (r, e) =
              parse_items_total fuel (set_values list ab.0 ab.1) (split_item (c ∷ cs)).1
                (omega (arith, split_item-shorter c cs)) below.1 in
            (r, rw (goes_on, ok, finite) e)
      ]
    ]
  where
    not_max :
        (c : ℕ) (cs : List ℕ) (ab : ℕ × ℕ)
        → parse_item (split_item (c ∷ cs)).0 ≡ some ab
        → IsBelowMax (split_item (c ∷ cs)).0
        → (ab.1 == int_max) ≡ false
    not_max c cs ab ok below = elim (Bool-cases (ab.1 == int_max)) [
      | inr no' ↦ no'
      | inl yes' ↦
          let e : ab.1 ≡ int_max = (==_iff _ _).0 yes' in
          absurd (below ab.0 (ok ∙ ap (λ (b : ℕ). some (ab.0, b)) e))
    ]

-- On any bytes no item of which ends in INT_MAX the parser's loops end.
pub cpulist_parse_total :
    (list : CpuList) (line : List ℕ)
    → IsFinite line
    → (r : CpuList) × (cpulist_parse list line ≡ some r)
unfolding cpulist_parse
cpulist_parse_total list line finite = parse_items_total _ list line (omega arith) finite
