-- ===== src/Cpu/MaskLaws.antt =====
-- Which bits of a CpuList the ranges of a list of CPUs set, and what `get_cpu_count` counts.
use android_vshell.Base.{ℕ, zero, suc, ◌+◌, ◌-◌, ◌%◌, ◌^◌, ◌≤◌, ◌<◌, ◌≡◌, refl, ap, arith}
use android_vshell.Base.{
  Bool, false, ◌&&◌, ◌||◌, some, List, [], ◌∷◌, All, ltb, leb, ◌==◌, if◌then◌else◌,
}
use android_vshell.Base.Bits.{bit, bit-bit_or, bit-bit_and, bit-pow}
use android_vshell.Cpu.CpuList.{
  CpuList, cpulist_init, cpulist_and, cpulist_set, cpulist_count, popcount, set_rounds, set_values,
}
use android_vshell.Cpu.Files.{File, cpulist_read_from, get_cpu_count, read_file}
use native.Mathlib.Nat.{zero-div}
use android_vshell.Cpu.ListLaws.{
  Item, one, span, IsSmall, first, last, print_items, set_items, cpulist_parse-print,
}

bit-cpulist_set :
    (list : CpuList) (i k : ℕ)
    → k < 32
    → bit k (cpulist_set list i).mask ≡ (if k == i then 1 else bit k list.mask)
unfolding cpulist_set
bit-cpulist_set list i k h = ground (arith, bit-bit_or k list.mask (2 ^ i), bit-pow k i)

bit-set_rounds :
    (rounds : ℕ) (list : CpuList) (val k : ℕ)
    → k < 32
    → val + rounds ≤ 2 ^ 32
    → bit k (set_rounds rounds list val).mask
      ≡ (if leb val k && ltb k (val + rounds) then 1 else bit k list.mask)
unfolding set_rounds
bit-set_rounds zero list val k h fits = ground arith
bit-set_rounds (suc rounds) list val k h fits = ground (
  arith,
  bit-cpulist_set list val k h,
  bit-set_rounds rounds (cpulist_set list val) ((val + 1) % 2 ^ 32) k h,
)

bit-set_values :
    (list : CpuList) (start end k : ℕ)
    → k < 32
    → start < 2 ^ 31
    → end < 2 ^ 31
    → bit k (set_values list start end).mask
      ≡ (if leb start k && leb k end then 1 else bit k list.mask)
unfolding set_values
bit-set_values list start end k h p q =
    ground (arith, bit-set_rounds ((end + 2 ^ 32 - start) % 2 ^ 32 + 1) list start k h)

-- The CPU is in one of the items.
unfoldable pub lists_cpu : List Item → ℕ → Bool
lists_cpu [] k = false
lists_cpu (x ∷ xs) k = (leb (first x) k && leb k (last x)) || lists_cpu xs k

IsSmall-bounds : (x : Item) → IsSmall x → (first x < 2 ^ 31) × (last x < 2 ^ 31)
IsSmall-bounds (one n) h = (omega (arith, h), omega (arith, h))
IsSmall-bounds (span a b) h = (h.0, omega (arith, h.1))

bit-set_items :
    (list : CpuList) (xs : List Item) (k : ℕ)
    → k < 32
    → All IsSmall xs
    → bit k (set_items list xs).mask ≡ (if lists_cpu xs k then 1 else bit k list.mask)
unfolding set_items lists_cpu
bit-set_items list [] k h small = refl
bit-set_items list (x ∷ xs) k h small =
    let (p, q) = IsSmall-bounds x small.0 in
    ground (
      arith,
      bit-set_values list (first x) (last x) k h p q,
      bit-set_items (set_values list (first x) (last x)) xs k h small.1,
    )

-- How many of the CPUs below `n` pass the test.
unfoldable pub count_below : ℕ → (ℕ → Bool) → ℕ
count_below zero p = 0
count_below (suc n) p = count_below n p + (if p n then 1 else 0)

popcount-count_below :
    (n x : ℕ) (p : ℕ → Bool)
    → ((k : ℕ) → k < n → bit k x ≡ (if p k then 1 else 0))
    → popcount n x ≡ count_below n p
unfolding popcount count_below
popcount-count_below zero x p h = refl
popcount-count_below (suc n) x p h =
    omega (arith, popcount-count_below n x p (λ k l. h k (omega arith)), h n (omega arith))

cpulist_read_from-print :
    (file : File) (xs : List Item)
    → read_file file 64 ≡ some (print_items xs)
    → All IsSmall xs
    → cpulist_read_from file ≡ some (set_items cpulist_init xs)
unfolding cpulist_read_from
cpulist_read_from-print file xs h small =
    rw (h, cpulist_read_from, cpulist_parse-print cpulist_init xs small)

bit-empty : (k : ℕ) → bit k cpulist_init.mask ≡ 0
unfolding cpulist_init
bit-empty k = ground (arith, zero-div (2 ^ k))

-- Where the first 64 bytes of the two files are two lists of CPUs in the kernel's format, with numbers
-- that fit an int and no range that ends in INT_MAX, the result is the number of CPUs below 32 that
-- both lists name.
pub get_cpu_count-both :
    (present possible : File) (xs ys : List Item)
    → read_file present 64 ≡ some (print_items xs)
    → read_file possible 64 ≡ some (print_items ys)
    → All IsSmall xs
    → All IsSmall ys
    → get_cpu_count present possible ≡ some (count_below 32 (λ k. lists_cpu xs k && lists_cpu ys k))
unfolding get_cpu_count cpulist_and cpulist_count
get_cpu_count-both present possible xs ys hx hy sx sy =
    rw
      (
        cpulist_read_from-print present xs hx sx,
        get_cpu_count,
        cpulist_read_from-print possible ys hy sy,
      )
      (ap some (
        popcount-count_below 32 _ _ (λ k l. ground (
          arith,
          bit-bit_and k (set_items cpulist_init xs).mask (set_items cpulist_init ys).mask,
          bit-set_items cpulist_init xs k l sx,
          bit-set_items cpulist_init ys k l sy,
          bit-empty k,
        ))))
