-- ===== src/Cpu/HwCaps.antt =====
-- Where the hardware capabilities of a 32-bit ARM process come from.
use android_vshell.Base.{ℕ, zero, suc, ◌+◌, ◌*◌, ◌%◌, ◌^◌, Bool, true, false, ◌&&◌, ◌||◌}
use android_vshell.Base.{Option, none, some, List, [], ◌∷◌, ◌==◌, leb, ltb, if◌then◌else◌, ◌>>=◌}
use android_vshell.Base.Int.{ℤ, pos, negsuc}
use android_vshell.Base.Text.{codes}
use android_vshell.Cpu.Number.{distance}
use android_vshell.Cpu.Info.{extract_cpuinfo_field, has_list_item}
use android_vshell.Cpu.Flags.{mask, set_if}
use android_vshell.Cpu.Hwcap

-- What dlopen and dlsym find of getauxval: no libc, no such symbol, or the function.
pub data Auxval : Type 0 where
  no_libc no_symbol : Auxval
  found : (ℕ → ℕ) → Auxval

unfoldable pub get_elf_hwcap_from_getauxval : Auxval → ℕ → ℕ
get_elf_hwcap_from_getauxval no_libc hwcap_type = 0
get_elf_hwcap_from_getauxval no_symbol hwcap_type = 0
get_elf_hwcap_from_getauxval (found getauxval) hwcap_type = getauxval hwcap_type % 2 ^ 32

abbrev pub at_hwcap : ℕ
at_hwcap = 16

abbrev pub at_hwcap2 : ℕ
at_hwcap2 = 26

-- One call of read on /proc/self/auxv, which the source repeats on EINTR.
pub data AuxRead : Type 0 where
  entry : ℕ → ℕ → AuxRead
  failed : AuxRead

unfoldable pub auxv_loop : List AuxRead → ℕ
auxv_loop [] = 0
auxv_loop (failed ∷ rest) = 0
auxv_loop (entry tag value ∷ rest) =
    if (tag == 0) && (value == 0) then 0 else if tag == at_hwcap then value else auxv_loop rest

unfoldable pub get_elf_hwcap_from_proc_self_auxv : Option (List AuxRead) → ℕ
get_elf_hwcap_from_proc_self_auxv none = 0
get_elf_hwcap_from_proc_self_auxv (some reads) = auxv_loop reads

-- strtol with base 10: the value, and whether `end` moved. Blanks and a sign may come first; values
-- beyond the range of a long are not cut.
unfoldable pub digits_value : ℕ → List ℕ → ℕ
digits_value val [] = val
digits_value val (c ∷ cs) =
    if ltb (distance b'0' c) 10 then digits_value (val * 10 + distance b'0' c) cs else val

abbrev pub starts_with_digit : List ℕ → Bool
starts_with_digit [] = false
starts_with_digit (c ∷ cs) = ltb (distance b'0' c) 10

abbrev pub negate : ℕ → ℤ
negate zero = pos 0
negate (suc n) = negsuc n

unfoldable pub strtol : List ℕ → ℤ × Bool
strtol [] = (pos 0, false)
strtol (c ∷ cs) =
    let later = strtol cs in
    if (c == b' ') || (leb 9 c && leb c 13)
    then later
    else if c == b'-'
    then if starts_with_digit cs then (negate (digits_value 0 cs), true) else (pos 0, false)
    else if c == b'+'
    then if starts_with_digit cs then (pos (digits_value 0 cs), true) else (pos 0, false)
    else if starts_with_digit (c ∷ cs)
    then (pos (digits_value 0 (c ∷ cs)), true)
    else (pos 0, false)

-- `x >= n` on long.
abbrev pub is_at_least : ℕ → ℤ → Bool
is_at_least n (pos m) = leb n m
is_at_least n (negsuc m) = false

-- HWCAP_SET_FOR_ARMV8
unfoldable pub hwcap_set_for_armv8 : ℕ
hwcap_set_for_armv8 =
    mask (Hwcap.vfp ∷ Hwcap.neon ∷ Hwcap.vfpv3 ∷ Hwcap.vfpv4 ∷ Hwcap.idiva ∷ Hwcap.idivt ∷ [])

-- `if (has_list_item(cpuFeatures, item)) hwcaps |= flags;`
unfoldable pub add_listed : List ℕ → List ℕ → List ℕ → ℕ → Option ℕ
add_listed features item flags hwcaps = elim (has_list_item features item) [
  | none ↦ none
  | some listed ↦ some (set_if listed flags hwcaps)
]

unfoldable pub listed_hwcaps : List ℕ → Option ℕ
listed_hwcaps features = do
  h₁ ← add_listed features (codes "vfp") (Hwcap.vfp ∷ []) 0
  h₂ ← add_listed features (codes "vfpv3") (Hwcap.vfpv3 ∷ []) h₁
  h₃ ← add_listed features (codes "vfpv3d16") (Hwcap.vfpv3d16 ∷ []) h₂
  h₄ ← add_listed features (codes "vfpv4") (Hwcap.vfpv4 ∷ []) h₃
  h₅ ← add_listed features (codes "neon") (Hwcap.neon ∷ []) h₄
  h₆ ← add_listed features (codes "idiva") (Hwcap.idiva ∷ []) h₅
  h₇ ← add_listed features (codes "idivt") (Hwcap.idivt ∷ []) h₆
  h₈ ← add_listed features (codes "idiv") (Hwcap.idiva ∷ Hwcap.idivt ∷ []) h₇
  add_listed features (codes "iwmmxt") (Hwcap.iwmmxt ∷ []) h₈

-- `none` where the fuel of `has_list_item` ran out.
unfoldable pub get_elf_hwcap_from_proc_cpuinfo : List ℕ → Option ℕ
get_elf_hwcap_from_proc_cpuinfo cpuinfo =
    let by_features = elim (extract_cpuinfo_field cpuinfo (codes "Features")) as (λ f. Option ℕ) [
      | none ↦ some 0
      | some features ↦ listed_hwcaps features
    ] in
    elim (extract_cpuinfo_field cpuinfo (codes "CPU architecture")) as (λ f. Option ℕ) [
      | none ↦ by_features
      | some architecture ↦
          if is_at_least 8 (strtol architecture).0 then some hwcap_set_for_armv8 else by_features
    ]
