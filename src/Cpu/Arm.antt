-- ===== src/Cpu/Arm.antt =====
-- The part of `android_cpuInit` for 32-bit ARM.
use android_vshell.Base.{ℕ, ◌*◌, ◌%◌, ◌^◌, Bool, true, false, ◌&&◌, ◌||◌, bit_or}
use android_vshell.Base.{Option, none, some, List, [], ◌∷◌, ◌==◌, if◌then◌else◌, ◌>>=◌}
use android_vshell.Base.Text.{codes}
use android_vshell.Cpu.Number.{parse_decimal, parse_hexadecimal}
use android_vshell.Cpu.Info.{extract_cpuinfo_field, has_list_item, same_bytes}
use android_vshell.Cpu.Flags.{has, set_if}
use android_vshell.Cpu.Hwcap
use android_vshell.Cpu.ArmFeature
use android_vshell.Cpu.HwCaps.{Auxval, AuxRead, get_elf_hwcap_from_getauxval, at_hwcap, at_hwcap2}
use android_vshell.Cpu.HwCaps.{get_elf_hwcap_from_proc_self_auxv, get_elf_hwcap_from_proc_cpuinfo}
use android_vshell.Cpu.HwCaps.{strtol, is_at_least}

-- The word that says a processor is an ARMv6 after all.
unfoldable pub is_armv6 : List ℕ → Option Bool
is_armv6 cpuinfo = elim (extract_cpuinfo_field cpuinfo (codes "Processor")) [
  | none ↦ some false
  | some processor ↦ has_list_item processor (codes "(v6l)")
]

-- From the field "CPU architecture".
unfoldable pub architecture_features : List ℕ → Option ℕ
architecture_features cpuinfo = elim (extract_cpuinfo_field cpuinfo (codes "CPU architecture")) [
  | none ↦ some 0
  | some architecture ↦ do
    v6 ← is_armv6 cpuinfo
    let number = strtol architecture
    let has_armv7 = number.1 && is_at_least 7 number.0
    let features = set_if (has_armv7 && (if v6 then false else true)) (ArmFeature.armv7 ∷ []) 0
    some (set_if (is_at_least 6 number.0) (ArmFeature.ldrex_strex ∷ []) features)
]

-- From the hardware capabilities, in the order of the source.
unfoldable pub vfp_features : ℕ → ℕ → ℕ
vfp_features hwcaps f₀ =
    let has_vfpv4 = has hwcaps Hwcap.vfpv4 in
    let f₁ =
      set_if has_vfpv4 (ArmFeature.vfpv3 ∷ ArmFeature.vfp_fp16 ∷ ArmFeature.vfp_fma ∷ []) f₀ in
    let f₂ =
      set_if (has hwcaps Hwcap.vfpv3 || has hwcaps Hwcap.vfpv3d16) (ArmFeature.vfpv3 ∷ []) f₁ in
    let f₃ =
      set_if (has hwcaps Hwcap.vfp)
        (if has f₂ ArmFeature.armv7 then (ArmFeature.vfpv3 ∷ []) else (ArmFeature.vfpv2 ∷ [])) f₂ in
    let f₄ =
      set_if (has hwcaps Hwcap.neon) (ArmFeature.vfpv3 ∷ ArmFeature.neon ∷ ArmFeature.vfp_d32 ∷ [])
        f₃ in
    let f₅ = set_if (has hwcaps Hwcap.neon && has_vfpv4) (ArmFeature.neon_fma ∷ []) f₄ in
    set_if (has f₅ ArmFeature.vfpv3) (ArmFeature.vfpv2 ∷ ArmFeature.armv7 ∷ []) f₅

unfoldable pub hwcap_features : ℕ → ℕ → ℕ
hwcap_features hwcaps f₀ =
    let f₁ = vfp_features hwcaps f₀ in
    let f₂ = set_if (has hwcaps Hwcap.idiva) (ArmFeature.idiv_arm ∷ []) f₁ in
    let f₃ = set_if (has hwcaps Hwcap.idivt) (ArmFeature.idiv_thumb2 ∷ []) f₂ in
    let f₄ = set_if (has hwcaps Hwcap.iwmmxt) (ArmFeature.iwmmxt ∷ []) f₃ in
    if hwcaps == 0 then f₀ else f₄

-- HWCAP2_AES, HWCAP2_PMULL, HWCAP2_SHA1, HWCAP2_SHA2 and HWCAP2_CRC32 are the bits 0 to 4.
unfoldable pub hwcap2_features : ℕ → ℕ → ℕ
hwcap2_features hwcaps2 f₀ =
    let f₁ = set_if (has hwcaps2 0) (ArmFeature.aes ∷ []) f₀ in
    let f₂ = set_if (has hwcaps2 1) (ArmFeature.pmull ∷ []) f₁ in
    let f₃ = set_if (has hwcaps2 2) (ArmFeature.sha1 ∷ []) f₂ in
    let f₄ = set_if (has hwcaps2 3) (ArmFeature.sha2 ∷ []) f₃ in
    let f₅ = set_if (has hwcaps2 4) (ArmFeature.crc32 ∷ []) f₄ in if hwcaps2 == 0 then f₀ else f₅

-- getauxval, else /proc/self/auxv, else /proc/cpuinfo.
unfoldable pub elf_hwcaps : Auxval → Option (List AuxRead) → List ℕ → Option ℕ
elf_hwcaps auxval auxv cpuinfo =
    let from_getauxval = get_elf_hwcap_from_getauxval auxval at_hwcap in
    let from_auxv = get_elf_hwcap_from_proc_self_auxv auxv in
    if from_getauxval == 0
    then if from_auxv == 0 then get_elf_hwcap_from_proc_cpuinfo cpuinfo else some from_auxv
    else some from_getauxval

-- struct CpuIdEntry; `is_hex` is the format 'x'.
pub record CpuIdEntry : Type 0 where
  pub field : List ℕ
  pub is_hex : Bool
  pub bit_lshift : ℕ
  pub bit_length : ℕ

unfoldable pub cpu_id_entries : List CpuIdEntry
cpu_id_entries =
    record { field = codes "CPU implementer"; is_hex = true; bit_lshift = 24; bit_length = 8 }
    ∷ record { field = codes "CPU variant"; is_hex = true; bit_lshift = 20; bit_length = 4 }
    ∷ record { field = codes "CPU part"; is_hex = true; bit_lshift = 4; bit_length = 12 }
    ∷ record { field = codes "CPU revision"; is_hex = false; bit_lshift = 0; bit_length = 4 }
    ∷ []

-- The number of a field, with or without 0x. `none`: no digit was read.
unfoldable pub parse_field : Bool → List ℕ → Option (ℕ × List ℕ)
parse_field is_hex (c₀ ∷ c₁ ∷ digits) =
    if (c₀ == b'0') && ((c₁ == b'x') || (c₁ == b'X'))
    then parse_hexadecimal digits
    else if is_hex
    then parse_hexadecimal (c₀ ∷ c₁ ∷ digits)
    else parse_decimal (c₀ ∷ c₁ ∷ digits)
parse_field is_hex value = if is_hex then parse_hexadecimal value else parse_decimal value

unfoldable pub add_id_entry : List ℕ → CpuIdEntry → ℕ → ℕ
add_id_entry cpuinfo entry cpu_id = elim (extract_cpuinfo_field cpuinfo entry.field) as (λ v. ℕ) [
  | none ↦ cpu_id
  | some value ↦ elim (parse_field entry.is_hex value) as (λ v. ℕ) [
    | none ↦ cpu_id
    | some (val, rest) ↦ bit_or cpu_id (val % 2 ^ entry.bit_length * 2 ^ entry.bit_lshift % 2 ^ 32)
  ]
]

unfoldable pub add_id_entries : List ℕ → List CpuIdEntry → ℕ → ℕ
add_id_entries cpuinfo [] cpu_id = cpu_id
add_id_entries cpuinfo (entry ∷ entries) cpu_id =
    add_id_entries cpuinfo entries (add_id_entry cpuinfo entry cpu_id)

-- The table `cpu_fixes`: two processors that forget to report IDIV.
unfoldable pub fix_features : ℕ → ℕ → ℕ
fix_features cpu_id features =
    set_if ((cpu_id == 0x510006f2) || (cpu_id == 0x510006f3))
      (ArmFeature.idiv_arm ∷ ArmFeature.idiv_thumb2 ∷ []) features

-- The special case of the emulator. The source tests a bit of `g_cpuFamily`.
unfoldable pub goldfish_features : List ℕ → ℕ → ℕ → ℕ → ℕ
goldfish_features cpuinfo cpu_id family features =
    elim (extract_cpuinfo_field cpuinfo (codes "Hardware")) [
      | none ↦ features
      | some hardware ↦
          set_if
            (same_bytes hardware (codes "Goldfish")
              && (cpu_id == 0x4100c080)
              && has family ArmFeature.armv7)
            (ArmFeature.idiv_arm ∷ []) features
    ]

-- The features and the CPU id.
unfoldable pub arm_init : Auxval → Option (List AuxRead) → List ℕ → ℕ → ℕ → Option (ℕ × ℕ)
arm_init auxval auxv cpuinfo family old_id = do
  f₁ ← architecture_features cpuinfo
  hwcaps ← elf_hwcaps auxval auxv cpuinfo
  let f₂ = hwcap_features hwcaps f₁
  let f₃ = hwcap2_features (get_elf_hwcap_from_getauxval auxval at_hwcap2) f₂
  let cpu_id = add_id_entries cpuinfo cpu_id_entries old_id
  some (goldfish_features cpuinfo cpu_id family (fix_features cpu_id f₃), cpu_id)
