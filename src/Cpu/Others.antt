-- ===== src/Cpu/Others.antt =====
-- The parts of `android_cpuInit` for 64-bit ARM, x86 and MIPS.
use android_vshell.Base.{ℕ, Bool, ◌&&◌, [], ◌∷◌, ◌==◌, if◌then◌else◌}
use android_vshell.Cpu.Flags.{has, set_if}

-- The bits of AT_HWCAP, and the features ANDROID_CPU_ARM64_FEATURE_* in their order.
unfoldable pub arm64_features : ℕ → ℕ → ℕ
arm64_features hwcaps f₀ =
    let f₁ = set_if (has hwcaps 0) (0 ∷ []) f₀ in
    let f₂ = set_if (has hwcaps 1) (1 ∷ []) f₁ in
    let f₃ = set_if (has hwcaps 3) (2 ∷ []) f₂ in
    let f₄ = set_if (has hwcaps 4) (3 ∷ []) f₃ in
    let f₅ = set_if (has hwcaps 5) (4 ∷ []) f₄ in
    let f₆ = set_if (has hwcaps 6) (5 ∷ []) f₅ in
    let f₇ = set_if (has hwcaps 7) (6 ∷ []) f₆ in if hwcaps == 0 then f₀ else f₇

-- The four registers after cpuid, as 32-bit patterns.
pub record Registers : Type 0 where
  pub eax : ℕ
  pub ebx : ℕ
  pub ecx : ℕ
  pub edx : ℕ

unfoldable pub is_intel : Registers → Bool
is_intel regs = (regs.ebx == 0x756e6547) && (regs.ecx == 0x6c65746e) && (regs.edx == 0x49656e69)

-- The features ANDROID_CPU_X86_FEATURE_*: SSSE3, POPCNT, MOVBE, SSE4_1, SSE4_2, AES_NI, AVX, RDRAND,
-- AVX2 and SHA_NI are the bits 0 to 9. The argument is what cpuid answers for a function number.
unfoldable pub x86_features : (ℕ → Registers) → ℕ → ℕ
x86_features cpuid f₀ =
    let ecx = (cpuid 1).ecx in
    let ebx = (cpuid 7).ebx in
    let f₁ = set_if (has ecx 9) (0 ∷ []) f₀ in
    let f₂ = set_if (has ecx 23) (1 ∷ []) f₁ in
    let f₃ = set_if (has ecx 19) (3 ∷ []) f₂ in
    let f₄ = set_if (has ecx 20) (4 ∷ []) f₃ in
    let f₅ = set_if (is_intel (cpuid 0) && has ecx 22) (2 ∷ []) f₄ in
    let f₆ = set_if (has ecx 25) (5 ∷ []) f₅ in
    let f₇ = set_if (has ecx 28) (6 ∷ []) f₆ in
    let f₈ = set_if (has ecx 30) (7 ∷ []) f₇ in
    let f₉ = set_if (has ebx 5) (8 ∷ []) f₈ in set_if (has ebx 29) (9 ∷ []) f₉

-- HWCAP_MIPS_R6 and HWCAP_MIPS_MSA.
unfoldable pub mips_features : ℕ → ℕ → ℕ
mips_features hwcaps f₀ =
    let f₁ = set_if (has hwcaps 0) (0 ∷ []) f₀ in
    let f₂ = set_if (has hwcaps 1) (1 ∷ []) f₁ in if hwcaps == 0 then f₀ else f₂
