-- ===== src/Cpu/ArmFeature.antt =====
-- The bits ANDROID_CPU_ARM_FEATURE_* of cpu-features.h.
use android_vshell.Base.{ℕ}

abbrev pub armv7 : ℕ
armv7 = 0

abbrev pub vfpv3 : ℕ
vfpv3 = 1

abbrev pub neon : ℕ
neon = 2

abbrev pub ldrex_strex : ℕ
ldrex_strex = 3

abbrev pub vfpv2 : ℕ
vfpv2 = 4

abbrev pub vfp_d32 : ℕ
vfp_d32 = 5

abbrev pub vfp_fp16 : ℕ
vfp_fp16 = 6

abbrev pub vfp_fma : ℕ
vfp_fma = 7

abbrev pub neon_fma : ℕ
neon_fma = 8

abbrev pub idiv_arm : ℕ
idiv_arm = 9

abbrev pub idiv_thumb2 : ℕ
idiv_thumb2 = 10

abbrev pub iwmmxt : ℕ
iwmmxt = 11

abbrev pub aes : ℕ
aes = 12

abbrev pub pmull : ℕ
pmull = 13

abbrev pub sha1 : ℕ
sha1 = 14

abbrev pub sha2 : ℕ
sha2 = 15

abbrev pub crc32 : ℕ
crc32 = 16
