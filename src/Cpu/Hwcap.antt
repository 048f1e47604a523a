-- ===== src/Cpu/Hwcap.antt =====
-- The bits of AT_HWCAP on 32-bit ARM, as cpu-features.c names them.
use android_vshell.Base.{ℕ}

abbrev pub vfp : ℕ
vfp = 6

abbrev pub iwmmxt : ℕ
iwmmxt = 9

abbrev pub neon : ℕ
neon = 12

abbrev pub vfpv3 : ℕ
vfpv3 = 13

abbrev pub vfpv3d16 : ℕ
vfpv3d16 = 14

abbrev pub vfpv4 : ℕ
vfpv4 = 16

abbrev pub idiva : ℕ
idiva = 17

abbrev pub idivt : ℕ
idivt = 18
