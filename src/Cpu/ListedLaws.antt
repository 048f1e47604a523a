-- ===== src/Cpu/ListedLaws.antt =====
-- Which hardware capabilities the field Features of /proc/cpuinfo stands for.
use android_vshell.Base.{Option, none, false, Bool, ℕ, ◌≡◌, ◌||◌, some, List}
use android_vshell.Base.Text.{codes}
use android_vshell.Cpu.Flags.{has}
use android_vshell.Cpu.Hwcap
use android_vshell.Cpu.InfoLaws.{has_word}
use android_vshell.Cpu.HwCaps.{is_at_least, strtol}

-- The bits are those whose words are among the features.
pub record IsListed (features : List ℕ) (h : ℕ) : Type 0 where
  pub vfp_bit : has h Hwcap.vfp ≡ has_word features (codes "vfp")
  pub vfpv3_bit : has h Hwcap.vfpv3 ≡ has_word features (codes "vfpv3")
  pub vfpv3d16_bit : has h Hwcap.vfpv3d16 ≡ has_word features (codes "vfpv3d16")
  pub vfpv4_bit : has h Hwcap.vfpv4 ≡ has_word features (codes "vfpv4")
  pub neon_bit : has h Hwcap.neon ≡ has_word features (codes "neon")
  pub idiva_bit :
      has h Hwcap.idiva ≡ (has_word features (codes "idiva") || has_word features (codes "idiv"))
  pub idivt_bit :
      has h Hwcap.idivt ≡ (has_word features (codes "idivt") || has_word features (codes "idiv"))
  pub iwmmxt_bit : has h Hwcap.iwmmxt ≡ has_word features (codes "iwmmxt")

-- The field CPU architecture is there and is at least 8.
abbrev pub is_armv8 : Option (List ℕ) → Bool
is_armv8 none = false
is_armv8 (some architecture) = is_at_least 8 (strtol architecture).0
