-- ===== src/Cpu/ArmLaws.antt =====
-- Which features of a 32-bit ARM process the hardware capabilities stand for.
use android_vshell.Base.{
  ℕ, zero, suc, ◌^◌, ◌*◌, ◌≤◌, ◌<◌, ◌≡◌, arith, Bool, true, false, not, ◌&&◌, ◌||◌, bit_or,
}
use android_vshell.Base.{List, [], ◌∷◌, ◌==◌}
use android_vshell.Base.Bits.{bit, bit-bit_or, bit_and-pow, bit-pow}
use native.Mathlib.Nat.{one-le-pow, zero-div}
use android_vshell.Cpu.Flags.{has, mask, set_if}
use android_vshell.Cpu.Hwcap
use android_vshell.Cpu.ArmFeature
use android_vshell.Cpu.Arm.{vfp_features}

scaled : (b p : ℕ) → 1 ≤ p → b < 2 → not (b * p == 0) ≡ (b == 1)
scaled zero p h l = ground arith
scaled (suc zero) p h l = ground arith
scaled (suc (suc b)) p h l = absurd (omega arith)

has-bit : (x k : ℕ) → has x k ≡ (bit k x == 1)
unfolding has
has-bit x k =
    rw (bit_and-pow k x) (scaled (bit k x) (2 ^ k) (one-le-pow k 2 (omega arith)) (omega arith))

has-bit_or : (a b k : ℕ) → has (bit_or a b) k ≡ (has a k || has b k)
has-bit_or a b k =
    rw (has-bit (bit_or a b) k, has-bit a k, has-bit b k) (ground (arith, bit-bit_or k a b))

has-pow : (i k : ℕ) → has (2 ^ i) k ≡ (k == i)
has-pow i k = rw (has-bit (2 ^ i) k) (ground (arith, bit-pow k i))

abbrev among : List ℕ → ℕ → Bool
among [] k = false
among (i ∷ is) k = k == i || among is k

has-mask : (ks : List ℕ) (k : ℕ) → has (mask ks) k ≡ among ks k
unfolding mask
has-mask [] k = rw (has-bit 0 k, zero-div (2 ^ k))
has-mask (i ∷ is) k = rw (has-bit_or (2 ^ i) (mask is) k, has-pow i k, has-mask is k)

pub has-zero : (k : ℕ) → has 0 k ≡ false
unfolding mask
has-zero k = has-mask [] k

pub has-set_if :
    (t : Bool) (ks : List ℕ) (x k : ℕ) → has (set_if t ks x) k ≡ (has x k || (t && among ks k))
unfolding set_if
has-set_if true ks x k = rw (has-bit_or x (mask ks) k, has-mask ks k)
has-set_if false ks x k = ground arith

module _ (hwcaps f : ℕ) where
  vfp_features-vfpv3 : has (vfp_features hwcaps f) ArmFeature.vfpv3 ≡ (
      has f ArmFeature.vfpv3
      || has hwcaps Hwcap.vfpv4
      || has hwcaps Hwcap.vfpv3
      || has hwcaps Hwcap.vfpv3d16
      || has hwcaps Hwcap.neon
      || (has hwcaps Hwcap.vfp && has f ArmFeature.armv7))
  unfolding vfp_features
  vfp_features-vfpv3 = simp has-set_if (ground arith)

  vfp_features-armv7 :
      has (vfp_features hwcaps f) ArmFeature.armv7
      ≡ (has f ArmFeature.armv7 || has (vfp_features hwcaps f) ArmFeature.vfpv3)
  unfolding vfp_features
  vfp_features-armv7 = simp has-set_if (ground arith)

  vfp_features-vfpv2 : has (vfp_features hwcaps f) ArmFeature.vfpv2 ≡ (
      has f ArmFeature.vfpv2
      || has (vfp_features hwcaps f) ArmFeature.vfpv3
      || has hwcaps Hwcap.vfp)
  unfolding vfp_features
  vfp_features-vfpv2 = simp has-set_if (ground arith)

  vfp_features-neon :
      (has (vfp_features hwcaps f) ArmFeature.neon
        ≡ (has f ArmFeature.neon || has hwcaps Hwcap.neon))
      × (has (vfp_features hwcaps f) ArmFeature.vfp_d32
          ≡ (has f ArmFeature.vfp_d32 || has hwcaps Hwcap.neon))
      × (has (vfp_features hwcaps f) ArmFeature.neon_fma
          ≡ (has f ArmFeature.neon_fma || (has hwcaps Hwcap.neon && has hwcaps Hwcap.vfpv4)))
  unfolding vfp_features
  vfp_features-neon = (
    simp has-set_if (ground arith),
    simp has-set_if (ground arith),
    simp has-set_if (ground arith),
  )

  vfp_features-fma :
      (has (vfp_features hwcaps f) ArmFeature.vfp_fp16
        ≡ (has f ArmFeature.vfp_fp16 || has hwcaps Hwcap.vfpv4))
      × (has (vfp_features hwcaps f) ArmFeature.vfp_fma
          ≡ (has f ArmFeature.vfp_fma || has hwcaps Hwcap.vfpv4))
  unfolding vfp_features
  vfp_features-fma = (simp has-set_if (ground arith), simp has-set_if (ground arith))

-- No feature of the floating point unit is set.
pub record IsFresh (f : ℕ) : Type 0 where
  pub vfpv3 : has f ArmFeature.vfpv3 ≡ false
  pub neon : has f ArmFeature.neon ≡ false
  pub vfp_d32 : has f ArmFeature.vfp_d32 ≡ false
  pub fp16 : has f ArmFeature.vfp_fp16 ≡ false
  pub fma : has f ArmFeature.vfp_fma ≡ false
  pub neon_fma : has f ArmFeature.neon_fma ≡ false

-- What the features of one processor have in common.
pub record IsConsistent (f : ℕ) : Type 0 where
  pub vfpv3_vfpv2 : has f ArmFeature.vfpv3 ≡ true → has f ArmFeature.vfpv2 ≡ true
  pub vfpv3_armv7 : has f ArmFeature.vfpv3 ≡ true → has f ArmFeature.armv7 ≡ true
  pub neon_vfpv3 : has f ArmFeature.neon ≡ true → has f ArmFeature.vfpv3 ≡ true
  pub neon_d32 : has f ArmFeature.neon ≡ has f ArmFeature.vfp_d32
  pub fma_fp16 : has f ArmFeature.vfp_fma ≡ has f ArmFeature.vfp_fp16
  pub fma_vfpv3 : has f ArmFeature.vfp_fma ≡ true → has f ArmFeature.vfpv3 ≡ true
  pub neon_fma_both :
      has f ArmFeature.neon_fma ≡ (has f ArmFeature.neon && has f ArmFeature.vfp_fma)

-- From features with none of the floating point unit, any hardware capabilities lead to features in
-- which VFPv3 comes with VFPv2 and ARMv7, NEON with VFPv3 and exactly with D32, VFP_FMA with VFPv3
-- and exactly with FP16, and NEON_FMA exactly with NEON and VFP_FMA together.
pub vfp_features-IsConsistent : (hwcaps f : ℕ) → IsFresh f → IsConsistent (vfp_features hwcaps f)
vfp_features-IsConsistent hwcaps f fresh = ground (
  arith,
  vfp_features-vfpv3 hwcaps f,
  vfp_features-armv7 hwcaps f,
  vfp_features-vfpv2 hwcaps f,
  vfp_features-neon hwcaps f,
  vfp_features-fma hwcaps f,
)
