-- ===== src/Cpu/InitRuns.antt =====
-- Runs of the initialisation, and its theorems at concrete inputs.
use android_vshell.Base.{ℕ, ◌^◌, ◌+◌, ◌≡◌, ◌⊎◌, refl, true, none, some, [], ◌∷◌, arith, Returns}
use android_vshell.Base.Int.{pos, negsuc}
use android_vshell.Cpu.Files.{File, bytes}
use android_vshell.Cpu.HwCaps.{no_libc}
use android_vshell.Cpu.Flags.{has}
use android_vshell.Cpu.Others.{Registers}
use android_vshell.Cpu.Hwcap
use android_vshell.Cpu.Arm.{vfp_features}
use android_vshell.Cpu.ArmLaws.{IsConsistent, vfp_features-IsConsistent}
use android_vshell.Cpu.Init
use android_vshell.Base.{sym, ◌∙◌, subst, some-injective, arith}
use android_vshell.Cpu.Number.{parse_decimal, parse_number, number_loop, digit}
use android_vshell.Cpu.CpuList.{parse_item, split_item}
use android_vshell.Cpu.ListLaws.{IsFinite, items}
use android_vshell.Cpu.Files.{read_file, read_loop}
use android_vshell.Cpu.InitTotal.{ReadsFinite}
use android_vshell.Cpu.InitLaws.{init_once_total}
use android_vshell.Cpu.CallLaws.{
  IsPositive, IsReady, Steps, none_yet, more, set, Steps-IsReady, android_get_cpu_features-stable,
  android_set_cpu-first,
}

-- A processor with NEON and VFPv4.
vfp_features-IsConsistent_example : IsConsistent (vfp_features (2 ^ Hwcap.neon + 2 ^ Hwcap.vfpv4) 0)
unfolding has
vfp_features-IsConsistent_example =
    vfp_features-IsConsistent (2 ^ Hwcap.neon + 2 ^ Hwcap.vfpv4) 0 (record {
      vfpv3 = refl;
      neon = refl;
      vfp_d32 = refl;
      fp16 = refl;
      fma = refl;
      neon_fma = refl;
    })

-- No register of cpuid says anything.
abbrev silent : ℕ → Registers
silent n = record { eax = 0; ebx = 0; ecx = 0; edx = 0 }

abbrev four_cpus : File
four_cpus = some (bytes (b'0' ∷ b'-' ∷ b'3' ∷ b'\n' ∷ []) ∷ [])

abbrev device : Init.System
device = record {
  target = Init.x86;
  cpuinfo_size = some (bytes (b'x' ∷ []) ∷ []);
  malloc_succeeds = true;
  cpuinfo = some (bytes (b'x' ∷ []) ∷ []);
  present = four_cpus;
  possible = four_cpus;
  auxval = no_libc;
  auxv = none;
  cpuid = silent;
}

four_parsed : parse_item (b'0' ∷ b'-' ∷ b'3' ∷ b'\n' ∷ []) ≡ some (0, 3)
unfolding parse_item parse_decimal parse_number number_loop digit
four_parsed = refl

four_cpus-IsFinite : IsFinite (b'0' ∷ b'-' ∷ b'3' ∷ b'\n' ∷ [])
unfolding items split_item
four_cpus-IsFinite = ((λ a h. let wrong = sym four_parsed ∙ h in ground (arith, wrong)), tt)

four_cpus-ReadsFinite : ReadsFinite four_cpus
unfolding read_file read_loop
four_cpus-ReadsFinite content e = subst IsFinite (some-injective _ _ e) four_cpus-IsFinite

init_once_total_example : Returns (Init.init_once device Init.initial)
init_once_total_example =
    init_once_total device Init.initial four_cpus-ReadsFinite four_cpus-ReadsFinite

-- The globals after the caller has set 8 CPUs and the features 5.
abbrev given : Init.Globals
given = record { once = true; inited = true; family = 2; features = 5; count = pos 8; cpu_id = 0 }

set_twice : Steps device Init.initial given
unfolding Init.android_set_cpu Init.initial Init.init_dummy_once Init.android_cpu_init_family
    Init.valid_count Init.at_least_one Init.family_of
set_twice = more {g' = given} (more {g' = Init.initial} none_yet (set (pos 8) 5)) (set (pos 1) 1)

Steps-IsReady_example : (given ≡ Init.initial) ⊎ IsReady device given
Steps-IsReady_example = Steps-IsReady set_twice

set_once : Steps device Init.initial given
unfolding Init.android_set_cpu Init.initial Init.init_dummy_once Init.android_cpu_init_family
    Init.valid_count Init.at_least_one Init.family_of
set_once = more {g' = Init.initial} none_yet (set (pos 8) 5)

set_again : Steps device given given
unfolding Init.android_set_cpu
set_again = more {g' = given} none_yet (set (pos 1) 1)

given-IsReady : IsReady device given
unfolding Init.family_of IsPositive
given-IsReady = record { once = refl; inited = refl; count = omega arith; family = refl }

android_get_cpu_features-stable_example :
    Init.android_get_cpu_features device given ≡ some (5, given)
unfolding Init.android_get_cpu_features Init.init_once
android_get_cpu_features-stable_example =
    android_get_cpu_features-stable {g = given} {g₁ = given} set_once refl set_again

-- After a count of -7, which becomes 1.
abbrev single : Init.Globals
single = record { once = true; inited = true; family = 2; features = 5; count = pos 1; cpu_id = 0 }

android_set_cpu-first_example :
    (Init.android_get_cpu_features device single ≡ some (5, single))
    × (Init.android_get_cpu_count device single ≡ some (pos 1, single))
    × (Init.android_get_cpu_family device single ≡ some (2, single))
    × (Init.android_set_cpu device (pos 3) 4 single ≡ (0, single))
unfolding Init.android_set_cpu Init.initial Init.init_dummy_once Init.android_cpu_init_family
    Init.valid_count Init.at_least_one Init.family_of
android_set_cpu-first_example = android_set_cpu-first device (negsuc 6) (pos 3) 5 4 none_yet
