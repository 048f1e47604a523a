-- ===== src/Cpu/InitLaws.antt =====
-- The initialisation of cpu-features.c returns, and what it leaves behind.
use android_vshell.Base.{ℕ, refl, List}
use android_vshell.Base.{Returns, bind-Returns, option-Returns, if_Returns}
use android_vshell.Cpu.Files.{get_file_size, read_file}
use android_vshell.Cpu.InitTotal.{ReadsFinite, get_cpu_count_total, arm_init_total}
use android_vshell.Cpu.Init.{
  Target, arm, x86, mips, mips64, arm64, x86_64, unknown, System, Globals,
}
use android_vshell.Cpu.Init.{android_cpu_init, target_features, probe, init_once}

target_features_total :
    (t : Target) (sys : System) (cpuinfo : List ℕ) (g : Globals)
    → Returns (target_features t sys cpuinfo g)
unfolding target_features
target_features_total arm sys cpuinfo g =
    arm_init_total sys.auxval sys.auxv cpuinfo g.family g.cpu_id
target_features_total arm64 sys cpuinfo g = (_, refl)
target_features_total x86 sys cpuinfo g = (_, refl)
target_features_total x86_64 sys cpuinfo g = (_, refl)
target_features_total mips sys cpuinfo g = (_, refl)
target_features_total mips64 sys cpuinfo g = (_, refl)
target_features_total unknown sys cpuinfo g = (_, refl)

probe_total :
    (sys : System) (g : Globals)
    → ReadsFinite sys.present
    → ReadsFinite sys.possible
    → Returns (probe sys g)
unfolding probe
probe_total sys g f f' =
    option-Returns (get_file_size sys.cpuinfo_size) (g, refl)
      λ size.
        if_Returns sys.malloc_succeeds
          (option-Returns (read_file sys.cpuinfo size) (g, refl)
            λ cpuinfo. bind-Returns (get_cpu_count_total sys.present sys.possible f f') λ count.
              bind-Returns (target_features_total sys.target sys cpuinfo g) λ features. (_, refl))
          (g, refl)

-- Whatever the system answers, the first call of a getter returns, if in neither of the two lists of
-- CPUs that are read an item ends in INT_MAX.
pub init_once_total :
    (sys : System) (g : Globals)
    → ReadsFinite sys.present
    → ReadsFinite sys.possible
    → Returns (init_once sys g)
unfolding init_once android_cpu_init
init_once_total sys g f f' = if_Returns g.once (g, refl) (probe_total sys _ f f')
