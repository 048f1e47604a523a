-- ===== src/Cpu/Init.antt =====
-- The globals of cpu-features.c, their initialisation and the public functions.
use android_vshell.Base.{ℕ, Bool, true, false, Option, none, some, List, ◌==◌, if◌then◌else◌, ◌>>=◌}
use android_vshell.Base.Int.{ℤ, pos, negsuc}
use android_vshell.Cpu.Files.{File, get_file_size, read_file, get_cpu_count}
use android_vshell.Cpu.HwCaps.{Auxval, AuxRead, get_elf_hwcap_from_getauxval, at_hwcap}
use android_vshell.Cpu.Arm.{arm_init}
use android_vshell.Cpu.Others.{Registers, arm64_features, x86_features, mips_features}

-- The target that the library is compiled for.
pub data Target : Type 0 where
  arm x86 mips mips64 arm64 x86_64 unknown : Target

-- AndroidCpuFamily
unfoldable pub family_of : Target → ℕ
family_of unknown = 0
family_of arm = 1
family_of x86 = 2
family_of mips = 3
family_of arm64 = 4
family_of x86_64 = 5
family_of mips64 = 6

-- What the system answers. /proc/cpuinfo is opened twice.
pub record System : Type 0 where
  pub target : Target
  pub cpuinfo_size : File
  pub malloc_succeeds : Bool
  pub cpuinfo : File
  pub present : File
  pub possible : File
  pub auxval : Auxval
  pub auxv : Option (List AuxRead)
  pub cpuid : ℕ → Registers

-- `once` is the state of `g_once`: some function has run.
pub record Globals : Type 0 where
  pub once : Bool
  pub inited : Bool
  pub family : ℕ
  pub features : ℕ
  pub count : ℤ
  pub cpu_id : ℕ

-- Static storage at the start of the process.
unfoldable pub initial : Globals
initial = record {
  once = false;
  inited = false;
  family = 0;
  features = 0;
  count = pos 0;
  cpu_id = 0;
}

unfoldable pub android_cpu_init_family : System → Globals → Globals
android_cpu_init_family sys g = record g { family = family_of sys.target }

abbrev pub elf_hwcap : System → ℕ
elf_hwcap sys = get_elf_hwcap_from_getauxval sys.auxval at_hwcap

-- The features and the CPU id, by the target.
unfoldable pub target_features : Target → System → List ℕ → Globals → Option (ℕ × ℕ)
target_features arm sys cpuinfo g = arm_init sys.auxval sys.auxv cpuinfo g.family g.cpu_id
target_features arm64 sys cpuinfo g = some (arm64_features (elf_hwcap sys) g.features, g.cpu_id)
target_features x86 sys cpuinfo g = some (x86_features sys.cpuid g.features, g.cpu_id)
target_features x86_64 sys cpuinfo g = some (x86_features sys.cpuid g.features, g.cpu_id)
target_features mips sys cpuinfo g = some (mips_features (elf_hwcap sys) g.features, g.cpu_id)
target_features mips64 sys cpuinfo g = some (mips_features (elf_hwcap sys) g.features, g.cpu_id)
target_features unknown sys cpuinfo g = some (g.features, g.cpu_id)

unfoldable pub at_least_one : ℕ → ℕ
at_least_one n = if n == 0 then 1 else n

-- `android_cpuInit`, behind `android_cpuInitFamily` and the first values. `none`: a loop below it does
-- not end.
unfoldable pub probe : System → Globals → Option Globals
probe sys g = elim (get_file_size sys.cpuinfo_size) [
  | none ↦ some g
  | some size ↦
      let read = elim (read_file sys.cpuinfo size) as (λ r. Option Globals) [
        | none ↦ some g
        | some cpuinfo ↦ do
          count ← get_cpu_count sys.present sys.possible
          (features, cpu_id) ← target_features sys.target sys cpuinfo g
          some (record g { count = pos (at_least_one count); features = features; cpu_id = cpu_id })
      ] in
      if sys.malloc_succeeds then read else some g
]

unfoldable pub android_cpu_init : System → Globals → Option Globals
android_cpu_init sys g =
    probe sys
      (record (android_cpu_init_family sys g) { features = 0; count = pos 1; inited = true })

-- `pthread_once(&g_once, android_cpuInit)`
unfoldable pub init_once : System → Globals → Option Globals
init_once sys g = if g.once then some g else android_cpu_init sys (record g { once = true })

unfoldable pub android_get_cpu_family : System → Globals → Option (ℕ × Globals)
android_get_cpu_family sys g = do g' ← init_once sys g; some (g'.family, g')

unfoldable pub android_get_cpu_features : System → Globals → Option (ℕ × Globals)
android_get_cpu_features sys g = do g' ← init_once sys g; some (g'.features, g')

unfoldable pub android_get_cpu_count : System → Globals → Option (ℤ × Globals)
android_get_cpu_count sys g = do g' ← init_once sys g; some (g'.count, g')

unfoldable pub android_get_cpu_id_arm : System → Globals → Option (ℕ × Globals)
android_get_cpu_id_arm sys g = do g' ← init_once sys g; some (g'.cpu_id, g')

-- `pthread_once(&g_once, android_cpuInitDummy)`
unfoldable pub init_dummy_once : Globals → Globals
init_dummy_once g = if g.once then g else record g { once = true; inited = true }

-- `cpu_count <= 0 ? 1 : cpu_count`
unfoldable pub valid_count : ℤ → ℤ
valid_count (pos n) = pos (at_least_one n)
valid_count (negsuc n) = pos 1

-- The result is 1 or 0.
unfoldable pub android_set_cpu : System → ℤ → ℕ → Globals → ℕ × Globals
android_set_cpu sys cpu_count cpu_features g = if g.inited then (0, g) else (
  1,
  init_dummy_once (record (android_cpu_init_family sys g) {
    count = valid_count cpu_count;
    features = cpu_features;
  }),
)

unfoldable pub android_set_cpu_arm : System → ℤ → ℕ → ℕ → Globals → ℕ × Globals
android_set_cpu_arm sys cpu_count cpu_features cpu_id g =
    let (done, g') = android_set_cpu sys cpu_count cpu_features g in
    if done == 0 then (0, g') else (1, record g' { cpu_id = cpu_id })
