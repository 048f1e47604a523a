-- ===== src/Cpu.antt =====
-- The CPU feature library, native-packages/packages/libandroid-cpufeatures/sources/cpu-features.c.
pub mod Number
pub mod CpuList
pub mod NumberLaws
pub mod ListLaws
pub mod Files
pub mod FileLaws
pub mod MaskLaws
pub mod Info
pub mod InfoLaws
pub mod Flags
pub mod Hwcap
pub mod ArmFeature
pub mod HwCaps
pub mod Arm
pub mod ArmLaws
pub mod Others
pub mod Init
pub mod InitTotal
pub mod InitLaws
pub mod CallLaws
pub mod ListedLaws
mod Runs
mod InitRuns
