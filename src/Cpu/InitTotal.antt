-- ===== src/Cpu/InitTotal.antt =====
-- The initialisation returns: no file and no answer makes one of its loops run for ever, but a list
-- of CPUs with a range that ends in INT_MAX.
use android_vshell.Base.{ℕ, false, Option, none, some, List, [], ◌∷◌, refl, ◌≢◌}
use android_vshell.Base.{
  ◌≡◌, Option-cases, inl, inr, Returns, bind-Returns, option-Returns, if_Returns, arith, ap,
}
use android_vshell.Base.Text.{codes}
use android_vshell.Cpu.CpuList.{cpulist_init, cpulist_and, cpulist_count}
use android_vshell.Cpu.ListLaws.{cpulist_parse_total, IsFinite}
use android_vshell.Cpu.Info.{extract_cpuinfo_field, has_list_item}
use android_vshell.Cpu.InfoLaws.{has_word, has_list_item-has_word}
use android_vshell.Cpu.Files.{File, read_file, cpulist_read_from, get_cpu_count}
use android_vshell.Cpu.HwCaps.{
  Auxval, AuxRead, add_listed, listed_hwcaps, strtol, is_at_least, hwcap_set_for_armv8,
}
use android_vshell.Cpu.HwCaps.{get_elf_hwcap_from_proc_cpuinfo}
use android_vshell.Cpu.Arm.{is_armv6, architecture_features, elf_hwcaps, arm_init}
use android_vshell.Cpu.Flags.{set_if}

nonempty : (c : ℕ) (cs : List ℕ) → (c ∷ cs) ≢ []
nonempty c cs h = ground arith

has_list_item_total : (list : List ℕ) (c : ℕ) (cs : List ℕ) → Returns (has_list_item list (c ∷ cs))
has_list_item_total list c cs =
    (has_word list (c ∷ cs), has_list_item-has_word list (c ∷ cs) (nonempty c cs))

add_listed_total :
    (features : List ℕ) (c : ℕ) (cs flags : List ℕ) (hwcaps : ℕ)
    → Returns (add_listed features (c ∷ cs) flags hwcaps)
unfolding add_listed
add_listed_total features c cs flags hwcaps =
    let (b, h) = has_list_item_total features c cs in
    (
      _,
      ap
          (λ o. elim o as (λ o. Option ℕ) [
            | none ↦ none
            | some listed ↦ some (set_if listed flags hwcaps)
          ])
          h,
    )

listed_hwcaps_total : (features : List ℕ) → Returns (listed_hwcaps features)
unfolding listed_hwcaps
listed_hwcaps_total features = bind-Returns (add_listed_total features _ _ _ _) λ h₁.
    bind-Returns (add_listed_total features _ _ _ _) λ h₂.
      bind-Returns (add_listed_total features _ _ _ _) λ h₃.
        bind-Returns (add_listed_total features _ _ _ _) λ h₄.
          bind-Returns (add_listed_total features _ _ _ _) λ h₅.
            bind-Returns (add_listed_total features _ _ _ _) λ h₆.
              bind-Returns (add_listed_total features _ _ _ _) λ h₇.
                bind-Returns (add_listed_total features _ _ _ _)
                  λ h₈. add_listed_total features _ _ _ _

get_elf_hwcap_from_proc_cpuinfo_total :
    (cpuinfo : List ℕ) → Returns (get_elf_hwcap_from_proc_cpuinfo cpuinfo)
unfolding get_elf_hwcap_from_proc_cpuinfo
get_elf_hwcap_from_proc_cpuinfo_total cpuinfo =
    let by_features =
      option-Returns (extract_cpuinfo_field cpuinfo (codes "Features")) (0, refl)
        listed_hwcaps_total in
    option-Returns (extract_cpuinfo_field cpuinfo (codes "CPU architecture")) by_features
      λ architecture.
        if_Returns (is_at_least 8 (strtol architecture).0) (hwcap_set_for_armv8, refl) by_features

-- What is read of the file, if anything, has no item that ends in INT_MAX.
abbrev pub ReadsFinite : File → Type 0
ReadsFinite file = (content : List ℕ) → read_file file 64 ≡ some content → IsFinite content

cpulist_read_from_total : (file : File) → ReadsFinite file → Returns (cpulist_read_from file)
unfolding cpulist_read_from
cpulist_read_from_total file finite = elim (Option-cases (read_file file 64)) [
  | inl e ↦ (cpulist_init, rw (cpulist_read_from, e) refl)
  | inr (content, e) ↦
      let (r, h) = cpulist_parse_total cpulist_init content (finite content e) in
      (r, rw (cpulist_read_from, e) h)
]

pub get_cpu_count_total :
    (present possible : File)
    → ReadsFinite present
    → ReadsFinite possible
    → Returns (get_cpu_count present possible)
unfolding get_cpu_count
get_cpu_count_total present possible f f' =
    let (a, h) = cpulist_read_from_total present f in
    let (b, k) = cpulist_read_from_total possible f' in
    (cpulist_count (cpulist_and a b), rw (h, get_cpu_count, k) refl)

is_armv6_total : (cpuinfo : List ℕ) → Returns (is_armv6 cpuinfo)
unfolding is_armv6
is_armv6_total cpuinfo =
    option-Returns (extract_cpuinfo_field cpuinfo (codes "Processor")) (false, refl)
      λ processor. has_list_item_total processor _ _

architecture_features_total : (cpuinfo : List ℕ) → Returns (architecture_features cpuinfo)
unfolding architecture_features
architecture_features_total cpuinfo =
    option-Returns (extract_cpuinfo_field cpuinfo (codes "CPU architecture")) (0, refl)
      λ architecture. bind-Returns (is_armv6_total cpuinfo) λ v6. (_, refl)

elf_hwcaps_total :
    (auxval : Auxval) (auxv : Option (List AuxRead)) (cpuinfo : List ℕ)
    → Returns (elf_hwcaps auxval auxv cpuinfo)
unfolding elf_hwcaps
elf_hwcaps_total auxval auxv cpuinfo =
    if_Returns _ (if_Returns _ (get_elf_hwcap_from_proc_cpuinfo_total cpuinfo) (_, refl)) (_, refl)

pub arm_init_total :
    (auxval : Auxval) (auxv : Option (List AuxRead)) (cpuinfo : List ℕ) (family old_id : ℕ)
    → Returns (arm_init auxval auxv cpuinfo family old_id)
unfolding arm_init
arm_init_total auxval auxv cpuinfo family old_id =
    bind-Returns (architecture_features_total cpuinfo)
      λ f. bind-Returns (elf_hwcaps_total auxval auxv cpuinfo) λ hwcaps. (_, refl)
