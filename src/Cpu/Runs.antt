-- ===== src/Cpu/Runs.antt =====
-- Runs of the CPU library, and its theorems at concrete inputs.
use android_vshell.Base.{ℕ, ◌≡◌, refl, some, List, [], ◌∷◌, ◌++◌, arith}
use android_vshell.Base.Text.{codes}
use android_vshell.Cpu.Number.{parse_decimal, digit}
use android_vshell.Cpu.NumberLaws.{print, parse_decimal-print}
use android_vshell.Base.{none}
use android_vshell.Cpu.Number.{parse_number, number_loop}
use android_vshell.Cpu.CpuList.{
  parse_items, split_item, parse_item, set_range, cpulist_init, cpulist_parse,
}
use android_vshell.Cpu.ListLaws.{
  Item, one, span, print_items, print_item, set_items, cpulist_parse-print,
}
use android_vshell.Cpu.Files.{File, Answer, bytes, eintr, read_loop, read_file, get_cpu_count}
use android_vshell.Cpu.FileLaws.{uninterrupted, read_file-uninterrupted}
use android_vshell.Cpu.MaskLaws.{count_below, lists_cpu, get_cpu_count-both}

parse_decimal-print_example : parse_decimal (print 9 2047 ++ (b'-' ∷ [])) ≡ some (2047, b'-' ∷ [])
unfolding digit
parse_decimal-print_example = parse_decimal-print 9 2047 (b'-' ∷ []) (omega arith) refl

abbrev items : List Item
items = span 0 3 ∷ one 5 ∷ []

cpulist_parse-print_example :
    cpulist_parse cpulist_init (print_items items) ≡ some (set_items cpulist_init items)
cpulist_parse-print_example = cpulist_parse-print cpulist_init items (ground arith)

-- "0-3", read in two parts, and "0-7".
abbrev present : File
present = some (bytes (b'0' ∷ []) ∷ eintr ∷ bytes (b'-' ∷ b'3' ∷ b'\n' ∷ []) ∷ [])

abbrev possible : File
possible = some (bytes (b'0' ∷ b'-' ∷ b'7' ∷ b'\n' ∷ []) ∷ [])

get_cpu_count-both_example : get_cpu_count present possible ≡ some 4
unfolding read_file read_loop print_items print_item print count_below lists_cpu
get_cpu_count-both_example =
    get_cpu_count-both present possible (span 0 3 ∷ []) (span 0 7 ∷ []) refl refl (ground arith)
      (ground arith)

abbrev answers : List Answer
answers = bytes (1 ∷ 2 ∷ []) ∷ eintr ∷ bytes (3 ∷ 4 ∷ []) ∷ []

read_file-uninterrupted_example :
    read_file (some answers) 3 ≡ read_file (some (uninterrupted answers)) 3
read_file-uninterrupted_example = read_file-uninterrupted answers 3

-- A processor that lists three words.
abbrev cpuinfo : List ℕ
cpuinfo = codes "Features : half vfpv3 neon" ++ (b'\n' ∷ [])

-- A range up to INT_MAX does not end.
endless : cpulist_parse cpulist_init (codes "0-2147483647") ≡ none
unfolding cpulist_parse parse_items split_item parse_item parse_decimal parse_number number_loop
    digit set_range
endless = refl
