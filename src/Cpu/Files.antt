-- ===== src/Cpu/Files.antt =====
-- Reading the kernel's files. What open and read answer is an argument: no file, or one answer for
-- each call of read, after which the file is at its end.
use android_vshell.Base.{ℕ, zero, suc, ◌+◌, ◌-◌, ◌%◌, ◌^◌, ltb, ◌==◌, if◌then◌else◌}
use android_vshell.Base.{Option, none, some, List, [], ◌∷◌, ◌++◌, length, take}
use android_vshell.Cpu.CpuList.{CpuList, cpulist_init, cpulist_and, cpulist_count, cpulist_parse}

-- The bytes that one call of read finds, of which it takes no more than it is asked for (no byte is
-- the end of the file); a failure with EINTR; any other failure.
pub data Answer : Type 0 where
  bytes : List ℕ → Answer
  eintr failure : Answer

abbrev pub File : Type 0
File = Option (List Answer)

-- The size so far, an int by its 32-bit pattern.
unfoldable pub size_loop : ℕ → List Answer → ℕ
size_loop result [] = result
size_loop result (eintr ∷ rest) = size_loop result rest
size_loop result (failure ∷ rest) = result
size_loop result (bytes [] ∷ rest) = result
size_loop result (bytes (b ∷ bs) ∷ rest) =
    size_loop ((result + length (take 256 (b ∷ bs))) % 2 ^ 32) rest

-- `none` is a negative result: -1, or a sum that does not fit an int.
unfoldable pub get_file_size : File → Option ℕ
get_file_size none = none
get_file_size (some answers) =
    let size = size_loop 0 answers in if ltb size (2 ^ 31) then some size else none

-- `room` is `buffsize - count`, and `buffer` holds the first `count` bytes.
unfoldable pub read_loop : List ℕ → ℕ → List Answer → Option (List ℕ)
read_loop buffer zero answers = some buffer
read_loop buffer (suc room) [] = some buffer
read_loop buffer (suc room) (eintr ∷ rest) = read_loop buffer (suc room) rest
read_loop buffer (suc room) (failure ∷ rest) = if length buffer == 0 then none else some buffer
read_loop buffer (suc room) (bytes [] ∷ rest) = some buffer
read_loop buffer (suc room) (bytes (b ∷ bs) ∷ rest) =
    let taken = take (suc room) (b ∷ bs) in
    read_loop (buffer ++ taken) (suc room - length taken) rest

unfoldable pub read_file : File → ℕ → Option (List ℕ)
read_file none buffsize = none
read_file (some answers) buffsize = read_loop [] buffsize answers

-- `char file[64]`. The outer `none` says that the parser does not end.
unfoldable pub cpulist_read_from : File → Option CpuList
cpulist_read_from file = elim (read_file file 64) [
  | none ↦ some cpulist_init
  | some content ↦ cpulist_parse cpulist_init content
]

-- From /sys/devices/system/cpu/present and /sys/devices/system/cpu/possible.
unfoldable pub get_cpu_count : File → File → Option ℕ
get_cpu_count present possible = elim (cpulist_read_from present) [
  | none ↦ none
  | some cpus_present ↦ elim (cpulist_read_from possible) [
    | none ↦ none
    | some cpus_possible ↦ some (cpulist_count (cpulist_and cpus_present cpus_possible))
  ]
]
