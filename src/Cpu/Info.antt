-- ===== src/Cpu/Info.antt =====
-- Fields of /proc/cpuinfo and lists of words: `extract_cpuinfo_field` and `has_list_item`. A buffer
-- is the list of its bytes, and a string the list of its bytes before the null.
use android_vshell.Base.{ℕ, zero, suc, ◌-◌, Bool, true, false, ◌&&◌, ◌||◌}
use android_vshell.Base.{Option, none, some, List, [], ◌∷◌, ◌==◌, if◌then◌else◌, length}

-- What lies behind `field`, if the bytes start with it.
unfoldable pub strip : List ℕ → List ℕ → Option (List ℕ)
strip [] bs = some bs
strip (f ∷ fs) [] = none
strip (f ∷ fs) (b ∷ bs) = let rest = strip fs bs in if f == b then rest else none

-- The search for the first match at the start of a line. memmem goes on behind a match elsewhere, so
-- `skip` bytes are passed over; `at_start` says that a line starts here.
unfoldable pub find_field : List ℕ → Bool → ℕ → List ℕ → Option (List ℕ)
find_field field at_start skip [] = none
find_field field at_start (suc skip) (b ∷ bs) = find_field field (b == b'\n') skip bs
find_field field at_start zero (b ∷ bs) =
    let passed = find_field field (b == b'\n') (length field - 1) bs in
    let next = find_field field (b == b'\n') 0 bs in
    elim (strip field (b ∷ bs)) [ none ↦ next | some rest ↦ if at_start then some rest else passed ]

-- memchr: the bytes from the first `c` on.
unfoldable pub find_byte : ℕ → List ℕ → Option (List ℕ)
find_byte c [] = none
find_byte c (b ∷ bs) = if b == c then some (b ∷ bs) else find_byte c bs

unfoldable pub until_newline : List ℕ → List ℕ
until_newline [] = []
until_newline (b ∷ bs) = if b == b'\n' then [] else b ∷ until_newline bs

-- From the colon on. `p[1]` at the end of the buffer is taken for no space.
unfoldable pub field_value : List ℕ → Option (List ℕ)
field_value (colon ∷ space ∷ value) = if space == b' ' then some (until_newline value) else none
field_value _ = none

-- `none` is a null pointer. The allocation is taken to succeed.
unfoldable pub extract_cpuinfo_field : List ℕ → List ℕ → Option (List ℕ)
extract_cpuinfo_field buffer field = elim (find_field field true 0 buffer) [
  | none ↦ none
  | some rest ↦ elim (find_byte b':' rest) [
    | none ↦ none
    | some from_colon ↦ field_value from_colon
  ]
]

abbrev pub is_blank : ℕ → Bool
is_blank c = c == b' ' || c == b'\t'

unfoldable pub skip_blanks : List ℕ → List ℕ
skip_blanks [] = []
skip_blanks (c ∷ cs) = if is_blank c then skip_blanks cs else c ∷ cs

-- The bytes up to the next blank, and the bytes from it on.
unfoldable pub split_word : List ℕ → List ℕ × List ℕ
split_word [] = ([], [])
split_word (c ∷ cs) =
    let rest = split_word cs in if is_blank c then ([], c ∷ cs) else (c ∷ rest.0, rest.1)

-- Equal length, and memcmp is 0.
unfoldable pub same_bytes : List ℕ → List ℕ → Bool
same_bytes [] [] = true
same_bytes [] (y ∷ ys) = false
same_bytes (x ∷ xs) [] = false
same_bytes (x ∷ xs) (y ∷ ys) = x == y && same_bytes xs ys

-- The outer loop; `none` where the fuel ran out. A round takes a byte at least.
unfoldable pub item_loop : ℕ → List ℕ → List ℕ → Option Bool
item_loop zero list item = none
item_loop (suc fuel) [] item = some false
item_loop (suc fuel) (c ∷ cs) item =
    let (word, rest) = split_word (skip_blanks (c ∷ cs)) in
    let next = item_loop fuel rest item in if same_bytes item word then some true else next

unfoldable pub has_list_item : List ℕ → List ℕ → Option Bool
has_list_item list item = item_loop (suc (length list)) list item
