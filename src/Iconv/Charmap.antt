-- ===== src/Iconv/Charmap.antt =====
-- The layout of `charmaps` in musl-locale/iconv.c, and the search for a name in it.
use Prim.Native.String.{String}
use android_vshell.Base.{
  ℕ, zero, suc, ◌+◌, ◌-◌, ◌*◌, ◌/◌, ◌%◌, ◌^◌, Bool, true, false, ◌&&◌, bit_or,
}
use android_vshell.Base.{
  Option, none, some, List, [], ◌∷◌, ◌++◌, ltb, ◌==◌, if◌then◌else◌, length, drop,
}
use android_vshell.Base.Text.{codes}

-- Its aliases, its special code or number of elided entries, and its table.
pub record Charmap : Type 0 where
  pub aliases : List String
  pub type : ℕ
  pub table : List ℕ

-- The `n` bytes of a number, the highest first.
unfoldable pub bytes_onto : ℕ → ℕ → List ℕ → List ℕ
bytes_onto zero value rest = rest
bytes_onto (suc n) value rest = bytes_onto n (value / 2 ^ 8) ((value % 2 ^ 8) ∷ rest)

abbrev pub bytes : ℕ → ℕ → List ℕ
bytes n value = bytes_onto n value []

-- Null-terminated strings, one after another.
unfoldable pub c_strings : List String → List ℕ
c_strings [] = []
c_strings (s ∷ ss) = codes s ++ (0 ∷ c_strings ss)

-- A list of aliases that an empty string ends, the type, and the table.
unfoldable pub charmap_bytes : Charmap → List ℕ → List ℕ
charmap_bytes charmap rest =
    c_strings charmap.aliases ++ (0 ∷ charmap.type ∷ (charmap.table ++ rest))

unfoldable pub layout : List Charmap → List ℕ
layout [] = []
layout (charmap ∷ more) = charmap_bytes charmap (layout more)

-- `a - b` on unsigned int.
abbrev pub sub32 : ℕ → ℕ → ℕ
sub32 a b = (a + 2 ^ 32 - b) % 2 ^ 32

-- What the inner loop of `fuzzycmp` skips.
unfoldable pub is_skipped : ℕ → Bool
is_skipped c = ltb 26 (sub32 (bit_or c 32) b'a') && ltb 10 (sub32 c b'0')

unfoldable pub skip_others : List ℕ → List ℕ
skip_others [] = []
skip_others (c ∷ cs) = if is_skipped c then skip_others cs else c ∷ cs

-- Strings without their null; `true` is the result 1. At the end of the name the source compares a
-- blank with the alias, and no alias has one.
unfoldable pub fuzzycmp : List ℕ → List ℕ → Bool
fuzzycmp [] [] = false
fuzzycmp [] (b ∷ bs) = true
fuzzycmp (a ∷ as') [] = true
fuzzycmp (a ∷ as') (b ∷ bs) = elim (skip_others (a ∷ as')) [
  | [] ↦ true
  | c ∷ cs ↦ (let rest = fuzzycmp cs bs in if bit_or c 32 == b then rest else true)
]

-- The string at an address, and what lies behind its null. Behind the array stands a null.
unfoldable pub c_string : List ℕ → List ℕ × List ℕ
c_string [] = ([], [])
c_string (c ∷ cs) = let rest = c_string cs in if c == 0 then ([], cs) else (c ∷ rest.0, rest.1)

-- `for (; *s; s+=strlen((void *)s)+1);` and then `s+1`. Each round takes a byte at least.
unfoldable pub type_at : ℕ → List ℕ → List ℕ
type_at zero s = []
type_at (suc fuel) s =
    let (name, rest) = c_string s in elim name [ [] ↦ rest | c ∷ cs ↦ type_at fuel rest ]

-- How many bytes the table behind a type has.
unfoldable pub table_size : ℕ → ℕ
table_size type = if ltb 128 type then 0 else (128 - type) / 4 * 5

-- From a string on that is no match: the next alias, or the next charmap behind the empty string.
unfoldable pub next_alias : List ℕ → List ℕ
next_alias (zero ∷ type ∷ rest) = drop (table_size type) rest
next_alias s = s

-- The loop of `find_charmap`, with the result `s+1` as the bytes from the type on.
unfoldable pub find_loop : ℕ → List ℕ → List ℕ → Option (List ℕ)
find_loop zero name s = none
find_loop (suc fuel) name s =
    let (alias, rest) = c_string s in
    elim alias [
      | [] ↦ none
      | c ∷ cs ↦
          (let next = find_loop fuel name (next_alias rest) in
            if fuzzycmp name (c ∷ cs) then next else some (type_at (length s) s))
    ]
