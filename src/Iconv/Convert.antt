-- ===== src/Iconv/Convert.antt =====
-- The loop of `iconv` and the function. What `*in` and `*out` point to are lists of bytes: those that
-- are left, of which `*inb` is the number, and those that were written; `room` is `*outb`.
use android_vshell.Base.{ℕ, zero, suc, ◌+◌, ◌-◌, ◌/◌, ◌%◌, ◌^◌, Option, none, some, true, false}
use android_vshell.Base.{List, [], ◌∷◌, ◌++◌, ltb, if◌then◌else◌, length, drop, take, get_or}
use android_vshell.Iconv.Charmap.{sub32}
use android_vshell.Iconv.Names.{charmaps}
use android_vshell.Iconv.Decode.{Mbr, Decoded, char, pair, ilseq, starved, outside, decode}
use android_vshell.Iconv.Encode.{Encoded, wrote, too_big, back, encode}

pub data Errno : Type 0 where
  eilseq e2big einval : Errno

-- What the caller finds. `errno` is none where nothing set it.
pub record Buffers : Type 0 where
  pub input : List ℕ
  pub out : List ℕ
  pub room : ℕ
  pub errno : Option Errno

-- `returned x`; -1 for an error; a read outside a table or a byte before the output, where the source
-- has no meaning; the fuel of the model ran out.
pub data Outcome : Type 0 where
  returned : Buffers → ℕ → Outcome
  failed : Buffers → Outcome
  undefined out_of_fuel : Outcome

pub record Libc : Type 0 where
  pub mbrtowc : ℕ → List ℕ → Mbr
  pub wctomb : ℕ → Option (List ℕ)

-- `type` and `map` of the source's encoding, `totype` and `tomap` of the target's.
pub record Descriptor : Type 0 where
  pub type : ℕ
  pub map : List ℕ
  pub totype : ℕ
  pub tomap : List ℕ

-- From the indices of the two types in `charmaps`.
unfoldable pub describe : ℕ → ℕ → Descriptor
describe from to = record {
  type = get_or charmaps from 0;
  map = drop (from + 1) charmaps;
  totype = get_or charmaps to 0;
  tomap = drop (to + 1) charmaps;
}

-- The room that the two characters of a pair need at most.
unfoldable pub pair_room : ℕ → ℕ
pair_room totype =
    if ltb 8 (sub32 totype 192)
    then 2
    else get_or (8 ∷ 4 ∷ 4 ∷ 8 ∷ 4 ∷ 4 ∷ 8 ∷ 2 ∷ 4 ∷ []) (totype - 192) 0

-- The four bytes of the pair that a number stands for.
unfoldable pub pair_bytes : ℕ → List ℕ
pair_bytes k = take 4 (
    drop k (
      0xc3 ∷ 0x8a ∷ 0xcc ∷ 0x84 ∷ 0xc3 ∷ 0x8a ∷ 0xcc ∷ 0x8c ∷ 0xc3 ∷ 0xaa ∷ 0xcc ∷ 0x84 ∷ 0xc3
      ∷ 0xaa ∷ 0xcc ∷ 0x8c ∷ []))

-- The descriptor of the call inside the loop, `to` alone: its source is what stands at index 0.
unfoldable pub inner : Descriptor → Descriptor
inner cd = record cd { type = get_or charmaps 0 0; map = drop 1 charmaps }

-- The output without its last byte.
unfoldable pub step_back : List ℕ → Option (List ℕ)
step_back [] = none
step_back (b ∷ bs) = some (take (length bs) (b ∷ bs))

abbrev pub size_mod : ℕ
size_mod = 2 ^ 64

-- How the loop goes on: the state of mbrtowc, the buffers and `x`.
abbrev pub Next : Type 0
Next = ℕ → Buffers → ℕ → Outcome

-- Behind the second switch, for a character of `l` bytes.
unfoldable pub emit : Next → ℕ → ℕ → Buffers → ℕ → Encoded → Outcome
emit next l st b x too_big = failed (record b { errno = some e2big })
emit next l st b x Encoded.outside = undefined
emit next l st b x back = elim (step_back b.out) [
  | none ↦ undefined
  | some out ↦ next st (record b { input = drop l b.input; out = out; room = b.room + 1 }) x
]
emit next l st b x (wrote bytes y) =
    next st
      (record b { input = drop l b.input; out = b.out ++ bytes; room = b.room - length bytes })
      ((x + y) % size_mod)

-- Behind the call inside the loop, which has written a pair of characters: `x += ...; continue;`
unfoldable pub expand : Next → ℕ → List ℕ → ℕ → Outcome → Outcome
expand next st input x (returned r y) =
    next st (record r { input = drop 2 input }) ((x + y) % size_mod)
expand next st input x (failed r) =
    next st (record r { input = drop 2 input }) ((x + size_mod - 1) % size_mod)
expand next st input x undefined = undefined
expand next st input x out_of_fuel = out_of_fuel

-- Behind the first switch. `inside` is the call inside the loop.
unfoldable pub round :
    Libc → Descriptor → (Buffers → Outcome) → Next → ℕ → Buffers → ℕ → Decoded → Outcome
round libc cd inside next st b x ilseq = failed (record b { errno = some eilseq })
round libc cd inside next st b x starved = failed (record b { errno = some einval })
round libc cd inside next st b x outside = undefined
round libc cd inside next st b x (pair k) = elim (ltb b.room (pair_room cd.totype)) [
  | true ↦ failed (record b { errno = some e2big })
  | false ↦ expand next st b.input x (inside (record b { input = pair_bytes k }))
]
round libc cd inside next st b x (char l c st') =
    emit next l st' b x (encode libc.wctomb cd.type cd.totype cd.tomap c b.room)

-- The loop.
unfoldable pub convert : ℕ → Libc → Descriptor → ℕ → Buffers → ℕ → Outcome
convert zero libc cd st b x = out_of_fuel
convert (suc fuel) libc cd st b x = elim b.input [
  | [] ↦ returned b x
  | i ∷ is ↦
      round libc cd (λ r. convert fuel libc (inner cd) 0 r 0) (convert fuel libc cd) st b x
        (decode libc.mbrtowc cd.type cd.map (i ∷ is) st)
]

-- A null `in` is `none`. Each round takes a byte at least, and a pair has four bytes.
unfoldable pub iconv : Libc → ℕ → Option (List ℕ) → ℕ → Outcome
iconv libc cd none room = returned (record { input = []; out = []; room = room; errno = none }) 0
iconv libc cd (some input) room =
    convert (length input + 6) libc (describe (cd / 2 ^ 16) (cd % 2 ^ 16)) 0
      (record { input = input; out = []; room = room; errno = none }) 0
