-- ===== src/Multibyte/LimitRuns.antt =====
-- The theorems on `mbsnrtowcs` at concrete inputs.
use android_vshell.Base.{
  ℕ, zero, suc, ◌+◌, ◌*◌, ◌%◌, ◌<◌, ◌≤◌, ◌≡◌, ◌⊎◌, refl, true, false, List, [], ◌∷◌, length, get_or,
  All, lt→ltb, arith, none, some, ltb, if◌then◌else◌,
}
use android_vshell.Multibyte.Step.{Memory}
use android_vshell.Multibyte.Utf8.{encode, encode_all, IsBytes, Holds}
use android_vshell.Multibyte.Encode.{IsAccepted}
use android_vshell.Multibyte.Mbsrtowcs.{Outcome, mbsrtowcs}
use android_vshell.Multibyte.Strings.{IsMalformed}
use android_vshell.Multibyte.Mbsnrtowcs.{
  Reader, Progress, done, null_state, invalid, incomplete, both_loops, mbsnrtowcs,
}
use android_vshell.Multibyte.Chunks.{is_given}
use android_vshell.Multibyte.Rounds.{IsWithin}
use android_vshell.Multibyte.Calls.{capacity, both_loops-IsWithin, mbsnrtowcs-mbsrtowcs}
use android_vshell.Multibyte.Overread.{mbsnrtowcs-overread}

-- The bytes f0 9f 98 80 over and over, up to address 176, and ff from there on.
abbrev smileys : Memory
smileys a = if ltb a 176 then get_or (0xf0 ∷ 0x9f ∷ 0x98 ∷ 0x80 ∷ []) (a % 4) 0 else 0xff

cell-small : (i : ℕ) → get_or (0xf0 ∷ 0x9f ∷ 0x98 ∷ 0x80 ∷ []) i 0 < 256
cell-small zero = omega arith
cell-small (suc zero) = omega arith
cell-small (suc (suc zero)) = omega arith
cell-small (suc (suc (suc zero))) = omega arith
cell-small (suc (suc (suc (suc i)))) = omega arith

smileys-IsBytes : IsBytes smileys
smileys-IsBytes a = ground (arith, cell-small (a % 4))

abbrev text : ℕ → List ℕ
text zero = []
text (suc k) = 0x1f600 ∷ text k

text-IsAccepted : (k : ℕ) → All IsAccepted (text k)
text-IsAccepted zero = tt
text-IsAccepted (suc k) = (ground arith, text-IsAccepted k)

text-length : (k : ℕ) → length (encode_all (text k)) ≡ 4 * k
unfolding encode_all encode
text-length zero = refl
text-length (suc k) = omega (arith, text-length k)

cell :
    (s i a : ℕ)
    → s % 4 ≡ 0
    → s + 4 ≤ 176
    → i < 4
    → a ≡ s + i
    → smileys a ≡ get_or (0xf0 ∷ 0x9f ∷ 0x98 ∷ 0x80 ∷ []) i 0
cell s i a e h l same =
    let rest : a % 4 ≡ i = omega (arith, e, l, same) in
    rw (lt→ltb a 176 (omega (arith, h, l, same)), rest) refl

-- The text stands in that memory.
smileys-Holds : (k s : ℕ) → s % 4 ≡ 0 → s + 4 * k ≤ 176 → Holds smileys s (encode_all (text k))
unfolding encode_all encode
smileys-Holds zero s e h = tt
smileys-Holds (suc k) s e h =
    let room : s + 4 ≤ 176 = omega (arith, h) in
    let b₀ = cell s 0 s e room (omega arith) (omega arith) in
    let b₁ = cell s 1 (s + 1) e room (omega arith) refl in
    let b₂ = cell s 2 (s + 1 + 1) e room (omega arith) (omega arith) in
    let b₃ = cell s 3 (s + 1 + 1 + 1) e room (omega arith) (omega arith) in
    let next = smileys-Holds k (s + 1 + 1 + 1 + 1) (omega (arith, e)) (omega (arith, h)) in
    (b₀, (b₁, (b₂, (b₃, next))))

-- No encoding starts with ff.
smileys-IsMalformed : IsMalformed smileys 176
unfolding encode
smileys-IsMalformed = (ground arith, λ c ok held. ground (arith, held))

-- A libc that takes no byte for a character.
abbrev no_character : Reader
no_character mem s n st = invalid 0

-- One in which each character is incomplete.
abbrev no_end : Reader
no_end mem s n st = incomplete 1

both_loops-IsWithin_example :
    (both_loops no_end smileys true 0 7 8 none ≡ null_state) × (is_given none ≡ false)
    ⊎ ((p : Progress) × (both_loops no_end smileys true 0 7 8 none ≡ done p)
        × IsWithin (capacity true 8) (is_given none) true p)
both_loops-IsWithin_example =
    both_loops-IsWithin no_end smileys true 0 7 8 none smileys-IsBytes (omega arith)

mbsnrtowcs-mbsrtowcs_example :
    (o : Outcome) × (mbsrtowcs 0 smileys true 0 3 none ≡ some o)
    × (mbsnrtowcs no_character smileys true 0 12 3 none ≡ done o)
mbsnrtowcs-mbsrtowcs_example =
    mbsnrtowcs-mbsrtowcs 0 no_character smileys 0 12 3 none smileys-IsBytes (omega arith)
      (omega arith) (omega arith)

mbsnrtowcs-overread_example :
    (o : Outcome) × (mbsnrtowcs no_character smileys true 0 176 50 none ≡ done o)
    × (o.result ≡ none)
    × (o.eilseq ≡ true)
mbsnrtowcs-overread_example =
    mbsnrtowcs-overread no_character smileys 0 176 50 (text 44) none smileys-IsBytes refl
      (omega arith) (ground arith) (ground arith) (text-IsAccepted 44)
      (smileys-Holds 44 0 refl (omega arith)) (text-length 44) refl smileys-IsMalformed
