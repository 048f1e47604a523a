-- ===== src/Multibyte/Decode.antt =====
-- A round of mbsrtowcs.c against the plain arithmetic of UTF-8.
use android_vshell.Base.{ℕ, ◌+◌, ◌-◌, ◌*◌, ◌≤◌, ◌<◌, ◌≡◌, true, false}
use android_vshell.Base.{none, some, leb, arith, Bool-cases, inl, inr}
use android_vshell.Multibyte.Table.{lead_state, is_ascii, is_not_lead}
use android_vshell.Multibyte.Step.{Memory, decode, next_char, add_trail}
use android_vshell.Multibyte.Utf8.{IsBytes}
use android_vshell.Multibyte.Lead.{marks, is_second, out_of_bounds-second}
use android_vshell.Multibyte.Arithmetic.{
  is_trail, read_char, forget, trail_test, after_second, after_third, after_third_of_four,
  after_fourth,
}

module _ (mem : Memory) (s : ℕ) (small : IsBytes mem) (lo : 0xc2 ≤ mem s) (hi : mem s < 0xf5) where
  abbrev lead : ℕ
  lead = mem s

  -- The four ways in which `decode` can end, with the bytes as the source tests them.
  decode_bad_second :
      is_second lead (mem (s + 1)) ≡ false → forget (decode mem (lead_state lead) (s + 1)) ≡ none
  unfolding decode
  decode_bad_second h = rw (out_of_bounds-second lead (mem (s + 1)) lo hi (small (s + 1)), h)

  decode_two :
      is_second lead (mem (s + 1)) ≡ true
      → lead < 0xe0
      → forget (decode mem (lead_state lead) (s + 1))
        ≡ some ((lead - 0xc0) * 64 + (mem (s + 1) - 0x80), s + 1 + 1)
  unfolding decode marks
  decode_two h p =
      let (sum, flag) = after_second lead (mem (s + 1)) lo hi h in
      let off : leb 0xe0 lead ≡ false = ground arith in
      let value : add_trail (lead_state lead) (mem (s + 1))
          ≡ (lead - 0xc0) * 64 + (mem (s + 1) - 0x80) =
        ground (arith, sum) in
      rw (out_of_bounds-second lead (mem (s + 1)) lo hi (small (s + 1)), h, flag, off, value)

  decode_bad_third :
      is_second lead (mem (s + 1)) ≡ true
      → 0xe0 ≤ lead
      → is_trail (mem (s + 1 + 1)) ≡ false
      → forget (decode mem (lead_state lead) (s + 1)) ≡ none
  unfolding decode
  decode_bad_third h p bad =
      let on : leb 0xe0 lead ≡ true = ground arith in
      rw (
        out_of_bounds-second lead (mem (s + 1)) lo hi (small (s + 1)),
        h,
        (after_second lead (mem (s + 1)) lo hi h).1,
        on,
        trail_test (mem (s + 1 + 1)) (small (s + 1 + 1)),
        bad,
      )

  decode_three :
      is_second lead (mem (s + 1)) ≡ true
      → 0xe0 ≤ lead
      → lead < 0xf0
      → is_trail (mem (s + 1 + 1)) ≡ true
      → forget (decode mem (lead_state lead) (s + 1))
        ≡ some
            (((lead - 0xe0) * 64 + (mem (s + 1) - 0x80)) * 64 + (mem (s + 1 + 1) - 0x80), s + 1 + 2)
  unfolding decode
  decode_three h p q h' =
      let on : leb 0xe0 lead ≡ true = ground arith in
      let (sum, flag) = after_third lead (mem (s + 1)) (mem (s + 1 + 1)) p q h h' in
      rw (
        out_of_bounds-second lead (mem (s + 1)) lo hi (small (s + 1)),
        h,
        (after_second lead (mem (s + 1)) lo hi h).1,
        on,
        trail_test (mem (s + 1 + 1)) (small (s + 1 + 1)),
        h',
        flag,
        sum,
      )

  decode_bad_fourth :
      is_second lead (mem (s + 1)) ≡ true
      → 0xf0 ≤ lead
      → is_trail (mem (s + 1 + 1)) ≡ true
      → is_trail (mem (s + 1 + 2)) ≡ false
      → forget (decode mem (lead_state lead) (s + 1)) ≡ none
  unfolding decode
  decode_bad_fourth h p h' bad =
      let on : leb 0xe0 lead ≡ true = ground arith in
      rw (
        out_of_bounds-second lead (mem (s + 1)) lo hi (small (s + 1)),
        h,
        (after_second lead (mem (s + 1)) lo hi h).1,
        on,
        trail_test (mem (s + 1 + 1)) (small (s + 1 + 1)),
        h',
        (after_third_of_four lead (mem (s + 1)) (mem (s + 1 + 1)) p hi h h').1,
        trail_test (mem (s + 1 + 2)) (small (s + 1 + 2)),
        bad,
      )

  decode_four :
      is_second lead (mem (s + 1)) ≡ true
      → 0xf0 ≤ lead
      → is_trail (mem (s + 1 + 1)) ≡ true
      → is_trail (mem (s + 1 + 2)) ≡ true
      → forget (decode mem (lead_state lead) (s + 1))
        ≡ some (
          (((lead - 0xf0) * 64 + (mem (s + 1) - 0x80)) * 64 + (mem (s + 1 + 1) - 0x80)) * 64
              + (mem (s + 1 + 2) - 0x80),
          s + 1 + 3,
        )
  unfolding decode
  decode_four h p h' h'' =
      let on : leb 0xe0 lead ≡ true = ground arith in
      rw (
        out_of_bounds-second lead (mem (s + 1)) lo hi (small (s + 1)),
        h,
        (after_second lead (mem (s + 1)) lo hi h).1,
        on,
        trail_test (mem (s + 1 + 1)) (small (s + 1 + 1)),
        h',
        (after_third_of_four lead (mem (s + 1)) (mem (s + 1 + 1)) p hi h h').1,
        trail_test (mem (s + 1 + 2)) (small (s + 1 + 2)),
        h'',
        after_fourth lead (mem (s + 1)) (mem (s + 1 + 1)) (mem (s + 1 + 2)) p hi h h' h'',
      )

  decode-read_char : forget (decode mem (lead_state lead) (s + 1)) ≡ read_char mem s
  unfolding read_char
  decode-read_char = ground (
    arith, decode_bad_second, decode_two, decode_bad_third, decode_three, decode_bad_fourth,
    decode_four,
  )

-- A round of the loop reads what UTF-8's arithmetic reads, or stops where that reads nothing.
pub next_char-read_char :
    (mem : Memory) (s : ℕ) → IsBytes mem → forget (next_char mem s) ≡ read_char mem s
unfolding next_char
next_char-read_char mem s small = elim (Bool-cases (is_ascii (mem s))) [
  | inl asc ↦ rw asc (unfold read_char in ground (arith, small s))
  | inr nasc ↦ elim (Bool-cases (is_not_lead (mem s))) [
    | inl out ↦ rw (nasc, out) (unfold read_char in ground (arith, small s))
    | inr lead ↦
        rw (nasc, lead)
          (decode-read_char mem s small (ground (arith, small s)) (ground (arith, small s)))
  ]
]
