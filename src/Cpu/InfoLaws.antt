-- ===== src/Cpu/InfoLaws.antt =====
-- `has_list_item` looks for a word among the words of a list.
use android_vshell.Base.{
  ℕ, zero, suc, ◌≤◌, ◌<◌, ◌≡◌, ◌≢◌, refl, sym, ap, ◌∙◌, arith, Bool, false, ◌||◌,
}
use android_vshell.Base.{some, List, [], ◌∷◌, if◌then◌else◌, length, Bool-cases, inl, inr}
use android_vshell.Cpu.Info.{
  is_blank, skip_blanks, split_word, same_bytes, item_loop, has_list_item,
}

-- The words of a list, one byte at a time: the word that the list starts with, and those behind it.
unfoldable pub words : List ℕ → List ℕ × List (List ℕ)
words [] = ([], [])
words (c ∷ cs) =
    let rest = words cs in if is_blank c then ([], rest.0 ∷ rest.1) else (c ∷ rest.0, rest.1)

unfoldable pub any_word : List (List ℕ) → List ℕ → Bool
any_word [] item = false
any_word (w ∷ ws) item = same_bytes item w || any_word ws item

unfoldable pub has_word : List ℕ → List ℕ → Bool
has_word list item = any_word ((words list).0 ∷ (words list).1) item

same_bytes-nil : (item : List ℕ) → item ≢ [] → same_bytes item [] ≡ false
unfolding same_bytes
same_bytes-nil [] h = absurd (h refl)
same_bytes-nil (x ∷ xs) h = refl

split_word-words : (list : List ℕ) → (split_word list).0 ≡ (words list).0
unfolding words split_word
split_word-words [] = refl
split_word-words (c ∷ cs) = ground (arith, split_word-words cs)

any_word-rest :
    (list item : List ℕ)
    → item ≢ []
    → has_word (split_word list).1 item ≡ any_word (words list).1 item
unfolding has_word any_word words split_word
any_word-rest [] item h = ground (arith, same_bytes-nil item h)
any_word-rest (c ∷ cs) item h = elim (Bool-cases (is_blank c)) [
  | inl blank ↦ rw (blank, blank) (ground (arith, same_bytes-nil item h))
  | inr other ↦ rw other (any_word-rest cs item h)
]

has_word-skip_blanks :
    (list item : List ℕ) → item ≢ [] → has_word (skip_blanks list) item ≡ has_word list item
unfolding has_word any_word words skip_blanks
has_word-skip_blanks [] item h = refl
has_word-skip_blanks (c ∷ cs) item h = elim (Bool-cases (is_blank c)) [
  | inl blank ↦ rw (blank, same_bytes-nil item h) (has_word-skip_blanks cs item h)
  | inr other ↦ rw (other, other)
]

skip_blanks-le : (list : List ℕ) → length (skip_blanks list) ≤ length list
unfolding skip_blanks
skip_blanks-le [] = omega arith
skip_blanks-le (c ∷ cs) = ground (arith, skip_blanks-le cs)

split_word-le : (list : List ℕ) → length (split_word list).1 ≤ length list
unfolding split_word
split_word-le [] = omega arith
split_word-le (c ∷ cs) = ground (arith, split_word-le cs)

round_shorter : (c : ℕ) (cs : List ℕ) → length (split_word (skip_blanks (c ∷ cs))).1 ≤ length cs
unfolding skip_blanks split_word
round_shorter c cs = elim (Bool-cases (is_blank c)) [
  | inl blank ↦ rw blank (omega (arith, split_word-le (skip_blanks cs), skip_blanks-le cs))
  | inr other ↦ rw (other, other) (split_word-le cs)
]

has_word-nil : (item : List ℕ) → item ≢ [] → has_word [] item ≡ false
unfolding has_word any_word words
has_word-nil item h = rw (same_bytes-nil item h)

-- A round of the loop looks at the first word and leaves the others.
has_word-round :
    (list item : List ℕ)
    → item ≢ []
    → has_word list item ≡ (
        same_bytes item (split_word (skip_blanks list)).0
        || has_word (split_word (skip_blanks list)).1 item)
has_word-round list item h =
    sym (has_word-skip_blanks list item h)
    ∙ rw (any_word-rest (skip_blanks list) item h, split_word-words (skip_blanks list))
        (unfold has_word any_word in refl)

item_loop-has_word :
    (fuel : ℕ) (list item : List ℕ)
    → item ≢ []
    → length list < fuel
    → item_loop fuel list item ≡ some (has_word list item)
unfolding item_loop
item_loop-has_word zero list item h f = absurd (omega arith)
item_loop-has_word (suc fuel) [] item h f = ap some (sym (has_word-nil item h))
item_loop-has_word (suc fuel) (c ∷ cs) item h f =
    let list = c ∷ cs in
    let rest = (split_word (skip_blanks list)).1 in
    rw (has_word-round list item h)
      (ground (arith, item_loop-has_word fuel rest item h (omega (arith, round_shorter c cs))))

-- For a word that is not empty `has_list_item` returns, and says whether it is one of the words
-- between the spaces and tabs of the list.
pub has_list_item-has_word :
    (list item : List ℕ) → item ≢ [] → has_list_item list item ≡ some (has_word list item)
unfolding has_list_item
has_list_item-has_word list item h = item_loop-has_word _ list item h (omega arith)
