-- ===== src/Ctype/NameLaws.antt =====
-- What the names of classes and of case mappings stand for.
use Prim.Native.String.{String}
use android_vshell.Base.{
  ℕ, zero, suc, ◌+◌, ◌≡◌, ◌≢◌, ◌⊎◌, inl, inr, refl, sym, ap, ◌∙◌, arith, Bool, true, false, not,
  ◌&&◌, Bool-cases, Option, some, List, [], ◌∷◌, ◌++◌, All, ◌==◌, drop, length,
}
use android_vshell.Base.Text.{codes}
use android_vshell.Ctype.Class.{
  iswalpha, iswalnum, iswcntrl, iswdigit, termux_iswprint, iswgraph, iswpunct, iswspace, iswxdigit,
}
use android_vshell.Ctype.Case.{iswlower, iswupper}
use android_vshell.Ctype.ByName.{iswblank, iswctype, same_string, names, wctype_loop, wctype}

-- A name of nonzero bytes before a null.
same_string_sound :
    (s w rest : List ℕ) → All (λ b. b ≢ 0) w → same_string s (w ++ (0 ∷ rest)) ≡ true → s ≡ w
unfolding same_string
same_string_sound [] [] rest w h = refl
same_string_sound [] (b ∷ bs) rest w h = absurd (w.0 (ground (arith, h)))
same_string_sound (a ∷ s) [] rest w h = ground (arith, h)
same_string_sound (a ∷ s) (b ∷ bs) rest w h =
    let e : a ≡ b = ground (arith, h) in
    let f = same_string_sound s bs rest w.1 (ground (arith, h)) in rw (e, f) refl

same_string_refl : (w rest : List ℕ) → All (λ b. b ≢ 0) w → same_string w (w ++ (0 ∷ rest)) ≡ true
unfolding same_string
same_string_refl [] rest h = refl
same_string_refl (b ∷ bs) rest h = ground (arith, h.0, same_string_refl bs rest h.1)

-- The classes of the C standard.
pub data Class : Type 0 where
  alnum_class alpha_class blank_class cntrl_class digit_class graph_class lower_class print_class
        punct_class space_class upper_class xdigit_class :
      Class

abbrev pub name_of : Class → String
name_of alnum_class = "alnum"
name_of alpha_class = "alpha"
name_of blank_class = "blank"
name_of cntrl_class = "cntrl"
name_of digit_class = "digit"
name_of graph_class = "graph"
name_of lower_class = "lower"
name_of print_class = "print"
name_of punct_class = "punct"
name_of space_class = "space"
name_of upper_class = "upper"
name_of xdigit_class = "xdigit"

-- The test of a class.
abbrev pub test_of : (ℕ → Bool) → Class → ℕ → Option Bool
test_of isblank alnum_class wc = iswalnum wc
test_of isblank alpha_class wc = iswalpha wc
test_of isblank blank_class wc = some (isblank wc)
test_of isblank cntrl_class wc = some (iswcntrl wc)
test_of isblank digit_class wc = some (iswdigit wc)
test_of isblank graph_class wc = some (iswgraph wc)
test_of isblank lower_class wc = iswlower wc
test_of isblank print_class wc = some (termux_iswprint wc)
test_of isblank punct_class wc = iswpunct wc
test_of isblank space_class wc = some (iswspace wc)
test_of isblank upper_class wc = iswupper wc
test_of isblank xdigit_class wc = some (iswxdigit wc)

has_no_zero : List ℕ → Bool
has_no_zero [] = true
has_no_zero (b ∷ bs) = not (b == 0) && has_no_zero bs

nonzero : (bs : List ℕ) → has_no_zero bs ≡ true → All (λ b. b ≢ 0) bs
unfolding has_no_zero
nonzero [] h = tt
nonzero (b ∷ bs) h = ((λ e. ground (arith, h, e)), nonzero bs (ground (arith, h)))

name_ok : (k : Class) → has_no_zero (codes (name_of k)) ≡ true
unfolding has_no_zero
name_ok alnum_class = refl
name_ok alpha_class = refl
name_ok blank_class = refl
name_ok cntrl_class = refl
name_ok digit_class = refl
name_ok graph_class = refl
name_ok lower_class = refl
name_ok print_class = refl
name_ok punct_class = refl
name_ok space_class = refl
name_ok upper_class = refl
name_ok xdigit_class = refl

name_nonzero : (k : Class) → All (λ b. b ≢ 0) (codes (name_of k))
name_nonzero k = nonzero (codes (name_of k)) (name_ok k)

-- What is left of `names` at a round of the loop: the names of some classes.
data Chain : List ℕ → Type 0 where
  last : Chain (0 ∷ [])
  word :
      (k : Class) (rest p : List ℕ)
      → drop 6 (codes (name_of k) ++ (0 ∷ rest)) ≡ p
      → Chain p
      → Chain (codes (name_of k) ++ (0 ∷ rest))

round_sound :
    (s : List ℕ) (i : ℕ) (p' : List ℕ) (k : Class) (rest : List ℕ)
    → drop 6 (codes (name_of k) ++ (0 ∷ rest)) ≡ p'
    → same_string s (codes (name_of k) ++ (0 ∷ rest)) ≡ false
    → (fuel : ℕ) → (wctype_loop fuel s (i + 1) p' ≡ 0) ⊎ ((k : Class) × (s ≡ codes (name_of k)))
    → (wctype_loop (suc fuel) s i (codes (name_of k) ++ (0 ∷ rest)) ≡ 0)
      ⊎ ((k : Class) × (s ≡ codes (name_of k)))
unfolding wctype_loop
round_sound s i p' k rest e f fuel (inr found) = inr found
round_sound s i p' k rest e f fuel (inl z) = inl (rw (wctype_loop, f, e) (ground (arith, z)))

wctype_loop_sound :
    (fuel : ℕ) (s : List ℕ) (i : ℕ) (p : List ℕ)
    → Chain p
    → (wctype_loop fuel s i p ≡ 0) ⊎ ((k : Class) × (s ≡ codes (name_of k)))
unfolding wctype_loop
wctype_loop_sound zero s i p c = inl refl
wctype_loop_sound (suc fuel) s i p last = inl refl
wctype_loop_sound (suc fuel) s i p (word k rest p' e c) =
    elim (Bool-cases (same_string s (codes (name_of k) ++ (0 ∷ rest)))) [
      | inl t ↦ inr (k, same_string_sound s (codes (name_of k)) rest (name_nonzero k) t)
      | inr f ↦ round_sound s i p' k rest e f fuel (wctype_loop_sound fuel s (i + 1) p' c)
    ]

names-Chain : Chain names
unfolding names
names-Chain = word alnum_class _ _ refl (
    word alpha_class _ _ refl (
      word blank_class _ _ refl (
        word cntrl_class _ _ refl (
          word digit_class _ _ refl (
            word graph_class _ _ refl (
              word lower_class _ _ refl (
                word print_class _ _ refl (
                  word punct_class _ _ refl (
                    word space_class _ _ refl
                      (word upper_class _ _ refl (word xdigit_class _ _ refl (last))))))))))))

-- The number of a class, from 1 on.
index : Class → ℕ
index alnum_class = 0
index alpha_class = 1
index blank_class = 2
index cntrl_class = 3
index digit_class = 4
index graph_class = 5
index lower_class = 6
index print_class = 7
index punct_class = 8
index space_class = 9
index upper_class = 10
index xdigit_class = 11

number : Class → ℕ
number k = index k + 1

wctype-number : (k : Class) → wctype (codes (name_of k)) ≡ number k
unfolding wctype wctype_loop same_string names number index
wctype-number alnum_class = refl
wctype-number alpha_class = refl
wctype-number blank_class = refl
wctype-number cntrl_class = refl
wctype-number digit_class = refl
wctype-number graph_class = refl
wctype-number lower_class = refl
wctype-number print_class = refl
wctype-number punct_class = refl
wctype-number space_class = refl
wctype-number upper_class = refl
wctype-number xdigit_class = refl

iswctype-number :
    (isblank : ℕ → Bool) (wc : ℕ) (k : Class)
    → iswctype isblank wc (number k) ≡ test_of isblank k wc
unfolding iswctype iswblank number index
iswctype-number isblank wc alnum_class = refl
iswctype-number isblank wc alpha_class = refl
iswctype-number isblank wc blank_class = refl
iswctype-number isblank wc cntrl_class = refl
iswctype-number isblank wc digit_class = refl
iswctype-number isblank wc graph_class = refl
iswctype-number isblank wc lower_class = refl
iswctype-number isblank wc print_class = refl
iswctype-number isblank wc punct_class = refl
iswctype-number isblank wc space_class = refl
iswctype-number isblank wc upper_class = refl
iswctype-number isblank wc xdigit_class = refl

number-positive : (k : Class) → number k ≢ 0
unfolding number
number-positive k h = omega (arith, h)

-- For any name: if it is that of a class of the C standard, iswctype with the number that wctype gives
-- it is the test of that class; and if not, wctype gives 0.
pub iswctype-wctype :
    (isblank : ℕ → Bool) (wc : ℕ) (s : List ℕ)
    → ((k : Class) × (s ≡ codes (name_of k))
        × (iswctype isblank wc (wctype s) ≡ test_of isblank k wc))
      ⊎ (((k : Class) → s ≢ codes (name_of k)) × (wctype s ≡ 0))
unfolding wctype
iswctype-wctype isblank wc s = elim (wctype_loop_sound (length names) s 1 names names-Chain) [
  | inl z ↦ inr ((λ k e. number-positive k (sym (wctype-number k) ∙ ap wctype (sym e) ∙ z)), z)
  | inr (k, e) ↦ inl (
    k,
    e,
    ap (λ s. iswctype isblank wc (wctype s)) e
        ∙ ap (iswctype isblank wc) (wctype-number k)
        ∙ iswctype-number isblank wc k,
  )
]
