-- ===== src/Base/Tests.antt =====
-- C's comparisons as Boolean tests on native numbers, and the conditional.
use Prim.Native.Nat.{ℕ, ◌≤◌, ◌<◌, compare, Ordering}
use mathlib.Core.Path.{◌≡◌, refl, ap, ◌∙◌, subst}
use mathlib.Core.Logic.{◌↔◌, ◌⊎◌, inl, inr}
use mathlib.Core.Bool.{Bool, true, false}
use mathlib.Core.Option.{Option, none, some, some-injective}
use native.Mathlib.Omega.{arith}

abbrev pub ltb : ℕ → ℕ → Bool
ltb a b = elim (compare a b) [ Ordering.lt ↦ true | _ ↦ false ]

abbrev pub leb : ℕ → ℕ → Bool
leb a b = elim (compare a b) [ Ordering.gt ↦ false | _ ↦ true ]

infix 50 ◌==◌
abbrev pub ◌==◌ : ℕ → ℕ → Bool
a == b = elim (compare a b) [ Ordering.eq ↦ true | _ ↦ false ]

infix 1 if◌then◌else◌
abbrev pub if◌then◌else◌ {ℓ} : {A : Type ℓ} → Bool → A → A → A
if true then x else y = x
if false then x else y = y

pub ltb→lt : (a b : ℕ) → ltb a b ≡ true → a < b
ltb→lt a b h = ground arith

pub lt→ltb : (a b : ℕ) → a < b → ltb a b ≡ true
lt→ltb a b h = ground arith

pub leb→le : (a b : ℕ) → leb a b ≡ true → a ≤ b
leb→le a b h = ground arith

pub ==_iff : (a b : ℕ) → ((a == b) ≡ true) ↔ (a ≡ b)
==_iff a b = ground arith

-- To split on a computed value and keep the equation.
pub Bool-cases : (b : Bool) → (b ≡ true) ⊎ (b ≡ false)
Bool-cases true = inl refl
Bool-cases false = inr refl

pub Option-cases {ℓ} : {A : Type ℓ} (o : Option A) → (o ≡ none) ⊎ ((a : A) × (o ≡ some a))
Option-cases none = inl refl
Option-cases (some a) = inr (a, refl)

-- A chain of steps that may fail.
infixl 5 ◌>>=◌
abbrev pub ◌>>=◌ {ℓ κ} : {A : Type ℓ} {B : Type κ} → Option A → (A → Option B) → Option B
none >>= f = none
some a >>= f = f a

-- The computation has a result.
abbrev pub Returns {ℓ} : {A : Type ℓ} → Option A → Type ℓ
Returns {A} o = (a : A) × (o ≡ some a)

pub bind-Returns {ℓ κ} :
    {A : Type ℓ} {B : Type κ} {o : Option A} {f : A → Option B}
    → Returns o
    → ((a : A) → Returns (f a))
    → Returns (o >>= f)
bind-Returns {f} (a, h) g = let (b, k) = g a in (b, ap (λ o. o >>= f) h ∙ k)

pub option-Returns {ℓ κ} :
    {A : Type ℓ} {B : Type κ} (o : Option A) {d : Option B} {f : A → Option B}
    → Returns d
    → ((a : A) → Returns (f a))
    → Returns (elim o [ none ↦ d | some a ↦ f a ])
option-Returns none d f = d
option-Returns (some a) d f = f a

pub if_Returns {ℓ} :
    {A : Type ℓ} (b : Bool) {x y : Option A} → Returns x → Returns y → Returns (if b then x else y)
if_Returns true x y = x
if_Returns false x y = y

-- Whatever the computation results in has the property.
abbrev pub Ensures {ℓ κ} : {A : Type ℓ} → (A → Type κ) → Option A → Type (ℓ ⊔ κ)
Ensures {A} P o = (a : A) → o ≡ some a → P a

pub bind-Ensures {ℓ κ μ} :
    {A : Type ℓ} {B : Type κ} {P : B → Type μ} (o : Option A) {f : A → Option B}
    → ((a : A) → o ≡ some a → Ensures P (f a))
    → Ensures P (o >>= f)
bind-Ensures none g b h = ground arith
bind-Ensures (some a) g b h = g a refl b h

pub option-Ensures {ℓ κ μ} :
    {A : Type ℓ} {B : Type κ} {P : B → Type μ} (o : Option A) {d : Option B} {f : A → Option B}
    → Ensures P d
    → ((a : A) → Ensures P (f a))
    → Ensures P (elim o [ none ↦ d | some a ↦ f a ])
option-Ensures none d f = d
option-Ensures (some a) d f = f a

pub if_Ensures {ℓ κ} :
    {A : Type ℓ} {P : A → Type κ} (b : Bool) {x y : Option A}
    → (b ≡ true → Ensures P x)
    → (b ≡ false → Ensures P y)
    → Ensures P (if b then x else y)
if_Ensures true x y = x refl
if_Ensures false x y = y refl

pub some-Ensures {ℓ κ} : {A : Type ℓ} (P : A → Type κ) {x : A} → P x → Ensures P (some x)
some-Ensures P {x} p y h = subst P (some-injective x y h) p
