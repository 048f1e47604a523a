-- ===== src/Cpu/CallLaws.antt =====
-- What callers of the public functions of cpu-features.c can rely on, in any order of the calls.
use android_vshell.Base.{some-injective, ℕ, ◌≤◌, ◌≡◌, refl, sym, ap, ◌∙◌, arith, true, some}
use android_vshell.Base.{
  ◌>>=◌, Ensures, bind-Ensures, option-Ensures, if_Ensures, some-Ensures, subst⁻¹, ◌⊎◌, inl, inr,
}
use android_vshell.Base.Int.{ℤ, pos, negsuc}
use android_vshell.Cpu.Files.{get_file_size, read_file, get_cpu_count}
use android_vshell.Cpu.Init.{family_of, System, Globals, initial}
use android_vshell.Cpu.Init.{
  android_cpu_init_family, android_cpu_init, target_features, at_least_one, probe, init_once,
}
use android_vshell.Cpu.Init.{
  android_get_cpu_family, android_get_cpu_features, android_get_cpu_count, android_get_cpu_id_arm,
}
use android_vshell.Cpu.Init.{init_dummy_once, valid_count, android_set_cpu, android_set_cpu_arm}

-- A count that a caller may divide by.
unfoldable pub IsPositive : ℤ → Type 0
IsPositive (pos n) = 1 ≤ n
IsPositive (negsuc n) = ⊥

-- Initialised, for this target.
pub record IsReady (sys : System) (g : Globals) : Type 0 where
  pub once : g.once ≡ true
  pub inited : g.inited ≡ true
  pub count : IsPositive g.count
  pub family : g.family ≡ family_of sys.target

-- One call of a public function. A getter that does not return makes no step.
pub data Step (sys : System) : Globals → Globals → Type 0 where
  get_family :
      {v : ℕ} {g g' : Globals} → android_get_cpu_family sys g ≡ some (v, g') → Step sys g g'
  get_features :
      {v : ℕ} {g g' : Globals} → android_get_cpu_features sys g ≡ some (v, g') → Step sys g g'
  get_count : {v : ℤ} {g g' : Globals} → android_get_cpu_count sys g ≡ some (v, g') → Step sys g g'
  get_id : {v : ℕ} {g g' : Globals} → android_get_cpu_id_arm sys g ≡ some (v, g') → Step sys g g'
  set : (n : ℤ) (f : ℕ) {g : Globals} → Step sys g (android_set_cpu sys n f g).1
  set_arm : (n : ℤ) (f i : ℕ) {g : Globals} → Step sys g (android_set_cpu_arm sys n f i g).1

-- Any number of calls.
pub data Steps (sys : System) (g : Globals) : Globals → Type 0 where
  none_yet : Steps sys g g
  more : {g' g'' : Globals} → Steps sys g g' → Step sys g' g'' → Steps sys g g''

-- What probing keeps.
record IsGrown (g g' : Globals) : Type 0 where
  pub once : g'.once ≡ g.once
  pub inited : g'.inited ≡ g.inited
  pub family : g'.family ≡ g.family
  pub count : IsPositive g.count → IsPositive g'.count

at_least_one-IsPositive : (n : ℕ) → IsPositive (pos (at_least_one n))
unfolding IsPositive at_least_one
at_least_one-IsPositive n = ground arith

valid_count-IsPositive : (n : ℤ) → IsPositive (valid_count n)
unfolding valid_count at_least_one
valid_count-IsPositive (pos n) = at_least_one-IsPositive n
valid_count-IsPositive (negsuc n) = at_least_one-IsPositive 1

IsGrown-same : (g : Globals) → Ensures (IsGrown g) (some g)
IsGrown-same g =
    some-Ensures (IsGrown g) (record { once = refl; inited = refl; family = refl; count = λ p. p })

probe-IsGrown : (sys : System) (g : Globals) → Ensures (IsGrown g) (probe sys g)
unfolding probe
probe-IsGrown sys g = option-Ensures (get_file_size sys.cpuinfo_size) (IsGrown-same g) λ size.
    if_Ensures sys.malloc_succeeds
      (λ allocated. option-Ensures (read_file sys.cpuinfo size) (IsGrown-same g) λ cpuinfo.
        bind-Ensures (get_cpu_count sys.present sys.possible) λ count counted.
          bind-Ensures (target_features sys.target sys cpuinfo g) λ f found.
            some-Ensures (IsGrown g) (record {
              once = refl;
              inited = refl;
              family = refl;
              count = λ p. at_least_one-IsPositive count;
            }))
      (λ failed. IsGrown-same g)

init_once-first : (sys : System) → Ensures (IsReady sys) (init_once sys initial)
unfolding init_once initial android_cpu_init android_cpu_init_family IsPositive
init_once-first sys g h =
    let grown = probe-IsGrown sys _ g h in
    record {
      once = grown.once;
      inited = grown.inited;
      count = grown.count (omega arith);
      family = grown.family;
    }

init_once-later : (sys : System) (g : Globals) → g.once ≡ true → init_once sys g ≡ some g
unfolding init_once
init_once-later sys g h = rw h refl

init_once-IsReady :
    (sys : System) (g : Globals)
    → (g ≡ initial) ⊎ IsReady sys g
    → Ensures (IsReady sys) (init_once sys g)
init_once-IsReady sys g (inl fresh) =
    subst⁻¹ (λ g. Ensures (IsReady sys) (init_once sys g)) fresh (init_once-first sys)
init_once-IsReady sys g (inr ready) =
    subst⁻¹ (Ensures (IsReady sys)) (init_once-later sys g ready.once)
      (some-Ensures (IsReady sys) ready)

set_cpu-later :
    (sys : System) (n : ℤ) (f : ℕ) (g : Globals)
    → g.inited ≡ true
    → android_set_cpu sys n f g ≡ (0, g)
unfolding android_set_cpu
set_cpu-later sys n f g h = rw h refl

set_cpu_arm-later :
    (sys : System) (n : ℤ) (f i : ℕ) (g : Globals)
    → g.inited ≡ true
    → android_set_cpu_arm sys n f i g ≡ (0, g)
unfolding android_set_cpu_arm
set_cpu_arm-later sys n f i g h = rw (set_cpu-later sys n f g h) refl

set_cpu-first : (sys : System) (n : ℤ) (f : ℕ) → IsReady sys (android_set_cpu sys n f initial).1
unfolding android_set_cpu initial init_dummy_once android_cpu_init_family
set_cpu-first sys n f = record {
  once = refl;
  inited = refl;
  count = valid_count-IsPositive n;
  family = refl;
}

set_cpu-values :
    (sys : System) (n : ℤ) (f : ℕ)
    → ((android_set_cpu sys n f initial).1.features ≡ f)
      × ((android_set_cpu sys n f initial).1.count ≡ valid_count n)
unfolding android_set_cpu initial init_dummy_once android_cpu_init_family
set_cpu-values sys n f = (refl, refl)

set_cpu_arm-first :
    (sys : System) (n : ℤ) (f i : ℕ) → IsReady sys (android_set_cpu_arm sys n f i initial).1
unfolding android_set_cpu_arm android_set_cpu initial init_dummy_once android_cpu_init_family
set_cpu_arm-first sys n f i = record {
  once = refl;
  inited = refl;
  count = valid_count-IsPositive n;
  family = refl;
}

set_cpu-IsReady :
    (sys : System) (n : ℤ) (f : ℕ) (g : Globals)
    → (g ≡ initial) ⊎ IsReady sys g
    → IsReady sys (android_set_cpu sys n f g).1
set_cpu-IsReady sys n f g (inl fresh) =
    subst⁻¹ (λ g. IsReady sys (android_set_cpu sys n f g).1) fresh (set_cpu-first sys n f)
set_cpu-IsReady sys n f g (inr ready) =
    subst⁻¹ (λ r. IsReady sys r.1) (set_cpu-later sys n f g ready.inited) ready

set_cpu_arm-IsReady :
    (sys : System) (n : ℤ) (f i : ℕ) (g : Globals)
    → (g ≡ initial) ⊎ IsReady sys g
    → IsReady sys (android_set_cpu_arm sys n f i g).1
set_cpu_arm-IsReady sys n f i g (inl fresh) =
    subst⁻¹ (λ g. IsReady sys (android_set_cpu_arm sys n f i g).1) fresh
      (set_cpu_arm-first sys n f i)
set_cpu_arm-IsReady sys n f i g (inr ready) =
    subst⁻¹ (λ r. IsReady sys r.1) (set_cpu_arm-later sys n f i g ready.inited) ready

-- A getter leaves behind what `init_once` does, and gives a field of it.
getter-IsReady :
    {A : Type 0} (sys : System) (g : Globals) (field : Globals → A)
    → (g ≡ initial) ⊎ IsReady sys g
    → Ensures
        (λ r. IsReady sys r.1 × (r.0 ≡ field r.1))
        (◌>>=◌ {B = A × Globals} (init_once sys g) (λ r. some (field r, r)))
getter-IsReady {A} sys g field start = bind-Ensures (init_once sys g) (λ r h.
    some-Ensures (λ r. IsReady sys r.1 × (r.0 ≡ field r.1))
      (init_once-IsReady sys g start r h, refl))

-- A call of a public function on untouched globals, or on ready ones, leaves them ready.
step-IsReady :
    {sys : System} {g g' : Globals} → (g ≡ initial) ⊎ IsReady sys g → Step sys g g' → IsReady sys g'
unfolding android_get_cpu_family android_get_cpu_features android_get_cpu_count
    android_get_cpu_id_arm
step-IsReady {sys} {g} start (get_family h) = (getter-IsReady sys g Globals.family start _ h).0
step-IsReady {sys} {g} start (get_features h) = (getter-IsReady sys g Globals.features start _ h).0
step-IsReady {sys} {g} start (get_count h) = (getter-IsReady sys g Globals.count start _ h).0
step-IsReady {sys} {g} start (get_id h) = (getter-IsReady sys g Globals.cpu_id start _ h).0
step-IsReady {sys} {g} start (set n f) = set_cpu-IsReady sys n f g start
step-IsReady {sys} {g} start (set_arm n f i) = set_cpu_arm-IsReady sys n f i g start

-- After any calls of the public functions, in any order, the globals are either those of the start
-- of the process or ready: both flags are set, the count is positive and the family is the target's.
pub Steps-IsReady :
    {sys : System} {g : Globals} → Steps sys initial g → (g ≡ initial) ⊎ IsReady sys g
Steps-IsReady none_yet = inl refl
Steps-IsReady (more before step) = inr (step-IsReady (Steps-IsReady before) step)

getter-later :
    {A : Type 0} (sys : System) (g : Globals) (field : Globals → A)
    → g.once ≡ true
    → ◌>>=◌ {B = A × Globals} (init_once sys g) (λ r. some (field r, r)) ≡ some (field g, g)
getter-later {A} sys g field h =
    ap (λ o. ◌>>=◌ {B = A × Globals} o (λ r. some (field r, r))) (init_once-later sys g h)

step-frozen : {sys : System} {g g' : Globals} → IsReady sys g → Step sys g g' → g' ≡ g
unfolding android_get_cpu_family android_get_cpu_features android_get_cpu_count
    android_get_cpu_id_arm
step-frozen {sys} {g} r (get_family h) =
    ap (λ p. p.1) (some-injective _ _ (sym h ∙ getter-later sys g Globals.family r.once))
step-frozen {sys} {g} r (get_features h) =
    ap (λ p. p.1) (some-injective _ _ (sym h ∙ getter-later sys g Globals.features r.once))
step-frozen {sys} {g} r (get_count h) =
    ap (λ p. p.1) (some-injective _ _ (sym h ∙ getter-later sys g Globals.count r.once))
step-frozen {sys} {g} r (get_id h) =
    ap (λ p. p.1) (some-injective _ _ (sym h ∙ getter-later sys g Globals.cpu_id r.once))
step-frozen {sys} {g} r (set n f) = ap (λ p. p.1) (set_cpu-later sys n f g r.inited)
step-frozen {sys} {g} r (set_arm n f i) = ap (λ p. p.1) (set_cpu_arm-later sys n f i g r.inited)

-- No call of a public function changes globals that are ready.
Steps-frozen : {sys : System} {g g' : Globals} → IsReady sys g → Steps sys g g' → g' ≡ g
Steps-frozen r none_yet = refl
Steps-frozen r (more {g'} before step) =
    let same = Steps-frozen r before in step-frozen (subst⁻¹ (IsReady _) same r) step ∙ same

-- The features that one call returned are returned by every later call, whatever calls lie between.
pub android_get_cpu_features-stable :
    {sys : System} {g g₁ g₂ : Globals} {v : ℕ}
    → Steps sys initial g
    → android_get_cpu_features sys g ≡ some (v, g₁)
    → Steps sys g₁ g₂
    → android_get_cpu_features sys g₂ ≡ some (v, g₂)
unfolding android_get_cpu_features
android_get_cpu_features-stable {sys} {g} {g₁} {g₂} before call after =
    let (ready, value) = getter-IsReady sys g Globals.features (Steps-IsReady before) _ call in
    let same = Steps-frozen ready after in
    rw (same, value) (getter-later sys g₁ Globals.features ready.once)

-- After `android_set_cpu` as the first call, and any later calls, the getters return the given
-- features, the given count or else 1, and the target's family, and setting again is refused.
pub android_set_cpu-first :
    (sys : System) (n m : ℤ) (f h : ℕ) {g : Globals}
    → Steps sys (android_set_cpu sys n f initial).1 g
    → (android_get_cpu_features sys g ≡ some (f, g))
      × (android_get_cpu_count sys g ≡ some (valid_count n, g))
      × (android_get_cpu_family sys g ≡ some (family_of sys.target, g))
      × (android_set_cpu sys m h g ≡ (0, g))
unfolding android_get_cpu_family android_get_cpu_features android_get_cpu_count
android_set_cpu-first sys n m f h after =
    let globals = (android_set_cpu sys n f initial).1 in
    let ready = set_cpu-first sys n f in
    let same = Steps-frozen ready after in
    let value = set_cpu-values sys n f in
    subst⁻¹ (Answers sys n m f h) same (
      getter-later sys globals Globals.features ready.once ∙ ap (λ v. some (v, globals)) value.0,
      getter-later sys globals Globals.count ready.once ∙ ap (λ v. some (v, globals)) value.1,
      getter-later sys globals Globals.family ready.once ∙ ap (λ v. some (v, globals)) ready.family,
      set_cpu-later sys m h globals ready.inited,
    )
  where
    Answers : System → ℤ → ℤ → ℕ → ℕ → Globals → Type 0
    Answers sys n m f h g =
        (android_get_cpu_features sys g ≡ some (f, g))
        × (android_get_cpu_count sys g ≡ some (valid_count n, g))
        × (android_get_cpu_family sys g ≡ some (family_of sys.target, g))
        × (android_set_cpu sys m h g ≡ (0, g))
