-- ===== src/Exec.antt =====
-- Methods that change an object and may raise. What was written before a raise stays written, so
-- the object comes back beside the error too.
use cycletls_python.Base.{◌≡◌, refl, ap, Bool, true, false, Option, none, some, if◌then◌else◌}
use cycletls_python.Errors.{Error, Result, ok, err}

abbrev pub Exec {ℓ κ} : Type ℓ → Type κ → Type (ℓ ⊔ κ)
Exec S A = S → Result A × S

module _ {ℓ κ} {S : Type ℓ} {A : Type κ} where
  abbrev pub pure : A → Exec S A
  pure a s = (ok a, s)

  abbrev pub raise : Error → Exec S A
  raise e s = (err e, s)

  abbrev pub lift : Result A → Exec S A
  lift r s = (r, s)

  abbrev pub gets : (S → A) → Exec S A
  gets f s = (ok (f s), s)

module _ {ℓ} {S : Type ℓ} where
  abbrev pub modify : (S → S) → Exec S (Unit {0})
  modify f s = (ok tt, f s)

  -- if test: raise e
  abbrev pub guard : Bool → Error → Exec S (Unit {0})
  guard true e s = (err e, s)
  guard false e s = (ok tt, s)

module _ {ℓ κ μ} {S : Type ℓ} {A : Type κ} {B : Type μ} where
  abbrev pub and_then : Result A → (A → Exec S B) → Exec S B
  and_then (ok a) f s = f a s
  and_then (err e) f s = (err e, s)

  infixl 5 ◌>>=◌
  abbrev pub ◌>>=◌ : Exec S A → (A → Exec S B) → Exec S B
  ◌>>=◌ m f s = and_then (m s).0 f (m s).1

module _ {ℓ μ} {S : Type ℓ} {B : Type μ} where
  infixl 5 ◌>>◌
  abbrev pub ◌>>◌ : Exec S (Unit {0}) → Exec S B → Exec S B
  m >> k = m >>= λ _. k

-- A block that returned has gone through its first action.
pub and_then-eq-ok {ℓ} :
    {S B : Type ℓ} (r : Result (Unit {0})) (f : Unit {0} → Exec S B) (s : S) {b : B}
    → (and_then r f s).0 ≡ ok b
    → r ≡ ok tt
and_then-eq-ok (ok x) f s h = refl
and_then-eq-ok (err e) f s h = cc

-- `x` if there is nothing, else what comes of the value.
abbrev pub on {ℓ κ} : {A : Type ℓ} {B : Type κ} → Option A → B → (A → B) → B
on none x f = x
on (some a) x f = f a

-- What holds of both branches of a test holds of the test; likewise for `on`.
pub if_case {ℓ μ} :
    {A : Type ℓ} (Q : A → Type μ) (b : Bool) (x y : A) → Q x → Q y → Q (if b then x else y)
if_case Q true x y p q = p
if_case Q false x y p q = q

pub on_case {ℓ κ μ} :
    {A : Type ℓ} {B : Type κ} (Q : B → Type μ) (o : Option A) (x : B) (f : A → B)
    → Q x
    → ((a : A) → o ≡ some a → Q (f a))
    → Q (on o x f)
on_case Q none x f p q = p
on_case Q (some a) x f p q = q a refl

-- The same for what holds of the object that a call leaves.
pub if_keeps {ℓ κ μ} :
    {S : Type ℓ} {A : Type κ} (P : S → Type μ) (b : Bool) (x y : Result A × S)
    → P x.1
    → P y.1
    → P (if b then x else y).1
if_keeps P b x y p q = if_case (λ r. P r.1) b x y p q

pub on_keeps {ℓ κ μ ν} :
    {S : Type ℓ} {A : Type κ} {B : Type ν} (P : S → Type μ) (o : Option B) (x : Result A × S)
    (f : B → Result A × S)
    → P x.1
    → ((b : B) → o ≡ some b → P (f b).1)
    → P (on o x f).1
on_keeps P o x f p q = on_case (λ r. P r.1) o x f p q

pub on_some {ℓ κ} :
    {A : Type ℓ} {B : Type κ} (o : Option A) (x : B) (f : A → B) {a : A}
    → o ≡ some a
    → on o x f ≡ f a
on_some none x f e = cc
on_some (some b) x f e = ap (λ o. on o x f) e

-- A value that is computed from a result leaves the object alone.
pub lifts_keep {ℓ κ μ ν} :
    {S : Type ℓ} {A : Type κ} {B : Type μ} (P : S → Type ν) (r : Result A) (g : A → Result B)
    (s : S)
    → P s
    → P (and_then r (λ a. lift (g a)) s).1
lifts_keep P (ok a) g s p = p
lifts_keep P (err e) g s p = p

pub bind_keeps {ℓ κ μ ν} :
    {S : Type ℓ} {A : Type κ} {B : Type μ} (P : S → Type ν) (m : Exec S A) (f : A → Exec S B)
    (s : S)
    → P (m s).1
    → ((a : A) (t : S) → P t → P (f a t).1)
    → P ((m >>= f) s).1
bind_keeps P m f s p q = go (m s).0 (m s).1 p
  where
    go : (r : Result _) (t : _) → P t → P (and_then r f t).1
    go (ok a) t p = q a t p
    go (err e) t p = p

pub guard_keeps {ℓ μ ν} :
    {S : Type ℓ} {B : Type μ} (P : S → Type ν) (b : Bool) (e : Error) (m : Exec S B) (s : S)
    → P s
    → P (m s).1
    → P ((guard b e >> m) s).1
guard_keeps P true e m s p q = p
guard_keeps P false e m s p q = q
