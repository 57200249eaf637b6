-- ===== src/Config/Validation.antt =====
-- What set_default lets into `_config`.
use cycletls_python.Base.{
  String, ◌≡◌, refl, true, none, some, [], ◌∷◌, arith, Bool-cases, inl, inr, eq_iff, ◌⊎◌, ◌≢◌,
}
use cycletls_python.Dict.{Dict, lookup, has, IsDict}
use cycletls_python.Dict.Laws.{lookup-set}
use cycletls_python.Errors.{Result, ok, err}
use cycletls_python.Exec.{Exec, and_then, and_then-eq-ok, modify}
use cycletls_python.Values.{Value}
use cycletls_python.Config.{
  Config, configurable, accepted, validate_config, set_one, set_each, set_default,
}
use cycletls_python.Config.Merge.{config_key, config_key_eq, over}
use cycletls_python.Config.Cache.{written}

-- Every stored default is a known option that its validator accepts.
abbrev pub IsAccepted : Config → Type 0
IsAccepted s =
    (name : String) (v : Value)
    → lookup name s.config ≡ some v
    → (configurable name ≡ true) × (accepted name v ≡ true)

-- Either the option is refused and nothing changes, or it is known, accepted and written.
set_one_cases :
    (key : String) (v : Value) (s : Config)
    → (((set_one key v s).0 ≢ ok tt) × ((set_one key v s).1 ≡ s))
      ⊎ ((configurable (config_key key) ≡ true)
          × (accepted (config_key key) v ≡ true)
          × (set_one key v s ≡ (ok tt, written key v s)))
unfolding set_one validate_config
set_one_cases key v s = elim (Bool-cases (configurable (config_key key))) [
  | inr c ↦ inl (rw c (λ e. cc), rw c)
  | inl c ↦ elim (Bool-cases (accepted (config_key key) v)) [
    | inr a ↦ inl (rw (c, a) (λ e. cc), rw (c, a))
    | inl a ↦ inr (c, a, rw (c, a))
  ]
]

written-IsAccepted :
    (key : String) (v : Value) (s : Config)
    → configurable (config_key key) ≡ true
    → accepted (config_key key) v ≡ true
    → IsAccepted s
    → IsAccepted (written key v s)
written-IsAccepted key v s c a h name w e =
    ground
      (arith, lookup-set (config_key key) name v s.config, eq_iff (config_key key) name, h name w)

set_one-IsAccepted :
    (key : String) (v : Value) (s : Config) → IsAccepted s → IsAccepted (set_one key v s).1
set_one-IsAccepted key v s h = elim (set_one_cases key v s) [
  | inl r ↦ rw r.1 h
  | inr r ↦ rw r.2 (written-IsAccepted key v s r.0 r.1 h)
]

-- A loop of set_each that keeps `P` in each round keeps it to its end, also when it raises.
set_each_induction :
    (P : Config → Type 0)
    → ((key : String) (v : Value) (s : Config) → P s → P (set_one key v s).1)
    → (kwargs : Dict Value) (s : Config) → P s
    → P (set_each kwargs s).1
unfolding set_each
set_each_induction P step [] s h = h
set_each_induction P step ((key, v) ∷ rest) s h =
    go (set_each_induction P step rest) (set_one key v s).0 (set_one key v s).1 (step key v s h)
  where
    go :
        ((t : Config) → P t → P (set_each rest t).1)
        → (r : Result (Unit {0})) (t : Config) → P t
        → P (and_then r (λ _. set_each rest) t).1
    go more (ok x) t k = more t k
    go more (err e) t k = k

-- set_default never stores an unknown option or a refused value, even in a call that raises.
pub set_default-IsAccepted :
    (kwargs : Dict Value) (s : Config) → IsAccepted s → IsAccepted (set_default kwargs s).1
unfolding set_default
set_default-IsAccepted kwargs s h =
    go (set_each kwargs s).0 (set_each kwargs s).1
      (set_each_induction IsAccepted set_one-IsAccepted kwargs s h)
  where
    go :
        (r : Result (Unit {0})) (t : Config)
        → IsAccepted t
        → IsAccepted (and_then r (λ _. modify (λ s. record s { merged_cache = none })) t).1
    go (ok x) t k = k
    go (err e) t k = k

-- After set_each has returned, each option has its new value, or the one from before.
pub lookup-set_each :
    (kwargs : Dict Value) (s : Config) (q : String)
    → IsDict kwargs
    → (set_each kwargs s).0 ≡ ok tt
    → (lookup (config_key q) (set_each kwargs s).1.config
        ≡ over (lookup q kwargs) (lookup (config_key q) s.config))
      × (has q kwargs ≡ true → configurable (config_key q) ≡ true)
unfolding set_each has
lookup-set_each [] s q i h = (refl, λ e. cc)
lookup-set_each ((key, v) ∷ rest) s q i h = elim (set_one_cases key v s) [
  | inl r ↦ absurd (r.0 (and_then-eq-ok (set_one key v s).0 _ (set_one key v s).1 h))
  | inr r ↦
      let (tail, known) = lookup-set_each rest (written key v s) q i.1 (rw r.2 at h) in
      rw r.2 (
        ground (
          arith,
          tail,
          i.0,
          eq_iff key q,
          config_key_eq key q,
          lookup-set (config_key key) (config_key q) v s.config,
        ),
        λ e. ground (arith, known, r.0, eq_iff key q),
      )
]

pub set_default-eq-ok :
    (options : Dict Value) (s : Config)
    → (set_default options s).0 ≡ ok tt
    → ((set_each options s).0 ≡ ok tt)
      × ((set_default options s).1.config ≡ (set_each options s).1.config)
unfolding set_default
set_default-eq-ok options s h = go (set_each options s).0 (set_each options s).1 h
  where
    clear : Exec Config (Unit {0})
    clear = modify (λ s. record s { merged_cache = none })

    go :
        (r : Result (Unit {0})) (t : Config)
        → (and_then r (λ _. clear) t).0 ≡ ok tt
        → (r ≡ ok tt) × ((and_then r (λ _. clear) t).1.config ≡ t.config)
    go (ok x) t e = (refl, refl)
    go (err x) t e = cc
