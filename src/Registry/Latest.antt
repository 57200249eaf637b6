-- ===== src/Registry/Latest.antt =====
-- What `latest` of cycletls/fingerprints.py picks.
use cycletls_python.Base.{
  ℕ, String, Bool, true, false, ◌&&◌, List, [], ◌∷◌, ◌++◌, Option, none, some, ◌≡◌, refl, sym, ap,
  ◌∙◌, arith, if◌then◌else◌, All, keep, Bool-cases, ◌⊎◌, inl, inr, subst,
}
use cycletls_python.Dict.{values}
use cycletls_python.Errors.{Error, Result, ok, IsErr}
use cycletls_python.Text.Pattern.{Digits}
use cycletls_python.Fingerprint.{TlsFingerprint}
use cycletls_python.Registry.{
  BrowserFamily, Platform, Profiles, in_family, on_platform, by_family, candidates, tuple_lt,
  version_of, greatest, max_or_raise, latest, no_profiles,
}

lt_trans : (a b c : List ℕ) → tuple_lt a b ≡ true → tuple_lt b c ≡ true → tuple_lt a c ≡ true
unfolding tuple_lt
lt_trans [] [] c p q = cc
lt_trans [] (y ∷ ys) [] p q = cc
lt_trans [] (y ∷ ys) (z ∷ zs) p q = refl
lt_trans (x ∷ xs) [] c p q = cc
lt_trans (x ∷ xs) (y ∷ ys) [] p q = cc
lt_trans (x ∷ xs) (y ∷ ys) (z ∷ zs) p q = ground (arith, lt_trans xs ys zs)

-- What is not above `b` is below all that is.
le_lt_trans : (a b c : List ℕ) → tuple_lt b a ≡ false → tuple_lt b c ≡ true → tuple_lt a c ≡ true
unfolding tuple_lt
le_lt_trans [] [] c p q = q
le_lt_trans [] (y ∷ ys) [] p q = cc
le_lt_trans [] (y ∷ ys) (z ∷ zs) p q = refl
le_lt_trans (x ∷ xs) [] c p q = cc
le_lt_trans (x ∷ xs) (y ∷ ys) [] p q = cc
le_lt_trans (x ∷ xs) (y ∷ ys) (z ∷ zs) p q = ground (arith, le_lt_trans xs ys zs)

head_eq {ℓ} : {A : Type ℓ} {x y : A} {xs ys : List A} → x ∷ xs ≡ y ∷ ys → x ≡ y
head_eq e = cc

tail_eq {ℓ} : {A : Type ℓ} {x y : A} {xs ys : List A} → x ∷ xs ≡ y ∷ ys → xs ≡ ys
tail_eq e = cc

module _ ⦃d : Digits⦄ where
  abbrev Below : TlsFingerprint → TlsFingerprint → Type 0
  Below g f = tuple_lt (version_of f) (version_of g) ≡ true

  abbrev NotAbove : TlsFingerprint → TlsFingerprint → Type 0
  NotAbove g f = tuple_lt (version_of g) (version_of f) ≡ false

  -- The first of the profiles with the greatest version: those before it have smaller ones, and
  -- those behind it none that is greater.
  abbrev pub IsGreatest : TlsFingerprint → List TlsFingerprint → Type 0
  IsGreatest g l =
      (front : List TlsFingerprint) × (back : List TlsFingerprint) × (l ≡ front ++ g ∷ back)
      × All (Below g) front
      × All (NotAbove g) back

  -- a smaller profile in front
  extend :
      (b f g : TlsFingerprint) (fs : List TlsFingerprint)
      → Below f b
      → IsGreatest g (f ∷ fs)
      → IsGreatest g (b ∷ f ∷ fs)
  extend b f g fs h ([], back, e, small, rest) =
      (b ∷ [], back, ap (λ l. b ∷ l) e, (subst (λ x. Below x b) (head_eq e) h, tt), rest)
  extend b f g fs h (x ∷ front, back, e, small, rest) = (
    b ∷ x ∷ front,
    back,
    ap (λ l. b ∷ l) e,
    (
      lt_trans (version_of b) (version_of x) (version_of g) (subst (λ y. Below y b) (head_eq e) h)
          small.0,
      small,
    ),
    rest,
  )

  -- a profile that is not above the one in front of it
  skip :
      (b f g : TlsFingerprint) (fs : List TlsFingerprint)
      → NotAbove b f
      → IsGreatest g (b ∷ fs)
      → IsGreatest g (b ∷ f ∷ fs)
  skip b f g fs h ([], back, e, small, rest) = (
    [],
    f ∷ back,
    ap (λ l. b ∷ f ∷ l) (tail_eq e) ∙ ap (λ x. x ∷ f ∷ back) (head_eq e),
    tt,
    (subst (λ x. NotAbove x f) (head_eq e) h, rest),
  )
  skip b f g fs h (x ∷ front, back, e, small, rest) = (
    b ∷ f ∷ front,
    back,
    ap (λ l. b ∷ f ∷ l) (tail_eq e),
    (
      subst (Below g) (sym (head_eq e)) small.0,
      (
        le_lt_trans (version_of f) (version_of b) (version_of g) h
            (subst (Below g) (sym (head_eq e)) small.0),
        small.1,
      ),
    ),
    rest,
  )

  greatest-IsGreatest :
      (b : TlsFingerprint) (fs : List TlsFingerprint) → IsGreatest (greatest b fs) (b ∷ fs)
  unfolding greatest
  greatest-IsGreatest b [] = ([], [], refl, tt, tt)
  greatest-IsGreatest b (f ∷ fs) = elim (Bool-cases (tuple_lt (version_of b) (version_of f))) [
    | inl up ↦ rw up (extend b f (greatest f fs) fs up (greatest-IsGreatest f fs))
    | inr down ↦ rw down (skip b f (greatest b fs) fs down (greatest-IsGreatest b fs))
  ]

-- What the two filters of a search ask of a profile.
abbrev pub wanted : Option BrowserFamily → Option Platform → TlsFingerprint → Bool
wanted none none f = true
wanted none (some platform) f = on_platform platform f
wanted (some family) none f = in_family family f
wanted (some family) (some platform) f = in_family family f && on_platform platform f

keep-keep {ℓ} :
    {A : Type ℓ} (p q : A → Bool) (l : List A) → keep q (keep p l) ≡ keep (λ x. p x && q x) l
keep-keep p q [] = refl
keep-keep p q (x ∷ l) = elim (Bool-cases (p x)) [
  | inl e ↦ rw e (ap (λ r. if q x then x ∷ r else r) (keep-keep p q l))
  | inr e ↦ rw e (keep-keep p q l)
]

keep-true {ℓ} : {A : Type ℓ} (l : List A) → keep (λ x. true) l ≡ l
keep-true [] = refl
keep-true (x ∷ l) = ap (λ r. x ∷ r) (keep-true l)

keep-All {ℓ} : {A : Type ℓ} (p : A → Bool) (l : List A) → All (λ x. p x ≡ true) (keep p l)
keep-All p [] = tt
keep-All p (x ∷ l) = elim (Bool-cases (p x)) [
  | inl e ↦ rw e (e, keep-All p l)
  | inr e ↦ rw e (keep-All p l)
]

candidates-wanted :
    (family : Option BrowserFamily) (platform : Option Platform) (d : Profiles)
    → candidates family platform d ≡ keep (wanted family platform) (values d)
unfolding candidates by_family
candidates-wanted none none d = sym (keep-true (values d))
candidates-wanted none (some platform) d = refl
candidates-wanted (some family) none d = refl
candidates-wanted (some family) (some platform) d =
    keep-keep (in_family family) (on_platform platform) (values d)

All-middle {ℓ κ} :
    {A : Type ℓ} (P : A → Type κ) (front : List A) (x : A) (back : List A)
    → All P (front ++ x ∷ back)
    → P x
All-middle P [] x back h = h.0
All-middle P (y ∷ front) x back h = All-middle P front x back h.1

module _ ⦃d : Digits⦄ where
  -- How a search among the profiles `found` ends.
  abbrev Outcome : (TlsFingerprint → Bool) → List TlsFingerprint → Result TlsFingerprint → Type 0
  Outcome p found r =
      ((found ≡ []) × IsErr r)
      ⊎ ((best : TlsFingerprint) × (r ≡ ok best) × (p best ≡ true) × IsGreatest best found)

  max_or_raise-Outcome :
      (e : Error) (p : TlsFingerprint → Bool) (l : List TlsFingerprint)
      → All (λ f. p f ≡ true) l
      → Outcome p l (max_or_raise e l)
  unfolding max_or_raise
  max_or_raise-Outcome e p [] h = inl (refl, (e, refl))
  max_or_raise-Outcome e p (f ∷ fs) h =
      let best = greatest-IsGreatest f fs in
      let (front, back, whole, _, _) = best in
      inr (
        greatest f fs,
        refl,
        All-middle (λ g. p g ≡ true) front (greatest f fs) back
            (subst (All (λ g. p g ≡ true)) whole h),
        best,
      )

-- `latest` gives the first of the profiles with the greatest version among those of the family and
-- the platform that are asked for, or raises when there is none.
pub latest_lem :
    ⦃d : Digits⦄ (list_repr : List String → String) (family : Option BrowserFamily)
    (platform : Option Platform) (profiles : Profiles)
    → let found = keep (wanted family platform) (values profiles) in
      ((found ≡ []) × IsErr (latest list_repr family platform profiles))
      ⊎ ((best : TlsFingerprint) × (latest list_repr family platform profiles ≡ ok best)
          × (wanted family platform best ≡ true)
          × IsGreatest best found)
unfolding latest
latest_lem list_repr family platform profiles =
    subst
      (λ l. Outcome (wanted family platform) l (
        max_or_raise (no_profiles list_repr family platform profiles)
          (candidates family platform profiles)))
      (candidates-wanted family platform profiles)
      (max_or_raise-Outcome (no_profiles list_repr family platform profiles)
        (wanted family platform) (candidates family platform profiles)
        (subst (All (λ f. wanted family platform f ≡ true))
          (sym (candidates-wanted family platform profiles))
          (keep-All (wanted family platform) (values profiles))))
