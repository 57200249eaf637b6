-- ===== src/Headers/Equality.antt =====
-- `==` of two CaseInsensitiveDicts, against their lookups; and `items()`.
use cycletls_python.Base.{
  String, Bool, ◌≡◌, refl, sym, ◌∙◌, true, Option, none, some, [], ◌∷◌, arith, eq_iff, ◌↔◌, inl,
  inr, Option-cases,
}
use cycletls_python.Dict.{Dict, lookup, IsDict}
use cycletls_python.Dict.Equality.{dict_eq_iff}
use cycletls_python.Text.{Casing, lower}
use cycletls_python.Headers.{CaseInsensitiveDict, get, lowered, lower_items, eq}
use cycletls_python.Headers.Laws.{Keyed, IsValid}

module _ {ℓ} {V : Type ℓ} where
  pair_value : Option (String × V) → Option V
  pair_value none = none
  pair_value (some e) = some e.1

  lookup-lowered :
      (k : String) (s : Dict (String × V)) → lookup k (lowered s) ≡ pair_value (lookup k s)
  unfolding lookup pair_value lowered
  lookup-lowered k [] = refl
  lookup-lowered k ((j, e) ∷ s) = ground (arith, lookup-lowered k s)

  lowered-IsDict : (s : Dict (String × V)) → IsDict s → IsDict (lowered s)
  unfolding lowered
  lowered-IsDict [] h = tt
  lowered-IsDict ((j, e) ∷ s) h =
      (unfold pair_value in (lookup-lowered j s ∙ rw h.0), lowered-IsDict s h.1)

module _ {ℓ} {V : Type ℓ} ⦃c : Casing⦄ where
  get-pair_value :
      (d : CaseInsensitiveDict V) (k : String) → get d k ≡ pair_value (lookup (lower k) d.store)
  unfolding get pair_value
  get-pair_value d k = ground arith

  -- A key that is not the lowered form of any text has no entry.
  Keyed-lower :
      (s : Dict (String × V))
      → Keyed s
      → (k : String) (e : String × V) → lookup k s ≡ some e
      → k ≡ lower e.0
  unfolding lookup
  Keyed-lower [] h k e p = cc
  Keyed-lower ((j, f) ∷ s) h k e p = ground (arith, eq_iff j k, Keyed-lower s h.1 k e)

  -- Lookups in any case show every entry of the store.
  shown :
      (a b : CaseInsensitiveDict V) (k : String) (e : String × V)
      → Keyed a.store
      → ((k : String) → get a k ≡ get b k)
      → lookup k a.store ≡ some e
      → pair_value (lookup k a.store) ≡ pair_value (lookup k b.store)
  shown a b k e i h p =
      rw (Keyed-lower a.store i k e p) (sym (get-pair_value a e.0) ∙ h e.0 ∙ get-pair_value b e.0)

  stores_agree :
      (a b : CaseInsensitiveDict V)
      → Keyed a.store
      → Keyed b.store
      → ((k : String) → get a k ≡ get b k)
      → (k : String) → pair_value (lookup k a.store) ≡ pair_value (lookup k b.store)
  stores_agree a b i j h k = elim (Option-cases (lookup k a.store)) [
    | inr (e, p) ↦ shown a b k e i h p
    | inl p ↦ elim (Option-cases (lookup k b.store)) [
      | inr (e, q) ↦ sym (shown b a k e j (λ m. sym (h m)) q)
      | inl q ↦ cc
    ]
  ]

module _ {ℓ} {V : Type ℓ} ⦃c : Casing⦄ (same : V → V → Bool)
    (same_iff : (x y : V) → (same x y ≡ true) ↔ (x ≡ y)) where
  -- `a == b` exactly when every key, in any case, has the same value in both or is in neither.
  pub eq_iff_get :
      (a b : CaseInsensitiveDict V)
      → IsValid a
      → IsValid b
      → (eq same a b ≡ true) ↔ ((k : String) → get a k ≡ get b k)
  unfolding eq lower_items
  eq_iff_get a b i j = (to, from)
    where
      agree :
          (eq same a b ≡ true)
          ↔ ((k : String) → lookup k (lowered a.store) ≡ lookup k (lowered b.store))
      agree =
          dict_eq_iff same same_iff (lowered a.store) (lowered b.store) (lowered-IsDict a.store i.0)
            (lowered-IsDict b.store j.0)

      to : eq same a b ≡ true → (k : String) → get a k ≡ get b k
      to h k =
          get-pair_value a k
          ∙ sym (lookup-lowered (lower k) a.store)
          ∙ agree.0 h (lower k)
          ∙ lookup-lowered (lower k) b.store
          ∙ sym (get-pair_value b k)

      from : ((k : String) → get a k ≡ get b k) → eq same a b ≡ true
      from h = agree.1 λ k.
          lookup-lowered k a.store ∙ stores_agree a b i.1 j.1 h k ∙ sym (lookup-lowered k b.store)
