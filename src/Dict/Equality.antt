-- ===== src/Dict/Equality.antt =====
-- Python's `==` of dicts decides whether they hold the same value under every key.
use cycletls_python.Base.{
  suc, ◌≤◌, String, Bool, ◌≡◌, refl, sym, ap, true, Option, none, some, [], ◌∷◌, arith, ◌==◌,
  eq_iff, eq_refl, if◌then◌else◌, length, all, ◌↔◌, ◌∙◌, eqb, eqb→eq, eq→eqb, and_parts, and_true,
  inl, inr, Option-cases,
}
use cycletls_python.Dict.{Dict, lookup, remove, IsDict, dict_eq, agrees}
use cycletls_python.Dict.Laws.{lookup-remove, remove-IsDict}

module _ {ℓ} {V : Type ℓ} where
  -- Every entry of `a` is in `b`.
  abbrev pub Sub : Dict V → Dict V → Type ℓ
  Sub a b = (k : String) (v : V) → lookup k a ≡ some v → lookup k b ≡ some v

  length-remove-none :
      (k : String) (d : Dict V) → lookup k d ≡ none → length (remove k d) ≡ length d
  unfolding lookup remove
  length-remove-none k [] h = refl
  length-remove-none k ((j, w) ∷ d) h = ground (arith, length-remove-none k d)

  length-remove :
      (k : String) (v : V) (d : Dict V)
      → IsDict d
      → lookup k d ≡ some v
      → suc (length (remove k d)) ≡ length d
  unfolding lookup remove
  length-remove k v [] i h = cc
  length-remove k v ((j, w) ∷ d) i h =
      ground (arith, eq_iff j k, length-remove k v d i.1, length-remove-none k d, i.0)

  Sub-tail :
      (k : String) (v : V) (a b : Dict V)
      → IsDict ((k, v) ∷ a)
      → Sub ((k, v) ∷ a) b
      → Sub a (remove k b)
  unfolding lookup
  Sub-tail k v a b i h j w e = ground (arith, eq_iff k j, lookup-remove k j b, h j w, i.0)

  lookup-cons :
      (k j : String) (v : V) (d : Dict V)
      → lookup j ((k, v) ∷ d) ≡ (if k == j then some v else lookup j d)
  unfolding lookup
  lookup-cons k j v d = refl

  lookup-cons_self : (k : String) (v : V) (d : Dict V) → lookup k ((k, v) ∷ d) ≡ some v
  lookup-cons_self k v d = simp (lookup-cons, eq_refl)

  Sub-rest :
      (k : String) (v : V) (a b : Dict V) → IsDict ((k, v) ∷ a) → Sub ((k, v) ∷ a) b → Sub a b
  Sub-rest k v a b i h j w e = ground (arith, eq_iff k j, lookup-cons k j v a, h j w, i.0)

  -- Distinct keys: as many entries and one inclusion give the other.
  pub Sub-flip : (a b : Dict V) → IsDict a → IsDict b → length a ≡ length b → Sub a b → Sub b a
  Sub-flip [] [] i j n h k w e = e
  Sub-flip [] (x ∷ b) i j n h k w e = absurd (omega arith)
  Sub-flip ((k, v) ∷ a) b i j n h m w e =
      let here = h k v (lookup-cons_self k v a) in
      let shorter : length a ≡ length (remove k b) = omega (arith, length-remove k v b j here) in
      let back =
        Sub-flip a (remove k b) i.1 (remove-IsDict k b j) shorter (Sub-tail k v a b i h) m w in
      ground (arith, lookup-cons k m v a, here, eq_iff k m, lookup-remove k m b, back)

  -- Two dicts with the same entries have the same lookups.
  Sub-eq : (a b : Dict V) → Sub a b → Sub b a → (k : String) → lookup k a ≡ lookup k b
  Sub-eq a b h g k = elim (Option-cases (lookup k a)) [
    | inr (v, e) ↦ e ∙ sym (h k v e)
    | inl e ↦ elim (Option-cases (lookup k b)) [ inl e' ↦ e ∙ sym e' | inr (v, e') ↦ cc (g k v e') ]
  ]

  length-le : (a b : Dict V) → IsDict a → IsDict b → Sub a b → length a ≤ length b
  length-le [] b i j h = omega arith
  length-le ((k, v) ∷ a) b i j h = omega (
    arith,
    length-remove k v b j (h k v (lookup-cons_self k v a)),
    length-le a (remove k b) i.1 (remove-IsDict k b j) (Sub-tail k v a b i h),
  )

module _ {ℓ} {V : Type ℓ} (same : V → V → Bool)
    (same_iff : (x y : V) → (same x y ≡ true) ↔ (x ≡ y)) where
  agrees→eq : (o : Option V) (v : V) → agrees same o v ≡ true → o ≡ some v
  agrees→eq none v h = cc
  agrees→eq (some w) v h = ap some (sym ((same_iff v w).0 h))

  all→Sub : (a b : Dict V) → all (λ e. agrees same (lookup e.0 b) e.1) a ≡ true → Sub a b
  unfolding lookup
  all→Sub [] b h k v e = cc
  all→Sub ((j, w) ∷ a) b h k v e =
      let (here, rest) = and_parts (agrees same (lookup j b) w) _ h in
      let back = agrees→eq (lookup j b) w here in
      ground (arith, eq_iff j k, back, lookup-cons j k w a, all→Sub a b rest k v)

  Sub→all : (a b : Dict V) → IsDict a → Sub a b → all (λ e. agrees same (lookup e.0 b) e.1) a ≡ true
  Sub→all [] b i h = refl
  Sub→all ((k, v) ∷ a) b i h =
      rw (h k v (lookup-cons_self k v a), (same_iff v v).1 refl)
        (Sub→all a b i.1 (Sub-rest k v a b i h))

  -- `a == b` exactly when every key has the same value in both, or is missing from both.
  pub dict_eq_iff :
      (a b : Dict V)
      → IsDict a
      → IsDict b
      → (dict_eq same a b ≡ true) ↔ ((k : String) → lookup k a ≡ lookup k b)
  unfolding dict_eq
  dict_eq_iff a b i j = (to, from)
    where
      to : dict_eq same a b ≡ true → (k : String) → lookup k a ≡ lookup k b
      to h =
          let (n, held) = and_parts (eqb (length a) (length b)) _ h in
          let sub = all→Sub a b held in
          Sub-eq a b sub (Sub-flip a b i j (eqb→eq (length a) (length b) n) sub)

      from : ((k : String) → lookup k a ≡ lookup k b) → dict_eq same a b ≡ true
      from h =
          let sub : Sub a b = λ k v e. sym (h k) ∙ e in
          let sup : Sub b a = λ k v e. h k ∙ e in
          let n : length a ≡ length b =
            omega (arith, length-le a b i j sub, length-le b a j i sup) in
          and_true (eqb (length a) (length b)) _ (eq→eqb _ _ n) (Sub→all a b i sub)
