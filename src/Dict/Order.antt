-- ===== src/Dict/Order.antt =====
-- The order of a dict's entries.
use cycletls_python.Base.{String, ◌≡◌, refl, none, some, [], ◌∷◌, ◌++◌, arith, eq_iff}
use cycletls_python.Dict.{Dict, lookup, set, IsDict}

module _ {ℓ} {V : Type ℓ} where
  -- A new key goes to the end.
  pub set_new : (k : String) (v : V) (d : Dict V) → lookup k d ≡ none → set k v d ≡ d ++ (k, v) ∷ []
  unfolding lookup set
  set_new k v [] h = refl
  set_new k v ((j, w) ∷ d) h = ground (arith, set_new k v d)

  lookup-append :
      (k : String) (d e : Dict V)
      → lookup k (d ++ e) ≡ elim (lookup k d) [ none ↦ lookup k e | some v ↦ some v ]
  unfolding lookup
  lookup-append k [] e = refl
  lookup-append k ((j, v) ∷ d) e = ground (arith, lookup-append k d e)

  -- In a dict, a key does not stand before its own entry.
  pub lookup-before :
      (d : Dict V) (k : String) (v : V) (e : Dict V) → IsDict (d ++ (k, v) ∷ e) → lookup k d ≡ none
  unfolding lookup
  lookup-before [] k v e h = refl
  lookup-before ((j, w) ∷ d) k v e h = ground (
    arith,
    eq_iff k j,
    eq_iff j k,
    lookup-append j d ((k, v) ∷ e),
    lookup-before d k v e h.1,
    h.0,
  )
