-- ===== src/Dict/Laws.antt =====
-- What a lookup gives after each operation of a dict.
use cycletls_python.Base.{
  String, ◌≡◌, refl, true, false, Option, none, some, List, [], ◌∷◌, arith, ◌==◌, eq_iff, eq_refl,
  if◌then◌else◌, is_some,
}
use cycletls_python.Dict.{Dict, lookup, set, remove, has, update, of_pairs, IsDict}

module _ {ℓ} {V : Type ℓ} where
  pub lookup-set :
      (k j : String) (v : V) (d : Dict V)
      → lookup j (set k v d) ≡ (if k == j then some v else lookup j d)
  unfolding lookup set
  lookup-set k j v [] = refl
  lookup-set k j v ((i, w) ∷ d) =
      ground (arith, eq_iff k j, eq_iff i k, eq_iff i j, lookup-set k j v d)

  pub lookup-set_self : (k : String) (v : V) (d : Dict V) → lookup k (set k v d) ≡ some v
  lookup-set_self k v d = simp (lookup-set, eq_refl)

  pub lookup-remove :
      (k j : String) (d : Dict V) → lookup j (remove k d) ≡ (if k == j then none else lookup j d)
  unfolding lookup remove
  lookup-remove k j [] = ground arith
  lookup-remove k j ((i, w) ∷ d) =
      ground (arith, eq_iff k j, eq_iff i k, eq_iff i j, lookup-remove k j d)

  pub has-set :
      (k j : String) (v : V) (d : Dict V) → has j (set k v d) ≡ (if k == j then true else has j d)
  unfolding has
  has-set k j v d = ground (arith, lookup-set k j v d)

  pub lookup-nil : (k : String) → lookup {V = V} k [] ≡ none
  unfolding lookup
  lookup-nil k = refl

  pub set-IsDict : (k : String) (v : V) (d : Dict V) → IsDict d → IsDict (set k v d)
  unfolding set
  set-IsDict k v [] h = (lookup-nil k, tt)
  set-IsDict k v ((i, w) ∷ d) h =
      ground (arith, lookup-set k i v d, eq_iff k i, eq_iff i k, set-IsDict k v d h.1)

  pub remove-IsDict : (k : String) (d : Dict V) → IsDict d → IsDict (remove k d)
  unfolding remove
  remove-IsDict k [] h = tt
  remove-IsDict k ((i, w) ∷ d) h = ground (arith, lookup-remove k i d, remove-IsDict k d h.1)

  pub update-IsDict : (d : Dict V) (ps : List (String × V)) → IsDict d → IsDict (update d ps)
  unfolding update
  update-IsDict d [] h = h
  update-IsDict d ((k, v) ∷ ps) h = update-IsDict (set k v d) ps (set-IsDict k v d h)

  pub of_pairs-IsDict : (ps : List (String × V)) → IsDict (of_pairs ps)
  unfolding of_pairs
  of_pairs-IsDict ps = update-IsDict [] ps tt

  -- The last pair with a key decides.
  pub lookup-update :
      (k : String) (d e : Dict V)
      → IsDict e
      → lookup k (update d e) ≡ (if has k e then lookup k e else lookup k d)
  unfolding update has lookup
  lookup-update k d [] h = refl
  lookup-update k d ((j, v) ∷ e) h =
      ground (arith, lookup-update k (set j v d) e h.1, lookup-set j k v d, eq_iff j k, h.0)

pub ruleset dict_laws = (lookup-set, lookup-remove, eq_refl)
