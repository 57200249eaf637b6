-- ===== src/Headers.antt =====
-- `CaseInsensitiveDict` of cycletls/structures.py.
pub mod Laws
pub mod Equality
pub mod Tests
use cycletls_python.Base.{
  ℕ, String, Bool, Option, none, some, List, [], ◌∷◌, map, ◌&&◌, ◌==◌, all, length, is_some, eqb,
}
use cycletls_python.Dict.{Dict, lookup, set, remove, values, dict_eq}
use cycletls_python.Dict
use cycletls_python.Errors.{Error, error, key_error, Result, ok, err}
use cycletls_python.Text.{Casing, lower}

-- `_store`: the lowercased key, with the key as it was last set and its value.
pub record CaseInsensitiveDict {ℓ} (V : Type ℓ) : Type ℓ where
  pub store : Dict (String × V)

module _ {ℓ} {V : Type ℓ} where
  -- __iter__: the keys as they were last set
  unfoldable pub iter : CaseInsensitiveDict V → List String
  iter d = map (λ e. e.0) (values d.store)

module _ {ℓ} {V : Type ℓ} ⦃c : Casing⦄ where
  -- __setitem__
  unfoldable pub set_item : String → V → CaseInsensitiveDict V → CaseInsensitiveDict V
  set_item key v d = record { store = set (lower key) (key, v) d.store }

  -- __getitem__
  unfoldable pub get_item : CaseInsensitiveDict V → String → Result V
  get_item d key = elim (lookup (lower key) d.store) [
    | none ↦ err (error key_error (lower key))
    | some e ↦ ok e.1
  ]

  -- Mapping.get(key), None as the default
  unfoldable pub get : CaseInsensitiveDict V → String → Option V
  unfolding get_item
  get d key = elim (get_item d key) [ ok v ↦ some v | err e ↦ none ]

  -- Mapping.__contains__
  unfoldable pub contains : CaseInsensitiveDict V → String → Bool
  unfolding get
  contains d key = is_some (get d key)

  -- __delitem__
  unfoldable pub del_item : CaseInsensitiveDict V → String → Result (CaseInsensitiveDict V)
  del_item d key = elim (lookup (lower key) d.store) [
    | none ↦ err (error key_error (lower key))
    | some e ↦ ok (record { store = remove (lower key) d.store })
  ]

  -- MutableMapping.update(pairs)
  unfoldable pub update : CaseInsensitiveDict V → List (String × V) → CaseInsensitiveDict V
  unfolding set_item
  update d [] = d
  update d ((k, v) ∷ rest) = update (set_item k v d) rest

  -- __init__(pairs)
  unfoldable pub of_pairs : List (String × V) → CaseInsensitiveDict V
  unfolding update
  of_pairs ps = update (record { store = [] }) ps

  -- `[(key, self[key]) for key in self]`, where `self[key]` is there
  unfoldable pub items_of : CaseInsensitiveDict V → List String → List (String × V)
  unfolding get
  items_of d [] = []
  items_of d (k ∷ ks) =
      let rest = items_of d ks in elim (get d k) [ none ↦ rest | some v ↦ (k, v) ∷ rest ]

  -- Mapping.items()
  unfoldable pub items : CaseInsensitiveDict V → List (String × V)
  unfolding items_of iter
  items d = items_of d (iter d)

  -- copy(): the constructor over `_store.values()`
  unfoldable pub copy : CaseInsensitiveDict V → CaseInsensitiveDict V
  unfolding of_pairs
  copy d = of_pairs (values d.store)

module _ {ℓ} {V : Type ℓ} where
  -- __len__
  unfoldable pub len : CaseInsensitiveDict V → ℕ
  len d = length d.store

  -- the generator of lower_items(): the lowercased key and the value of each entry
  unfoldable pub lowered : Dict (String × V) → Dict V
  lowered [] = []
  lowered ((lowerkey, keyval) ∷ s) = (lowerkey, keyval.1) ∷ lowered s

  -- lower_items()
  unfoldable pub lower_items : CaseInsensitiveDict V → Dict V
  unfolding lowered
  lower_items d = lowered d.store

  -- __eq__, over the `==` of the values. The operand is not wrapped again, which changes nothing of
  -- one whose keys are unique in lower case.
  unfoldable pub eq : (V → V → Bool) → CaseInsensitiveDict V → CaseInsensitiveDict V → Bool
  unfolding lower_items
  eq same a b = dict_eq same (lower_items a) (lower_items b)
