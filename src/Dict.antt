-- ===== src/Dict.antt =====
-- Python's `dict` with string keys, in insertion order. A write to a key that is there keeps its
-- place; a new key goes to the end.
pub mod Laws
pub mod Order
pub mod Equality
use cycletls_python.Base.{
  String, Bool, ◌≡◌, Option, none, some, List, [], ◌∷◌, map, ◌==◌, if◌then◌else◌, is_some, ◌&&◌,
  all, length, eqb, false,
}

abbrev pub Dict {ℓ} : Type ℓ → Type ℓ
Dict V = List (String × V)

module _ {ℓ} {V : Type ℓ} where
  -- d.get(k)
  unfoldable pub lookup : String → Dict V → Option V
  lookup k [] = none
  lookup k ((j, v) ∷ d) = if j == k then some v else lookup k d

  -- d[k] = v
  unfoldable pub set : String → V → Dict V → Dict V
  set k v [] = (k, v) ∷ []
  set k v ((j, w) ∷ d) = if j == k then (j, v) ∷ d else (j, w) ∷ set k v d

  -- d.pop(k, None), del d[k]
  unfoldable pub remove : String → Dict V → Dict V
  remove k [] = []
  remove k ((j, v) ∷ d) = let rest = remove k d in if j == k then rest else (j, v) ∷ rest

  -- k in d
  unfoldable pub has : String → Dict V → Bool
  unfolding lookup
  has k d = is_some (lookup k d)

  -- d.keys(), d.values()
  abbrev pub keys : Dict V → List String
  keys = map (λ e. e.0)

  abbrev pub values : Dict V → List V
  values = map (λ e. e.1)

  -- d.update(pairs)
  unfoldable pub update : Dict V → List (String × V) → Dict V
  unfolding set
  update d [] = d
  update d ((k, v) ∷ rest) = update (set k v d) rest

  -- dict(pairs)
  unfoldable pub of_pairs : List (String × V) → Dict V
  unfolding update
  of_pairs ps = update [] ps

  -- No key stands twice, as in every dict of Python.
  abbrev pub IsDict : Dict V → Type ℓ
  IsDict [] = Unit
  IsDict ((k, v) ∷ d) = (lookup k d ≡ none) × IsDict d

-- a == b, over the `==` of the values: as many entries, and each of `a` in `b`
module _ {ℓ} {V : Type ℓ} (same : V → V → Bool) where
  abbrev pub agrees : Option V → V → Bool
  agrees none v = false
  agrees (some w) v = same v w

  unfoldable pub dict_eq : Dict V → Dict V → Bool
  unfolding lookup
  dict_eq a b = eqb (length a) (length b) && all (λ e. agrees (lookup e.0 b) e.1) a
