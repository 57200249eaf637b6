-- ===== src/Arguments/Laws.antt =====
-- What the arguments of a request hold after defaults have been filled in.
use cycletls_python.Base.{
  String, List, [], ◌∷◌, Option, none, some, or_else, or_else_assoc, map, ◌≡◌, refl, sym, ap, ◌∙◌,
  ◌==◌, eq_iff, arith, if◌then◌else◌,
}
use cycletls_python.Dict.{Dict, lookup, set, has, IsDict}
use cycletls_python.Dict.Laws.{lookup-set, set-IsDict}
use cycletls_python.Exec.{if_case}
use cycletls_python.Request.Cookie.{put, opt}
use cycletls_python.Arguments.{default_option, default_options}

pub or_else-none {ℓ} : {A : Type ℓ} (o : Option A) → or_else o none ≡ o
or_else-none none = refl
or_else-none (some a) = refl

module _ {ℓ} {V : Type ℓ} where
  -- the first value that a list of defaults has for a key
  abbrev pub offered : String → List (String × Option V) → Option V
  offered k [] = none
  offered k ((j, v) ∷ ps) = if j == k then or_else v (offered k ps) else offered k ps

  lookup-default_option :
      (k j : String) (v : Option V) (d : Dict V)
      → lookup k (default_option j v d) ≡ (if j == k then or_else (lookup k d) v else lookup k d)
  unfolding default_option has put
  lookup-default_option k j none d = ground (arith, eq_iff j k)
  lookup-default_option k j (some v) d = ground (arith, eq_iff j k, lookup-set j k v d)

  -- A value that is there stays; otherwise the first default counts.
  pub lookup-default_options :
      (k : String) (ps : List (String × Option V)) (d : Dict V)
      → lookup k (default_options ps d) ≡ or_else (lookup k d) (offered k ps)
  unfolding default_options
  lookup-default_options k [] d = sym (or_else-none (lookup k d))
  lookup-default_options k ((j, v) ∷ ps) d =
      lookup-default_options k ps (default_option j v d)
      ∙ ap (λ o. or_else o (offered k ps)) (lookup-default_option k j v d)
      ∙ ground (arith, or_else_assoc (lookup k d) v (offered k ps))

  default_option-IsDict :
      (k : String) (v : Option V) (d : Dict V) → IsDict d → IsDict (default_option k v d)
  unfolding default_option put
  default_option-IsDict k none d h = if_case IsDict (has k d) d d h h
  default_option-IsDict k (some v) d h =
      if_case IsDict (has k d) d (set k v d) h (set-IsDict k v d h)

  pub default_options-IsDict :
      (ps : List (String × Option V)) (d : Dict V) → IsDict d → IsDict (default_options ps d)
  unfolding default_options
  default_options-IsDict [] d h = h
  default_options-IsDict ((k, v) ∷ ps) d h =
      default_options-IsDict ps (default_option k v d) (default_option-IsDict k v d h)

-- The defaults that a whole dict gives.
pub offered-dict {ℓ κ} :
    {A : Type ℓ} {V : Type κ} (f : A → V) (k : String) (d : Dict A)
    → offered k (map (λ e. (e.0, some (f e.1))) d) ≡ opt f (lookup k d)
unfolding lookup
offered-dict f k [] = refl
offered-dict f k ((j, a) ∷ d) = ground (arith, offered-dict f k d)

pub lookup-map {ℓ κ} :
    {A : Type ℓ} {V : Type κ} (f : A → V) (k : String) (d : Dict A)
    → lookup k (map (λ e. (e.0, f e.1)) d) ≡ opt f (lookup k d)
unfolding lookup
lookup-map f k [] = refl
lookup-map f k ((j, a) ∷ d) = ground (arith, lookup-map f k d)
