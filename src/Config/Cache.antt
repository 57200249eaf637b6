-- ===== src/Config/Cache.antt =====
-- The cache of merged defaults: who keeps it fresh, and the call that leaves it stale.
use cycletls_python.Base.{
  String, ◌≡◌, refl, true, false, Option, none, some, [], ◌∷◌, Bool-cases, inl, inr,
}
use cycletls_python.Dict.{Dict, set}
use cycletls_python.Errors.{error, value_error, Result, ok, err}
use cycletls_python.Exec.{and_then, modify}
use cycletls_python.Text.{join}
use cycletls_python.Values.{Value, is_nil}
use cycletls_python.Config.{
  Config, configurable, accepted, validate_config, set_one, set_each, set_default, cached_defaults,
  merge_defaults,
}
use cycletls_python.Config.Merge.{config_key, Fresh, IsFresh}

cached_defaults-IsFresh :
    (s : Config)
    → IsFresh s
    → IsFresh (cached_defaults s).1 × ((cached_defaults s).1.config ≡ s.config)
unfolding cached_defaults
cached_defaults-IsFresh s f = go s.merged_cache refl f
  where
    go :
        (cache : Option (Dict Value))
        → s.merged_cache ≡ cache
        → Fresh s.config cache
        → IsFresh (cached_defaults s).1 × ((cached_defaults s).1.config ≡ s.config)
    go none e h = (rw (e, cached_defaults) refl, rw (e, cached_defaults))
    go (some m) e h = (rw (e, cached_defaults) f, rw (e, cached_defaults))

-- A merge never makes the cache stale, and changes no default.
pub merge_defaults-IsFresh :
    (kwargs : Dict Value) (s : Config)
    → IsFresh s
    → IsFresh (merge_defaults kwargs s).1 × ((merge_defaults kwargs s).1.config ≡ s.config)
unfolding merge_defaults
merge_defaults-IsFresh kwargs s f = elim (Bool-cases (is_nil s.config)) [
  | inl e ↦ (rw e f, rw e)
  | inr e ↦ elim (Bool-cases (is_nil kwargs)) [
    | inl d ↦ (rw (e, d) (cached_defaults-IsFresh s f).0, rw (e, d) (cached_defaults-IsFresh s f).1)
    | inr d ↦ (rw (e, d) f, rw (e, d))
  ]
]

-- set_default ends with no cache when it does not raise.
pub set_default-IsFresh :
    (kwargs : Dict Value) (s : Config)
    → (set_default kwargs s).0 ≡ ok tt
    → IsFresh (set_default kwargs s).1
unfolding set_default
set_default-IsFresh kwargs s h = go (set_each kwargs s).0 (set_each kwargs s).1 h
  where
    clear : Config → Config
    clear t = record t { merged_cache = none }

    go :
        (r : Result (Unit {0})) (t : Config)
        → (and_then r (λ _. modify clear) t).0 ≡ ok tt
        → IsFresh (and_then r (λ _. modify clear) t).1
    go (ok x) t e = tt
    go (err x) t e = cc

-- The state after one option is written.
abbrev pub written : String → Value → Config → Config
written key v s = record s { config = set (config_key key) v s.config }

pub set_one_lem :
    (key : String) (value : Value) (s : Config)
    → configurable (config_key key) ≡ true
    → accepted (config_key key) value ≡ true
    → set_one key value s ≡ (ok tt, written key value s)
unfolding set_one validate_config
set_one_lem key value s c a = rw (c, a)

pub set_one_unknown :
    (key : String) (value : Value) (s : Config)
    → configurable (config_key key) ≡ false
    → set_one key value s
      ≡ (err (error value_error (join ("Unknown configuration option: " ∷ key ∷ []))), s)
unfolding set_one
set_one_unknown key value s c = rw c
