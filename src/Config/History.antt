-- ===== src/Config/History.antt =====
-- The defaults of cycletls/_config.py under whole sequences of calls.
use cycletls_python.Base.{
  String, true, false, is_some, Option, none, some, [], ◌≡◌, refl, ap, ◌∙◌, if◌then◌else◌,
}
use cycletls_python.Dict.{Dict, lookup, has, IsDict}
use cycletls_python.Errors.{ok}
use cycletls_python.Values.{Value}
use cycletls_python.Config.{Config, configurable, set_default, reset_defaults, merge_defaults}
use cycletls_python.Config.Merge.{config_key, over, IsFresh, lookup-merge_defaults}
use cycletls_python.Config.Cache.{merge_defaults-IsFresh, set_default-IsFresh}
use cycletls_python.Config.Validation.{lookup-set_each, set_default-eq-ok}

-- The defaults that calls lead to, none of which is a set_default that raised.
pub data Reached : Config → Type 0 where
  start : Reached (record { config = []; merged_cache = none })
  setting :
      {s : Config} (options : Dict Value)
      → (set_default options s).0 ≡ ok tt
      → Reached s
      → Reached (set_default options s).1
  resetting : {s : Config} → Reached s → Reached (reset_defaults s)
  merging : {s : Config} (kwargs : Dict Value) → Reached s → Reached (merge_defaults kwargs s).1

pub Reached-IsFresh : {s : Config} → Reached s → IsFresh s
unfolding reset_defaults
Reached-IsFresh start = tt
Reached-IsFresh (setting {s} options h r) = set_default-IsFresh options s h
Reached-IsFresh (resetting r) = tt
Reached-IsFresh (merging {s} kwargs r) = (merge_defaults-IsFresh kwargs s (Reached-IsFresh r)).0

-- From the start of the program, after any calls of set_default, reset_defaults and _merge_defaults
-- of which no set_default raised: whatever path a merge takes, each parameter is the request's own,
-- else the default of now, if it is one of the configurable parameters.
pub merged_parameters :
    {s : Config} (kwargs : Dict Value) (q : String)
    → Reached s
    → IsDict kwargs
    → lookup q (merge_defaults kwargs s).0 ≡ (
        if has q kwargs
        then lookup q kwargs
        else if configurable (config_key q)
        then lookup (config_key q) s.config
        else none)
merged_parameters {s} kwargs q r i = lookup-merge_defaults kwargs s q i (Reached-IsFresh r)

-- The defaults after merges and after calls of set_default that returned and did not set `q`.
pub data Later (q : String) (s : Config) : Config → Type 0 where
  here : Later q s s
  merge : {t : Config} (kwargs : Dict Value) → Later q s t → Later q s (merge_defaults kwargs t).1
  set_others :
      {t : Config} (options : Dict Value)
      → IsDict options
      → has q options ≡ false
      → (set_default options t).0 ≡ ok tt
      → Later q s t
      → Later q s (set_default options t).1

-- The default is stored, and the cache is up to date.
abbrev Holds : String → Value → Config → Type 0
Holds q v t =
    IsFresh t × (lookup (config_key q) t.config ≡ some v) × (configurable (config_key q) ≡ true)

over-missing :
    (q : String) (d : Dict Value) (o : Option Value) → has q d ≡ false → over (lookup q d) o ≡ o
unfolding has
over-missing q d o h = go (lookup q d) h
  where
    go : (l : Option Value) → is_some l ≡ false → over l o ≡ o
    go none h = refl
    go (some v) h = cc

pub set_default-Holds :
    (options : Dict Value) (s : Config) (q : String) (v : Value)
    → IsDict options
    → (set_default options s).0 ≡ ok tt
    → lookup q options ≡ some v
    → Holds q v (set_default options s).1
unfolding has
set_default-Holds options s q v i h p =
    let (returned, same) = set_default-eq-ok options s h in
    let (stored, known) = lookup-set_each options s q i returned in
    (
      set_default-IsFresh options s h,
      ap (lookup (config_key q)) same ∙ stored ∙ rw p refl,
      known (rw p),
    )

-- A call that returned leaves the defaults that it does not set.
pub set_default-others :
    (options : Dict Value) (t : Config) (q : String)
    → IsDict options
    → has q options ≡ false
    → (set_default options t).0 ≡ ok tt
    → lookup (config_key q) (set_default options t).1.config ≡ lookup (config_key q) t.config
set_default-others options t q i n r =
    let (returned, same) = set_default-eq-ok options t r in
    ap (lookup (config_key q)) same
    ∙ (lookup-set_each options t q i returned).0
    ∙ over-missing q options _ n

Later-Holds : {q : String} {s t : Config} {v : Value} → Later q s t → Holds q v s → Holds q v t
Later-Holds here h = h
Later-Holds {q} (merge {t} kwargs l) h =
    let (fresh, stored, known) = Later-Holds l h in
    let (fresh', same) = merge_defaults-IsFresh kwargs t fresh in
    (fresh', ap (lookup (config_key q)) same ∙ stored, known)
Later-Holds {q} (set_others {t} options i n r l) h =
    let (_, stored, known) = Later-Holds l h in
    (set_default-IsFresh options t r, set_default-others options t q i n r ∙ stored, known)

-- A parameter that a call of set_default sets, and that call returned, is merged into keywords that
-- do not give it, however many merges there were since and whatever other defaults were set since,
-- as long as the defaults were not reset and no call of set_default raised or set the parameter
-- again.
pub set_default_lasts :
    {t : Config} (options kwargs : Dict Value) (s : Config) (q : String) (v : Value)
    → IsDict options
    → (set_default options s).0 ≡ ok tt
    → lookup q options ≡ some v
    → Later q (set_default options s).1 t
    → IsDict kwargs
    → has q kwargs ≡ false
    → lookup q (merge_defaults kwargs t).0 ≡ some v
set_default_lasts {t} options kwargs s q v i r p l j n =
    let (fresh, stored, known) = Later-Holds l (set_default-Holds options s q v i r p) in
    lookup-merge_defaults kwargs t q j fresh ∙ rw (n, known) stored
