-- ===== src/Config/Merge.antt =====
-- _merge_defaults against its contract: the request's value of a parameter, else its default.
use text.Mathlib.TextLemmas.{append_cancel_left}
use Prim.Native.String.{◌++◌ as concat}
use cycletls_python.Base.{
  String, ◌≡◌, ◌∙◌, refl, sym, ap, Option, none, some, List, [], ◌∷◌, arith, ◌==◌, eq_iff,
  if◌then◌else◌, any, All, inl, inr, Option-cases, Bool-cases,
}
use cycletls_python.Dict.{Dict, lookup, set, has, update, IsDict}
use cycletls_python.Dict.Laws.{lookup-nil, lookup-set, lookup-update}
use cycletls_python.Text.{join}
use cycletls_python.Values.{Value, is_nil, eq_nil_of_is_nil}
use cycletls_python.Config.{
  Config, config_to_param, configurable, defaults_loop, merge_loop, cached_defaults, merge_defaults,
}

abbrev pub config_key : String → String
config_key key = join ("default_" ∷ key ∷ [])

-- Each row of the mapping adds the prefix to its parameter.
abbrev Prefixed : List (String × String) → Type 0
Prefixed = All (λ e. e.0 ≡ config_key e.1)

config_to_param-Prefixed : Prefixed config_to_param
unfolding config_to_param join
config_to_param-Prefixed = ground arith

pub config_key_eq : (p q : String) → (config_key p == config_key q) ≡ (p == q)
unfolding join
config_key_eq p q = ground (
  arith,
  eq_iff p q,
  eq_iff (concat "default_" p) (concat "default_" q),
  append_cancel_left "default_" p q,
)

any_param :
    (q : String) (m : List (String × String))
    → Prefixed m
    → any (λ e. e.0 == config_key q) m ≡ any (λ e. e.1 == q) m
any_param q [] h = refl
any_param q ((c, p) ∷ m) h = rw (h.0, config_key_eq p q, any_param q m h.1)

-- The value of a parameter in the result of the loop.
abbrev pub over : Option Value → Option Value → Option Value
over none base = base
over (some v) base = some v

module _ (config kwargs : Dict Value) (q : String) where
  lookup-merge_loop :
      (m : List (String × String)) (result : Dict Value)
      → Prefixed m
      → lookup q (merge_loop config kwargs result m) ≡ (
          if has q kwargs
          then lookup q result
          else if any (λ e. e.1 == q) m
          then over (lookup (config_key q) config) (lookup q result)
          else lookup q result)
  unfolding merge_loop
  lookup-merge_loop [] result h = ground arith
  lookup-merge_loop ((c, p) ∷ m) result h = elim (Option-cases (lookup c config)) [
    | inl e ↦
        rw (e, merge_loop) (ground (arith, e, lookup-merge_loop m result h.1, eq_iff p q, h.0))
    | inr (v, e) ↦
        rw (e, merge_loop)
          (ground (
            arith,
            e,
            lookup-merge_loop m (if has p kwargs then result else set p v result) h.1,
            lookup-set p q v result,
            eq_iff p q,
            h.0,
          ))
  ]

-- Both loops build the same dict from no keyword arguments.
pub merge_loop-eq-defaults_loop :
    (config result : Dict Value) (m : List (String × String))
    → merge_loop config [] result m ≡ defaults_loop config result m
unfolding merge_loop defaults_loop has lookup
merge_loop-eq-defaults_loop config result [] = refl
merge_loop-eq-defaults_loop config result ((c, p) ∷ m) = elim (Option-cases (lookup c config)) [
  | inl e ↦ ground (arith, e, merge_loop-eq-defaults_loop config result m)
  | inr (v, e) ↦ ground (arith, e, merge_loop-eq-defaults_loop config (set p v result) m)
]

-- The cache, if there is one, holds what the second loop builds from the defaults of now.
abbrev pub Fresh : Dict Value → Option (Dict Value) → Type 0
Fresh config none = Unit
Fresh config (some m) = m ≡ defaults_loop config [] config_to_param

abbrev pub IsFresh : Config → Type 0
IsFresh s = Fresh s.config s.merged_cache

-- What a request is given for a parameter: its own argument, else the module-level default.
abbrev pub effective : Dict Value → Dict Value → String → Option Value
effective config kwargs q =
    if has q kwargs
    then lookup q kwargs
    else if configurable (config_key q)
    then lookup (config_key q) config
    else none

configurable-any : (q : String) → configurable (config_key q) ≡ any (λ e. e.1 == q) config_to_param
unfolding configurable
configurable-any q = any_param q config_to_param config_to_param-Prefixed

over-none : (o : Option Value) → over o none ≡ o
over-none none = refl
over-none (some v) = refl

pub lookup-merged :
    (config kwargs : Dict Value) (q : String)
    → IsDict kwargs
    → lookup q (update (merge_loop config kwargs [] config_to_param) kwargs)
      ≡ effective config kwargs q
lookup-merged config kwargs q h = rw (configurable-any q) (
    ground (
      arith,
      lookup-nil {V = Value} q,
      over-none (lookup (config_key q) config),
      lookup-update q (merge_loop config kwargs [] config_to_param) kwargs h,
      lookup-merge_loop config kwargs q config_to_param [] config_to_param-Prefixed,
    ))

pub effective_no_config :
    (kwargs : Dict Value) (q : String) → effective [] kwargs q ≡ lookup q kwargs
unfolding has
effective_no_config kwargs q = rw (lookup-nil (config_key q)) (ground arith)

cached_defaults-eq :
    (s : Config) → IsFresh s → (cached_defaults s).0 ≡ defaults_loop s.config [] config_to_param
unfolding cached_defaults
cached_defaults-eq s f = go s.merged_cache refl f
  where
    go :
        (cache : Option (Dict Value))
        → s.merged_cache ≡ cache
        → Fresh s.config cache
        → (cached_defaults s).0 ≡ defaults_loop s.config [] config_to_param
    go none e h = rw (e, cached_defaults)
    go (some m) e h = rw (e, cached_defaults) h

pub lookup-cached :
    (s : Config) (q : String) → IsFresh s → lookup q (cached_defaults s).0 ≡ effective s.config [] q
unfolding has
lookup-cached s q f =
    rw
      (
        cached_defaults-eq s f,
        ← merge_loop-eq-defaults_loop s.config [] config_to_param,
        configurable-any q,
        lookup-nil {V = Value} q,
      )
      (ground (
        arith,
        over-none (lookup (config_key q) s.config),
        lookup-nil {V = Value} q,
        lookup-merge_loop s.config [] q config_to_param [] config_to_param-Prefixed,
      ))

-- While the cache holds what the defaults of now give, each parameter is the request's, else the
-- default of now, whatever path is taken.
pub lookup-merge_defaults :
    (kwargs : Dict Value) (s : Config) (q : String)
    → IsDict kwargs
    → IsFresh s
    → lookup q (merge_defaults kwargs s).0 ≡ effective s.config kwargs q
unfolding merge_defaults
lookup-merge_defaults kwargs s q h f = elim (Bool-cases (is_nil s.config)) [
  | inl e ↦ rw e (
      sym (effective_no_config kwargs q)
      ∙ ap (λ c. effective c kwargs q) (sym (eq_nil_of_is_nil s.config e)))
  | inr e ↦ elim (Bool-cases (is_nil kwargs)) [
    | inl d ↦
        rw (e, d)
          (lookup-cached s q f ∙ ap (λ k. effective s.config k q) (sym (eq_nil_of_is_nil kwargs d)))
    | inr d ↦ rw (e, d) (lookup-merged s.config kwargs q h)
  ]
]
