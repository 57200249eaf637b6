-- ===== src/Functions/Current.antt =====
-- The cached defaults of cycletls/_config.py while requests of cycletls/__init__.py write into the
-- default headers.
use cycletls_python.Base.{
  String, true, [], Option, none, some, ◌≡◌, refl, sym, ap, ◌∙◌, ◌==◌, if◌then◌else◌, inl, inr,
  Bool-cases, Option-cases, eq_iff,
}
use cycletls_python.Dict.{Dict, lookup, set, has, IsDict}
use cycletls_python.Dict.Laws.{lookup-set}
use cycletls_python.Errors.{ok}
use cycletls_python.Text.{join}
use cycletls_python.Values.{
  Atom, Value, atom, list, dict, multi, cookies, cookie_dicts, jar, is_nil, eq_nil_of_is_nil,
}
use cycletls_python.Request.Cookie.{opt}
use cycletls_python.Config.{
  Config, config_to_param, configurable, cached_defaults, merge_defaults, set_default,
}
use cycletls_python.Config.Merge.{
  Fresh, config_key, config_key_eq, effective, effective_no_config, lookup-merged, lookup-cached,
}
use cycletls_python.Config.Cache.{set_default-IsFresh}
use cycletls_python.Functions.{headers_of, store_headers, write_back}
use cycletls_python.Functions.Stored.{headers_in-effective}

-- The cache, if there is one, has each parameter as the defaults of now give it.
abbrev Agrees : Dict Value → Option (Dict Value) → Type 0
Agrees config none = Unit
Agrees config (some m) = (q : String) → lookup q m ≡ effective config [] q

abbrev pub IsCurrent : Config → Type 0
IsCurrent s = Agrees s.config s.merged_cache

uncached-lookup :
    (config : Dict Value) (q : String)
    → lookup q (cached_defaults (record { config = config; merged_cache = none })).0
      ≡ effective config [] q
uncached-lookup config q = lookup-cached (record { config = config; merged_cache = none }) q tt

cached_defaults-IsCurrent :
    (s : Config)
    → IsCurrent s
    → ((q : String) → lookup q (cached_defaults s).0 ≡ effective s.config [] q)
      × IsCurrent (cached_defaults s).1
      × ((cached_defaults s).1.config ≡ s.config)
unfolding cached_defaults
cached_defaults-IsCurrent s f = go s.config s.merged_cache f
  where
    go :
        (config : Dict Value) (cache : Option (Dict Value))
        → Agrees config cache
        → let t : Config = record { config = config; merged_cache = cache } in
          ((q : String) → lookup q (cached_defaults t).0 ≡ effective config [] q)
          × IsCurrent (cached_defaults t).1
          × ((cached_defaults t).1.config ≡ config)
    go config none h = (uncached-lookup config, uncached-lookup config, refl)
    go config (some m) h = (h, h, refl)

-- While the cache is current, each parameter is the request's own, else the default of now; a merge
-- keeps the cache current and the defaults as they are.
pub merge_defaults-IsCurrent :
    (kwargs : Dict Value) (s : Config)
    → IsCurrent s
    → IsCurrent (merge_defaults kwargs s).1 × ((merge_defaults kwargs s).1.config ≡ s.config)
unfolding merge_defaults
merge_defaults-IsCurrent kwargs s f = elim (Bool-cases (is_nil s.config)) [
  | inl e ↦ (rw e f, rw e)
  | inr e ↦ elim (Bool-cases (is_nil kwargs)) [
    | inl d ↦
        let (_, current, same) = cached_defaults-IsCurrent s f in
        (rw (e, d) current, rw (e, d) same)
    | inr d ↦ (rw (e, d) f, rw (e, d))
  ]
]

pub current-merge_defaults :
    (kwargs : Dict Value) (s : Config) (q : String)
    → IsDict kwargs
    → IsCurrent s
    → lookup q (merge_defaults kwargs s).0 ≡ effective s.config kwargs q
unfolding merge_defaults
current-merge_defaults kwargs s q h f = elim (Bool-cases (is_nil s.config)) [
  | inl e ↦ rw e (
      sym (effective_no_config kwargs q)
      ∙ ap (λ c. effective c kwargs q) (sym (eq_nil_of_is_nil s.config e)))
  | inr e ↦ elim (Bool-cases (is_nil kwargs)) [
    | inl d ↦
        rw (e, d)
          ((cached_defaults-IsCurrent s f).0 q
            ∙ ap (λ k. effective s.config k q) (sym (eq_nil_of_is_nil kwargs d)))
    | inr d ↦ rw (e, d) (lookup-merged s.config kwargs q h)
  ]
]

pub set_default-IsCurrent :
    (options : Dict Value) (s : Config)
    → (set_default options s).0 ≡ ok tt
    → IsCurrent (set_default options s).1
unfolding cached_defaults
set_default-IsCurrent options s h =
    go (set_default options s).1.config (set_default options s).1.merged_cache
      (set_default-IsFresh options s h)
  where
    go :
        (config : Dict Value) (cache : Option (Dict Value))
        → Fresh config cache
        → Agrees config cache
    go config none f = tt
    go config (some m) f =
        λ q. lookup-cached (record { config = config; merged_cache = some m }) q f

key_of_headers : (q : String) → ("default_headers" == config_key q) ≡ ("headers" == q)
unfolding join
key_of_headers q = config_key_eq "headers" q

headers_known : configurable (config_key "headers") ≡ true
unfolding configurable config_to_param join
headers_known = refl

stored-effective :
    (h : Dict Atom) (config m : Dict Value) (q : String)
    → lookup q m ≡ effective config [] q
    → lookup q (set "headers" (dict h) m) ≡ effective (set "default_headers" (dict h) config) [] q
unfolding has lookup
stored-effective h config m q e =
    rw
      (
        lookup-set "headers" q (dict h) m,
        lookup-set "default_headers" (config_key q) (dict h) config,
        key_of_headers q,
        e,
      )
      (known q)
  where
    known :
        (q : String)
        → (if "headers" == q
            then some (dict h)
            else if configurable (config_key q)
            then lookup (config_key q) config
            else none)
          ≡ (if configurable (config_key q)
              then if "headers" == q then some (dict h) else lookup (config_key q) config
              else none)
    known q = elim (Bool-cases ("headers" == q)) [
      | inl e ↦ rw (sym ((eq_iff "headers" q).0 e)) (rw headers_known refl)
      | inr e ↦ rw e refl
    ]

store_headers-IsCurrent :
    (h own : Dict Atom) (s : Config)
    → lookup "default_headers" s.config ≡ some (dict own)
    → IsCurrent s
    → IsCurrent (store_headers h s)
unfolding store_headers has
store_headers-IsCurrent h own s e f = go s.merged_cache f
  where
    go :
        (cache : Option (Dict Value))
        → Agrees s.config cache
        → Agrees
            (set "default_headers" (dict h) s.config)
            (opt (λ m. if has "headers" m then set "headers" (dict h) m else m) cache)
    go none a = tt
    go (some m) a =
        let there : lookup "headers" m ≡ some (dict own) =
          a "headers" ∙ headers_in-effective s.config [] refl ∙ e in
        λ q. rw there (stored-effective h s.config m q (a q))

headers_of-dict :
    (o : Option Value) (own : Dict Atom) → headers_of o ≡ some own → o ≡ some (dict own)
unfolding headers_of
headers_of-dict none own h = cc
headers_of-dict (some (atom a)) own h = cc
headers_of-dict (some (list l)) own h = cc
headers_of-dict (some (dict d)) own h = ap (λ o. opt dict o) h
headers_of-dict (some (multi d)) own h = cc
headers_of-dict (some (cookies l)) own h = cc
headers_of-dict (some (cookie_dicts l)) own h = cc
headers_of-dict (some (jar j)) own h = cc

-- Writing into the default headers keeps the cache current, and changes no other default.
pub write_back-IsCurrent :
    (given : Option (Dict Atom)) (left : Dict Atom) (s : Config)
    → IsCurrent s
    → IsCurrent (write_back given left s)
      × (lookup "default_user_agent" (write_back given left s).config
          ≡ lookup "default_user_agent" s.config)
unfolding write_back
write_back-IsCurrent (some own) left s f = (f, refl)
write_back-IsCurrent none left s f =
    elim (Option-cases (headers_of (lookup "default_headers" s.config))) [
      | inl e ↦ (rw (e, write_back) f, rw (e, write_back) refl)
      | inr (own, e) ↦
          let stored = headers_of-dict (lookup "default_headers" s.config) own e in
          (
            rw (e, write_back) (store_headers-IsCurrent left own s stored f),
            rw (e, write_back, store_headers)
                (lookup-set "default_headers" "default_user_agent" (dict left) s.config),
          )
    ]
