-- ===== src/Functions/Stored.antt =====
-- The default headers of cycletls/__init__.py after a request wrote into them.
use cycletls_python.Base.{
  String, false, [], ◌∷◌, Option, none, some, ◌≡◌, refl, ◌∙◌, ◌==◌, Bool-cases, inl, inr,
}
use cycletls_python.Dict.{Dict, lookup, set, has, IsDict}
use cycletls_python.Dict.Laws.{lookup-set_self}
use cycletls_python.Exec.{if_case}
use cycletls_python.Text.{join}
use cycletls_python.Values.{Atom, Value, dict, is_nil}
use cycletls_python.Config.{Config, merge_defaults, cached_defaults, configurable, config_to_param}
use cycletls_python.Config.Merge.{Fresh, effective, lookup-merge_defaults}
use cycletls_python.Functions.{headers_of, store_headers, write_back}

set-nonempty : (k : String) (v : Value) (d : Dict Value) → is_nil (set k v d) ≡ false
unfolding set is_nil
set-nonempty k v [] = refl
set-nonempty k v ((j, w) ∷ d) =
    if_case {A = Dict Value} (λ x. is_nil x ≡ false) (j == k) ((j, v) ∷ d) ((j, w) ∷ set k v d) refl
      refl

found-nonempty : (k : String) (v : Value) (d : Dict Value) → lookup k d ≡ some v → is_nil d ≡ false
unfolding lookup is_nil
found-nonempty k v [] h = cc
found-nonempty k v (e ∷ d) h = refl

pub headers_in-effective :
    (config kw : Dict Value)
    → has "headers" kw ≡ false
    → effective config kw "headers" ≡ lookup "default_headers" config
unfolding configurable config_to_param join
headers_in-effective config kw n = rw n refl

merged-uncached :
    (h : Dict Atom) (config kw : Dict Value)
    → IsDict kw
    → has "headers" kw ≡ false
    → let config' = set "default_headers" (dict h) config in
      lookup "headers" (merge_defaults kw (record { config = config'; merged_cache = none })).0
      ≡ some (dict h)
merged-uncached h config kw i n =
    let config' = set "default_headers" (dict h) config in
    lookup-merge_defaults kw (record { config = config'; merged_cache = none }) "headers" i tt
    ∙ headers_in-effective config' kw n
    ∙ lookup-set_self "default_headers" (dict h) config

-- A write into the default headers is seen by every merge of keywords without headers.
pub merged-store_headers :
    (h own : Dict Atom) (config : Dict Value) (cache : Option (Dict Value)) (kw : Dict Value)
    → IsDict kw
    → has "headers" kw ≡ false
    → Fresh config cache
    → lookup "default_headers" config ≡ some (dict own)
    → lookup "headers"
        (merge_defaults kw (store_headers h (record { config = config; merged_cache = cache }))).0
      ≡ some (dict h)
unfolding store_headers merge_defaults cached_defaults has
merged-store_headers h own config none kw i n f e = merged-uncached h config kw i n
merged-store_headers h own config (some m) kw i n f e =
    let config' = set "default_headers" (dict h) config in
    let some_config = set-nonempty "default_headers" (dict h) config in
    elim (Bool-cases (is_nil kw)) [
      | inl empty ↦
          let cached : lookup "headers" m ≡ some (dict own) =
            rw (found-nonempty "default_headers" (dict own) config e, empty) at
              (lookup-merge_defaults kw (record { config = config; merged_cache = some m })
                  "headers" i f
                ∙ headers_in-effective config kw n
                ∙ e) in
          rw (some_config, empty) (rw cached (lookup-set_self "headers" (dict h) m))
      | inr full ↦
          rw (some_config, full) (rw (some_config, full) at (merged-uncached h config kw i n))
    ]

pub write_back-stored :
    (given : Option (Dict Atom)) (left own : Dict Atom) (s : Config)
    → given ≡ none
    → lookup "default_headers" s.config ≡ some (dict own)
    → write_back given left s ≡ store_headers left s
unfolding write_back headers_of
write_back-stored none left own s n e = rw (e, write_back) refl
write_back-stored (some h) left own s n e = cc
