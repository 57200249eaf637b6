-- ===== src/Config/Tests.antt =====
-- The defaults on concrete calls.
use cycletls_python.Base.{if◌then◌else◌, ◌≡◌, refl, true, none, some, [], ◌∷◌}
use cycletls_python.Dict.{Dict, lookup, set, has}
use cycletls_python.Errors.{ok}
use cycletls_python.Text.{join}
use cycletls_python.Values.{Value, atom, int, bool, text, is_nil, int_positive}
use cycletls_python.Base.{pos}
use cycletls_python.Config.{
  Config, config_to_param, configurable, accepted, validate_config, validators, set_one, set_each,
  set_default, cached_defaults, defaults_loop, merge_defaults,
}
use cycletls_python.Config.History.{
  start, setting, merging, here, merge, merged_parameters, set_default_lasts,
}
use cycletls_python.Config.Merge.{config_key, effective, lookup-merge_defaults}
use cycletls_python.Config.Validation.{IsAccepted, set_default-IsAccepted}

abbrev timeout_10 : Dict Value
timeout_10 = ("timeout", atom (int (pos 10))) ∷ []

abbrev fresh : Config
fresh = record { config = ("default_timeout", atom (int (pos 10))) ∷ []; merged_cache = none }

abbrev cached : Config
cached = record fresh { merged_cache = some timeout_10 }

set_test : set_default timeout_10 (record { config = []; merged_cache = none }) ≡ (ok tt, fresh)
unfolding set_default set_each set_one validate_config accepted validators configurable
    config_to_param join lookup set int_positive
set_test = refl

-- True passes for a timeout: a bool of Python is an int.
bool_timeout_test : accepted "default_timeout" (atom (bool true)) ≡ true
unfolding accepted validators lookup
bool_timeout_test = refl

merge_test : merge_defaults [] fresh ≡ (timeout_10, cached)
unfolding merge_defaults cached_defaults defaults_loop config_to_param is_nil lookup set
merge_test = refl

lookup-merge_defaults_test :
    lookup "timeout" (merge_defaults (("proxy", text "p") ∷ []) cached).0
    ≡ effective cached.config (("proxy", text "p") ∷ []) "timeout"
unfolding defaults_loop config_to_param lookup set
lookup-merge_defaults_test =
    lookup-merge_defaults (("proxy", text "p") ∷ []) cached "timeout" (refl, tt) refl

abbrev nothing_set : Config
nothing_set = record { config = []; merged_cache = none }

set_timeout : (set_default timeout_10 nothing_set).0 ≡ ok tt
unfolding set_default set_each set_one validate_config accepted validators configurable
    config_to_param join lookup set int_positive
set_timeout = refl

-- A default is set, and a request without keywords fills the cache.
abbrev warm : Config
warm = (merge_defaults [] (set_default timeout_10 nothing_set).1).1

merged_parameters_example : lookup "proxy" (merge_defaults (("proxy", text "p") ∷ []) warm).0 ≡ (
    if has "proxy" (("proxy", text "p") ∷ [])
    then lookup "proxy" (("proxy", text "p") ∷ [])
    else if configurable (config_key "proxy")
    then lookup (config_key "proxy") warm.config
    else none)
unfolding lookup
merged_parameters_example =
    merged_parameters (("proxy", text "p") ∷ []) "proxy"
      (merging [] (setting timeout_10 set_timeout start)) (refl, tt)

set_default_lasts_example :
    lookup "timeout" (merge_defaults (("proxy", text "p") ∷ []) warm).0 ≡ some (atom (int (pos 10)))
unfolding lookup has
set_default_lasts_example =
    set_default_lasts timeout_10 (("proxy", text "p") ∷ []) nothing_set "timeout"
      (atom (int (pos 10))) (refl, tt) set_timeout refl (merge [] here) (refl, tt) refl

set_default-IsAccepted_test :
    IsAccepted
      (set_default (("timeout", text "soon") ∷ []) (record { config = []; merged_cache = none })).1
unfolding lookup
set_default-IsAccepted_test =
    set_default-IsAccepted (("timeout", text "soon") ∷ [])
      (record { config = []; merged_cache = none }) (λ name v h. cc)

abbrev bad_call : Dict Value
bad_call = ("timeout", atom (int (pos 5))) ∷ ("bogus", text "x") ∷ []
