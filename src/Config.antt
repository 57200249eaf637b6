-- ===== src/Config.antt =====
-- cycletls/_config.py: the module-level defaults.
pub mod Merge
pub mod Cache
pub mod Validation
pub mod History
pub mod Tests
use cycletls_python.Base.{
  ℕ, String, Bool, true, false, not, ◌&&◌, ◌||◌, Option, none, some, List, [], ◌∷◌, map, ◌==◌, any,
  if◌then◌else◌, is_some,
}
use cycletls_python.Dict.{Dict, lookup, set, has, update, keys}
use cycletls_python.Errors.{Error, error, value_error, Result, ok, err}
use cycletls_python.Errors
use cycletls_python.Exec.{Exec, pure, raise, lift, modify, guard, ◌>>=◌, ◌>>◌}
use cycletls_python.Text.{join}
use cycletls_python.Values.{
  Value, Atom, atom, null, bool, int, float, str, list, dict, int_positive, float_positive, is_nil,
}

-- `_CONFIG_TO_PARAM_MAPPING`
unfoldable pub config_to_param : List (String × String)
config_to_param =
    ("default_ja3", "ja3")
    ∷ ("default_ja4r", "ja4r")
    ∷ ("default_http2_fingerprint", "http2_fingerprint")
    ∷ ("default_quic_fingerprint", "quic_fingerprint")
    ∷ ("default_disable_grease", "disable_grease")
    ∷ ("default_user_agent", "user_agent")
    ∷ ("default_proxy", "proxy")
    ∷ ("default_local_address", "local_address")
    ∷ ("default_timeout", "timeout")
    ∷ ("default_enable_connection_reuse", "enable_connection_reuse")
    ∷ ("default_insecure_skip_verify", "insecure_skip_verify")
    ∷ ("default_server_name", "server_name")
    ∷ ("default_force_http1", "force_http1")
    ∷ ("default_force_http3", "force_http3")
    ∷ ("default_protocol", "protocol")
    ∷ ("default_disable_redirect", "disable_redirect")
    ∷ ("default_header_order", "header_order")
    ∷ ("default_order_headers_as_provided", "order_headers_as_provided")
    ∷ ("default_headers", "headers")
    ∷ []

-- `config_key in _CONFIGURABLE_ATTRS`
unfoldable pub configurable : String → Bool
configurable config_key = any (λ e. e.0 == config_key) config_to_param

-- The module's globals: `_config` and `_merged_cache`.
pub record Config : Type 0 where
  pub config : Dict Value
  pub merged_cache : Option (Dict Value)

-- isinstance(v, (int, float)) and v > 0; a bool is an int
unfoldable pub positive_number : Value → Bool
unfolding int_positive float_positive
positive_number (atom (bool b)) = b
positive_number (atom (int n)) = int_positive n
positive_number (atom (float x)) = float_positive x
positive_number _ = false

-- isinstance(v, bool)
unfoldable pub is_bool : Value → Bool
is_bool (atom (bool b)) = true
is_bool _ = false

-- v is None or isinstance(v, str)
unfoldable pub none_or_str : Value → Bool
none_or_str (atom null) = true
none_or_str (atom (str s)) = true
none_or_str _ = false

-- v is None or isinstance(v, list)
unfoldable pub none_or_list : Value → Bool
none_or_list (atom null) = true
none_or_list (list l) = true
none_or_list _ = false

-- v is None or isinstance(v, dict)
unfoldable pub none_or_dict : Value → Bool
none_or_dict (atom null) = true
none_or_dict (dict d) = true
none_or_dict _ = false

-- `validators` of _validate_config
unfoldable pub validators : List (String × (Value → Bool))
unfolding positive_number is_bool none_or_str none_or_list none_or_dict
validators =
    ("default_timeout", positive_number)
    ∷ ("default_enable_connection_reuse", is_bool)
    ∷ ("default_insecure_skip_verify", is_bool)
    ∷ ("default_force_http1", is_bool)
    ∷ ("default_force_http3", is_bool)
    ∷ ("default_disable_redirect", is_bool)
    ∷ ("default_disable_grease", is_bool)
    ∷ ("default_order_headers_as_provided", is_bool)
    ∷ ("default_proxy", none_or_str)
    ∷ ("default_local_address", none_or_str)
    ∷ ("default_ja3", none_or_str)
    ∷ ("default_ja4r", none_or_str)
    ∷ ("default_user_agent", none_or_str)
    ∷ ("default_server_name", none_or_str)
    ∷ ("default_http2_fingerprint", none_or_str)
    ∷ ("default_quic_fingerprint", none_or_str)
    ∷ ("default_header_order", none_or_list)
    ∷ ("default_headers", none_or_dict)
    ∷ []

-- `validator and not validator(value)` fails
unfoldable pub accepted : String → Value → Bool
unfolding validators lookup
accepted name value = elim (lookup name validators) [
  | none ↦ true
  | some validator ↦ validator value
]

-- _validate_config; the message leaves out the value's repr
unfoldable pub validate_config : String → Value → Result (Unit {0})
validate_config name value =
    if accepted name value
    then ok tt
    else err (error value_error (join ("Invalid value for " ∷ name ∷ [])))

-- The body of the loop in set_default.
unfoldable pub set_one : String → Value → Exec Config (Unit {0})
set_one key value = do
  let config_key = join ("default_" ∷ key ∷ [])
  guard (not (configurable config_key))
      (error value_error (join ("Unknown configuration option: " ∷ key ∷ [])))
  lift (validate_config config_key value)
  modify (λ s. record s { config = set config_key value s.config })

-- `for key, value in kwargs.items()`
unfoldable pub set_each : Dict Value → Exec Config (Unit {0})
set_each [] = pure tt
set_each ((key, value) ∷ rest) = let others = set_each rest in (do set_one key value; others)

-- set_default
unfoldable pub set_default : Dict Value → Exec Config (Unit {0})
set_default kwargs = do set_each kwargs; modify (λ s. record s { merged_cache = none })

-- reset_defaults
unfoldable pub reset_defaults : Config → Config
reset_defaults s = record { config = []; merged_cache = none }

-- get_default
unfoldable pub get_default : String → Config → Result (Option Value)
get_default key s =
    let config_key = join ("default_" ∷ key ∷ []) in
    if configurable config_key
    then ok (lookup config_key s.config)
    else err (error value_error (join ("Unknown configuration option: " ∷ key ∷ [])))

-- The loop of the second fast path: every default, under its parameter's name.
unfoldable pub defaults_loop : Dict Value → Dict Value → List (String × String) → Dict Value
unfolding lookup set
defaults_loop config result [] = result
defaults_loop config result ((config_key, param_key) ∷ rest) =
    defaults_loop config
      (elim (lookup config_key config) [ none ↦ result | some v ↦ set param_key v result ]) rest

-- The loop of the slow path: the defaults that `kwargs` does not give.
unfoldable pub merge_loop :
    Dict Value → Dict Value → Dict Value → List (String × String) → Dict Value
unfolding lookup set has
merge_loop config kwargs result [] = result
merge_loop config kwargs result ((config_key, param_key) ∷ rest) =
    merge_loop config kwargs
      (elim (lookup config_key config) [
        | none ↦ result
        | some v ↦ if has param_key kwargs then result else set param_key v result
      ])
      rest

-- the empty-kwargs path: the cached result, or a new one that is cached
unfoldable pub cached_defaults : Config → Dict Value × Config
cached_defaults s = elim s.merged_cache [
  | some merged ↦ (merged, s)
  | none ↦
      let result = defaults_loop s.config [] config_to_param in
      (result, record s { merged_cache = some result })
]

-- _merge_defaults
unfoldable pub merge_defaults : Dict Value → Config → Dict Value × Config
merge_defaults kwargs s =
    if is_nil s.config
    then (kwargs, s)
    else if is_nil kwargs
    then cached_defaults s
    else (update (merge_loop s.config kwargs [] config_to_param) kwargs, s)
