-- ===== src/Arguments.antt =====
-- The keyword arguments of a request, as cycletls/api.py and cycletls/fingerprints.py change them.
-- `**kwargs` is a dict of the callee's own, but `kwargs["headers"]` may be the dict of the caller,
-- and what is written into it is then seen by the caller.
pub mod Laws
use cycletls_python.Base.{
  String, Bool, true, false, List, [], ◌∷◌, Option, none, some, if◌then◌else◌,
}
use cycletls_python.Dict.{Dict, lookup, set, has, remove}
use cycletls_python.Values.{Atom, Value, is_nil}
use cycletls_python.Request.Cookie.{put}

pub record Arguments : Type 0 where
  -- kwargs without the key "headers"
  pub options : Dict Value
  -- kwargs["headers"], `none` where it is missing
  pub headers : Option (Dict Atom)
  -- whether kwargs["headers"] is the dict that the caller holds, and what stands in that dict
  pub shared : Bool
  pub caller : Dict Atom

-- The arguments as they come in: the headers are the caller's dict, if there are any.
unfoldable pub arguments : Dict Value → Option (Dict Atom) → Arguments
arguments options none = record { options = options; headers = none; shared = false; caller = [] }
arguments options (some own) = record {
  options = options;
  headers = some own;
  shared = true;
  caller = own;
}

-- kwargs.get("headers") or {}
unfoldable pub headers_or_empty : Arguments → Dict Atom
headers_or_empty a = elim a.headers [ none ↦ [] | some h ↦ h ]

-- whether that is the caller's dict: an empty one gives way to a new dict
unfoldable pub still_shared : Arguments → Bool
unfolding is_nil headers_or_empty
still_shared a = if is_nil (headers_or_empty a) then false else a.shared

-- headers = kwargs.get("headers") or {}; headers becomes `h` by writes into it;
-- kwargs["headers"] = headers
unfoldable pub write_headers : Dict Atom → Arguments → Arguments
unfolding still_shared
write_headers h a = record a {
  headers = some h;
  shared = still_shared a;
  caller = if still_shared a then h else a.caller;
}

-- headers = kwargs.get("headers") or {}, for writes that follow
unfoldable pub take_headers : Arguments → Arguments
unfolding still_shared headers_or_empty
take_headers a = record a { headers = some (headers_or_empty a); shared = still_shared a }

-- a write into the dict that was taken
unfoldable pub assign_headers : Dict Atom → Arguments → Arguments
assign_headers h a = record a { headers = some h; caller = if a.shared then h else a.caller }

-- kwargs["headers"] = a new dict
unfoldable pub replace_headers : Dict Atom → Arguments → Arguments
replace_headers h a = record a { headers = some h; shared = false }

-- if value is not None and key not in kwargs: kwargs[key] = value
unfoldable pub default_option {ℓ} : {V : Type ℓ} → String → Option V → Dict V → Dict V
unfolding put
default_option key value d = if has key d then d else put key value d

-- the same for several keys, one after the other
unfoldable pub default_options {ℓ} : {V : Type ℓ} → List (String × Option V) → Dict V → Dict V
unfolding default_option
default_options [] d = d
default_options ((key, value) ∷ rest) d = default_options rest (default_option key value d)
