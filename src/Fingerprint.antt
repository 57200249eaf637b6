-- ===== src/Fingerprint.antt =====
-- `TLSFingerprint` of cycletls/fingerprints.py: a profile and its dict.
pub mod Laws
pub mod Tests
pub mod Apply
pub mod Precedence
pub mod Computed
pub mod ApplyTests
use cycletls_python.Base.{
  String, Bool, true, false, not, List, [], ◌∷◌, Option, none, some, or_default, ◌==◌,
  if◌then◌else◌,
}
use cycletls_python.Dict.{Dict, lookup, set, remove, has, keys}
use cycletls_python.Errors.{Error, error, key_error, Result, ok, err, ◌>>=◌}
use cycletls_python.Values.{is_nil}
use cycletls_python.Request.{put_all}

-- A value of a profile, as it stands in a JSON file.
pub data Field : Type 0 where
  null : Field
  text : String → Field
  texts : List String → Field
  table : Dict String → Field
  flag : Bool → Field

-- bool(value)
unfoldable pub truthy : Field → Bool
truthy null = false
truthy (text s) = not (s == "")
truthy (texts l) = not (is_nil l)
truthy (table d) = not (is_nil d)
truthy (flag b) = b

pub record TlsFingerprint : Type 0 where
  pub name : Field
  pub ja3 : Field
  pub ja4r : Field
  pub http2_fingerprint : Field
  pub quic_fingerprint : Field
  pub user_agent : Field
  pub header_order : Field
  pub headers : Field
  pub disable_grease : Field
  pub force_http1 : Field
  pub force_http3 : Field

-- data[key]
unfoldable pub required : String → Dict Field → Result Field
unfolding lookup
required key d = elim (lookup key d) [ none ↦ err (error key_error key) | some v ↦ ok v ]

-- data.get(key, default)
abbrev pub get_or : String → Field → Dict Field → Field
get_or key default d = or_default (lookup key d) default

-- from_dict
unfoldable pub from_dict : Dict Field → Result TlsFingerprint
unfolding required
from_dict d = do
  name ← required "name" d
  ja3 ← required "ja3" d
  ok (record {
    name = name;
    ja3 = ja3;
    ja4r = get_or "ja4r" null d;
    http2_fingerprint = get_or "http2_fingerprint" null d;
    quic_fingerprint = get_or "quic_fingerprint" null d;
    user_agent = get_or "user_agent" null d;
    header_order = get_or "header_order" null d;
    headers = get_or "headers" null d;
    disable_grease = get_or "disable_grease" (flag false) d;
    force_http1 = get_or "force_http1" (flag false) d;
    force_http3 = get_or "force_http3" (flag false) d;
  })

-- `if x is not None`
abbrev pub present : Field → Option Field
present null = none
present (text s) = some (text s)
present (texts l) = some (texts l)
present (table d) = some (table d)
present (flag b) = some (flag b)

-- `if x: result[key] = True`
abbrev pub set_flag : Field → Option Field
set_flag f = if truthy f then some (flag true) else none

-- the keys that may be left out, in the order of to_dict
unfoldable pub optional_fields : TlsFingerprint → List (String × Option Field)
optional_fields f =
    ("ja4r", present f.ja4r)
    ∷ ("http2_fingerprint", present f.http2_fingerprint)
    ∷ ("quic_fingerprint", present f.quic_fingerprint)
    ∷ ("user_agent", present f.user_agent)
    ∷ ("header_order", present f.header_order)
    ∷ ("headers", present f.headers)
    ∷ ("disable_grease", set_flag f.disable_grease)
    ∷ ("force_http1", set_flag f.force_http1)
    ∷ ("force_http3", set_flag f.force_http3)
    ∷ []

-- to_dict
unfoldable pub to_dict : TlsFingerprint → Dict Field
unfolding optional_fields
to_dict f = put_all (optional_fields f) (("name", f.name) ∷ ("ja3", f.ja3) ∷ [])
