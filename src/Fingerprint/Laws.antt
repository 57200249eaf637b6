-- ===== src/Fingerprint/Laws.antt =====
-- A profile of cycletls/fingerprints.py written and read back.
use cycletls_python.Base.{
  String, Bool, true, false, [], ◌∷◌, Option, some, or_default, ◌≡◌, refl, All,
}
use cycletls_python.Dict.{Dict, lookup}
use cycletls_python.Errors.{ok}
use cycletls_python.Request.Laws.{Absent, put_all_found, lookup-put_all}
use cycletls_python.Fingerprint.{
  Field, null, text, texts, table, flag, truthy, TlsFingerprint, from_dict, to_dict,
  optional_fields, present, set_flag, required,
}

fixed : TlsFingerprint → Dict Field
fixed f = ("name", f.name) ∷ ("ja3", f.ja3) ∷ []

optional_fields-found :
    (f : TlsFingerprint) → All (λ e. lookup e.0 (to_dict f) ≡ e.1) (optional_fields f)
unfolding to_dict optional_fields lookup Absent
optional_fields-found f =
    put_all_found (optional_fields f) (("name", f.name) ∷ ("ja3", f.ja3) ∷ []) (search depth 20)
      (search depth 20)

read_present : (x : Field) (o : Option Field) → o ≡ present x → or_default o null ≡ x
read_present null _ e = rw e refl
read_present (text _) _ e = rw e refl
read_present (texts _) _ e = rw e refl
read_present (table _) _ e = rw e refl
read_present (flag _) _ e = rw e refl

-- A flag of a profile is a Boolean.
abbrev pub IsFlag : Field → Type 0
IsFlag x = (b : Bool) × (x ≡ flag b)

read_flag :
    (x : Field) (o : Option Field) → IsFlag x → o ≡ set_flag x → or_default o (flag false) ≡ x
unfolding truthy
read_flag x o (true, e) p = rw (p, e) refl
read_flag x o (false, e) p = rw (p, e) refl

required-found :
    (k : String) (v : Field) (d : Dict Field) → lookup k d ≡ some v → required k d ≡ ok v
unfolding required
required-found k v d h = rw (required, h) refl

-- the keys that are always there
pub name-found : (f : TlsFingerprint) → lookup "name" (to_dict f) ≡ some f.name
unfolding to_dict optional_fields lookup
name-found f =
    lookup-put_all "name" (optional_fields f) (("name", f.name) ∷ ("ja3", f.ja3) ∷ []) refl

pub ja3-found : (f : TlsFingerprint) → lookup "ja3" (to_dict f) ≡ some f.ja3
unfolding to_dict optional_fields lookup
ja3-found f = lookup-put_all "ja3" (optional_fields f) (("name", f.name) ∷ ("ja3", f.ja3) ∷ []) refl

-- A profile whose flags are Booleans, written by `to_dict` and read by `from_dict`, is that
-- profile again, although `to_dict` leaves out the fields that are None and the flags that are
-- False.
pub round_trip :
    (f : TlsFingerprint)
    → IsFlag f.disable_grease
    → IsFlag f.force_http1
    → IsFlag f.force_http3
    → from_dict (to_dict f) ≡ ok f
unfolding from_dict optional_fields
round_trip f g h k =
    let (a, (b, (c, (d, (e, (i, (l, (m, (n, _))))))))) = optional_fields-found f in
    rw
      (
        required-found "name" f.name (to_dict f) (name-found f),
        required-found "ja3" f.ja3 (to_dict f) (ja3-found f),
        read_present f.ja4r _ a,
        read_present f.http2_fingerprint _ b,
        read_present f.quic_fingerprint _ c,
        read_present f.user_agent _ d,
        read_present f.header_order _ e,
        read_present f.headers _ i,
        read_flag f.disable_grease _ g l,
        read_flag f.force_http1 _ h m,
        read_flag f.force_http3 _ k n,
      )
      refl
