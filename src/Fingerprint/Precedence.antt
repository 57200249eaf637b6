-- ===== src/Fingerprint/Precedence.antt =====
-- What a request asks for itself comes before a profile's values, and those before the headers
-- that cycletls/fingerprints.py computes.
use cycletls_python.Base.{
  String, [], ◌∷◌, Option, none, some, or_else, or_else_assoc, map, ◌≡◌, refl, sym, ap, ◌∙◌,
  if◌then◌else◌, is_some,
}
use cycletls_python.Dict.{Dict, lookup, has, update, IsDict}
use cycletls_python.Dict.Laws.{lookup-update}
use cycletls_python.Text.{Casing}
use cycletls_python.Text.Pattern.{Digits}
use cycletls_python.Values.{Atom, Value, str}
use cycletls_python.Request.Cookie.{opt}
use cycletls_python.Arguments.{Arguments, arguments, headers_or_empty, write_headers}
use cycletls_python.Arguments.Laws.{or_else-none, offered, lookup-default_options, offered-dict}
use cycletls_python.Fingerprint.{Field, null, text, texts, table, flag, TlsFingerprint}
use cycletls_python.Fingerprint.Apply.{
  apply_to_kwargs, apply_headers, apply_dynamic, add_dynamic, dynamic_sec_ch_ua, profile_options,
  table_of,
}

has-or_else {ℓ} :
    {V : Type ℓ} (k : String) (d : Dict V) (o : Option V)
    → (if has k d then lookup k d else o) ≡ or_else (lookup k d) o
unfolding has
has-or_else k d o = by_case (lookup k d)
  where
    by_case : (x : Option _) → (if is_some x then x else o) ≡ or_else x o
    by_case none = refl
    by_case (some a) = refl

-- {**base, **own}
step :
    (base own : Dict Atom) (k : String)
    → IsDict own
    → lookup k (update base own) ≡ or_else (lookup k own) (lookup k base)
step base own k h = lookup-update k base own h ∙ has-or_else k own (lookup k base)

apply_headers_lem :
    (own : Field) (a : Arguments) (k : String)
    → IsDict (headers_or_empty a)
    → lookup k (headers_or_empty (apply_headers own a))
      ≡ or_else (lookup k (headers_or_empty a)) (lookup k (table_of own))
unfolding apply_headers headers_or_empty lookup table_of
apply_headers_lem null a k h = sym (or_else-none _)
apply_headers_lem (text s) a k h = step [] (headers_or_empty a) k h
apply_headers_lem (texts l) a k h = step [] (headers_or_empty a) k h
apply_headers_lem (table t) a k h = step (table_of (table t)) (headers_or_empty a) k h
apply_headers_lem (flag b) a k h = step [] (headers_or_empty a) k h

apply_dynamic_lem :
    (dynamic : Dict String) (a : Arguments) (k : String)
    → lookup k (headers_or_empty (apply_dynamic dynamic a))
      ≡ or_else (lookup k (headers_or_empty a)) (opt str (lookup k dynamic))
unfolding apply_dynamic headers_or_empty lookup add_dynamic write_headers
apply_dynamic_lem [] a k = sym (or_else-none _)
apply_dynamic_lem (e ∷ es) a k =
    lookup-default_options k (map (λ x. (x.0, some (str x.1))) (e ∷ es)) (headers_or_empty a)
    ∙ ap (or_else (lookup k (headers_or_empty a))) (offered-dict str k (e ∷ es))

apply_headers-options : (own : Field) (a : Arguments) → (apply_headers own a).options ≡ a.options
unfolding apply_headers
apply_headers-options null a = refl
apply_headers-options (text s) a = refl
apply_headers-options (texts l) a = refl
apply_headers-options (table t) a = refl
apply_headers-options (flag b) a = refl

apply_dynamic-options :
    (es : Dict String) (a : Arguments) → (apply_dynamic es a).options ≡ a.options
unfolding apply_dynamic write_headers
apply_dynamic-options [] a = refl
apply_dynamic-options (e ∷ es) a = refl

-- For every option and every header: what the request itself gives counts, then what the profile
-- has, and for a header at last what is computed from the profile's user agent.
pub apply_to_kwargs_lem :
    ⦃c : Casing⦄ ⦃d : Digits⦄ (f : TlsFingerprint) (a : Arguments) (k : String)
    → IsDict (headers_or_empty a)
    → (lookup k (apply_to_kwargs f a).options
        ≡ or_else (lookup k a.options) (offered k (profile_options f)))
      × (lookup k (headers_or_empty (apply_to_kwargs f a))
          ≡ or_else
              (lookup k (headers_or_empty a))
              (or_else (lookup k (table_of f.headers)) (opt str (lookup k (dynamic_sec_ch_ua f)))))
unfolding apply_to_kwargs
apply_to_kwargs_lem f a k h = (
  lookup-default_options k (profile_options f) _
      ∙ ap (λ o. or_else (lookup k o) (offered k (profile_options f)))
          (apply_dynamic-options (dynamic_sec_ch_ua f) (apply_headers f.headers a)
            ∙ apply_headers-options f.headers a),
  apply_dynamic_lem (dynamic_sec_ch_ua f) (apply_headers f.headers a) k
      ∙ ap (λ o. or_else o (opt str (lookup k (dynamic_sec_ch_ua f))))
          (apply_headers_lem f.headers a k h)
      ∙ or_else_assoc (lookup k (headers_or_empty a)) (lookup k (table_of f.headers)) _,
)

module _ ⦃c : Casing⦄ ⦃d : Digits⦄ (f : TlsFingerprint) (no_headers : f.headers ≡ null)
    (options : Dict Value) (e : String × Atom) (own : Dict Atom) (u : IsDict (e ∷ own)) where
  abbrev sent : Arguments
  sent = apply_to_kwargs f (arguments options (some (e ∷ own)))
