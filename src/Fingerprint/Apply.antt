-- ===== src/Fingerprint/Apply.antt =====
-- What a profile of cycletls/fingerprints.py puts into a request: `_dynamic_sec_ch_ua` and
-- `apply_to_kwargs`.
use cycletls_python.Base.{
  String, not, ◌&&◌, ◌||◌, List, [], ◌∷◌, Option, none, some, or_default, map, any, ◌==◌,
  if◌then◌else◌,
}
use cycletls_python.Dict.{Dict, update}
use cycletls_python.Text.{Casing, lower, contains, startswith, join}
use cycletls_python.Text.Pattern.{Digits, is_digit, search_group}
use cycletls_python.Values.{Atom, str, bool, Value, atom, list, dict}
use cycletls_python.Request.Cookie.{opt}
use cycletls_python.Request.{put_all}
use cycletls_python.Arguments.{
  Arguments, headers_or_empty, write_headers, replace_headers, default_options,
}
use cycletls_python.Fingerprint.{
  Field, null, text, texts, table, flag, truthy, TlsFingerprint, present, set_flag,
}

-- A value of a profile as an argument of a request.
unfoldable pub to_value : Field → Value
to_value null = atom Atom.null
to_value (text s) = atom (str s)
to_value (texts l) = list (map str l)
to_value (table d) = dict (map (λ e. (e.0, str e.1)) d)
to_value (flag b) = atom (bool b)

-- the text of `name` and `user_agent`, the list of `header_order`
unfoldable pub text_of : Field → String
text_of (text s) = s
text_of _ = ""

unfoldable pub texts_of : Field → List String
texts_of (texts l) = l
texts_of _ = []

-- the entries of `headers`
unfoldable pub table_of : Field → Dict Atom
table_of (table d) = map (λ e. (e.0, str e.1)) d
table_of _ = []

-- "in ua", one after the other
unfoldable pub platform_of : String → String
unfolding contains
platform_of ua =
    if contains ua "Linux"
    then "Linux"
    else if contains ua "Macintosh" || contains ua "Mac OS X"
    then "macOS"
    else if contains ua "Windows"
    then "Windows"
    else if contains ua "Android"
    then "Android"
    else ""

unfoldable pub mobile_of : String → String
unfolding contains
mobile_of ua = if contains ua "Android" || contains ua "Mobile" then "?1" else "?0"

-- the brand by the profile's name in lower case and the user agent
unfoldable pub brand_of : ⦃c : Casing⦄ → String → String → Option String
unfolding contains
brand_of name ua =
    if startswith name "brave"
    then some "Brave"
    else if startswith name "opera" || contains (lower ua) "opr/"
    then some "Opera"
    else if startswith name "edge" || startswith name "msedge"
    then some "Microsoft Edge"
    else if startswith name "chrome"
    then some "Google Chrome"
    else if startswith name "chromium"
    then none
    else if contains ua "Chrome/" && not (contains ua "Chromium/")
    then some "Google Chrome"
    else none

-- r"OPR/(\d+)" with re.IGNORECASE
abbrev opera_prefixes : List String
opera_prefixes = "OPR/" ∷ "OPr/" ∷ "OpR/" ∷ "Opr/" ∷ "oPR/" ∷ "oPr/" ∷ "opR/" ∷ "opr/" ∷ []

-- brand_version
unfoldable pub brand_version : ⦃d : Digits⦄ → String → String → String → String
unfolding search_group
brand_version brand major ua =
    if brand == "Opera" then or_default (search_group is_digit opera_prefixes ua) major else major

-- the value of sec-ch-ua
unfoldable pub sec_ch_ua : ⦃d : Digits⦄ → Option String → String → String → String
unfolding brand_version
sec_ch_ua none major ua = join ("\"Chromium\";v=\"" ∷ major ∷ "\", \"Not/A)Brand\";v=\"99\"" ∷ [])
sec_ch_ua (some brand) major ua = join (
    "\"Chromium\";v=\""
    ∷ major
    ∷ "\", \""
    ∷ brand
    ∷ "\";v=\""
    ∷ brand_version brand major ua
    ∷ "\", \"Not/A)Brand\";v=\"99\""
    ∷ [])

-- f'"{platform}"' if platform else ""
unfoldable pub quoted : String → String
quoted platform = if platform == "" then "" else join ("\"" ∷ platform ∷ "\"" ∷ [])

-- r"(?:Chrome|Chromium|HeadlessChrome)/(\d+)"
abbrev pub chromium_prefixes : List String
chromium_prefixes = "Chrome/" ∷ "Chromium/" ∷ "HeadlessChrome/" ∷ []

-- `if key in self.header_order: result[key] = value`
unfoldable pub listed : List String → String → String → Option String
listed order key value = if any (λ k. k == key) order then some value else none

-- the options that a profile sets, in the order of the code
unfoldable pub profile_options : TlsFingerprint → List (String × Option Value)
unfolding to_value
profile_options f =
    ("ja3", some (to_value f.ja3))
    ∷ ("ja4r", opt to_value (present f.ja4r))
    ∷ ("http2_fingerprint", opt to_value (present f.http2_fingerprint))
    ∷ ("quic_fingerprint", opt to_value (present f.quic_fingerprint))
    ∷ ("user_agent", opt to_value (present f.user_agent))
    ∷ ("header_order", opt to_value (present f.header_order))
    ∷ ("disable_grease", opt to_value (set_flag f.disable_grease))
    ∷ ("force_http1", opt to_value (set_flag f.force_http1))
    ∷ ("force_http3", opt to_value (set_flag f.force_http3))
    ∷ []

-- `if self.headers is not None`: {**self.headers, **request_headers}, a new dict
unfoldable pub apply_headers : Field → Arguments → Arguments
unfolding headers_or_empty replace_headers table_of update
apply_headers null a = a
apply_headers own a = replace_headers (update (table_of own) (headers_or_empty a)) a

-- the computed headers, each where the request has none of its name
unfoldable pub add_dynamic : Dict String → Dict Atom → Dict Atom
unfolding default_options
add_dynamic dynamic headers = default_options (map (λ e. (e.0, some (str e.1))) dynamic) headers

-- `if dynamic_ua:`
unfoldable pub apply_dynamic : Dict String → Arguments → Arguments
unfolding add_dynamic write_headers headers_or_empty
apply_dynamic [] a = a
apply_dynamic (e ∷ es) a = write_headers (add_dynamic (e ∷ es) (headers_or_empty a)) a

module _ ⦃c : Casing⦄ ⦃d : Digits⦄ where
  -- the three headers, each when the order of the headers names it
  unfoldable pub dynamic_fields :
      String → String → List String → String → List (String × Option String)
  unfolding listed sec_ch_ua brand_of platform_of mobile_of quoted
  dynamic_fields name ua order major =
      ("sec-ch-ua", listed order "sec-ch-ua" (sec_ch_ua (brand_of (lower name) ua) major ua))
      ∷ ("sec-ch-ua-mobile", listed order "sec-ch-ua-mobile" (mobile_of ua))
      ∷ ("sec-ch-ua-platform", listed order "sec-ch-ua-platform" (quoted (platform_of ua)))
      ∷ []

  unfoldable pub dynamic_headers : String → String → List String → String → Dict String
  unfolding dynamic_fields
  dynamic_headers name ua order major = put_all (dynamic_fields name ua order major) []

  -- _dynamic_sec_ch_ua; the empty dict stands for None, which its caller treats alike
  unfoldable pub dynamic_sec_ch_ua : TlsFingerprint → Dict String
  unfolding dynamic_headers search_group text_of texts_of truthy
  dynamic_sec_ch_ua f =
      if truthy f.user_agent && truthy f.header_order
      then elim (search_group is_digit chromium_prefixes (text_of f.user_agent)) [
        | none ↦ []
        | some major ↦
            dynamic_headers (text_of f.name) (text_of f.user_agent) (texts_of f.header_order) major
      ]
      else []

  -- apply_to_kwargs
  unfoldable pub apply_to_kwargs : TlsFingerprint → Arguments → Arguments
  unfolding apply_headers apply_dynamic dynamic_sec_ch_ua profile_options default_options
  apply_to_kwargs f a =
      let b = apply_dynamic (dynamic_sec_ch_ua f) (apply_headers f.headers a) in
      record b { options = default_options (profile_options f) b.options }
