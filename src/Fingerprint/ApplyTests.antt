-- ===== src/Fingerprint/ApplyTests.antt =====
-- Runs of `apply_to_kwargs` at concrete profiles.
use cycletls_python.Base.{String, false, [], ◌∷◌, some, or_else, ◌≡◌, refl}
use cycletls_python.Dict.{Dict, lookup}
use cycletls_python.Text.{Casing, ascii, contains}
use cycletls_python.Text.Pattern.{Digits, ascii_digits, search_group}
use cycletls_python.Values.{Atom, str, text as value_text}
use cycletls_python.Request.Cookie.{opt}
use cycletls_python.Arguments.{arguments, headers_or_empty}
use cycletls_python.Arguments.Laws.{offered}
use cycletls_python.Fingerprint.{null, text, texts, flag, TlsFingerprint}
use cycletls_python.Fingerprint.Apply.{
  apply_to_kwargs, dynamic_sec_ch_ua, profile_options, table_of,
}
use cycletls_python.Fingerprint.Precedence.{apply_to_kwargs_lem}
use cycletls_python.Fingerprint.Computed.{android_is_linux}

abbrev casing : Casing
casing = ascii

abbrev digits : Digits
digits = ascii_digits

abbrev profile : String → String → TlsFingerprint
profile name ua = record {
  name = text name;
  ja3 = text "771,4865,0,29,0";
  ja4r = null;
  http2_fingerprint = null;
  quic_fingerprint = null;
  user_agent = text ua;
  header_order = texts ("sec-ch-ua-mobile" ∷ "sec-ch-ua-platform" ∷ []);
  headers = null;
  disable_grease = flag false;
  force_http1 = flag false;
  force_http3 = flag false;
}

abbrev phone : TlsFingerprint
phone = profile "chrome_android" "(Linux; Android 13) Chrome/113.0"

abbrev desktop : TlsFingerprint
desktop = profile "chrome_149_win" "(Windows NT 10.0) Chrome/149.0"

abbrev own : Dict Atom
own = ("accept", str "*/*") ∷ []

apply_to_kwargs_lem_example :
    let a = arguments (("ja3", value_text "x") ∷ []) (some own) in
    let after = apply_to_kwargs ⦃c = casing⦄ ⦃d = digits⦄ phone a in
    (lookup "ja3" after.options
      ≡ or_else
          (lookup "ja3" (("ja3", value_text "x") ∷ []))
          (offered "ja3" (profile_options phone)))
    × (lookup "ja3" (headers_or_empty after)
        ≡ or_else (lookup "ja3" own) (
            or_else
              (lookup "ja3" (table_of null))
              (opt str (lookup "ja3" (dynamic_sec_ch_ua ⦃c = casing⦄ ⦃d = digits⦄ phone)))))
unfolding arguments headers_or_empty lookup
apply_to_kwargs_lem_example =
    apply_to_kwargs_lem ⦃c = casing⦄ ⦃d = digits⦄ phone
      (arguments (("ja3", value_text "x") ∷ []) (some own)) "ja3" (refl, tt)

android_is_linux_test :
    (lookup "sec-ch-ua-mobile" (dynamic_sec_ch_ua ⦃c = casing⦄ ⦃d = digits⦄ phone) ≡ some "?1")
    × (lookup "sec-ch-ua-platform" (dynamic_sec_ch_ua ⦃c = casing⦄ ⦃d = digits⦄ phone)
        ≡ some "\"Linux\"")
unfolding search_group ascii_digits contains
android_is_linux_test =
    android_is_linux ⦃c = casing⦄ ⦃d = digits⦄ phone "(Linux; Android 13) Chrome/113.0"
      ("sec-ch-ua-mobile" ∷ "sec-ch-ua-platform" ∷ []) "113" refl refl refl refl refl refl refl
