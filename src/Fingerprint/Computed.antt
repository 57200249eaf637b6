-- ===== src/Fingerprint/Computed.antt =====
-- The headers that `_dynamic_sec_ch_ua` of cycletls/fingerprints.py computes.
use cycletls_python.Base.{
  String, true, false, not, List, [], ◌∷◌, some, any, ◌≡◌, refl, ◌∙◌, ap, ◌==◌, eq_iff, arith,
  Bool-cases, inl, inr,
}
use cycletls_python.Dict.{lookup}
use cycletls_python.Text.{Casing, lower, contains, join}
use cycletls_python.Text.Pattern.{Digits, is_digit, search_group}
use cycletls_python.Values.{is_nil}
use cycletls_python.Request.Laws.{put_all_found, Absent}
use cycletls_python.Fingerprint.{text, texts, truthy, TlsFingerprint}
use cycletls_python.Fingerprint.Apply.{
  dynamic_fields, dynamic_headers, dynamic_sec_ch_ua, chromium_prefixes, listed, platform_of,
  mobile_of, quoted, sec_ch_ua, brand_of, text_of, texts_of,
}

abbrev pub Lists : List String → String → Type 0
Lists order key = any (λ k. k == key) order ≡ true

nonempty_text : (ua p : String) → (p == "") ≡ false → contains ua p ≡ true → not (ua == "") ≡ true
unfolding contains
nonempty_text ua p q h = elim (Bool-cases (ua == "")) [
  | inl e ↦ absurd (ground (arith, rw ((eq_iff ua "").0 e) at h))
  | inr e ↦ rw e refl
]

nonempty_list : (order : List String) (key : String) → Lists order key → not (is_nil order) ≡ true
unfolding is_nil
nonempty_list [] key h = cc
nonempty_list (k ∷ ks) key h = refl

module _ ⦃c : Casing⦄ ⦃d : Digits⦄ where
  -- The three headers, each with its value where the order of the headers names it.
  dynamic_headers_lem :
      (name ua : String) (order : List String) (major : String)
      → let found = dynamic_headers name ua order major in
        (lookup "sec-ch-ua" found
          ≡ listed order "sec-ch-ua" (sec_ch_ua (brand_of (lower name) ua) major ua))
        × (lookup "sec-ch-ua-mobile" found ≡ listed order "sec-ch-ua-mobile" (mobile_of ua))
        × (lookup "sec-ch-ua-platform" found
            ≡ listed order "sec-ch-ua-platform" (quoted (platform_of ua)))
  unfolding dynamic_headers lookup Absent
  dynamic_headers_lem name ua order major =
      let (p, (q, (r, _))) =
        put_all_found (dynamic_fields name ua order major) [] (search depth 20) (search depth 20) in
      (p, q, r)

  dynamic_lem :
      (f : TlsFingerprint) (ua : String) (order : List String) (major : String)
      → f.user_agent ≡ text ua
      → f.header_order ≡ texts order
      → not (ua == "") ≡ true
      → not (is_nil order) ≡ true
      → search_group is_digit chromium_prefixes ua ≡ some major
      → dynamic_sec_ch_ua f ≡ dynamic_headers (text_of f.name) ua order major
  unfolding dynamic_sec_ch_ua truthy text_of texts_of
  dynamic_lem f ua order major p q h k m =
      rw (p, q, h, k, m)
        (ap (λ u. dynamic_headers (text_of f.name) (text_of u) (texts_of f.header_order) major) p
          ∙ ap (λ o. dynamic_headers (text_of f.name) ua (texts_of o) major) q)

  -- Chrome on Android, whose user agent names Linux and Android, is announced as a mobile browser
  -- on the platform Linux.
  pub android_is_linux :
      (f : TlsFingerprint) (ua : String) (order : List String) (major : String)
      → f.user_agent ≡ text ua
      → f.header_order ≡ texts order
      → search_group is_digit chromium_prefixes ua ≡ some major
      → contains ua "Android" ≡ true
      → contains ua "Linux" ≡ true
      → Lists order "sec-ch-ua-mobile"
      → Lists order "sec-ch-ua-platform"
      → (lookup "sec-ch-ua-mobile" (dynamic_sec_ch_ua f) ≡ some "?1")
        × (lookup "sec-ch-ua-platform" (dynamic_sec_ch_ua f) ≡ some "\"Linux\"")
  unfolding listed platform_of mobile_of quoted join
  android_is_linux f ua order major p q m android linux has_mobile has_platform =
      let whole =
        dynamic_lem f ua order major p q (nonempty_text ua "Linux" refl linux)
          (nonempty_list order "sec-ch-ua-mobile" has_mobile) m in
      let (_, mobile, platform) = dynamic_headers_lem (text_of f.name) ua order major in
      (
        ap (lookup "sec-ch-ua-mobile") whole ∙ mobile ∙ rw (has_mobile, android) refl,
        ap (lookup "sec-ch-ua-platform") whole ∙ platform ∙ rw (has_platform, linux) refl,
      )
