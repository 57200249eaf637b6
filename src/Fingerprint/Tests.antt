-- ===== src/Fingerprint/Tests.antt =====
-- Runs of Fingerprint at a concrete profile.
use cycletls_python.Base.{true, false, [], ◌∷◌, ◌≡◌, refl}
use cycletls_python.Errors.{ok}
use cycletls_python.Dict.{set}
use cycletls_python.Request.{put_all}
use cycletls_python.Fingerprint.{
  null, text, texts, flag, TlsFingerprint, truthy, from_dict, to_dict,
}
use cycletls_python.Fingerprint.Laws.{round_trip}

abbrev chrome : TlsFingerprint
chrome = record {
  name = text "chrome_1";
  ja3 = text "771,4865,0,29,0";
  ja4r = null;
  http2_fingerprint = text "1:65536|15663105|0|m,a,s,p";
  quic_fingerprint = null;
  user_agent = text "Mozilla/5.0";
  header_order = texts ("host" ∷ "accept" ∷ []);
  headers = null;
  disable_grease = flag true;
  force_http1 = flag false;
  force_http3 = flag false;
}

written :
    to_dict chrome
    ≡ ("name", text "chrome_1")
      ∷ ("ja3", text "771,4865,0,29,0")
      ∷ ("http2_fingerprint", text "1:65536|15663105|0|m,a,s,p")
      ∷ ("user_agent", text "Mozilla/5.0")
      ∷ ("header_order", texts ("host" ∷ "accept" ∷ []))
      ∷ ("disable_grease", flag true)
      ∷ []
unfolding to_dict put_all truthy set
written = refl

round_trip_example : from_dict (to_dict chrome) ≡ ok chrome
round_trip_example = round_trip chrome (true, refl) (false, refl) (false, refl)
