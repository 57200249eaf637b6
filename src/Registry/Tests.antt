-- ===== src/Registry/Tests.antt =====
-- Runs of Registry at concrete profiles.
use cycletls_python.Base.{
  map, ◌&&◌, none, String, true, false, List, [], ◌∷◌, some, ◌≡◌, refl, keep, ◌⊎◌, if◌then◌else◌,
}
use cycletls_python.Dict.{lookup, set, has, IsDict, values}
use cycletls_python.Errors.{ok, IsErr}
use cycletls_python.Text.{ascii, endswith, join}
use cycletls_python.Registry.Trackme.{TrackmePayload, browsers, load_trackme}
use cycletls_python.Registry.Imports.{described, import_registers}
use cycletls_python.Text.Pattern.{Digits, ascii_digits, find_numbers}
use cycletls_python.Fingerprint.{null, truthy, text, flag, TlsFingerprint}
use cycletls_python.Registry.{
  Profiles, name_of, register_many, get_or_none, latest, version_tuple, load_from_file,
  saved_document, chrome, linux,
}
use cycletls_python.Registry.Laws.{
  Change, register_one, register_several, unregister_one, load_captures, changes, registry-IsValid,
}
use cycletls_python.Registry.Latest.{IsGreatest, wanted, latest_lem}
use cycletls_python.Registry.Files.{saved_and_loaded}

abbrev digits : Digits
digits = ascii_digits

abbrev profile : String → TlsFingerprint
profile name = record {
  name = text name;
  ja3 = text "771,4865,0,29,0";
  ja4r = null;
  http2_fingerprint = null;
  quic_fingerprint = null;
  user_agent = null;
  header_order = null;
  headers = null;
  disable_grease = flag false;
  force_http1 = flag true;
  force_http3 = flag false;
}

abbrev profiles : Profiles
profiles =
    ("chrome_99_linux", profile "chrome_99_linux")
    ∷ ("chrome_149_linux", profile "chrome_149_linux")
    ∷ ("chromium_151_0_linux", profile "chromium_151_0_linux")
    ∷ ("chrome_150_mac", profile "chrome_150_mac")
    ∷ []

abbrev captures : TrackmePayload
captures = browsers (
    (
      "chrome",
      some (record { fields = ("ja3", text "771") ∷ ("ua", text "Chrome/149.0") ∷ []; raw = none }),
    )
    ∷ [])

abbrev all_changes : List Change
all_changes =
    register_one (profile "b")
    ∷ register_several (profile "a" ∷ profile "b" ∷ [])
    ∷ unregister_one "a"
    ∷ load_captures captures
    ∷ []

registered :
    register_many (profile "b" ∷ profile "a" ∷ profile "b" ∷ []) []
    ≡ ("b", profile "b") ∷ ("a", profile "a") ∷ []
unfolding register_many set
registered = refl

-- The numbers of a name are compared as numbers.
latest_on_linux :
    latest (λ l. "") ⦃d = digits⦄ (some chrome) (some linux) profiles
    ≡ ok (profile "chrome_149_linux")
unfolding latest version_tuple find_numbers ascii_digits endswith join
latest_on_linux = refl

registry-IsValid_example :
    IsDict (changes ⦃casing = ascii⦄ [] all_changes)
    × ((k : String) (f : TlsFingerprint)
        → get_or_none k (changes ⦃casing = ascii⦄ [] all_changes) ≡ some f
        → name_of f ≡ k)
registry-IsValid_example = registry-IsValid ⦃casing = ascii⦄ all_changes

import_registers_example :
    (loaded : List TlsFingerprint) × (load_trackme ⦃c = ascii⦄ captures profiles
      ≡ (ok loaded, register_many loaded profiles))
    × (map (λ f. (f.name, f.ja3)) loaded
        ≡ keep (λ e. truthy e.0 && truthy e.1) (described ⦃c = ascii⦄ captures))
import_registers_example = import_registers ⦃c = ascii⦄ captures profiles

latest_lem_example :
    let found = keep (wanted (some chrome) (some linux)) (values profiles) in
    let result = latest (λ l. "") ⦃d = digits⦄ (some chrome) (some linux) profiles in
    ((found ≡ []) × IsErr result)
    ⊎ ((best : TlsFingerprint) × (result ≡ ok best)
        × (wanted (some chrome) (some linux) best ≡ true)
        × IsGreatest ⦃d = digits⦄ best found)
latest_lem_example = latest_lem ⦃d = digits⦄ (λ l. "") (some chrome) (some linux) profiles

saved_and_loaded_example :
    let saved : Profiles = ("b", profile "b") ∷ ("a", profile "a") ∷ [] in
    let (result, after) = load_from_file "p.json" (saved_document saved) false profiles in
    ((loaded : List TlsFingerprint) × (result ≡ ok loaded))
    × ((k : String)
        → get_or_none k after
          ≡ (if has k saved then get_or_none k saved else get_or_none k profiles))
unfolding lookup name_of
saved_and_loaded_example =
    saved_and_loaded "p.json" false (("b", profile "b") ∷ ("a", profile "a") ∷ []) profiles
      ((refl, (refl, tt)), (refl, (refl, tt)))
      (
        ((false, refl), (true, refl), (false, refl)),
        (((false, refl), (true, refl), (false, refl)), tt),
      )
