-- ===== src/Registry/Plugins.antt =====
-- cycletls/plugins.py: profiles from a directory and from a file, and the template of a profile.
use cycletls_python.Base.{ℕ, suc, String, false, List, [], ◌∷◌, Option, none, some}
use cycletls_python.Dict.{Dict}
use cycletls_python.Errors.{Result, ok, err, ◌>>=◌}
use cycletls_python.Fingerprint.{Field, TlsFingerprint, from_dict, to_dict}
use cycletls_python.Fingerprint.{null, text, texts, flag}
use cycletls_python.Registry.{Profiles, register}

-- one file of a directory: a file that cannot be read or lacks a key is skipped
unfoldable pub load_one : Result TlsFingerprint → ℕ × Profiles → ℕ × Profiles
unfolding register
load_one (err e) s = s
load_one (ok f) (loaded, profiles) = (suc loaded, register f profiles)

-- load_fingerprints_from_dir, of the files of a directory in the order in which it lists them;
-- `err` is a file that cannot be read. How many were loaded, and the profiles.
unfoldable pub load_dir : List (Result (Dict Field)) → ℕ × Profiles → ℕ × Profiles
unfolding from_dict load_one
load_dir [] s = s
load_dir (file ∷ files) s = load_dir files (load_one (file >>= from_dict) s)

-- load_fingerprint_from_file, of the object that stands in the file
unfoldable pub load_fingerprint : Result (Dict Field) → Profiles → Result TlsFingerprint × Profiles
unfolding from_dict register
load_fingerprint file profiles = elim (file >>= from_dict) [
  | err e ↦ (err e, profiles)
  | ok f ↦ (ok f, register f profiles)
]

-- load_fingerprints_from_env: the directory's files, if the variable names one
unfoldable pub load_from_env : Option (List (Result (Dict Field))) → Profiles → ℕ × Profiles
unfolding load_dir
load_from_env none profiles = (0, profiles)
load_from_env (some files) profiles = load_dir files (0, profiles)

-- create_fingerprint_template: the object that is written
unfoldable pub template : String → TlsFingerprint
template name = record {
  name = text name;
  ja3 =
      text
        "771,4865-4866-4867-49195-49199-49196-49200-52393-52392-49171-49172-156-157-47-53,0-23-65281-10-11-35-16-5-13-18-51-45-43-27-17513,29-23-24,0";
  ja4r = null;
  http2_fingerprint = text "1:65536,2:0,3:1000,4:6291456,6:262144|15663105|0|m,a,s,p";
  quic_fingerprint = null;
  user_agent =
      text
        "Mozilla/5.0 (Windows NT 10.0; Win64; x64) AppleWebKit/537.36 (KHTML, like Gecko) Chrome/120.0.0.0 Safari/537.36";
  header_order = texts (
      "host" ∷ "connection" ∷ "user-agent" ∷ "accept" ∷ "accept-encoding" ∷ "accept-language"
      ∷ "cookie" ∷ []);
  headers = null;
  disable_grease = flag false;
  force_http1 = flag false;
  force_http3 = flag false;
}

unfoldable pub written_template : String → Dict Field
unfolding template to_dict
written_template name = to_dict (template name)
