-- ===== src/Registry/Imports.antt =====
-- What the import of captures in cycletls/fingerprints.py does to the registry.
use cycletls_python.Base.{
  Bool, Option, none, map, keep, ap, ◌∙◌, if◌then◌else◌, String, true, false, ◌&&◌, List, [], ◌∷◌,
  some, ◌≡◌, refl, Bool-cases, Option-cases, inl, inr, and_parts,
}
use cycletls_python.Dict.{Dict, lookup, has}
use cycletls_python.Errors.{ok}
use cycletls_python.Text.{Casing}
use cycletls_python.Fingerprint.{
  Field, null, text, flag, truthy, get_or, TlsFingerprint, from_dict, required,
}
use cycletls_python.Registry.{Profiles, objects, register, register_many}
use cycletls_python.Fingerprint.Apply.{text_of}
use cycletls_python.Registry.Trackme.{
  Capture, TrackmePayload, fingerprints, browsers, extract_version, build_name, agent_of,
  normalize_capture, normalize_browsers, normalize_entry, normalize_entries, normalize_payload,
  load_entries, continue_with, load_trackme,
}

truthy-found :
    (k : String) (d : Dict Field)
    → truthy (get_or k null d) ≡ true
    → (v : Field) × (lookup k d ≡ some v)
unfolding truthy
truthy-found k d h = elim (Option-cases (lookup k d)) [
  | inl e ↦ let n : false ≡ true = rw e at h in cc
  | inr (v, e) ↦ (v, e)
]

get_or-found : (k : String) (d : Dict Field) (v : Field) → lookup k d ≡ some v → v ≡ get_or k null d
get_or-found k d v e = rw e refl

-- The name and the JA3 of an entry.
abbrev identity : Dict Field → Field × Field
identity d = (get_or "name" null d, get_or "ja3" null d)

abbrev both : Field × Field → Bool
both e = truthy e.0 && truthy e.1

abbrev made_of : TlsFingerprint → Field × Field
made_of f = (f.name, f.ja3)

from_dict-ok :
    (d : Dict Field)
    → both (identity d) ≡ true
    → (f : TlsFingerprint) × (from_dict d ≡ ok f) × (made_of f ≡ identity d)
unfolding from_dict required
from_dict-ok d h =
    let (named, hashed) = and_parts _ _ h in
    let (name, e) = truthy-found "name" d named in
    let (ja3, e') = truthy-found "ja3" d hashed in
    (
      record {
        name = name;
        ja3 = ja3;
        ja4r = get_or "ja4r" null d;
        http2_fingerprint = get_or "http2_fingerprint" null d;
        quic_fingerprint = get_or "quic_fingerprint" null d;
        user_agent = get_or "user_agent" null d;
        header_order = get_or "header_order" null d;
        headers = get_or "headers" null d;
        disable_grease = get_or "disable_grease" (flag false) d;
        force_http1 = get_or "force_http1" (flag false) d;
        force_http3 = get_or "force_http3" (flag false) d;
      },
      rw (e, e', from_dict, required) refl,
      (λ i. (get_or-found "name" d name e i, get_or-found "ja3" d ja3 e' i)),
    )

abbrev Registers : List (Dict Field) → Profiles → Type 0
Registers ds profiles =
    (loaded : List TlsFingerprint) × (load_entries ds profiles
      ≡ (ok loaded, register_many loaded profiles))
    × (map made_of loaded ≡ keep both (map identity ds))

load_entries-Registers : (ds : List (Dict Field)) (profiles : Profiles) → Registers ds profiles
unfolding load_entries register_many continue_with
load_entries-Registers [] profiles = ([], refl, refl)
load_entries-Registers (d ∷ ds) profiles = elim (Bool-cases (both (identity d))) [
  | inl e ↦
      let (f, made, same) = from_dict-ok d e in
      let (loaded, others, kept) = load_entries-Registers ds (register f profiles) in
      (f ∷ loaded, rw e (rw made (rw others refl)), rw (e, same, kept) refl)
  | inr e ↦
      let (loaded, others, kept) = load_entries-Registers ds profiles in
      (loaded, rw e others, rw e kept)
]

module _ ⦃c : Casing⦄ where
  -- The name and the JA3 that an entry of the older format stands for: the name is made of the
  -- browser and of its version in the user agent; an entry that reports an error stands for none.
  unfoldable described_captures : List (String × Option Capture) → List (Field × Field)
  described_captures [] = []
  described_captures ((browser, none) ∷ rest) = described_captures rest
  described_captures ((browser, some capture) ∷ rest) =
      let others = described_captures rest in
      if has "error" capture.fields
      then others
      else (
        text (build_name browser (extract_version browser (text_of (agent_of capture)))),
        get_or "ja3" null capture.fields,
      )
        ∷ others

  -- The names and the JA3s of the file's entries that are objects, in their order.
  unfoldable pub described : TrackmePayload → List (Field × Field)
  unfolding described_captures
  described (fingerprints entries) = map identity (objects entries)
  described (browsers captures) = described_captures captures

  normalize_entries-described :
      (ds : List (Dict Field)) → map identity (normalize_entries ds) ≡ map identity ds
  unfolding normalize_entries normalize_entry lookup
  normalize_entries-described [] = refl
  normalize_entries-described (d ∷ ds) = ap (λ l. identity d ∷ l) (normalize_entries-described ds)

  normalize_browsers-described :
      (captures : List (String × Option Capture))
      → map identity (normalize_browsers captures) ≡ described_captures captures
  unfolding normalize_browsers normalize_capture lookup described_captures
  normalize_browsers-described [] = refl
  normalize_browsers-described ((browser, none) ∷ rest) = normalize_browsers-described rest
  normalize_browsers-described ((browser, some capture) ∷ rest) =
      elim (Bool-cases (has "error" capture.fields)) [
        | inl e ↦ rw e (normalize_browsers-described rest)
        | inr e ↦ rw (e, normalize_browsers-described rest) refl
      ]

  normalize_payload-described :
      (payload : TrackmePayload) → map identity (normalize_payload payload) ≡ described payload
  unfolding normalize_payload described
  normalize_payload-described (fingerprints entries) = normalize_entries-described (objects entries)
  normalize_payload-described (browsers captures) = normalize_browsers-described captures

  -- The import of a file of either format, its values of the documented types, returns. It makes one
  -- profile for each entry that has a name and a JA3, as `described` reads them from the file, and
  -- in the order of the file; these profiles are returned, and they are registered.
  pub import_registers :
      (payload : TrackmePayload) (profiles : Profiles)
      → (loaded : List TlsFingerprint) × (load_trackme payload profiles
          ≡ (ok loaded, register_many loaded profiles))
        × (map (λ f. (f.name, f.ja3)) loaded
            ≡ keep (λ e. truthy e.0 && truthy e.1) (described payload))
  unfolding load_trackme
  import_registers payload profiles =
      let (loaded, returned, kept) = load_entries-Registers (normalize_payload payload) profiles in
      (loaded, returned, kept ∙ ap (keep both) (normalize_payload-described payload))
