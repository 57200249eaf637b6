-- ===== src/Registry/Trackme.antt =====
-- The import of trackme captures in cycletls/fingerprints.py. A capture has the documented types; its
-- parts that are tested with isinstance may have others.
use cycletls_python.Base.{
  String, false, not, ◌&&◌, ◌||◌, List, [], ◌∷◌, Option, none, some, or_default, ◌==◌, eqb,
  if◌then◌else◌, ◌≡◌, refl,
}
use cycletls_python.Dict.{Dict, has}
use cycletls_python.Errors.{Result, ok, err, ◌>>=◌}
use cycletls_python.Text.{Casing, ascii, lower, lstrip, rstrip, startswith, contains, join}
use cycletls_python.Text.Strip.{drop_spaces, drop_last_spaces, is_alphanumeric, replace_runs}
use cycletls_python.Text.Pattern.{span, search_group, is_version_char}
use cycletls_python.Values.{is_nil}
use cycletls_python.Fingerprint.{
  Field, null, text, texts, truthy, get_or, TlsFingerprint, from_dict,
}
use cycletls_python.Fingerprint.Apply.{text_of}
use cycletls_python.Registry.{Profiles, Entry, Document, objects, register, saved_document}

-- A frame that was sent: its type, and its headers where they are a list; a header that is no
-- text is none.
pub record Frame : Type 0 where
  pub frame_type : Option String
  pub headers : Option (List (Option String))

-- `raw`: its user agent, and the frames where they are a list; a frame that is no object is none.
pub record Raw : Type 0 where
  pub user_agent : Field
  pub sent_frames : Option (List (Option Frame))

-- An entry of the older format.
pub record Capture : Type 0 where
  pub fields : Dict Field
  pub raw : Option Raw

-- A file of either format, whose values have the documented types: a document that is no object, an
-- `http2` that is no object and a name or a user agent that is no text, which raise, are left out.
-- An entry of the older format that is no object is none.
pub data TrackmePayload : Type 0 where
  fingerprints : List Entry → TrackmePayload
  browsers : List (String × Option Capture) → TrackmePayload

-- a or b, of two entries of a dict
unfoldable pub either : String → String → Dict Field → Field
unfolding truthy
either first second d =
    if truthy (get_or first null d) then get_or first null d else get_or second null d

module _ ⦃c : Casing⦄ where
  -- the name of a header, where it has one
  unfoldable pub header_name : Option String → Option String
  unfolding span drop_spaces drop_last_spaces contains
  header_name none = none
  header_name (some header) =
      if startswith header ":" || not (contains header ":")
      then none
      else (let name =
            lower (drop_last_spaces (drop_spaces (span (λ ch. not (eqb ch 58)) header))) in
          if name == "" then none else some name)

  -- the loop over the headers of a frame
  unfoldable pub ordered : List (Option String) → List String
  unfolding header_name
  ordered [] = []
  ordered (header ∷ rest) = elim (header_name header) [
    | none ↦ ordered rest
    | some name ↦ name ∷ ordered rest
  ]

  -- the headers of a frame that counts
  unfoldable pub frame_order : Option Frame → List String
  unfolding ordered
  frame_order none = []
  frame_order (some frame) =
      if or_default frame.frame_type "" == "HEADERS"
      then ordered (or_default frame.headers [])
      else []

  -- the loop over the frames: the first order that is not empty
  unfoldable pub first_order : List (Option Frame) → List String
  unfolding frame_order is_nil
  first_order [] = []
  first_order (frame ∷ frames) =
      let rest = first_order frames in
      if is_nil (frame_order frame) then rest else frame_order frame

  -- _extract_header_order_from_trackme_raw, of {} where there is no raw
  unfoldable pub extract_header_order : Option Raw → List String
  unfolding first_order
  extract_header_order none = []
  extract_header_order (some raw) = first_order (or_default raw.sent_frames [])

  -- the patterns of token_map
  unfoldable pub token_prefixes : String → List String
  token_prefixes browser =
      if browser == "firefox"
      then "Firefox/" ∷ []
      else if browser == "chromium" || browser == "chrome"
      then "HeadlessChrome/" ∷ "Chrome/" ∷ []
      else []

  -- _extract_trackme_version
  unfoldable pub extract_version : String → String → String
  unfolding token_prefixes search_group is_version_char
  extract_version browser user_agent =
      or_default (search_group is_version_char (token_prefixes (lower browser)) user_agent)
        "unknown"

  -- _build_trackme_name
  unfoldable pub build_name : String → String → String
  unfolding replace_runs lstrip rstrip
  build_name browser version =
      let safe = rstrip 95 (lstrip 95 (replace_runs false version)) in
      lower (join (browser ∷ "_" ∷ (if safe == "" then "unknown" else safe) ∷ []))

  -- entry.get("ua") or raw.get("user_agent") or ""
  unfoldable pub agent_of : Capture → Field
  unfolding truthy
  agent_of capture =
      let own = get_or "ua" null capture.fields in
      let captured : Field = elim capture.raw [ none ↦ null | some raw ↦ raw.user_agent ] in
      if truthy own then own else if truthy captured then captured else text ""

  -- an entry of the older format
  unfoldable pub normalize_capture : String → Capture → Dict Field
  unfolding either agent_of extract_version build_name extract_header_order
  normalize_capture browser capture =
      let d = capture.fields in
      let user_agent = agent_of capture in
      ("name", text (build_name browser (extract_version browser (text_of user_agent))))
      ∷ ("ja3", get_or "ja3" null d)
      ∷ ("ja4r", either "ja4_r" "ja4r" d)
      ∷ ("http2_fingerprint", either "http2" "http2_akamai" d)
      ∷ ("user_agent", user_agent)
      ∷ ("header_order", texts (extract_header_order capture.raw))
      ∷ []

  unfoldable pub normalize_browsers : List (String × Option Capture) → List (Dict Field)
  unfolding normalize_capture has
  normalize_browsers [] = []
  normalize_browsers ((browser, none) ∷ rest) = normalize_browsers rest
  normalize_browsers ((browser, some capture) ∷ rest) =
      let others = normalize_browsers rest in
      if has "error" capture.fields then others else normalize_capture browser capture ∷ others

-- an entry of the newer format
unfoldable pub normalize_entry : Dict Field → Dict Field
unfolding either
normalize_entry d =
    ("name", get_or "name" null d)
    ∷ ("ja3", get_or "ja3" null d)
    ∷ ("ja4r", either "ja4_r" "ja4r" d)
    ∷ ("http2_fingerprint", either "http2" "http2_fingerprint" d)
    ∷ ("user_agent", either "ua" "user_agent" d)
    ∷ ("header_order", get_or "header_order" null d)
    ∷ ("headers", get_or "headers" null d)
    ∷ []

unfoldable pub normalize_entries : List (Dict Field) → List (Dict Field)
unfolding normalize_entry
normalize_entries [] = []
normalize_entries (d ∷ ds) = normalize_entry d ∷ normalize_entries ds

-- _normalize_trackme_payload
unfoldable pub normalize_payload : ⦃c : Casing⦄ → TrackmePayload → List (Dict Field)
unfolding normalize_entries normalize_browsers objects
normalize_payload (fingerprints entries) = normalize_entries (objects entries)
normalize_payload (browsers captures) = normalize_browsers captures

-- a profile that is registered before the rest of the loop
unfoldable pub continue_with :
    Result TlsFingerprint
    → (Profiles → Result (List TlsFingerprint) × Profiles)
    → Profiles
    → Result (List TlsFingerprint) × Profiles
unfolding register
continue_with (err e) rest profiles = (err e, profiles)
continue_with (ok f) rest profiles =
    let others = rest (register f profiles) in ((do fs ← others.0; ok (f ∷ fs)), others.1)

-- the loop over the entries: those without a name or a JA3 are skipped
unfoldable pub load_entries : List (Dict Field) → Profiles → Result (List TlsFingerprint) × Profiles
unfolding continue_with truthy from_dict
load_entries [] profiles = (ok [], profiles)
load_entries (d ∷ ds) profiles =
    let rest = load_entries ds in
    if truthy (get_or "name" null d) && truthy (get_or "ja3" null d)
    then continue_with (from_dict d) rest profiles
    else rest profiles

-- load_trackme_fingerprints, of the document of its file
unfoldable pub load_trackme :
    ⦃c : Casing⦄ → TrackmePayload → Profiles → Result (List TlsFingerprint) × Profiles
unfolding normalize_payload load_entries
load_trackme payload profiles = load_entries (normalize_payload payload) profiles

-- what it writes to `persist_path`, when it returns
unfoldable pub persisted : Result (List TlsFingerprint) × Profiles → Option Document
unfolding saved_document
persisted (ok loaded, profiles) = some (saved_document profiles)
persisted (err e, profiles) = none

name_test : build_name ⦃c = ascii⦄ "Chrome" "149.0..1." ≡ "chrome_149_0_1"
unfolding build_name replace_runs lstrip rstrip ascii join is_alphanumeric
name_test = refl

order_test :
    extract_header_order ⦃c = ascii⦄ (
      some (record {
        user_agent = null;
        sent_frames = some (
            some (record { frame_type = some "SETTINGS"; headers = none })
            ∷ some (record {
              frame_type = some "HEADERS";
              headers = some (some ":method: GET" ∷ none ∷ some " Accept : */*" ∷ []);
            })
            ∷ []);
      }))
    ≡ "accept" ∷ []
unfolding extract_header_order frame_order ordered header_name span drop_spaces drop_last_spaces
    contains ascii
order_test = refl
