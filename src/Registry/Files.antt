-- ===== src/Registry/Files.antt =====
-- A registry that `save_to_file` of cycletls/fingerprints.py wrote and `load_from_file` reads back.
use cycletls_python.Base.{
  String, Bool, List, [], ◌∷◌, none, some, ◌≡◌, refl, ap, ◌∙◌, arith, ◌==◌, eq_iff, if◌then◌else◌,
  All, map, is_some,
}
use cycletls_python.Dict.{Dict, lookup, set, has, update, IsDict, values}
use cycletls_python.Dict.Laws.{lookup-update}
use cycletls_python.Errors.{ok}
use cycletls_python.Exec.{if_case}
use cycletls_python.Fingerprint.{TlsFingerprint, to_dict}
use cycletls_python.Fingerprint.Laws.{IsFlag, round_trip, name-found, ja3-found}
use cycletls_python.Registry.{
  Profiles, Entry, name_of, register, register_many, get_or_none, load_from_file, before_or_equal,
  finish_load, objects, raw_items, load_items, insert_sorted, sorted_items, saved_document,
}
use cycletls_python.Registry.Laws.{IsValid}

module _ {ℓ} {V : Type ℓ} where
  lookup-insert_sorted :
      (k j : String) (v : V) (d : Dict V)
      → lookup k d ≡ none
      → lookup j (insert_sorted k v d) ≡ (if k == j then some v else lookup j d)
  unfolding insert_sorted lookup
  lookup-insert_sorted k j v [] h = refl
  lookup-insert_sorted k j v ((i, w) ∷ d) h =
      ground (arith, eq_iff k j, eq_iff i j, eq_iff i k, lookup-insert_sorted k j v d)

  lookup-sorted_items :
      (j : String) (d : Dict V) → IsDict d → lookup j (sorted_items d) ≡ lookup j d
  unfolding sorted_items lookup
  lookup-sorted_items j [] h = refl
  lookup-sorted_items j ((k, v) ∷ d) h =
      lookup-insert_sorted k j v (sorted_items d) (lookup-sorted_items k d h.1 ∙ h.0)
      ∙ ap (λ r. if k == j then some v else r) (lookup-sorted_items j d h.1)

  insert_sorted-All :
      (P : String × V → Type 0) (k : String) (v : V) (d : Dict V)
      → P (k, v)
      → All P d
      → All P (insert_sorted k v d)
  unfolding insert_sorted
  insert_sorted-All P k v [] p h = (p, tt)
  insert_sorted-All P k v ((j, w) ∷ d) p h =
      if_case (All P) (before_or_equal k j) ((k, v) ∷ (j, w) ∷ d) ((j, w) ∷ insert_sorted k v d)
        (p, h) (h.0, insert_sorted-All P k v d p h.1)

  sorted_items-All : (P : String × V → Type 0) (d : Dict V) → All P d → All P (sorted_items d)
  unfolding sorted_items
  sorted_items-All P [] h = tt
  sorted_items-All P ((k, v) ∷ d) h =
      insert_sorted-All P k v (sorted_items d) h.0 (sorted_items-All P d h.1)

  insert_sorted-IsDict :
      (k : String) (v : V) (d : Dict V)
      → lookup k d ≡ none
      → IsDict d
      → IsDict (insert_sorted k v d)
  unfolding insert_sorted lookup
  insert_sorted-IsDict k v [] h u = (refl, tt)
  insert_sorted-IsDict k v ((j, w) ∷ d) h u =
      if_case IsDict (before_or_equal k j) ((k, v) ∷ (j, w) ∷ d) ((j, w) ∷ insert_sorted k v d)
        (h, u)
        (
          ground (arith, eq_iff k j, eq_iff j k, lookup-insert_sorted k j v d, u.0),
          insert_sorted-IsDict k v d (ground (arith, eq_iff j k)) u.1,
        )

  sorted_items-IsDict : (d : Dict V) → IsDict d → IsDict (sorted_items d)
  unfolding sorted_items
  sorted_items-IsDict [] h = tt
  sorted_items-IsDict ((k, v) ∷ d) h =
      insert_sorted-IsDict k v (sorted_items d) (lookup-sorted_items k d h.1 ∙ h.0)
        (sorted_items-IsDict d h.1)

-- The flags of a profile are Booleans.
abbrev pub HasFlags : TlsFingerprint → Type 0
HasFlags f = IsFlag f.disable_grease × IsFlag f.force_http1 × IsFlag f.force_http3

load_items-to_dict :
    (fs : List TlsFingerprint) → All HasFlags fs → load_items (map to_dict fs) ≡ ok fs
unfolding load_items has
load_items-to_dict [] h = refl
load_items-to_dict (f ∷ fs) (h, hs) =
    rw (name-found f, ja3-found f, round_trip f h.0 h.1 h.2, load_items-to_dict fs hs) refl

objects-map :
    (fs : List TlsFingerprint) → objects (map (λ f. Entry.object (to_dict f)) fs) ≡ map to_dict fs
unfolding objects
objects-map [] = refl
objects-map (f ∷ fs) = ap (λ r. to_dict f ∷ r) (objects-map fs)

register_many-update :
    (d base : Profiles)
    → All (λ e. name_of e.1 ≡ e.0) d
    → register_many (values d) base ≡ update base d
unfolding register_many register update
register_many-update [] base h = refl
register_many-update ((j, f) ∷ d) base h =
    ap (λ n. register_many (values d) (set n f base)) h.0
    ∙ register_many-update d (set j f base) h.1

has-sorted_items : (k : String) (d : Profiles) → IsDict d → has k (sorted_items d) ≡ has k d
unfolding has
has-sorted_items k d h = ap is_some (lookup-sorted_items k d h)

HasFlags-values : (d : Profiles) → All (λ e. HasFlags e.1) d → All HasFlags (values d)
HasFlags-values [] h = tt
HasFlags-values (e ∷ d) h = (h.0, HasFlags-values d h.1)

-- What `save_to_file` writes, read by `load_from_file` into any registry: it returns, and under
-- each name stands the profile that was saved, and otherwise what was there before unless the
-- registry was to be cleared.
pub saved_and_loaded :
    (path : String) (clear : Bool) (saved before : Profiles)
    → IsValid saved
    → All (λ e. HasFlags e.1) saved
    → let (result, after) = load_from_file path (saved_document saved) clear before in
      ((loaded : List TlsFingerprint) × (result ≡ ok loaded))
      × ((k : String)
          → get_or_none k after ≡ (
              if has k saved
              then get_or_none k saved
              else get_or_none k (if clear then [] else before)))
unfolding load_from_file finish_load saved_document get_or_none raw_items
saved_and_loaded path clear saved before (u, named) flags =
    let items = sorted_items saved in
    let base = if clear then [] else before in
    let read : load_items (objects (map (λ f. Entry.object (to_dict f)) (values items)))
        ≡ ok (values items) =
      ap load_items (objects-map (values items))
      ∙ load_items-to_dict (values items)
          (HasFlags-values items (sorted_items-All (λ e. HasFlags e.1) saved flags)) in
    let same : register_many (values items) base ≡ update base items =
      register_many-update items base (sorted_items-All (λ e. name_of e.1 ≡ e.0) saved named) in
    let whole = ap (finish_load clear before) read in
    (
      (values items, ap (λ r. r.0) whole),
      λ k.
          ap (λ r. lookup k r.1) whole
          ∙ ap (lookup k) same
          ∙ lookup-update k base items (sorted_items-IsDict saved u)
          ∙ rw (has-sorted_items k saved u, lookup-sorted_items k saved u) refl,
    )
