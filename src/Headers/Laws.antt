-- ===== src/Headers/Laws.antt =====
-- What a CaseInsensitiveDict promises: lookups ignore case, the case of the last key that was set
-- is kept, and the store stays in order.
use cycletls_python.Base.{
  String, ◌≡◌, ◌∙◌, refl, ap, none, some, List, [], ◌∷◌, ◌++◌, arith, ◌==◌, eq_iff, if◌then◌else◌,
  ◌⊎◌, inl, inr, Option-cases, append_assoc, append-nil,
}
use cycletls_python.Dict.{Dict, lookup, set, remove, values, IsDict}
use cycletls_python.Dict.Laws.{lookup-set, lookup-remove, set-IsDict, remove-IsDict}
use cycletls_python.Dict.Order.{set_new, lookup-before}
use cycletls_python.Errors.{error, key_error, ok, err}
use cycletls_python.Text.{Casing, lower}
use cycletls_python.Headers.{CaseInsensitiveDict, set_item, get, del_item, update, of_pairs, copy}

module _ {ℓ} {V : Type ℓ} ⦃c : Casing⦄ where
  -- Every entry stands under the lowercased form of its key.
  abbrev pub Keyed : Dict (String × V) → Type 0
  Keyed [] = Unit
  Keyed ((k, e) ∷ d) = (k ≡ lower e.0) × Keyed d

  abbrev pub IsValid : CaseInsensitiveDict V → Type ℓ
  IsValid d = IsDict d.store × Keyed d.store

  -- After `d[k] = v` a lookup gives `v` for every key that is `k` in another case, and for any
  -- other key what it gave before.
  pub get-set_item :
      (d : CaseInsensitiveDict V) (k j : String) (v : V)
      → get (set_item k v d) j ≡ (if lower k == lower j then some v else get d j)
  unfolding get set_item
  get-set_item d k j v = ground (arith, lookup-set (lower k) (lower j) (k, v) d.store)

  set-Keyed :
      (k : String) (v : V) (d : Dict (String × V)) → Keyed d → Keyed (set (lower k) (k, v) d)
  unfolding set
  set-Keyed k v [] h = (refl, tt)
  set-Keyed k v ((i, e) ∷ d) h = ground (arith, eq_iff i (lower k), set-Keyed k v d h.1)

  remove-Keyed : (k : String) (d : Dict (String × V)) → Keyed d → Keyed (remove k d)
  unfolding remove
  remove-Keyed k [] h = tt
  remove-Keyed k ((i, e) ∷ d) h = ground (arith, remove-Keyed k d h.1)

  pub set_item-IsValid :
      (k : String) (v : V) (d : CaseInsensitiveDict V) → IsValid d → IsValid (set_item k v d)
  unfolding set_item
  set_item-IsValid k v d h = (set-IsDict (lower k) (k, v) d.store h.0, set-Keyed k v d.store h.1)

  pub update-IsValid :
      (d : CaseInsensitiveDict V) (ps : List (String × V)) → IsValid d → IsValid (update d ps)
  unfolding update
  update-IsValid d [] h = h
  update-IsValid d ((k, v) ∷ ps) h = update-IsValid (set_item k v d) ps (set_item-IsValid k v d h)

  pub of_pairs-IsValid : (ps : List (String × V)) → IsValid (of_pairs ps)
  unfolding of_pairs
  of_pairs-IsValid ps = update-IsValid (record { store = [] }) ps (tt, tt)

  -- A missing key raises KeyError; otherwise the key is gone and every other key is as before.
  pub del_item_lem :
      (d : CaseInsensitiveDict V) (k : String)
      → IsValid d
      → ((get d k ≡ none) × (del_item d k ≡ err (error key_error (lower k))))
        ⊎ ((e : CaseInsensitiveDict V) × (del_item d k ≡ ok e)
            × IsValid e
            × ((j : String) → get e j ≡ (if lower k == lower j then none else get d j)))
  unfolding get del_item
  del_item_lem d k h = elim (Option-cases (lookup (lower k) d.store)) [
    | inl e ↦ inl (ground arith, ground arith)
    | inr (p, e) ↦ inr (
      record { store = remove (lower k) d.store },
      ground arith,
      (remove-IsDict (lower k) d.store h.0, remove-Keyed (lower k) d.store h.1),
      λ j. ground (arith, lookup-remove (lower k) (lower j) d.store),
    )
  ]

  update_append :
      (s : Dict (String × V)) (d : Dict (String × V))
      → IsDict (s ++ d)
      → Keyed d
      → update (record { store = s }) (values d) ≡ record { store = s ++ d }
  unfolding update
  update_append s [] i h = rw append-nil
  update_append s ((k, e) ∷ d) i h =
      ap (λ t. update t (values d)) set_item_new
      ∙ update_append (s ++ (k, e) ∷ []) d (rw append_assoc i) h.1
      ∙ ap stored (append_assoc s _ d)
    where
      stored : Dict (String × V) → CaseInsensitiveDict V
      stored t = record { store = t }

      set_item_new : set_item e.0 e.1 (stored s) ≡ stored (s ++ (k, e) ∷ [])
      set_item_new =
          unfold set_item in rw (← h.0) (ap stored (set_new k e s (lookup-before s k e d i)))

  -- A copy of a dict that was built by its own operations has the same entries in the same order, each key in the case it was last set in.
  pub copy_lem : (d : CaseInsensitiveDict V) → IsValid d → copy d ≡ d
  unfolding copy of_pairs
  copy_lem d h = update_append [] d.store h.0 h.1
