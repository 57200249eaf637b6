-- ===== src/Headers/Tests.antt =====
-- CaseInsensitiveDict on concrete headers.
use cycletls_python.Base.{
  String, ◌≡◌, refl, true, none, some, [], ◌∷◌, ◌↔◌, ◌==◌, eq_iff, if◌then◌else◌, ◌⊎◌,
}
use cycletls_python.Dict.{set}
use cycletls_python.Errors.{error, key_error, ok, err}
use cycletls_python.Text.{ascii, lower}
use cycletls_python.Headers.{CaseInsensitiveDict, set_item, get, del_item, of_pairs, iter, copy, eq}
use cycletls_python.Headers.Laws.{IsValid, get-set_item, copy_lem, del_item_lem, of_pairs-IsValid}
use cycletls_python.Headers.Equality.{eq_iff_get}

abbrev accepts : CaseInsensitiveDict String
accepts = of_pairs ⦃c = ascii⦄ (("Accept", "text/html") ∷ ("Host", "a.test") ∷ [])

abbrev shouted : CaseInsensitiveDict String
shouted = of_pairs ⦃c = ascii⦄ (("HOST", "a.test") ∷ ("ACCEPT", "text/html") ∷ [])

last_case_test : iter (set_item ⦃c = ascii⦄ "aCCEPT" "*/*" accepts) ≡ "aCCEPT" ∷ "Host" ∷ []
unfolding of_pairs iter ascii set_item set
last_case_test = refl

get-set_item_test : get ⦃c = ascii⦄ (set_item ⦃c = ascii⦄ "Accept" "*/*" accepts) "aCCEPT" ≡ (
    if lower ⦃c = ascii⦄ "Accept" == lower ⦃c = ascii⦄ "aCCEPT"
    then some "*/*"
    else get ⦃c = ascii⦄ accepts "aCCEPT")
get-set_item_test = get-set_item ⦃c = ascii⦄ accepts "Accept" "aCCEPT" "*/*"

copy_lem_test : copy ⦃c = ascii⦄ accepts ≡ accepts
copy_lem_test = copy_lem ⦃c = ascii⦄ accepts (of_pairs-IsValid ⦃c = ascii⦄ _)

eq_iff_get_example :
    (eq ◌==◌ accepts shouted ≡ true)
    ↔ ((k : String) → get ⦃c = ascii⦄ accepts k ≡ get ⦃c = ascii⦄ shouted k)
eq_iff_get_example =
    eq_iff_get ⦃c = ascii⦄ ◌==◌ eq_iff accepts shouted (of_pairs-IsValid ⦃c = ascii⦄ _)
      (of_pairs-IsValid ⦃c = ascii⦄ _)

del_item_lem_test :
    ((get ⦃c = ascii⦄ accepts "HOST" ≡ none)
      × (del_item ⦃c = ascii⦄ accepts "HOST" ≡ err (error key_error (lower ⦃c = ascii⦄ "HOST"))))
    ⊎ ((e : CaseInsensitiveDict String) × (del_item ⦃c = ascii⦄ accepts "HOST" ≡ ok e)
        × IsValid ⦃c = ascii⦄ e
        × ((j : String)
            → get ⦃c = ascii⦄ e j ≡ (
                if lower ⦃c = ascii⦄ "HOST" == lower ⦃c = ascii⦄ j
                then none
                else get ⦃c = ascii⦄ accepts j)))
del_item_lem_test = del_item_lem ⦃c = ascii⦄ accepts "HOST" (of_pairs-IsValid ⦃c = ascii⦄ _)
