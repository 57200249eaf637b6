-- ===== src/Url/Laws.antt =====
-- What `_merge_url_params` of cycletls/api.py does to a URL.
use Prim.Native.Char.{code}
use Prim.Native.String.{char_at}
use cycletls_python.Base.{
  ℕ, zero, suc, ◌+◌, ◌-◌, ◌<◌, String, Bool, true, ◌&&◌, List, [], ◌∷◌, ◌++◌, eqb, eqb→eq, ◌≡◌,
  refl, sym, ap, ◌∙◌, arith, All, All-append, append-nil, Bool-cases, inl, inr, subst, and_parts,
}
use cycletls_python.Text.{codes}
use cycletls_python.Values.{
  Atom, null, bool, int, float, str, bytes, scalar, many, is_nil, eq_nil_of_is_nil,
}
use cycletls_python.Url.Quote.{Codes, urlencode, parse_qsl}
use cycletls_python.Url.RoundTrip.{IsPair, IsQuery, parse_qsl-urlencode, urlencode-IsQuery}
use cycletls_python.Url.Scalars.{codes-IsScalar, parse_qsl-IsPair}
use cycletls_python.Url.{
  pair_of, pairs_of, Urls, Printing, show, visible, ascii_text, Params, iter_params, query_pairs,
  merge_url_params,
}

module _ (test : ℕ → Bool) where
  -- The test holds from `i` on, for `count` numbers.
  holds_from : ℕ → ℕ → Bool
  holds_from i zero = true
  holds_from i (suc count) = test i && holds_from (suc i) count

  holds-at :
      (i count offset : ℕ) → offset < count → holds_from i count ≡ true → test (i + offset) ≡ true
  unfolding holds_from
  holds-at i zero offset small whole = absurd (omega arith)
  holds-at i (suc count) zero small whole =
      subst (λ j. test j ≡ true) (omega arith) (and_parts (test i) _ whole).0
  holds-at i (suc count) (suc offset) small whole =
      subst (λ j. test j ≡ true) (omega arith)
        (holds-at (suc i) count offset (omega arith) (and_parts (test i) _ whole).1)

visible_table : holds_from (λ n. eqb (code (char_at visible n)) (n + 32)) 0 95 ≡ true
unfolding holds_from
visible_table = refl

visible_char : (c : ℕ) → 32 < c → c < 127 → code (char_at visible (c - 32)) ≡ c
visible_char c h k =
    let at_offset : (i : ℕ)
        → i ≡ c - 32
        → eqb (code (char_at visible i)) (i + 32) ≡ true
        → code (char_at visible (c - 32)) ≡ c =
      λ i same found.
        ap (λ j. code (char_at visible j)) (sym same) ∙ eqb→eq _ _ found ∙ omega arith in
    at_offset (0 + (c - 32)) (omega arith) (
      holds-at (λ n. eqb (code (char_at visible n)) (n + 32)) 0 95 (c - 32) (omega arith)
        visible_table)

codes-ascii_text : (s : Codes) → IsQuery s → codes (ascii_text s) ≡ s
unfolding codes ascii_text
codes-ascii_text [] h = refl
codes-ascii_text (c ∷ s) h =
    ap (λ x. x ∷ codes (ascii_text s)) (visible_char c h.0.1 h.0.2)
    ∙ ap (λ r. c ∷ r) (codes-ascii_text s h.1)

module _ ⦃p : Printing⦄ where
  pair_of-IsPair : (k : String) (v : Atom) → All IsPair (pair_of k v)
  unfolding pair_of
  pair_of-IsPair k null = tt
  pair_of-IsPair k (bool v) = ((codes-IsScalar k, codes-IsScalar (show (bool v))), tt)
  pair_of-IsPair k (int v) = ((codes-IsScalar k, codes-IsScalar (show (int v))), tt)
  pair_of-IsPair k (float v) = ((codes-IsScalar k, codes-IsScalar (show (float v))), tt)
  pair_of-IsPair k (str v) = ((codes-IsScalar k, codes-IsScalar (show (str v))), tt)
  pair_of-IsPair k (bytes v) = ((codes-IsScalar k, codes-IsScalar (show (bytes v))), tt)

  pairs_of-IsPair : (k : String) (vs : List Atom) → All IsPair (pairs_of k vs)
  unfolding pairs_of
  pairs_of-IsPair k [] = tt
  pairs_of-IsPair k (v ∷ vs) =
      All-append IsPair (pair_of k v) (pairs_of k vs) (pair_of-IsPair k v) (pairs_of-IsPair k vs)

  iter_params-IsPair : (ps : Params) → All IsPair (iter_params ps)
  unfolding iter_params
  iter_params-IsPair [] = tt
  iter_params-IsPair ((k, scalar v) ∷ ps) =
      All-append IsPair (pair_of k v) (iter_params ps) (pair_of-IsPair k v) (iter_params-IsPair ps)
  iter_params-IsPair ((k, many vs) ∷ ps) =
      All-append IsPair (pairs_of k vs) (iter_params ps) (pairs_of-IsPair k vs)
        (iter_params-IsPair ps)

  module _ (u : Urls)
      (resplit : (url q : String)
        → IsQuery (codes q)
        → u.query (u.urlsplit (u.urlunsplit (u.with_query q (u.urlsplit url)))) ≡ q) where
    -- Where `urlsplit` finds the query that `urlunsplit` was given: the query of the merged URL
    -- reads as the pairs of the URL followed by the parameters, each in its order, whatever
    -- characters they have; parameters that are None are left out.
    pub query_pairs-merge_url_params :
        (url : String) (params : Params)
        → query_pairs u (merge_url_params u url params) ≡ query_pairs u url ++ iter_params params
    unfolding merge_url_params query_pairs
    query_pairs-merge_url_params url params = elim (Bool-cases (is_nil params)) [
      | inl e ↦ rw e (
          sym (append-nil (query_pairs u url))
          ∙ ap (λ ps. query_pairs u url ++ iter_params ps) (sym (eq_nil_of_is_nil params e)))
      | inr e ↦ rw e (
          ap (λ q. parse_qsl (codes q)) (resplit url (ascii_text (urlencode combined)) written)
          ∙ ap parse_qsl (codes-ascii_text (urlencode combined) whole)
          ∙ parse_qsl-urlencode combined pairs)
    ]
      where
        combined : List (Codes × Codes)
        combined = query_pairs u url ++ iter_params params

        pairs : All IsPair combined
        pairs =
            All-append IsPair (query_pairs u url) (iter_params params)
              (parse_qsl-IsPair (codes (u.query (u.urlsplit url)))
                (codes-IsScalar (u.query (u.urlsplit url))))
              (iter_params-IsPair params)

        whole : IsQuery (urlencode combined)
        whole = urlencode-IsQuery combined pairs

        written : IsQuery (codes (ascii_text (urlencode combined)))
        written = subst IsQuery (sym (codes-ascii_text (urlencode combined) whole)) whole
