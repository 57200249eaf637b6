-- ===== src/Url/RoundTrip.antt =====
-- `parse_qsl` undoes `urlencode`.
use cycletls_python.Base.{
  ℕ, ◌+◌, ◌*◌, ◌/◌, ◌%◌, ◌<◌, true, false, List, [], ◌∷◌, ◌++◌, Option, some, map, map-append, eqb,
  ◌≡◌, refl, sym, ap, ◌∙◌, arith, All, All-append, eqb→eq, eq→eqb, Bool-cases, inl, inr,
}
use cycletls_python.Exec.{on, if_case}
use cycletls_python.Values.{is_nil}
use cycletls_python.Text.Utf8.{utf8_char, utf8}
use cycletls_python.Url.Unicode.{Pending, idle, byte, decode, IsScalar, decode-utf8_char}
use cycletls_python.Url.Quote.{
  Codes, unreserved, hex_digit, quote_byte, quote_bytes, quote_plus, encode_pair, join_with,
  urlencode, hex_value, hex_pair, octet, plain, escape, tokens, decode_tokens, plus_to_space,
  unquote_plus, split_once, split_first, parse_pair, parse_parts, parse_qsl,
}

-- The bytes of a text are bytes.
utf8_char-lt : (n : ℕ) → IsScalar n → All (λ b. b < 256) (utf8_char n)
unfolding utf8_char
utf8_char-lt n h = ground arith

utf8-lt : (s : Codes) → All IsScalar s → All (λ b. b < 256) (utf8 s)
unfolding utf8
utf8-lt [] h = tt
utf8-lt (n ∷ s) h =
    All-append (λ b. b < 256) (utf8_char n) (utf8 s) (utf8_char-lt n h.0) (utf8-lt s h.1)

hex_value-hex_digit : (d : ℕ) → d < 16 → hex_value (hex_digit d) ≡ some d
unfolding hex_value hex_digit
hex_value-hex_digit d h = ground arith

unreserved_facts :
    (b : ℕ) → unreserved b ≡ true → (plus_to_space b ≡ b) × (eqb b b'%' ≡ false) × (b < 128)
unfolding unreserved plus_to_space
unreserved_facts b h = (ground arith, ground arith, ground arith)

plus_to_space-hex_digit : (d : ℕ) → d < 16 → plus_to_space (hex_digit d) ≡ hex_digit d
unfolding plus_to_space hex_digit
plus_to_space-hex_digit d h = ground arith

tokens-plain :
    (c : ℕ) (rest : Codes)
    → eqb c b'%' ≡ false
    → c < 128
    → tokens 0 (c ∷ rest) ≡ octet c ∷ tokens 0 rest
unfolding tokens escape plain
tokens-plain c rest h k = ground arith

tokens-escape :
    (a b x y : ℕ) (rest : Codes)
    → hex_value a ≡ some x
    → hex_value b ≡ some y
    → tokens 0 (b'%' ∷ a ∷ b ∷ rest) ≡ octet (16 * x + y) ∷ tokens 0 rest
unfolding tokens escape hex_pair
tokens-escape a b x y rest h k = rw (h, k) refl

-- A quoted byte is read as that byte.
tokens-quote_byte :
    (b : ℕ) (rest : Codes)
    → b < 256
    → tokens 0 (map plus_to_space (quote_byte b) ++ rest) ≡ octet b ∷ tokens 0 rest
unfolding quote_byte plus_to_space
tokens-quote_byte b rest h = elim (Bool-cases (unreserved b)) [
  | inl safe ↦
      let (p, q, r) = unreserved_facts b safe in
      rw safe (ap (λ c. tokens 0 (c ∷ rest)) p ∙ tokens-plain b rest q r)
  | inr other ↦ elim (Bool-cases (eqb b 32)) [
    | inl space ↦
        rw (other, space)
          (tokens-plain 32 rest refl (omega arith)
            ∙ ap (λ c. octet c ∷ tokens 0 rest) (sym (eqb→eq b 32 space)))
    | inr special ↦
        rw (other, special)
          (ap (λ c. tokens 0 (b'%' ∷ c ∷ plus_to_space (hex_digit (b % 16)) ∷ rest))
              (plus_to_space-hex_digit (b / 16) (omega arith))
            ∙ ap (λ c. tokens 0 (b'%' ∷ hex_digit (b / 16) ∷ c ∷ rest))
                (plus_to_space-hex_digit (b % 16) (omega arith))
            ∙ tokens-escape (hex_digit (b / 16)) (hex_digit (b % 16)) (b / 16) (b % 16) rest
                (hex_value-hex_digit (b / 16) (omega arith))
                (hex_value-hex_digit (b % 16) (omega arith))
            ∙ ap (λ n. octet n ∷ tokens 0 rest) (omega arith))
  ]
]

tokens-quote_bytes :
    (bs : List ℕ)
    → All (λ b. b < 256) bs
    → tokens 0 (map plus_to_space (quote_bytes bs)) ≡ map octet bs
unfolding quote_bytes tokens
tokens-quote_bytes [] h = refl
tokens-quote_bytes (b ∷ bs) h =
    ap (tokens 0) (map-append plus_to_space (quote_byte b) (quote_bytes bs))
    ∙ tokens-quote_byte b (map plus_to_space (quote_bytes bs)) h.0
    ∙ ap (λ ts. octet b ∷ ts) (tokens-quote_bytes bs h.1)

decode_tokens-octet : (p : Pending) (bs : List ℕ) → decode_tokens p (map octet bs) ≡ decode p bs
unfolding decode_tokens decode
decode_tokens-octet p [] = refl
decode_tokens-octet p (b ∷ bs) = ap (λ r. (byte p b).0 ++ r) (decode_tokens-octet (byte p b).1 bs)

decode-utf8 : (s : Codes) → All IsScalar s → decode idle (utf8 s) ≡ s
unfolding utf8 decode
decode-utf8 [] h = refl
decode-utf8 (n ∷ s) h = decode-utf8_char n (utf8 s) h.0 ∙ ap (λ r. n ∷ r) (decode-utf8 s h.1)

unquote_plus-quote_plus : (s : Codes) → All IsScalar s → unquote_plus (quote_plus s) ≡ s
unfolding unquote_plus quote_plus
unquote_plus-quote_plus s h =
    ap (decode_tokens idle) (tokens-quote_bytes (utf8 s) (utf8-lt s h))
    ∙ decode_tokens-octet idle (utf8 s)
    ∙ decode-utf8 s h

-- A quoted text has no separator in it.
abbrev Quoted : ℕ → Type 0
Quoted c = (eqb c b'&' ≡ false) × (eqb c b'=' ≡ false) × (eqb c b'#' ≡ false) × (32 < c) × (c < 127)

unreserved-Quoted : (b : ℕ) → unreserved b ≡ true → Quoted b
unfolding unreserved
unreserved-Quoted b h = (ground arith, ground arith, ground arith, ground arith, ground arith)

hex_digit-Quoted : (d : ℕ) → d < 16 → Quoted (hex_digit d)
unfolding hex_digit
hex_digit-Quoted d h = (ground arith, ground arith, ground arith, ground arith, ground arith)

quote_byte-Quoted : (b : ℕ) → b < 256 → All Quoted (quote_byte b)
unfolding quote_byte
quote_byte-Quoted b h = elim (Bool-cases (unreserved b)) [
  | inl safe ↦ rw safe (unreserved-Quoted b safe, tt)
  | inr other ↦ rw other (
      if_case (All Quoted) (eqb b 32) (b'+' ∷ []) _
        ((refl, refl, refl, omega arith, omega arith), tt)
        (
          (refl, refl, refl, omega arith, omega arith),
          (hex_digit-Quoted (b / 16) (omega arith), (hex_digit-Quoted (b % 16) (omega arith), tt)),
        ))
]

quote_bytes-Quoted : (bs : List ℕ) → All (λ b. b < 256) bs → All Quoted (quote_bytes bs)
unfolding quote_bytes
quote_bytes-Quoted [] h = tt
quote_bytes-Quoted (b ∷ bs) h =
    All-append Quoted (quote_byte b) (quote_bytes bs) (quote_byte-Quoted b h.0)
      (quote_bytes-Quoted bs h.1)

split_once-append :
    (sep : ℕ) (s rest : Codes)
    → All (λ c. eqb c sep ≡ false) s
    → split_once sep (s ++ sep ∷ rest) ≡ (s, some rest)
unfolding split_once
split_once-append sep [] rest h = rw (eq→eqb sep sep refl) refl
split_once-append sep (c ∷ s) rest h = rw (h.0, split_once-append sep s rest h.1) refl

split_first-append :
    (sep : ℕ) (s rest : Codes)
    → All (λ c. eqb c sep ≡ false) s
    → split_first sep (s ++ sep ∷ rest) ≡ (s, (split_first sep rest).0 ∷ (split_first sep rest).1)
unfolding split_first
split_first-append sep [] rest h = rw (eq→eqb sep sep refl) refl
split_first-append sep (c ∷ s) rest h = rw (h.0, split_first-append sep s rest h.1) refl

split_first-alone :
    (sep : ℕ) (s : Codes) → All (λ c. eqb c sep ≡ false) s → split_first sep s ≡ (s, [])
unfolding split_first
split_first-alone sep [] h = refl
split_first-alone sep (c ∷ s) h = rw (h.0, split_first-alone sep s h.1) refl

-- Parts without the separator are found again.
split_first-join_with :
    (sep : ℕ) (p : Codes) (ps : List Codes)
    → All (All (λ c. eqb c sep ≡ false)) (p ∷ ps)
    → split_first sep (join_with sep (p ∷ ps)) ≡ (p, ps)
unfolding join_with
split_first-join_with sep p [] h = split_first-alone sep p h.0
split_first-join_with sep p (q ∷ ps) h =
    split_first-append sep p (join_with sep (q ∷ ps)) h.0
    ∙ ap (λ r. (p, r.0 ∷ r.1)) (split_first-join_with sep q ps h.1)

-- A name and a value without surrogates.
abbrev pub IsPair : Codes × Codes → Type 0
IsPair e = All IsScalar e.0 × All IsScalar e.1

All-map {ℓ κ} :
    {A : Type ℓ} {P Q : A → Type κ} (f : (a : A) → P a → Q a) (xs : List A) → All P xs → All Q xs
All-map f [] h = tt
All-map f (x ∷ xs) h = (f x h.0, All-map f xs h.1)

quote_plus-Quoted : (s : Codes) → All IsScalar s → All Quoted (quote_plus s)
unfolding quote_plus
quote_plus-Quoted s h = quote_bytes-Quoted (utf8 s) (utf8-lt s h)

encode_pair-no_and : (e : Codes × Codes) → IsPair e → All (λ c. eqb c b'&' ≡ false) (encode_pair e)
unfolding encode_pair
encode_pair-no_and e h =
    All-append _ (quote_plus e.0) (b'=' ∷ quote_plus e.1)
      (All-map (λ c q. q.0) (quote_plus e.0) (quote_plus-Quoted e.0 h.0))
      (refl, All-map (λ c q. q.0) (quote_plus e.1) (quote_plus-Quoted e.1 h.1))

parse_pair-encode_pair : (e : Codes × Codes) → IsPair e → parse_pair (encode_pair e) ≡ e
unfolding parse_pair encode_pair
parse_pair-encode_pair e h =
    ap (λ (r : Codes × Option Codes). (unquote_plus r.0, unquote_plus (on r.1 [] (λ v. v))))
      (split_once-append b'=' (quote_plus e.0) (quote_plus e.1)
        (All-map (λ c q. q.1) (quote_plus e.0) (quote_plus-Quoted e.0 h.0)))
    ∙ ap (λ n. (n, unquote_plus (quote_plus e.1))) (unquote_plus-quote_plus e.0 h.0)
    ∙ ap (λ v. (e.0, v)) (unquote_plus-quote_plus e.1 h.1)

not_nil : (s rest : Codes) (c : ℕ) → is_nil (s ++ c ∷ rest) ≡ false
unfolding is_nil
not_nil [] rest c = refl
not_nil (x ∷ s) rest c = refl

parse_parts-encode_pair :
    (es : List (Codes × Codes)) → All IsPair es → parse_parts (map encode_pair es) ≡ es
unfolding parse_parts encode_pair
parse_parts-encode_pair [] h = refl
parse_parts-encode_pair (e ∷ es) h =
    rw
      (
        not_nil (quote_plus e.0) (quote_plus e.1) b'=',
        parse_pair-encode_pair e h.0,
        parse_parts-encode_pair es h.1,
      )
      refl

no_and :
    (es : List (Codes × Codes))
    → All IsPair es
    → All (All (λ c. eqb c b'&' ≡ false)) (map encode_pair es)
no_and [] h = tt
no_and (e ∷ es) h = (encode_pair-no_and e h.0, no_and es h.1)

-- A query that was written is read back: each pair, in order, with whatever characters.
pub parse_qsl-urlencode :
    (es : List (Codes × Codes)) → All IsPair es → parse_qsl (urlencode es) ≡ es
unfolding parse_qsl urlencode
parse_qsl-urlencode [] h = unfold join_with split_first parse_parts is_nil in refl
parse_qsl-urlencode (e ∷ es) h =
    ap (λ (r : Codes × List Codes). parse_parts (r.0 ∷ r.1))
      (split_first-join_with b'&' (encode_pair e) (map encode_pair es) (no_and (e ∷ es) h))
    ∙ parse_parts-encode_pair (e ∷ es) h

-- The characters of a query that was written.
abbrev pub IsQuery : Codes → Type 0
IsQuery = All (λ c. (eqb c b'#' ≡ false) × (32 < c) × (c < 127))

join_with-All :
    (P : ℕ → Type 0) (sep : ℕ) (ps : List Codes) → P sep → All (All P) ps → All P (join_with sep ps)
unfolding join_with
join_with-All P sep [] h hs = tt
join_with-All P sep (p ∷ []) h hs = hs.0
join_with-All P sep (p ∷ q ∷ ps) h hs =
    All-append P p (sep ∷ join_with sep (q ∷ ps)) hs.0 (h, join_with-All P sep (q ∷ ps) h hs.1)

quote_plus-IsQuery : (s : Codes) → All IsScalar s → IsQuery (quote_plus s)
quote_plus-IsQuery s h = All-map (λ c q. (q.2, q.3, q.4)) (quote_plus s) (quote_plus-Quoted s h)

encode_pairs-IsQuery :
    (es : List (Codes × Codes)) → All IsPair es → All IsQuery (map encode_pair es)
unfolding encode_pair
encode_pairs-IsQuery [] h = tt
encode_pairs-IsQuery (e ∷ es) h = (
  All-append _ (quote_plus e.0) (b'=' ∷ quote_plus e.1) (quote_plus-IsQuery e.0 h.0.0)
      ((refl, omega arith, omega arith), quote_plus-IsQuery e.1 h.0.1),
  encode_pairs-IsQuery es h.1,
)

pub urlencode-IsQuery : (es : List (Codes × Codes)) → All IsPair es → IsQuery (urlencode es)
unfolding urlencode
urlencode-IsQuery es h =
    join_with-All _ b'&' (map encode_pair es) (refl, omega arith, omega arith)
      (encode_pairs-IsQuery es h)
