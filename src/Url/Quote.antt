-- ===== src/Url/Quote.antt =====
-- `quote_plus`, `urlencode`, `unquote` and `parse_qsl` of `urllib.parse`, over the code points of a
-- text.
use cycletls_python.Base.{
  ℕ, zero, suc, ◌+◌, ◌-◌, ◌*◌, ◌/◌, ◌%◌, Bool, ◌&&◌, ◌||◌, List, [], ◌∷◌, ◌++◌, Option, none, some,
  map, ltb, leb, eqb, if◌then◌else◌,
}
use cycletls_python.Exec.{on}
use cycletls_python.Values.{is_nil}
use cycletls_python.Text.Utf8.{utf8}
use cycletls_python.Url.Unicode.{Pending, idle, byte, flush}

-- A text by its code points.
abbrev pub Codes : Type 0
Codes = List ℕ

-- letters, digits and "_.-~"
unfoldable pub unreserved : ℕ → Bool
unreserved c =
    (leb 48 c && leb c 57)
    || (leb 65 c && leb c 90)
    || (leb 97 c && leb c 122)
    || eqb c 95
    || eqb c 46
    || eqb c 45
    || eqb c 126

-- a digit of "%XX"
unfoldable pub hex_digit : ℕ → ℕ
hex_digit d = if ltb d 10 then 48 + d else 55 + d

unfoldable pub quote_byte : ℕ → Codes
unfolding unreserved hex_digit
quote_byte b =
    if unreserved b
    then b ∷ []
    else if eqb b 32
    then b'+' ∷ []
    else b'%' ∷ hex_digit (b / 16) ∷ hex_digit (b % 16) ∷ []

unfoldable pub quote_bytes : List ℕ → Codes
unfolding quote_byte
quote_bytes [] = []
quote_bytes (b ∷ bs) = quote_byte b ++ quote_bytes bs

-- quote_plus(s)
unfoldable pub quote_plus : Codes → Codes
unfolding quote_bytes utf8
quote_plus s = quote_bytes (utf8 s)

-- k + "=" + v
unfoldable pub encode_pair : Codes × Codes → Codes
unfolding quote_plus
encode_pair e = quote_plus e.0 ++ b'=' ∷ quote_plus e.1

-- sep.join(parts)
unfoldable pub join_with : ℕ → List Codes → Codes
join_with sep [] = []
join_with sep (p ∷ []) = p
join_with sep (p ∷ q ∷ ps) = p ++ sep ∷ join_with sep (q ∷ ps)

-- urlencode(pairs)
unfoldable pub urlencode : List (Codes × Codes) → Codes
unfolding encode_pair join_with
urlencode pairs = join_with b'&' (map encode_pair pairs)

-- the value of a hexadecimal digit
unfoldable pub hex_value : ℕ → Option ℕ
hex_value c =
    if leb 48 c && leb c 57
    then some (c - 48)
    else if leb 65 c && leb c 70
    then some (c - 55)
    else if leb 97 c && leb c 102
    then some (c - 87)
    else none

-- the byte of two hexadecimal digits at the front
unfoldable pub hex_pair : Codes → Option ℕ
unfolding hex_value
hex_pair [] = none
hex_pair (a ∷ []) = none
hex_pair (a ∷ b ∷ cs) = on (hex_value a) none λ x. on (hex_value b) none λ y. some (16 * x + y)

-- A byte of the text that is decoded, or a character that stands for itself.
pub data Token : Type 0 where
  octet : ℕ → Token
  raw : ℕ → Token

unfoldable pub plain : ℕ → Token
plain c = if ltb c 128 then octet c else raw c

-- "%XX" at the front
unfoldable pub escape : ℕ → Codes → Option ℕ
unfolding hex_pair
escape c cs = if eqb c b'%' then hex_pair cs else none

-- the tokens of a text, after a number of characters that are used up
unfoldable pub tokens : ℕ → Codes → List Token
unfolding plain escape
tokens n [] = []
tokens (suc n) (c ∷ cs) = tokens n cs
tokens zero (c ∷ cs) = on (escape c cs) (plain c ∷ tokens 0 cs) (λ b. octet b ∷ tokens 2 cs)

-- each run of bytes decoded with errors="replace"
unfoldable pub decode_tokens : Pending → List Token → Codes
unfolding byte flush
decode_tokens p [] = flush p
decode_tokens p (octet b ∷ ts) = (byte p b).0 ++ decode_tokens (byte p b).1 ts
decode_tokens p (raw c ∷ ts) = flush p ++ c ∷ decode_tokens idle ts

-- s.replace("+", " ")
unfoldable pub plus_to_space : ℕ → ℕ
plus_to_space c = if eqb c b'+' then 32 else c

-- unquote(s.replace("+", " "))
unfoldable pub unquote_plus : Codes → Codes
unfolding tokens decode_tokens plus_to_space
unquote_plus s = decode_tokens idle (tokens 0 (map plus_to_space s))

-- the first part of s.split(sep, 1), and the second if there is one
unfoldable pub split_once : ℕ → Codes → Codes × Option Codes
split_once sep [] = ([], none)
split_once sep (c ∷ cs) =
    let rest = split_once sep cs in if eqb c sep then ([], some cs) else (c ∷ rest.0, rest.1)

-- the first part of s.split(sep), and the others
unfoldable pub split_first : ℕ → Codes → Codes × List Codes
split_first sep [] = ([], [])
split_first sep (c ∷ cs) =
    let rest = split_first sep cs in
    if eqb c sep then ([], rest.0 ∷ rest.1) else (c ∷ rest.0, rest.1)

-- one part of a query, with keep_blank_values=True
unfoldable pub parse_pair : Codes → Codes × Codes
unfolding split_once unquote_plus
parse_pair part =
    let (name, value) = split_once b'=' part in
    (unquote_plus name, unquote_plus (on value [] (λ v. v)))

-- the parts that are not empty
unfoldable pub parse_parts : List Codes → List (Codes × Codes)
unfolding parse_pair is_nil
parse_parts [] = []
parse_parts (p ∷ ps) = let rest = parse_parts ps in if is_nil p then rest else parse_pair p ∷ rest

-- parse_qsl(query, keep_blank_values=True)
unfoldable pub parse_qsl : Codes → List (Codes × Codes)
unfolding split_first parse_parts
parse_qsl query = let (first, others) = split_first b'&' query in parse_parts (first ∷ others)
